-- ===== src/Db/Inversion.antt =====
-- What a successful run of statements says of its parts.
use golink_url_shortener.Base.{◌≡◌, refl, sym, ap, ◌∙◌, Bool, true, false, List, [], ◌∷◌, arith}
use golink_url_shortener.Base.{Result, ok, err}
use golink_url_shortener.Db.Sql.{
  Tables, Db, DbError, Statement, Sql, continue, ◌>>=◌, exec, nothing, commit_result, finish,
  begin_result, transaction,
}
use golink_url_shortener.Db.Keeps.{exec-nothing-tables}

module _ {A : Type 0} where
  pub exec-ok :
      (stmt : Statement A) (db : Db) {a : A}
      → (exec stmt db).0 ≡ ok a
      → ((stmt db.tables).0 ≡ ok a) × ((exec stmt db).1.tables ≡ (stmt db.tables).1)
  unfolding exec
  exec-ok stmt db {a} h = go db.faults h
    where
      go :
          (fs : List Bool)
          → (exec stmt (record db { faults = fs })).0 ≡ ok a
          → ((stmt db.tables).0 ≡ ok a)
            × ((exec stmt (record db { faults = fs })).1.tables ≡ (stmt db.tables).1)
      go [] k = (k, refl)
      go (true ∷ fs) k = cc
      go (false ∷ fs) k = (k, refl)

  continue-ok :
      {B : Type 0} (f : A → Sql B) (r : Result DbError A × Db) {b : B}
      → (continue f r).0 ≡ ok b
      → (a : A) × (r.0 ≡ ok a) × (continue f r ≡ f a r.1)
  continue-ok f (ok a, db) h = (a, refl, refl)
  continue-ok f (err e, db) h = cc

  pub bind-ok :
      {B : Type 0} (m : Sql A) (f : A → Sql B) (db : Db) {b : B}
      → ((m >>= f) db).0 ≡ ok b
      → (a : A) × ((m db).0 ≡ ok a) × ((m >>= f) db ≡ f a (m db).1)
  bind-ok m f db h = continue-ok f (m db) h

  commit_result-ok :
      (start : Tables) (a : A) (r : Result DbError (Unit {0}) × Db) {b : A}
      → (commit_result start a r).0 ≡ ok b
      → (a ≡ b) × ((commit_result start a r).1.tables ≡ r.1.tables)
  commit_result-ok start a (ok _, db) h = (ground arith, refl)
  commit_result-ok start a (err e, db) h = cc

  finish-ok :
      (start : Tables) (r : Result DbError A × Db) {a : A}
      → (finish start r).0 ≡ ok a
      → (r.0 ≡ ok a) × ((finish start r).1.tables ≡ r.1.tables)
  unfolding finish
  finish-ok start (err e, db) h = cc
  finish-ok start (ok b, db) h =
      let (same, tables) = commit_result-ok start b (exec nothing db) h in
      (ap ok same, tables ∙ exec-nothing-tables db)

  begin_result-ok :
      (body : Sql A) (r : Result DbError (Unit {0}) × Db) {a : A}
      → (begin_result body r).0 ≡ ok a
      → ((body r.1).0 ≡ ok a) × ((begin_result body r).1.tables ≡ (body r.1).1.tables)
  unfolding begin_result
  begin_result-ok body (err e, db) h = cc
  begin_result-ok body (ok _, db) h = finish-ok db.tables (body db) h

  -- The body of a transaction that commits has run on the tables before the transaction, and left
  -- those after it.
  pub transaction-ok :
      (body : Sql A) (db : Db) {a : A}
      → (transaction body db).0 ≡ ok a
      → (db' : Db) × (db'.tables ≡ db.tables)
        × ((body db').0 ≡ ok a)
        × ((transaction body db).1.tables ≡ (body db').1.tables)
  unfolding transaction
  transaction-ok body db h =
      let (done, tables) = begin_result-ok body (exec nothing db) h in
      ((exec nothing db).1, exec-nothing-tables db, done, tables)

  -- A statement that only reads, and what follows it.
  pub read-ok :
      {B : Type 0} (r : Tables → Result DbError A) (f : A → Sql B) (db : Db) {b : B}
      → ((exec (λ t. (r t, t)) >>= f) db).0 ≡ ok b
      → (a : A) × (db' : Db) × (r db.tables ≡ ok a)
        × (db'.tables ≡ db.tables)
        × ((exec (λ t. (r t, t)) >>= f) db ≡ f a db')
        × ((f a db').0 ≡ ok b)
  read-ok {B} r f db h =
      let (a, got, rest) = bind-ok (exec (λ t. (r t, t))) f db h in
      let (value, tables) = exec-ok (λ t. (r t, t)) db got in
      (
        a,
        (exec (λ t. (r t, t)) db).1,
        value,
        tables,
        rest,
        ap (λ (q : Result DbError B × Db). q.0) (sym rest) ∙ h,
      )

-- ===== src/Db/Keeps.antt =====
-- What a predicate on the tables needs, statement by statement, to hold after a run of statements.
use golink_url_shortener.Base.{◌≡◌, refl, ◌∙◌, true, false, [], ◌∷◌}
use golink_url_shortener.Base.{Result, ok, err}
use golink_url_shortener.Db.Sql.{
  Tables, Db, DbError, Statement, Sql, ◌>>=◌, exec, nothing, finish, transaction, continue,
  commit_result, begin_result,
}

module _ (P : Tables → Type 0) where
  abbrev pub Keeps : {A : Type 0} → Sql A → Type 0
  Keeps m = (db : Db) → P db.tables → P (m db).1.tables

  pub exec-Keeps :
      {A : Type 0} (stmt : Statement A) → ((t : Tables) → P t → P (stmt t).1) → Keeps (exec stmt)
  unfolding exec
  exec-Keeps stmt keep_stmt db h =
      elim db.faults as (λ fs. P (exec stmt (record db { faults = fs })).1.tables) [
        | [] ↦ keep_stmt db.tables h
        | b ∷ fs ↦ elim b as (λ x. P (exec stmt (record db { faults = x ∷ fs })).1.tables) [
          | true ↦ h
          | false ↦ keep_stmt db.tables h
        ]
      ]

  continue-Keeps :
      {A B : Type 0} (f : A → Sql B)
      → ((a : A) → Keeps (f a))
      → (r : Result DbError A × Db) → P r.1.tables
      → P (continue f r).1.tables
  continue-Keeps f next (ok a, db) h = next a db h
  continue-Keeps f next (err e, db) h = h

  pub bind-Keeps :
      {A B : Type 0} (m : Sql A) (f : A → Sql B)
      → Keeps m
      → ((a : A) → Keeps (f a))
      → Keeps (m >>= f)
  bind-Keeps m f first next db h = continue-Keeps f next (m db) (first db h)

  exec-nothing-Keeps : Keeps (exec nothing)
  exec-nothing-Keeps = exec-Keeps nothing (λ t h. h)

  commit_result-Keeps :
      {A : Type 0} (start : Tables) (a : A) (r : Result DbError (Unit {0}) × Db)
      → P start
      → P r.1.tables
      → P (commit_result start a r).1.tables
  commit_result-Keeps start a (ok _, db) hs h = h
  commit_result-Keeps start a (err e, db) hs h = hs

  finish-Keeps :
      {A : Type 0} (start : Tables) (r : Result DbError A × Db)
      → P start
      → P r.1.tables
      → P (finish start r).1.tables
  unfolding finish
  finish-Keeps start (err e, db) hs h = hs
  finish-Keeps start (ok a, db) hs h =
      commit_result-Keeps start a (exec nothing db) hs (exec-nothing-Keeps db h)

  begin_result-Keeps :
      {A : Type 0} (body : Sql A) (r : Result DbError (Unit {0}) × Db)
      → Keeps body
      → P r.1.tables
      → P (begin_result body r).1.tables
  unfolding begin_result
  begin_result-Keeps body (ok _, db) keep_body h =
      finish-Keeps db.tables (body db) h (keep_body db h)
  begin_result-Keeps body (err e, db) keep_body h = h

  pub transaction-Keeps : {A : Type 0} (body : Sql A) → Keeps body → Keeps (transaction body)
  unfolding transaction
  transaction-Keeps body keep_body db h =
      begin_result-Keeps body (exec nothing db) keep_body (exec-nothing-Keeps db h)

pub exec-nothing-tables : (db : Db) → (exec nothing db).1.tables ≡ db.tables
exec-nothing-tables db = exec-nothing-Keeps (λ t. t ≡ db.tables) db refl

-- A transaction that fails leaves the tables as they were before it.
module _ {A : Type 0} where
  commit_result-rollback :
      (start : Tables) (a : A) (r : Result DbError (Unit {0}) × Db) {e : DbError}
      → (commit_result start a r).0 ≡ err e
      → (commit_result start a r).1.tables ≡ start
  commit_result-rollback start a (ok _, db) h = cc
  commit_result-rollback start a (err e, db) h = refl

  finish-rollback :
      (start : Tables) (r : Result DbError A × Db) {e : DbError}
      → (finish start r).0 ≡ err e
      → (finish start r).1.tables ≡ start
  unfolding finish
  finish-rollback start (err e, db) h = refl
  finish-rollback start (ok a, db) h = commit_result-rollback start a (exec nothing db) h

  begin_result-rollback :
      (body : Sql A) (r : Result DbError (Unit {0}) × Db) {e : DbError}
      → (begin_result body r).0 ≡ err e
      → (begin_result body r).1.tables ≡ r.1.tables
  unfolding begin_result
  begin_result-rollback body (ok _, db) h = finish-rollback db.tables (body db) h
  begin_result-rollback body (err e, db) h = refl

  pub transaction-rollback :
      (body : Sql A) (db : Db) {e : DbError}
      → (transaction body db).0 ≡ err e
      → (transaction body db).1.tables ≡ db.tables
  unfolding transaction
  transaction-rollback body db h =
      begin_result-rollback body (exec nothing db) h ∙ exec-nothing-tables db

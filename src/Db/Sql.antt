-- ===== src/Db/Sql.antt =====
-- The database behind internal/db, as its drivers present it: tables, statements that may fail,
-- and transactions. The schema is that of internal/db/migrations/sqlite.
use golink_url_shortener.Base.{ℕ, Bool, true, false, List, [], ◌∷◌}
use golink_url_shortener.Base.{Result, ok, err}
use golink_url_shortener.Db.Models.{Link, LinkShare, User, ApiKey}

pub data DbError : Type 0 where
  -- the program's own errors, ErrNotFound and ErrAliasLimitExceeded
  not_found alias_limit_exceeded : DbError
  -- what a driver reports: a unique index, a foreign key, no row, anything else
  unique_violation foreign_key_violation no_rows driver_error : DbError
  invalid_sort_field invalid_sort_direction : DbError

-- `next_link_id` and `next_key_id` are the AUTOINCREMENT counters, `now` is CURRENT_TIMESTAMP.
-- `foreign_keys` says whether the database enforces the references of link_shares: Postgres does,
-- and SQLite, which internal/db/open.go opens without the pragma, does not.
pub record Tables : Type 0 where
  pub links : List Link
  pub shares : List LinkShare
  pub users : List User
  pub api_keys : List ApiKey
  pub next_link_id : ℕ
  pub next_key_id : ℕ
  pub now : ℕ
  pub foreign_keys : Bool

-- `faults` says for the statements to come which of them fail; past its end none does.
pub record Db : Type 0 where
  pub tables : Tables
  pub faults : List Bool

-- What a statement does to the tables, if the driver runs it.
abbrev pub Statement : Type 0 → Type 0
Statement A = Tables → Result DbError A × Tables

abbrev pub Sql : Type 0 → Type 0
Sql A = Db → Result DbError A × Db

-- What follows a statement: the rest after a success, nothing after a failure.
abbrev pub continue : {A B : Type 0} → (A → Sql B) → Result DbError A × Db → Result DbError B × Db
continue f (ok a, db) = f a db
continue f (err e, db) = (err e, db)

infixl 5 ◌>>=◌ ◌>>◌
abbrev pub ◌>>=◌ : {A B : Type 0} → Sql A → (A → Sql B) → Sql B
◌>>=◌ m f db = continue f (m db)

abbrev pub ◌>>◌ : {B : Type 0} → Sql (Unit {0}) → Sql B → Sql B
m >> k = m >>= λ _. k

abbrev pub return : {A : Type 0} → A → Sql A
return a db = (ok a, db)

abbrev pub throw : {A : Type 0} → DbError → Sql A
throw e db = (err e, db)

-- One statement: it fails without an effect, or it runs.
unfoldable pub exec : {A : Type 0} → Statement A → Sql A
exec stmt db = elim db.faults [
  | [] ↦ ((stmt db.tables).0, record db { tables = (stmt db.tables).1 })
  | true ∷ fs ↦ (err driver_error, record db { faults = fs })
  | false ∷ fs ↦ ((stmt db.tables).0, record { tables = (stmt db.tables).1; faults = fs })
]

-- BEGIN and COMMIT: statements with no effect of their own.
abbrev pub nothing : Statement (Unit {0})
nothing t = (ok tt, t)

-- COMMIT gave a result: the transaction's own, or the deferred ROLLBACK to the tables before it.
abbrev pub commit_result :
    {A : Type 0} → Tables → A → Result DbError (Unit {0}) × Db → Result DbError A × Db
commit_result start a (ok _, db) = (ok a, db)
commit_result start a (err e, db) = (err e, record db { tables = start })

-- The end of a transaction: COMMIT after a success, ROLLBACK after a failure.
unfoldable pub finish : {A : Type 0} → Tables → Result DbError A × Db → Result DbError A × Db
finish start (ok a, db) = commit_result start a (exec nothing db)
finish start (err e, db) = (err e, record db { tables = start })

-- BEGIN gave a result: the statements of the transaction, or its failure.
unfoldable pub begin_result :
    {A : Type 0} → Sql A → Result DbError (Unit {0}) × Db → Result DbError A × Db
begin_result body (ok _, db) = finish db.tables (body db)
begin_result body (err e, db) = (err e, db)

unfoldable pub transaction : {A : Type 0} → Sql A → Sql A
transaction body db = begin_result body (exec nothing db)

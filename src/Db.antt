-- ===== src/Db.antt =====
-- internal/db: the tables, the repositories over them, the cache and the use counter.
pub mod Models
pub mod Sql
pub mod Rows
pub mod LinkRepo
pub mod Order
pub mod ByName
pub mod Search
pub mod Found
pub mod Listing
pub mod Selected
pub mod Ordered
pub mod ApiKeyRepo
pub mod UserRepo
pub mod Repo
pub mod Open
pub mod Cache
pub mod Keeps
pub mod Distinct
pub mod Invariant
pub mod Histories
pub mod Inversion
pub mod Lookups
pub mod SetAlias
pub mod AliasLimit
pub mod Coherence
pub mod CacheWrites
pub mod CacheCalls
pub mod UseCounter
pub mod UseTotals

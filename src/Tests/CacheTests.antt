-- ===== src/Tests/CacheTests.antt =====
-- The cache of internal/db/cache.go at concrete inputs.
use golink_url_shortener.Base.{
  Bool-cases, find, codes, text_eq, is_upper, lower, to_lower, text_eq-eq, ◌≡◌, refl, ap, inl, inr,
  false, Option, none, some, [], ◌∷◌, arith,
}
use golink_url_shortener.Db.Models.{Link, simple}
use golink_url_shortener.Db.Sql.{Db}
use golink_url_shortener.Db.Rows.{has_name}
use mathlib.Core.Path.{subst}
use golink_url_shortener.Db.Repo.{sql_repo}
use golink_url_shortener.Db.Cache
use golink_url_shortener.Db.Coherence.{Agrees, IsCoherent}
use golink_url_shortener.Db.Histories.{Change, update}
use golink_url_shortener.Db.CacheCalls
use golink_url_shortener.Db.CacheCalls.{apply_cached, RenamesNothing}
use golink_url_shortener.Tests.Fixtures.{docs, tables, db}
use golink_url_shortener.Tests.LruExample.{Entries, cached, lru, lru-IsCache}
use golink_url_shortener.Tests.DbTests.{tables-IsSound}

-- The cache holds `docs`.
abbrev state : Db × Entries
state = (db, (codes "docs", docs) ∷ [])

found_docs : find (has_name (codes "docs")) tables.links ≡ some docs
unfolding text_eq
found_docs = refl

state-IsCoherent : IsCoherent lru state
unfolding cached
state-IsCoherent name v h = elim (Bool-cases (text_eq (codes "docs") name)) [
  | inl same ↦
      subst (λ n. Agrees tables n v) (text_eq-eq (codes "docs") name same)
        (docs, found_docs, ap without (some_inj (rw same at h)))
  | inr other ↦ absurd (empty (rw other at h))
]
  where
    without : Link → Link
    without l = record l { last_used_at = none; use_count = 0 }

    some_inj : {a b : Link} → some a ≡ some b → b ≡ a
    some_inj e = ground arith

    empty : {a : Link} → ◌≡◌ {A = Option Link} none (some a) → ⊥
    empty e = cc

abbrev retarget : Change
retarget = update 1 (codes "Docs") (codes "https://new.example.com") simple false

retarget-RenamesNothing : RenamesNothing retarget tables
unfolding RenamesNothing to_lower lower is_upper
retarget-RenamesNothing l h = ap (λ (m : Link). m.name_lower) (some_inj h)
  where
    some_inj : {a b : Link} → some a ≡ some b → b ≡ a
    some_inj e = ground arith

apply_cached-IsCoherent_example : IsCoherent lru (apply_cached lru retarget state)
apply_cached-IsCoherent_example =
    CacheCalls.apply_cached-IsCoherent lru lru-IsCache retarget state tables-IsSound
      retarget-RenamesNothing state-IsCoherent

get_by_name-Agrees_example :
    Agrees state.0.tables (codes "docs") docs
    × IsCoherent lru (Cache.get_by_name sql_repo lru (codes "docs") state).1
unfolding Cache.get_by_name cached text_eq
get_by_name-Agrees_example =
    CacheCalls.get_by_name-Agrees lru lru-IsCache (codes "docs") state docs state-IsCoherent refl

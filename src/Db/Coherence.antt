-- ===== src/Db/Coherence.antt =====
-- The cache of internal/db/cache.go never shows a link that the tables contradict.
use golink_url_shortener.Base.{
  find, Text, ◌≡◌, refl, sym, ap, ◌∙◌, ◌≢◌, inl, inr, Option, none, some, arith,
}
use mathlib.Core.Path.{subst}
use golink_url_shortener.Base.{Result, ok, err}
use golink_url_shortener.Db.Models.{Link}
use golink_url_shortener.Db.Sql.{Tables, Db, DbError}
use golink_url_shortener.Db.Rows.{has_name}
use golink_url_shortener.Db.LinkRepo
use golink_url_shortener.Db.Repo.{sql_repo}
use golink_url_shortener.Db.Cache.{Lru, IsCache, settle, lookup_result}
use golink_url_shortener.Db.Inversion.{exec-ok}
use golink_url_shortener.Db.Keeps.{exec-Keeps}

-- A link but for its use count and the time of its last use, which UseCounter writes behind the
-- back of the cache.
abbrev pub without_uses : Link → Link
without_uses l = record l { last_used_at = none; use_count = 0 }

-- A link agrees with the tables under a name.
abbrev pub Agrees : Tables → Text → Link → Type 0
Agrees t name v =
    (w : Link) × (find (has_name name) t.links ≡ some w) × (without_uses v ≡ without_uses w)

found_or-ok : (e : DbError) (o : Option Link) {l : Link} → LinkRepo.found_or e o ≡ ok l → o ≡ some l
found_or-ok e none h = cc
found_or-ok e (some m) h = ground arith

pub read_link :
    (name : Text) (db : Db) {l : Link}
    → (LinkRepo.get_by_name name db).0 ≡ ok l
    → find (has_name name) db.tables.links ≡ some l
unfolding LinkRepo.get_by_name
read_link name db h =
    found_or-ok _ _ (exec-ok (λ t. (LinkRepo.found_or _ (find (has_name name) t.links), t)) db h).0

module _ {C : Type 0} (lru : Lru C) where
  -- Whatever the cache returns agrees with the tables.
  abbrev pub IsCoherent : Db × C → Type 0
  IsCoherent s = (name : Text) (v : Link) → (lru.get s.1 name).0 ≡ some v → Agrees s.0.tables name v

  -- Cached links agree with tables under which the name is looked up alike.
  pub same_lookup :
      (t u : Tables) (name : Text) (v : Link)
      → find (has_name name) u.links ≡ find (has_name name) t.links
      → Agrees t name v
      → Agrees u name v
  same_lookup t u name v e (w, found, same) = (w, e ∙ found, same)

  pub settle-IsCoherent :
      {A : Type 0} (f : A → C → C) (c : C) (r : Result DbError A × Db)
      → ((a : A) → r.0 ≡ ok a → IsCoherent (r.1, f a c))
      → ((e : DbError) → r.0 ≡ err e → IsCoherent (r.1, c))
      → IsCoherent (settle f c r).1
  settle-IsCoherent f c (ok a, db) good bad = good a refl
  settle-IsCoherent f c (err e, db) good bad = bad e refl

  pub unchanged-IsCoherent :
      (db db' : Db) (c : C) → db'.tables ≡ db.tables → IsCoherent (db, c) → IsCoherent (db', c)
  unchanged-IsCoherent db db' c e h name v got = subst (λ t. Agrees t name v) (sym e) (h name v got)

  module _ (cache : IsCache lru) where
    pub purged-IsCoherent : (db : Db) (c : C) → IsCoherent (db, lru.purge c)
    purged-IsCoherent db c name v got = absurd (ground (arith, cache.get-purge c name))

    -- An entry is added that agrees with the tables, which have changed under no other name.
    pub added-IsCoherent :
        (db db' : Db) (c : C) (name : Text) (l : Link)
        → find (has_name name) db'.tables.links ≡ some l
        → ((k : Text)
            → k ≢ name
            → find (has_name k) db'.tables.links ≡ find (has_name k) db.tables.links)
        → IsCoherent (db, c)
        → IsCoherent (db', lru.add c name l)
    added-IsCoherent db db' c name l found other h k v got = elim (cache.get-add c name k l v got) [
      | inl (same, new) ↦ (l, rw same found, rw new refl)
      | inr (differs, old) ↦ same_lookup db.tables db'.tables k v (other k differs) (h k v old)
    ]

    -- An entry is removed, and the tables have changed under no other name.
    pub removed-IsCoherent :
        (db db' : Db) (c : C) (name : Text)
        → ((k : Text)
            → k ≢ name
            → find (has_name k) db'.tables.links ≡ find (has_name k) db.tables.links)
        → IsCoherent (db, c)
        → IsCoherent (db', lru.remove c name)
    removed-IsCoherent db db' c name other h k v got =
        let (differs, old) = cache.get-remove c name k v got in
        same_lookup db.tables db'.tables k v (other k differs) (h k v old)

    read_keeps : (name : Text) (db : Db) → (LinkRepo.get_by_name name db).1.tables ≡ db.tables
    unfolding LinkRepo.get_by_name
    read_keeps name db = exec-Keeps (λ t. t ≡ db.tables) _ (λ t h. h) db refl

    pub lookup_result-IsCoherent :
        (name : Text) (db : Db) (r : Option Link × C)
        → ((k : Text) (v : Link) → (lru.get r.1 k).0 ≡ some v → Agrees db.tables k v)
        → IsCoherent (lookup_result sql_repo lru name db r).1
    lookup_result-IsCoherent name db (some v, c) h = h
    lookup_result-IsCoherent name db (none, c) h =
        let db' = (LinkRepo.get_by_name name db).1 in
        let same = ap (λ (t : Tables). t.links) (read_keeps name db) in
        settle-IsCoherent (λ link c'. lru.add c' name link) c (LinkRepo.get_by_name name db)
          (λ l got.
            added-IsCoherent db db' c name l
              (ap (find (has_name name)) same ∙ read_link name db got)
              (λ k _. ap (find (has_name k)) same) h)
          (λ e _. unchanged-IsCoherent db db' c (read_keeps name db) h)

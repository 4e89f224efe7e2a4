-- ===== src/Db/CacheCalls.antt =====
-- The cache of internal/db/cache.go stays coherent with the tables through every call.
use golink_url_shortener.Base.{
  Bool-cases, any, find, Text, to_lower, ℕ, ◌≡◌, refl, sym, ap, ◌∙◌, inl, inr, Bool, not, ◌||◌,
  Option, none, some, arith,
}
use mathlib.Core.Path.{subst}
use golink_url_shortener.Base.{Result, ok, err}
use golink_url_shortener.Db.Models.{Link, LinkType}
use golink_url_shortener.Db.Sql.{not_found, Tables, Db, DbError, Statement, exec}
use golink_url_shortener.Db.Rows.{has_id, has_name}
use golink_url_shortener.Db.LinkRepo
use golink_url_shortener.Db.Repo.{sql_repo}
use golink_url_shortener.Db.Cache.{Lru, IsCache, settle, lookup_result}
use golink_url_shortener.Db.Cache
use golink_url_shortener.Db.Invariant.{IsSound}
use golink_url_shortener.Db.Inversion.{exec-ok}
use golink_url_shortener.Db.Keeps.{exec-Keeps}
use golink_url_shortener.Db.SetAlias.{set_alias_atomic}
use golink_url_shortener.Db.Lookups.{
  IsAtomic, exec-err, insert_link-IsAtomic, rename_link-IsAtomic, delete_link-IsAtomic,
  change_owner-IsAtomic,
}
use golink_url_shortener.Db.Coherence.{
  Agrees, IsCoherent, settle-IsCoherent, unchanged-IsCoherent, purged-IsCoherent, added-IsCoherent,
  removed-IsCoherent, lookup_result-IsCoherent, read_link,
}
use golink_url_shortener.Db.CacheWrites.{
  insert_link-lookup, rename_link-lookup, change_owner-lookup, find-update_where_uses,
}
use golink_url_shortener.Db.Histories.{
  Change, create, update, set_alias, delete, add_share, remove_share, increment_use_count,
  reassign_links, transfer_ownership,
}

-- The calls of the caching repository that change the tables, one for each of LinkRepo.
unfoldable pub apply_cached : {C : Type 0} → Lru C → Change → Db × C → Db × C
apply_cached lru (create name target owner link_type alias_target auth) s =
    (Cache.create sql_repo lru name target owner link_type alias_target auth s).1
apply_cached lru (update id name target link_type auth) s =
    (Cache.update sql_repo lru id name target link_type auth s).1
apply_cached lru (set_alias id name target auth max) s =
    (Cache.set_alias sql_repo lru id name target auth max s).1
apply_cached lru (delete id) s = (Cache.delete sql_repo lru id s).1
apply_cached lru (add_share id email) s = (Cache.delegate (sql_repo.add_share id email) s).1
apply_cached lru (remove_share id email) s = (Cache.delegate (sql_repo.remove_share id email) s).1
apply_cached lru (increment_use_count id) s = (Cache.delegate (sql_repo.increment_use_count id) s).1
apply_cached lru (reassign_links from to) s = (Cache.reassign_links sql_repo lru from to s).1
apply_cached lru (transfer_ownership id email) s =
    (Cache.transfer_ownership sql_repo lru id email s).1

-- The callers of Update pass the name that the link has, perhaps in another case.
unfoldable pub RenamesNothing : Change → Tables → Type 0
RenamesNothing (update id name target link_type auth) t =
    (l : Link) → find (has_id id) t.links ≡ some l → l.name_lower ≡ to_lower name
RenamesNothing _ t = Unit

module _ {C : Type 0} (lru : Lru C) (cache : IsCache lru) where
  get_by_name-IsCoherent :
      (name : Text) (s : Db × C)
      → IsCoherent lru s
      → IsCoherent lru (Cache.get_by_name sql_repo lru name s).1
  unfolding Cache.get_by_name
  get_by_name-IsCoherent name (db, c) h =
      lookup_result-IsCoherent lru cache name db (lru.get c name)
        (λ k v got. h k v (cache.get-after_get c name k v got))

  settle-ok :
      {A : Type 0} (f : A → C → C) (c : C) (r : Result DbError A × Db) {a : A}
      → (settle f c r).0 ≡ ok a
      → r.0 ≡ ok a
  settle-ok f c (ok a, db) h = h
  settle-ok f c (err e, db) h = h

  -- One statement of a call, and what the cache does after its success.
  statement-IsCoherent :
      {A : Type 0} (f : A → C → C) (stmt : Statement A) (db : Db) (c : C)
      → IsAtomic stmt
      → IsCoherent lru (db, c)
      → ((a : A) (db' : Db)
          → (stmt db.tables).0 ≡ ok a
          → db'.tables ≡ (stmt db.tables).1
          → IsCoherent lru (db', f a c))
      → IsCoherent lru (settle f c (exec stmt db)).1
  statement-IsCoherent f stmt db c atomic h good =
      settle-IsCoherent lru f c (exec stmt db)
        (λ a got. let (value, tables) = exec-ok stmt db got in good a (exec stmt db).1 value tables)
        (λ e bad. unchanged-IsCoherent lru db (exec stmt db).1 c (exec-err stmt db e atomic bad) h)

  create-IsCoherent :
      (name target owner : Text) (link_type : LinkType) (alias_target : Text) (auth : Bool)
      (s : Db × C)
      → IsCoherent lru s
      → IsCoherent lru (Cache.create sql_repo lru name target owner link_type alias_target auth s).1
  unfolding Cache.create LinkRepo.create
  create-IsCoherent name target owner link_type alias_target auth (db, c) h =
      statement-IsCoherent (λ link c'. lru.add c' link.name_lower link) _ db c
        (insert_link-IsAtomic name target owner link_type alias_target auth) h
        (λ l db' value tables.
          let (found, other) =
            insert_link-lookup name target owner link_type alias_target auth db.tables l value in
          let same = ap (λ (t : Tables). t.links) tables in
          added-IsCoherent lru cache db db' c l.name_lower l
            (ap (find (has_name l.name_lower)) same ∙ found)
            (λ k differs. ap (find (has_name k)) same ∙ other k differs) h)

  update-IsCoherent :
      (id : ℕ) (name target : Text) (link_type : LinkType) (auth : Bool) (s : Db × C)
      → IsSound s.0.tables
      → RenamesNothing (update id name target link_type auth) s.0.tables
      → IsCoherent lru s
      → IsCoherent lru (Cache.update sql_repo lru id name target link_type auth s).1
  unfolding Cache.update LinkRepo.update LinkRepo.updated_link RenamesNothing
  update-IsCoherent id name target link_type auth (db, c) sound keeps h =
      let f = LinkRepo.updated_link name target link_type auth in
      statement-IsCoherent (λ link c'. lru.remove c' link.name_lower) _ db c
        (rename_link-IsAtomic not_found id (to_lower name) f) h
        (λ l db' value tables.
          let (named, other) =
            rename_link-lookup not_found id (to_lower name) f db.tables l sound keeps (λ m. refl)
              value in
          let same = ap (λ (t : Tables). t.links) tables in
          removed-IsCoherent lru cache db db' c l.name_lower
            (λ k differs. ap (find (has_name k)) same ∙ other k (λ e. differs (e ∙ sym named))) h)

  transfer-IsCoherent :
      (id : ℕ) (email : Text) (s : Db × C)
      → IsSound s.0.tables
      → IsCoherent lru s
      → IsCoherent lru (Cache.transfer_ownership sql_repo lru id email s).1
  unfolding Cache.transfer_ownership LinkRepo.transfer_ownership
  transfer-IsCoherent id email (db, c) sound h =
      statement-IsCoherent (λ link c'. lru.remove c' link.name_lower) _ db c
        (change_owner-IsAtomic id email) h
        (λ l db' value tables.
          let same = ap (λ (t : Tables). t.links) tables in
          removed-IsCoherent lru cache db db' c l.name_lower
            (λ k differs.
              ap (find (has_name k)) same
              ∙ change_owner-lookup id email db.tables l sound.ids value k differs)
            h)

  delete-IsCoherent :
      (id : ℕ) (s : Db × C) → IsCoherent lru s → IsCoherent lru (Cache.delete sql_repo lru id s).1
  unfolding Cache.delete LinkRepo.delete
  delete-IsCoherent id (db, c) h =
      statement-IsCoherent (λ _ c'. lru.purge c') _ db c (delete_link-IsAtomic id) h
        (λ a db' value tables. purged-IsCoherent lru cache db' c)

  set_alias-IsCoherent :
      (id : ℕ) (name target : Text) (auth : Bool) (max : ℕ) (s : Db × C)
      → IsCoherent lru s
      → IsCoherent lru (Cache.set_alias sql_repo lru id name target auth max s).1
  unfolding Cache.set_alias
  set_alias-IsCoherent id name target auth max (db, c) h =
      let r = LinkRepo.set_alias id name target auth max db in
      settle-IsCoherent lru (λ _ c'. lru.purge c') c r (λ a _. purged-IsCoherent lru cache r.1 c)
        (λ e bad.
          unchanged-IsCoherent lru db r.1 c (set_alias_atomic id name target auth max db e bad) h)

  reassign-IsCoherent :
      (from to : Text) (s : Db × C)
      → IsCoherent lru s
      → IsCoherent lru (Cache.reassign_links sql_repo lru from to s).1
  unfolding Cache.reassign_links LinkRepo.reassign_links
  reassign-IsCoherent from to (db, c) h =
      statement-IsCoherent (λ _ c'. lru.purge c') _ db c (λ t e bad. absurd (ground arith)) h
        (λ a db' value tables. purged-IsCoherent lru cache db' c)

  -- A call that the cache does not see, and that changes only the uses of links.
  uses-IsCoherent :
      (id : ℕ) (s : Db × C)
      → IsCoherent lru s
      → IsCoherent lru (Cache.delegate (LinkRepo.increment_use_count id) s).1
  unfolding LinkRepo.increment_use_count LinkRepo.add_uses
  uses-IsCoherent id (db, c) h =
      statement-IsCoherent (λ _ c'. c') _ db c (λ t e bad. absurd (ground arith)) h
        (λ a db' value tables name v got.
          let (w, found, same) = h name v got in
          let (w', found', same') =
            find-update_where_uses (has_id id) _ name db.tables.links w (λ l. refl) (λ l. refl)
              found in
          (w', ap (λ (t : Tables). find (has_name name) t.links) tables ∙ found', same ∙ sym same'))

  links_same :
      (stmt : Statement (Unit {0})) (db : Db)
      → ((t : Tables) → (stmt t).1.links ≡ t.links)
      → (exec stmt db).1.tables.links ≡ db.tables.links
  links_same stmt db alone =
      exec-Keeps (λ t. t.links ≡ db.tables.links) stmt (λ t h. alone t ∙ h) db refl

  -- A call on shares leaves the links alone.
  shares-IsCoherent :
      (stmt : Statement (Unit {0})) (s : Db × C)
      → ((t : Tables) → (stmt t).1.links ≡ t.links)
      → IsCoherent lru s
      → IsCoherent lru (Cache.delegate (exec stmt) s).1
  shares-IsCoherent stmt (db, c) alone h =
      settle-IsCoherent lru (λ _ c'. c') c (exec stmt db) (λ a _. same) (λ e _. same)
    where
      same : IsCoherent lru ((exec stmt db).1, c)
      same name v got =
          let (w, found, e) = h name v got in
          (w, ap (find (has_name name)) (links_same stmt db alone) ∙ found, e)

  insert_share-links :
      (id : ℕ) (email : Text) (t : Tables) → (LinkRepo.insert_share id email t).1.links ≡ t.links
  unfolding LinkRepo.insert_share
  insert_share-links id email t = elim (Bool-cases (any (LinkRepo.is_share id email) t.shares)) [
    | inl there ↦ rw there refl
    | inr new ↦ elim (Bool-cases (not t.foreign_keys || any (has_id id) t.links)) [
      | inl allowed ↦ rw (new, allowed) refl
      | inr refused ↦ rw (new, refused) refl
    ]
  ]

  -- While the tables are well formed and no update renames a link, whatever the cache returns
  -- stays equal, but for its uses, to the link that the tables hold under that name, through every
  -- call that changes the tables, whether its statements fail or not.
  pub apply_cached-IsCoherent :
      (call : Change) (s : Db × C)
      → IsSound s.0.tables
      → RenamesNothing call s.0.tables
      → IsCoherent lru s
      → IsCoherent lru (apply_cached lru call s)
  unfolding apply_cached LinkRepo.add_share LinkRepo.remove_share
  apply_cached-IsCoherent (create name target owner link_type alias_target auth) s sound keeps =
      create-IsCoherent name target owner link_type alias_target auth s
  apply_cached-IsCoherent (update id name target link_type auth) s sound keeps =
      update-IsCoherent id name target link_type auth s sound keeps
  apply_cached-IsCoherent (set_alias id name target auth max) s sound keeps =
      set_alias-IsCoherent id name target auth max s
  apply_cached-IsCoherent (delete id) s sound keeps = delete-IsCoherent id s
  apply_cached-IsCoherent (add_share id email) s sound keeps =
      shares-IsCoherent (LinkRepo.insert_share id email) s (insert_share-links id email)
  apply_cached-IsCoherent (remove_share id email) s sound keeps = shares-IsCoherent _ s (λ t. refl)
  apply_cached-IsCoherent (increment_use_count id) s sound keeps = uses-IsCoherent id s
  apply_cached-IsCoherent (reassign_links from to) s sound keeps = reassign-IsCoherent from to s
  apply_cached-IsCoherent (transfer_ownership id email) s sound keeps =
      transfer-IsCoherent id email s sound

  -- From a coherent cache, GetByName returns no link that the tables contradict, hit or miss, and
  -- leaves the cache coherent: only the uses it shows may be old.
  pub get_by_name-Agrees :
      (name : Text) (s : Db × C) (l : Link)
      → IsCoherent lru s
      → (Cache.get_by_name sql_repo lru name s).0 ≡ ok l
      → Agrees s.0.tables name l × IsCoherent lru (Cache.get_by_name sql_repo lru name s).1
  unfolding Cache.get_by_name
  get_by_name-Agrees name (db, c) l h got =
      (agrees (lru.get c name) refl got, get_by_name-IsCoherent name (db, c) h)
    where
      ok_inj : {a b : Link} → ◌≡◌ {A = Result DbError Link} (ok a) (ok b) → a ≡ b
      ok_inj q = ground arith

      agrees :
          (r : Option Link × C)
          → r ≡ lru.get c name
          → (lookup_result sql_repo lru name db r).0 ≡ ok l
          → Agrees db.tables name l
      agrees (some v, c') e q =
          subst (Agrees db.tables name) (ok_inj q)
            (h name v (ap (λ (z : Option Link × C). z.0) (sym e)))
      agrees (none, c') e q = (
        l,
        read_link name db
            (settle-ok (λ link d. lru.add d name link) c' (LinkRepo.get_by_name name db) q),
        refl,
      )

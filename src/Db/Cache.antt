-- ===== src/Db/Cache.antt =====
-- CachingLinkRepo of internal/db/cache.go. The package golang-lru/expirable is the parameter `Lru`.
use golink_url_shortener.Base.{Text, ℕ, ◌≡◌, ◌≢◌, ◌⊎◌, Bool, Option, none, some}
use golink_url_shortener.Base.{Result, ok, err}
use golink_url_shortener.Db.Models.{Link, LinkType}
use golink_url_shortener.Db.Sql.{DbError}
use golink_url_shortener.Db.Repo.{Repo, Call}

-- The methods of expirable.LRU that the program calls, and the passing of time, which may drop
-- entries.
pub record Lru (C : Type 0) : Type 0 where
  pub get : C → Text → Option Link × C
  pub add : C → Text → Link → C
  pub remove : C → Text → C
  pub purge : C → C
  pub elapse : ℕ → C → C

-- What its documentation says of them: Get finds only what was added for the key, and not removed,
-- purged or replaced since.
pub record IsCache {C : Type 0} (lru : Lru C) : Type 0 where
  pub get-after_get :
      (c : C) (j k : Text) (v : Link)
      → (lru.get (lru.get c j).1 k).0 ≡ some v
      → (lru.get c k).0 ≡ some v
  pub get-add :
      (c : C) (j k : Text) (w v : Link)
      → (lru.get (lru.add c j w) k).0 ≡ some v
      → ((k ≡ j) × (v ≡ w)) ⊎ ((k ≢ j) × ((lru.get c k).0 ≡ some v))
  pub get-remove :
      (c : C) (j k : Text) (v : Link)
      → (lru.get (lru.remove c j) k).0 ≡ some v
      → (k ≢ j) × ((lru.get c k).0 ≡ some v)
  pub get-purge : (c : C) (k : Text) → (lru.get (lru.purge c) k).0 ≡ none
  pub get-elapse :
      (c : C) (n : ℕ) (k : Text) (v : Link)
      → (lru.get (lru.elapse n c) k).0 ≡ some v
      → (lru.get c k).0 ≡ some v

-- The cache is changed after a success of the inner repository, and left alone after a failure.
abbrev pub settle :
    {S C A : Type 0} → (A → C → C) → C → Result DbError A × S → Result DbError A × (S × C)
settle f c (ok a, s) = (ok a, (s, f a c))
settle f c (err e, s) = (err e, (s, c))

-- An operation that is handed to the inner repository, without caching.
abbrev pub delegate : {S C A : Type 0} → Call S A → Call (S × C) A
delegate op (s, c) = settle (λ a c'. c') c (op s)

module _ {S C : Type 0} (inner : Repo S) (lru : Lru C) where
  -- A hit is returned; after a miss the inner repository is asked, and its link is cached.
  abbrev pub lookup_result : Text → S → Option Link × C → Result DbError Link × (S × C)
  lookup_result name s (some v, c) = (ok v, (s, c))
  lookup_result name s (none, c) =
      settle (λ link c'. lru.add c' name link) c (inner.get_by_name name s)

  unfoldable pub get_by_name : Text → Call (S × C) Link
  get_by_name name (s, c) = lookup_result name s (lru.get c name)

  unfoldable pub create : Text → Text → Text → LinkType → Text → Bool → Call (S × C) Link
  create name target owner link_type alias_target auth (s, c) =
      settle (λ link c'. lru.add c' link.name_lower link) c
        (inner.create name target owner link_type alias_target auth s)

  unfoldable pub update : ℕ → Text → Text → LinkType → Bool → Call (S × C) Link
  update id name target link_type auth (s, c) =
      settle (λ link c'. lru.remove c' link.name_lower) c
        (inner.update id name target link_type auth s)

  unfoldable pub set_alias : ℕ → Text → Text → Bool → ℕ → Call (S × C) Link
  set_alias id name target auth max (s, c) =
      settle (λ _ c'. lru.purge c') c (inner.set_alias id name target auth max s)

  unfoldable pub delete : ℕ → Call (S × C) (Unit {0})
  delete id (s, c) = settle (λ _ c'. lru.purge c') c (inner.delete id s)

  unfoldable pub transfer_ownership : ℕ → Text → Call (S × C) Link
  transfer_ownership id owner (s, c) =
      settle (λ link c'. lru.remove c' link.name_lower) c (inner.transfer_ownership id owner s)

  unfoldable pub reassign_links : Text → Text → Call (S × C) ℕ
  reassign_links from to (s, c) = settle (λ _ c'. lru.purge c') c (inner.reassign_links from to s)

  unfoldable pub caching_repo : Repo (S × C)
  caching_repo = record {
    create = create;
    get_by_name = get_by_name;
    update = update;
    set_alias = set_alias;
    delete = delete;
    list_links = λ limit offset field dir public_only.
        delegate (inner.list_links limit offset field dir public_only);
    list_by_owner =
        λ owner limit offset field dir. delegate (inner.list_by_owner owner limit offset field dir);
    search_links = λ query limit offset field dir public_only.
        delegate (inner.search_links query limit offset field dir public_only);
    search_owned_or_shared_with = λ owner ids query limit offset field dir.
        delegate (inner.search_owned_or_shared_with owner ids query limit offset field dir);
    get_shares = λ id. delegate (inner.get_shares id);
    add_share = λ id email. delegate (inner.add_share id email);
    remove_share = λ id email. delegate (inner.remove_share id email);
    shared_link_ids = λ ids. delegate (inner.shared_link_ids ids);
    list_owned_or_shared_with = λ owner ids limit offset field dir.
        delegate (inner.list_owned_or_shared_with owner ids limit offset field dir);
    increment_use_count = λ id. delegate (inner.increment_use_count id);
    get_aliases = λ name. delegate (inner.get_aliases name);
    count_aliases = λ name. delegate (inner.count_aliases name);
    reassign_links = reassign_links;
    transfer_ownership = transfer_ownership;
  }

-- ===== src/Db/ApiKeyRepo.antt =====
-- SQLAPIKeyRepo of internal/db/apikey_repo.go.
use golink_url_shortener.Base.{
  ltb, ◌==◌, if◌then◌else◌, Bool-cases, any, find, keep, Text, text_eq, text_eq_refl, ℕ, ◌+◌, ◌≡◌,
  sym, ap, inl, inr, Bool, not, Option, none, some, List, [], ◌∷◌, arith,
}
use golink_url_shortener.Base.{Result, ok, err}
use golink_url_shortener.Db.Models.{ApiKey}
use golink_url_shortener.Db.Sql.{DbError, not_found, unique_violation, Tables, Statement, Sql, exec}

abbrev pub has_hash : Text → ApiKey → Bool
has_hash hash k = text_eq k.key_hash hash

abbrev pub has_key_id : ℕ → ApiKey → Bool
has_key_id id k = k.id == id

-- INSERT INTO api_keys ... RETURNING; the hash is unique.
unfoldable pub insert_key : Text → Text → Text → Bool → Statement ApiKey
insert_key name key_hash created_by read_only t =
    let row : ApiKey = record {
      id = t.next_key_id;
      name = name;
      key_hash = key_hash;
      created_by = created_by;
      created_at = t.now;
      last_used_at = none;
      read_only = read_only;
    } in
    if any (has_hash key_hash) t.api_keys
    then (err unique_violation, t)
    else (ok row, record t { api_keys = row ∷ t.api_keys; next_key_id = t.next_key_id + 1 })

unfoldable pub create : Text → Text → Text → Bool → Sql ApiKey
create name key_hash created_by read_only = exec (insert_key name key_hash created_by read_only)

abbrev pub key_or : DbError → Option ApiKey → Result DbError ApiKey
key_or e none = err e
key_or e (some k) = ok k

unfoldable pub get_by_hash : Text → Sql ApiKey
get_by_hash hash = exec (λ t. (key_or not_found (find (has_hash hash) t.api_keys), t))

-- ORDER BY created_at DESC
unfoldable pub place_key : ApiKey → List ApiKey → List ApiKey
place_key k [] = k ∷ []
place_key k (j ∷ js) =
    let rest = place_key k js in if ltb k.created_at j.created_at then j ∷ rest else k ∷ j ∷ js

unfoldable pub newest_first : List ApiKey → List ApiKey
newest_first [] = []
newest_first (k ∷ ks) = place_key k (newest_first ks)

unfoldable pub list_keys : Sql (List ApiKey)
list_keys = exec (λ t. (ok (newest_first t.api_keys), t))

unfoldable pub delete_key : ℕ → Statement (Unit {0})
delete_key id t =
    if any (has_key_id id) t.api_keys
    then (ok tt, record t { api_keys = keep (λ k. not (has_key_id id k)) t.api_keys })
    else (err not_found, t)

unfoldable pub delete : ℕ → Sql (Unit {0})
delete id = exec (delete_key id)

unfoldable pub touch_keys : ℕ → ℕ → List ApiKey → List ApiKey
touch_keys id now [] = []
touch_keys id now (k ∷ ks) =
    (if has_key_id id k then record k { last_used_at = some now } else k) ∷ touch_keys id now ks

unfoldable pub update_last_used : ℕ → Sql (Unit {0})
update_last_used id = exec (λ t. (ok tt, record t { api_keys = touch_keys id t.now t.api_keys }))

-- A key that is stored is found by its hash, and only by that.
pub insert_key-stored :
    (name hash by : Text) (read_only : Bool) (t : Tables) (k : ApiKey)
    → (insert_key name hash by read_only t).0 ≡ ok k
    → (find (has_hash hash) (insert_key name hash by read_only t).1.api_keys ≡ some k)
      × (k.name ≡ name)
      × (k.read_only ≡ read_only)
unfolding insert_key
insert_key-stored name hash by read_only t k h =
    elim (Bool-cases (any (has_hash hash) t.api_keys)) [
      | inl taken ↦ absurd (ground arith)
      | inr free ↦
          let same = row_eq (rw free at h) in
          (
            rw free (ground (arith, text_eq_refl hash, same)),
            ap (λ (j : ApiKey). j.name) (sym same),
            ap (λ (j : ApiKey). j.read_only) (sym same),
          )
    ]
  where
    row_eq : {a : ApiKey} → ◌≡◌ {A = Result DbError ApiKey} (ok a) (ok k) → a ≡ k
    row_eq e = ground arith

-- ===== src/Server/ApiKeys.antt =====
-- The handlers for API keys in internal/server/api.go, and the authentication with a key of apikey.go
-- over the repository. crypto/sha256 is the parameter `hash`.
use golink_url_shortener.Base.{
  find, Text, codes, is_empty, trim_space, ℕ, ◌≡◌, refl, sym, ap, ◌∙◌, Bool, true, false, Option,
  none, some, List, [], ◌∷◌, ◌++◌, map, arith,
}
use golink_url_shortener.Base.{Result, ok, err}
use golink_url_shortener.Db.Models.{ApiKey}
use golink_url_shortener.Db.Sql.{Db, DbError, not_found, Tables, Statement, exec}
use golink_url_shortener.Db.ApiKeyRepo
use golink_url_shortener.Db.ApiKeyRepo.{has_hash, key_or, insert_key, insert_key-stored}
use golink_url_shortener.Db.Inversion.{exec-ok}
use golink_url_shortener.Server.Handler.{
  Identity, ApiKeyResponse, message, Response, json, failure, no_content, key_body, keys_body,
  Handler, ◌>>=◌, ◌>>◌, then_result, called, return, reply, reply_if, call, on_not_found,
  internal_error, Request, decode_json_body,
}
use golink_url_shortener.Server.Middleware.{extract_api_key, api_key_identity, api_key_middleware}

pub record CreateKeyRequest : Type 0 where
  pub name : Text
  pub read_only : Option Bool

unfoldable pub api_key_to_response : ApiKey → ApiKeyResponse
api_key_to_response k = record {
  id = k.id;
  name = k.name;
  created_by = k.created_by;
  created_at = k.created_at;
  last_used = k.last_used_at;
  read_only = k.read_only;
}

-- Read-only unless the request says otherwise.
abbrev pub scope_of : Option Bool → Bool
scope_of none = true
scope_of (some b) = b

abbrev pub generated : Option Text → Handler Db Text
generated none = reply internal_error
generated (some raw) = return raw

unfoldable pub handle_api_list_api_keys : Handler Db (Unit {0})
handle_api_list_api_keys = do
  keys ← call ApiKeyRepo.list_keys (λ e. internal_error)
  reply (json 200 (keys_body (map api_key_to_response keys)))

-- strconv.ParseInt gives `none` for an error; a number below 0 is the id of no key.
unfoldable pub handle_api_delete_api_key : Option ℕ → Handler Db (Unit {0})
handle_api_delete_api_key none = reply (failure 400 (message (codes "invalid id")))
handle_api_delete_api_key (some id) = do
  call (ApiKeyRepo.delete id)
      (on_not_found (failure 404 (message (codes "api key not found"))) internal_error)
  reply no_content

module _ (hash : Text → Text) where
  unfoldable pub store_key : Text → Identity → CreateKeyRequest → Handler Db (Unit {0})
  store_key raw id req = do
    key ←
        call (ApiKeyRepo.create (trim_space req.name) (hash raw) id.email (scope_of req.read_only))
          (λ e. internal_error)
    reply (json 201 (key_body (api_key_to_response key) raw))

  -- `fresh` is what generateAPIKey yields.
  unfoldable pub handle_api_create_api_key :
      Option Text → Identity → Request CreateKeyRequest → Handler Db (Unit {0})
  handle_api_create_api_key fresh id body = do
    req ← decode_json_body body
    reply_if (is_empty (trim_space req.name)) (failure 400 (message (codes "name is required")))
    raw ← generated fresh
    store_key raw id req

  abbrev pub found_key : Result DbError ApiKey → Option ApiKey
  found_key (ok k) = some k
  found_key (err e) = none

  -- The identity that APIKeyMiddleware gives to a request with the two headers.
  unfoldable pub authenticate : Db → Text → Text → Option Identity → Option Identity
  authenticate db x_api_key authorization id =
      api_key_middleware (λ raw. found_key (ApiKeyRepo.get_by_hash (hash raw) db).0) x_api_key
        authorization id

  get_by_hash-calm :
      (h : Text) (db : Db)
      → db.faults ≡ []
      → (ApiKeyRepo.get_by_hash h db).0 ≡ key_or not_found (find (has_hash h) db.tables.api_keys)
  unfolding ApiKeyRepo.get_by_hash exec
  get_by_hash-calm h db calm = go db.faults calm
    where
      go :
          (fs : List Bool)
          → fs ≡ []
          → (ApiKeyRepo.get_by_hash h (record db { faults = fs })).0
            ≡ key_or not_found (find (has_hash h) db.tables.api_keys)
      go [] e = refl
      go (f ∷ fs) e = absurd (ground arith)

  authenticate-found :
      (db : Db) (raw authorization : Text) (k : ApiKey)
      → is_empty raw ≡ false
      → db.faults ≡ []
      → find (has_hash (hash raw)) db.tables.api_keys ≡ some k
      → authenticate db raw authorization none ≡ some (api_key_identity k)
  unfolding authenticate api_key_middleware extract_api_key
  authenticate-found db raw authorization k some_raw calm found =
      rw (some_raw, some_raw, get_by_hash-calm (hash raw) db calm, found) refl

  -- The identity that a request with a key is to have.
  abbrev pub as_key : CreateKeyRequest → Identity
  as_key req = record {
    email = codes "apikey:" ++ trim_space req.name;
    display_name = trim_space req.name;
    avatar_url = [];
    groups = [];
    is_admin = true;
    source = [];
    api_key_read_only = elim req.read_only [ none ↦ true | some asked ↦ asked ];
  }

  key-as_key :
      (k : ApiKey) (req : CreateKeyRequest)
      → k.name ≡ trim_space req.name
      → k.read_only ≡ scope_of req.read_only
      → api_key_identity k ≡ as_key req
  unfolding api_key_identity
  key-as_key k req name scope = rw (name, scope) (scoped req.read_only)
    where
      scoped :
          (o : Option Bool)
          → ◌≡◌ {A = Identity}
              (record (as_key req) { api_key_read_only = scope_of o })
              (record (as_key req) {
                api_key_read_only = elim o [ none ↦ true | some asked ↦ asked ];
              })
      scoped none = refl
      scoped (some b) = refl

  -- A key that has been created works: a request that carries its raw text in X-API-Key is answered as
  -- an admin under the name of the key, with the scope that was asked for, read-only where the request
  -- asks for none, if the lookup does not fail. The response shows the raw text.
  pub store_key-authenticate :
      (raw : Text) (id : Identity) (req : CreateKeyRequest) (db : Db) (response : ApiKeyResponse)
      (shown authorization : Text)
      → is_empty raw ≡ false
      → (store_key raw id req db).0 ≡ err (json 201 (key_body response shown))
      → (store_key raw id req db).1.faults ≡ []
      → (authenticate (store_key raw id req db).1 raw authorization none ≡ some (as_key req))
        × (shown ≡ raw)
  unfolding store_key ApiKeyRepo.create
  store_key-authenticate raw id req db response shown authorization some_raw h calm =
      go (exec stmt db) refl h
    where
      stmt : Statement ApiKey
      stmt = insert_key (trim_space req.name) (hash raw) id.email (scope_of req.read_only)

      shown_text : Result Response (Unit {0}) → Text
      shown_text (err (json status (key_body answer text))) = text
      shown_text _ = []

      answered : Result DbError ApiKey × Db → Result Response (Unit {0}) × Db
      answered r =
          then_result (λ key. reply (json 201 (key_body (api_key_to_response key) raw)))
            (called (λ e. internal_error) r)

      go :
          (r : Result DbError ApiKey × Db)
          → exec stmt db ≡ r
          → (answered r).0 ≡ err (json 201 (key_body response shown))
          → (authenticate (answered (exec stmt db)).1 raw authorization none ≡ some (as_key req))
            × (shown ≡ raw)
      go (err e, db') made got = cc
      go (ok k, db') made got =
          let value = ap (λ (r : Result DbError ApiKey × Db). r.0) made in
          let (stored, tables) = exec-ok stmt db value in
          let (found, name, scope) =
            insert_key-stored (trim_space req.name) (hash raw) id.email (scope_of req.read_only)
              db.tables k stored in
          let after = ap (λ (r : Result DbError ApiKey × Db). (answered r).1) made in
          let there : find (has_hash (hash raw)) db'.tables.api_keys ≡ some k =
            ap (λ (r : Result DbError ApiKey × Db). find (has_hash (hash raw)) r.1.tables.api_keys)
              (sym made)
            ∙ ap (λ (t : Tables). find (has_hash (hash raw)) t.api_keys) tables
            ∙ found in
          (
            ap (λ d. authenticate d raw authorization none) after
                ∙ authenticate-found db' raw authorization k some_raw
                    (ap (λ (d : Db). d.faults) (sym after) ∙ calm) there
                ∙ ap (λ i. some i) (key-as_key k req name scope),
            sym (ap shown_text got),
          )

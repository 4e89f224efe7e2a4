-- ===== src/Server/Middleware.antt =====
-- The guards of internal/auth/middleware.go and internal/server/apikey.go, as functions of the
-- identity a request comes with.
use golink_url_shortener.Base.{
  if◌then◌else◌, Text, codes, is_empty, has_prefix, trim_prefix, contains, Bool, true, not, ◌||◌,
  Option, none, some, List, [], ◌∷◌, ◌++◌,
}
use golink_url_shortener.Config.{Config}
use golink_url_shortener.Db.Models.{ApiKey}
use golink_url_shortener.Server.Handler.{Identity, message, Response, failure, login}

-- A guard lets a request through (`none`) or answers it.
abbrev pub Guard : Type 0
Guard = Option Identity → Option Response

-- isAPIRequest, of the path and the Accept header.
unfoldable pub is_api_request : Text → Text → Bool
is_api_request path accept =
    has_prefix path (codes "/api/") || contains accept (codes "application/json")

unfoldable pub require_auth : Config → Text → Text → Guard
require_auth cfg path accept (some id) = none
require_auth cfg path accept none = some (
    if is_api_request path accept
    then failure 401 (message (codes "authentication required"))
    else if cfg.oidc.enabled
    then login
    else failure 403 (message (codes "forbidden")))

-- RequireUIAccess of internal/server/middleware/ui_access.go.
unfoldable pub require_ui_access : Config → Response → Guard
require_ui_access cfg denied (some id) = none
require_ui_access cfg denied none = some (if cfg.oidc.enabled then login else denied)

unfoldable pub require_admin : Response → Guard
require_admin denied none = some denied
require_admin denied (some id) = if id.is_admin then none else some denied

unfoldable pub require_write_scope : Guard
require_write_scope none = none
require_write_scope (some id) =
    if id.api_key_read_only
    then some (failure 403 (message (codes "read-only API key cannot perform write operations")))
    else none

-- Middlewares run in order; the first answer is the response.
unfoldable pub chain : List Guard → Guard
chain [] id = none
chain (g ∷ gs) id = elim (g id) [ some r ↦ some r | none ↦ chain gs id ]

-- extractAPIKey: the two headers, `[]` where a header is missing.
unfoldable pub extract_api_key : Text → Text → Text
extract_api_key x_api_key authorization =
    if not (is_empty x_api_key)
    then x_api_key
    else if has_prefix authorization (codes "Bearer ")
    then trim_prefix authorization (codes "Bearer ")
    else []

unfoldable pub api_key_identity : ApiKey → Identity
api_key_identity key = record {
  email = codes "apikey:" ++ key.name;
  display_name = key.name;
  avatar_url = [];
  groups = [];
  is_admin = true;
  source = [];
  api_key_read_only = key.read_only;
}

-- APIKeyMiddleware: `lookup` is GetByHash of HashAPIKey, `none` for its errors.
unfoldable pub api_key_middleware :
    (Text → Option ApiKey) → Text → Text → Option Identity → Option Identity
api_key_middleware lookup x_api_key authorization id =
    let raw = extract_api_key x_api_key authorization in
    if is_empty raw
    then id
    else elim (lookup raw) [ none ↦ id | some key ↦ some (api_key_identity key) ]

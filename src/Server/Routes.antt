-- ===== src/Server/Routes.antt =====
-- The routes of the REST API in buildRouter of internal/server/server.go, with their guards.
use golink_url_shortener.Base.{
  codes, ◌≡◌, refl, Bool, true, false, Option, none, some, List, [], ◌∷◌, arith,
}
use golink_url_shortener.Config.{Config, ConfigPackages}
use golink_url_shortener.Links.Domains.{UrlPackage}
use golink_url_shortener.Server.Canonical.{
  domain_redirect, chain-none, OnCanonical, domain_redirect-OnCanonical,
}
use golink_url_shortener.Server.Handler.{Identity, Response}
use golink_url_shortener.Server.Middleware.{
  Guard, require_auth, require_admin, require_write_scope, chain,
}
use golink_url_shortener.Server.Net.{NetPackage, HttpRequest, header}

pub data ApiRoute : Type 0 where
  list_links create_link get_link update_link delete_link transfer_link : ApiRoute
  quickname users_search list_api_keys create_api_key delete_api_key : ApiRoute
  export import_links reassign_links : ApiRoute

-- The guards that a route adds to those of the whole API, `denied` being handleForbidden.
unfoldable pub route_guards : Response → ApiRoute → List Guard
route_guards denied list_links = []
route_guards denied create_link = require_write_scope ∷ []
route_guards denied get_link = []
route_guards denied update_link = require_write_scope ∷ []
route_guards denied delete_link = require_write_scope ∷ []
route_guards denied transfer_link = require_write_scope ∷ []
route_guards denied quickname = []
route_guards denied users_search = []
route_guards denied list_api_keys = require_admin denied ∷ require_write_scope ∷ []
route_guards denied create_api_key = require_admin denied ∷ require_write_scope ∷ []
route_guards denied delete_api_key = require_admin denied ∷ require_write_scope ∷ []
route_guards denied export = require_admin denied ∷ []
route_guards denied import_links = require_admin denied ∷ require_write_scope ∷ []
route_guards denied reassign_links = require_admin denied ∷ require_write_scope ∷ []

module _ (net : NetPackage) (url : UrlPackage) (packages : ConfigPackages) (cfg : Config)
    (nets : List net.Net) (r : HttpRequest) where
  unfoldable pub api_guards : Response → ApiRoute → List Guard
  api_guards denied route =
      domain_redirect net url packages cfg nets r
      ∷ require_auth cfg r.path (header r (codes "Accept"))
      ∷ route_guards denied route

-- The routes whose handlers change links or API keys, and those for administrators only.
unfoldable pub is_write : ApiRoute → Bool
is_write create_link = true
is_write update_link = true
is_write delete_link = true
is_write transfer_link = true
is_write create_api_key = true
is_write delete_api_key = true
is_write import_links = true
is_write reassign_links = true
is_write list_links = false
is_write get_link = false
is_write quickname = false
is_write users_search = false
is_write list_api_keys = false
is_write export = false

unfoldable pub is_admin_only : ApiRoute → Bool
is_admin_only list_api_keys = true
is_admin_only create_api_key = true
is_admin_only delete_api_key = true
is_admin_only export = true
is_admin_only import_links = true
is_admin_only reassign_links = true
is_admin_only list_links = false
is_admin_only create_link = false
is_admin_only get_link = false
is_admin_only update_link = false
is_admin_only delete_link = false
is_admin_only transfer_link = false
is_admin_only quickname = false
is_admin_only users_search = false

-- What a caller is who passes the guards of a route.
abbrev pub Passes : Identity → ApiRoute → Type 0
Passes i route =
    (is_write route ≡ true → i.api_key_read_only ≡ false)
    × (is_admin_only route ≡ true → i.is_admin ≡ true)

guarded :
    (denied : Response) (route : ApiRoute) (i : Identity)
    → chain (route_guards denied route) (some i) ≡ none
    → Passes i route
unfolding route_guards is_write is_admin_only chain require_admin require_write_scope
guarded denied list_links i h = (ground arith, ground arith)
guarded denied create_link i h = (ground arith, ground arith)
guarded denied get_link i h = (ground arith, ground arith)
guarded denied update_link i h = (ground arith, ground arith)
guarded denied delete_link i h = (ground arith, ground arith)
guarded denied transfer_link i h = (ground arith, ground arith)
guarded denied quickname i h = (ground arith, ground arith)
guarded denied users_search i h = (ground arith, ground arith)
guarded denied list_api_keys i h = (ground arith, ground arith)
guarded denied create_api_key i h = (ground arith, ground arith)
guarded denied delete_api_key i h = (ground arith, ground arith)
guarded denied export i h = (ground arith, ground arith)
guarded denied import_links i h = (ground arith, ground arith)
guarded denied reassign_links i h = (ground arith, ground arith)

module _ (net : NetPackage) (url : UrlPackage) (packages : ConfigPackages) (cfg : Config)
    (nets : List net.Net) (r : HttpRequest) where
  -- A request reaches the handler of an API route only by the scheme and host of the canonical
  -- address, if one is configured, and only with an identity. A route that changes links or keys is
  -- not reached with a read-only key, and a route for administrators only by one.
  pub api_guards-Passes :
      (denied : Response) (route : ApiRoute) (id : Option Identity)
      → chain (api_guards net url packages cfg nets r denied route) id ≡ none
      → OnCanonical net url packages cfg nets r × ((i : Identity) × (id ≡ some i) × Passes i route)
  unfolding api_guards require_auth
  api_guards-Passes denied route none h =
      let (canonical, rest) = chain-none (domain_redirect net url packages cfg nets r) _ none h in
      let (signed_in, rest') =
        chain-none (require_auth cfg r.path (header r (codes "Accept"))) _ none rest in
      absurd (ground arith)
  api_guards-Passes denied route (some i) h =
      let (canonical, rest) =
        chain-none (domain_redirect net url packages cfg nets r) _ (some i) h in
      let (signed_in, rest') =
        chain-none (require_auth cfg r.path (header r (codes "Accept"))) _ (some i) rest in
      (
        domain_redirect-OnCanonical net url packages cfg nets r (some i) canonical,
        (i, refl, guarded denied route i rest'),
      )

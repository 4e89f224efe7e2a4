-- ===== src/Server/PageRoutes.antt =====
-- The routes of buildRouter in internal/server/server.go beside those of the REST API: the open ones,
-- and the pages with their guards. A route has its pattern, as chi reads it; the methods of one pattern
-- are one route.
use golink_url_shortener.Base.{
  any, Text, codes, text_eq, break_at, ◌≡◌, refl, Bool, true, Option, none, some, List, [], ◌∷◌,
  ◌++◌, map, arith,
}
use golink_url_shortener.Config.{Config, ConfigPackages}
use golink_url_shortener.Links.Domains.{UrlPackage}
use golink_url_shortener.Server.Canonical.{
  domain_redirect, chain-none, OnCanonical, domain_redirect-OnCanonical,
}
use golink_url_shortener.Server.Handler.{Identity, Response, message, failure, forbidden}
use golink_url_shortener.Server.Middleware.{
  Guard, require_auth, require_admin, require_ui_access, chain,
}
use golink_url_shortener.Server.Net.{NetPackage, HttpRequest, header}
use golink_url_shortener.Server.Routes.{
  ApiRoute, list_links, create_link, get_link, update_link, delete_link, transfer_link, quickname,
  users_search, list_api_keys, create_api_key, delete_api_key, export, import_links, reassign_links,
}

pub data OpenRoute : Type 0 where
  static favicon healthz auth_login auth_callback auth_logout redirect_name redirect_path :
      OpenRoute

pub data PageRoute : Type 0 where
  index new details share unshare transfer delete alias edit links mylinks : PageRoute
  help help_advanced help_search : PageRoute
  apikeys delete_apikey importexport reassign : PageRoute

unfoldable pub open_pattern : OpenRoute → Text
open_pattern static = codes "/static/*"
open_pattern favicon = codes "/favicon.ico"
open_pattern healthz = codes "/healthz"
open_pattern auth_login = codes "/auth/login"
open_pattern auth_callback = codes "/auth/callback"
open_pattern auth_logout = codes "/auth/logout"
open_pattern redirect_name = codes "/{name}"
open_pattern redirect_path = codes "/{name}/*"

unfoldable pub page_pattern : PageRoute → Text
page_pattern index = codes "/"
page_pattern new = codes "/new"
page_pattern details = codes "/details/{name}"
page_pattern share = codes "/details/{name}/share"
page_pattern unshare = codes "/details/{name}/unshare"
page_pattern transfer = codes "/details/{name}/transfer"
page_pattern delete = codes "/details/{name}/delete"
page_pattern alias = codes "/details/{name}/alias"
page_pattern edit = codes "/edit/{name}"
page_pattern links = codes "/links"
page_pattern mylinks = codes "/mylinks"
page_pattern help = codes "/help"
page_pattern help_advanced = codes "/help/advanced"
page_pattern help_search = codes "/help/search"
page_pattern apikeys = codes "/apikeys/"
page_pattern delete_apikey = codes "/apikeys/{id}/delete"
page_pattern importexport = codes "/importexport/"
page_pattern reassign = codes "/reassign/"

unfoldable pub api_pattern : ApiRoute → Text
api_pattern list_links = codes "/api/links"
api_pattern create_link = codes "/api/links"
api_pattern get_link = codes "/api/links/{name}"
api_pattern update_link = codes "/api/links/{name}"
api_pattern delete_link = codes "/api/links/{name}"
api_pattern transfer_link = codes "/api/links/{name}/transfer"
api_pattern quickname = codes "/api/quickname"
api_pattern users_search = codes "/api/users/search"
api_pattern list_api_keys = codes "/api/apikeys/"
api_pattern create_api_key = codes "/api/apikeys/"
api_pattern delete_api_key = codes "/api/apikeys/{id}"
api_pattern export = codes "/api/export"
api_pattern import_links = codes "/api/import"
api_pattern reassign_links = codes "/api/admin/reassign-links"

abbrev pub patterns : List Text
patterns =
    map open_pattern (
      static ∷ favicon ∷ healthz ∷ auth_login ∷ auth_callback ∷ auth_logout ∷ redirect_name
      ∷ redirect_path ∷ [])
    ++ map page_pattern (
        index ∷ new ∷ details ∷ share ∷ unshare ∷ transfer ∷ delete ∷ alias ∷ edit ∷ links ∷ mylinks
        ∷ help ∷ help_advanced ∷ help_search ∷ apikeys ∷ delete_apikey ∷ importexport ∷ reassign
        ∷ [])
    ++ map api_pattern (
        list_links ∷ create_link ∷ get_link ∷ update_link ∷ delete_link ∷ transfer_link ∷ quickname
        ∷ users_search ∷ list_api_keys ∷ create_api_key ∷ delete_api_key ∷ export ∷ import_links
        ∷ reassign_links ∷ [])

-- What a path has after its first slash, up to the next.
unfoldable pub first_segment : Text → Text
first_segment [] = []
first_segment (slash ∷ path) = (break_at b'/' path).0

-- The paths of the pages for administrators.
unfoldable pub is_admin_path : Text → Bool
is_admin_path path =
    any (text_eq (first_segment path))
      (codes "apikeys" ∷ codes "importexport" ∷ codes "reassign" ∷ [])

abbrev pub access_denied : Response
access_denied = failure 401 (message (codes "unauthorized"))

module _ (net : NetPackage) (url : UrlPackage) (packages : ConfigPackages) (cfg : Config)
    (nets : List net.Net) (r : HttpRequest) where
  -- The guards that the group of a page adds to those of all pages.
  unfoldable pub admin_guards : PageRoute → List Guard
  admin_guards apikeys =
      require_auth cfg r.path (header r (codes "Accept")) ∷ require_admin forbidden ∷ []
  admin_guards delete_apikey =
      require_auth cfg r.path (header r (codes "Accept")) ∷ require_admin forbidden ∷ []
  admin_guards importexport =
      require_auth cfg r.path (header r (codes "Accept")) ∷ require_admin forbidden ∷ []
  admin_guards reassign =
      require_auth cfg r.path (header r (codes "Accept")) ∷ require_admin forbidden ∷ []
  admin_guards page = []

  unfoldable pub page_guards : PageRoute → List Guard
  page_guards route =
      domain_redirect net url packages cfg nets r
      ∷ require_ui_access cfg access_denied
      ∷ admin_guards route

  admins_only :
      (i : Identity)
      → chain
          (require_auth cfg r.path (header r (codes "Accept")) ∷ require_admin forbidden ∷ [])
          (some i)
        ≡ none
      → i.is_admin ≡ true
  unfolding chain require_auth require_admin
  admins_only i h = ground arith

  admin_guards-Passes :
      (route : PageRoute) (i : Identity)
      → chain (admin_guards route) (some i) ≡ none
      → is_admin_path (page_pattern route) ≡ true
      → i.is_admin ≡ true
  unfolding admin_guards is_admin_path page_pattern first_segment break_at text_eq
  admin_guards-Passes apikeys i h k = admins_only i h
  admin_guards-Passes delete_apikey i h k = admins_only i h
  admin_guards-Passes importexport i h k = admins_only i h
  admin_guards-Passes reassign i h k = admins_only i h
  admin_guards-Passes index i h k = cc
  admin_guards-Passes new i h k = cc
  admin_guards-Passes details i h k = cc
  admin_guards-Passes share i h k = cc
  admin_guards-Passes unshare i h k = cc
  admin_guards-Passes transfer i h k = cc
  admin_guards-Passes delete i h k = cc
  admin_guards-Passes alias i h k = cc
  admin_guards-Passes edit i h k = cc
  admin_guards-Passes links i h k = cc
  admin_guards-Passes mylinks i h k = cc
  admin_guards-Passes help i h k = cc
  admin_guards-Passes help_advanced i h k = cc
  admin_guards-Passes help_search i h k = cc

  -- A request reaches the handler of a page only by the scheme and host of the canonical address, if
  -- one is configured, and only with an identity, and that of a page below /apikeys, /importexport or
  -- /reassign only as an administrator.
  pub page_guards-Passes :
      (route : PageRoute) (id : Option Identity)
      → chain (page_guards route) id ≡ none
      → OnCanonical net url packages cfg nets r
        × ((i : Identity) × (id ≡ some i)
            × (is_admin_path (page_pattern route) ≡ true → i.is_admin ≡ true))
  unfolding page_guards require_ui_access
  page_guards-Passes route none h =
      let (canonical, rest) = chain-none (domain_redirect net url packages cfg nets r) _ none h in
      let (signed_in, rest') = chain-none (require_ui_access cfg access_denied) _ none rest in
      absurd (ground arith)
  page_guards-Passes route (some i) h =
      let (canonical, rest) =
        chain-none (domain_redirect net url packages cfg nets r) _ (some i) h in
      let (signed_in, rest') = chain-none (require_ui_access cfg access_denied) _ (some i) rest in
      (
        domain_redirect-OnCanonical net url packages cfg nets r (some i) canonical,
        (i, refl, admin_guards-Passes route i rest'),
      )

-- ===== src/Server/Rendering.antt =====
-- internal/templates/renderer.go: the functions of the templates and the choice of a template; the
-- headers of internal/server/middleware/security_headers.go; and the small handlers of server.go and
-- ui.go that need no link. html/template, net/url and the file system are parameters.
use golink_url_shortener.Base.{
  ◌==◌, if◌then◌else◌, any, keep, Text, codes, text_eq, is_empty, trim_prefix, strip_suffix,
  has_suffix, ℕ, Bool, not, ◌&&◌, ◌||◌, Option, none, some, List, [], ◌∷◌, ◌++◌, map,
}
use golink_url_shortener.Base.{Result, ok}
use golink_url_shortener.Config.{Config, ConfigPackages, canonical_scheme}
use golink_url_shortener.Db.Models.{User}
use golink_url_shortener.Db.Sql.{Db, DbError}
use golink_url_shortener.Db.UserRepo
use golink_url_shortener.Links.Domains.{UrlPackage}
use golink_url_shortener.Links.QuickName.{generate_quick_name}

-- displayEmail: the local part of an address of the default domain.
unfoldable pub display_email : Text → Text → Text
display_email email default_domain =
    if is_empty default_domain
    then email
    else elim (strip_suffix email (b'@' ∷ default_domain)) [ some local ↦ local | none ↦ email ]

-- trimHTTPS
unfoldable pub trim_https : Text → Text
trim_https s = trim_prefix s (codes "https://")

-- hasKey, of the ids that a map has with true.
unfoldable pub has_key : List ℕ → ℕ → Bool
has_key ids key = any (λ id. id == key) ids

-- The direction that the link of a column asks for.
unfoldable pub next_dir : Text → Text → Text → Text
next_dir current_sort current_dir column =
    if text_eq current_sort column && text_eq current_dir (codes "asc")
    then codes "desc"
    else codes "asc"

-- sortURL, where `query_escape` is url.QueryEscape.
unfoldable pub sort_url : (Text → Text) → Text → Text → Text → Text → Text → Text
sort_url query_escape base_path current_sort current_dir column query =
    let sorted =
      base_path
      ++ codes "?sort="
      ++ column
      ++ codes "&dir="
      ++ next_dir current_sort current_dir column in
    if is_empty query then sorted else sorted ++ codes "&q=" ++ query_escape query

-- sortIcon: a space and an arrow.
unfoldable pub sort_icon : Text → Text → Text → Text
sort_icon current_sort current_dir column =
    if not (text_eq current_sort column)
    then []
    else if text_eq current_dir (codes "asc")
    then b' ' ∷ 0x25B2 ∷ []
    else b' ' ∷ 0x25BC ∷ []

-- The pages that New finds among the files of the embedded directory: the names of the templates that
-- are neither the base nor a partial.
abbrev pub partials : List Text
partials = codes "link_table.html" ∷ codes "pagination.html" ∷ []

unfoldable pub is_page : Text → Bool
is_page file =
    has_suffix file (codes ".html")
    && not (text_eq file (codes "base.html") || any (text_eq file) partials)

abbrev pub page_name : Text → Text
page_name file = elim (strip_suffix file (codes ".html")) [ some name ↦ name | none ↦ file ]

unfoldable pub page_names : List Text → List Text
page_names files = map page_name (keep is_page files)

-- RenderStatus: the status that is sent, 500 for a page that is not among the templates.
unfoldable pub render_status : List Text → ℕ → Text → ℕ
render_status pages status name = if any (text_eq name) pages then status else 500

-- SecurityHeaders: what it adds to every response.
abbrev pub csp_policy : Text
csp_policy =
    codes "default-src 'self'; script-src 'self'; style-src 'self' 'unsafe-inline'; "
    ++ codes "img-src 'self' data:; connect-src 'self'; font-src 'self'; object-src 'none'; "
    ++ codes "base-uri 'self'; form-action 'self'; frame-ancestors 'self'"

unfoldable pub security_headers : UrlPackage → ConfigPackages → Config → List (Text × Text)
security_headers url packages cfg =
    let always =
      (codes "X-Frame-Options", codes "SAMEORIGIN")
      ∷ (codes "X-Content-Type-Options", codes "nosniff")
      ∷ (codes "Referrer-Policy", codes "strict-origin-when-cross-origin")
      ∷ (codes "Content-Security-Policy", csp_policy)
      ∷ [] in
    if text_eq (canonical_scheme url packages cfg) (codes "https")
    then always
      ++ (codes "Strict-Transport-Security", codes "max-age=31536000; includeSubDomains") ∷ []
    else always

-- handleFavicon: the content type and the bytes, `none` for 404; `read_file` reads a file of the
-- operator, `embedded` is the favicon of the program.
unfoldable pub favicon_type : Text → Text
favicon_type path =
    if has_suffix path (codes ".svg")
    then codes "image/svg+xml"
    else if has_suffix path (codes ".png")
    then codes "image/png"
    else codes "image/x-icon"

unfoldable pub handle_favicon : (Text → Option Text) → Option Text → Config → Option (Text × Text)
handle_favicon read_file embedded cfg =
    if is_empty cfg.favicon_path
    then elim embedded [ none ↦ none | some bytes ↦ some (codes "image/svg+xml", bytes) ]
    else elim (read_file cfg.favicon_path) [
      | none ↦ none
      | some bytes ↦ some (favicon_type cfg.favicon_path, bytes)
    ]

-- handleQuickName: the name in the input element, from random draws.
unfoldable pub handle_quick_name : Config → List (Option ℕ) → Option Text
handle_quick_name cfg draws = generate_quick_name cfg.quick_link_length draws

-- handleAPIUserSearch: the users that are suggested for the first parameter that is given.
unfoldable pub search_query : Text → Text → Text → Text
search_query email from_email to_email =
    let first = if is_empty email then from_email else email in
    if is_empty first then to_email else first

unfoldable pub handle_api_user_search : Text → Text → Text → Db → Result DbError (List User) × Db
handle_api_user_search email from_email to_email db =
    let q = search_query email from_email to_email in
    if is_empty q then (ok [], db) else UserRepo.search_users q 10 db

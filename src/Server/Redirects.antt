-- ===== src/Server/Redirects.antt =====
-- internal/server/redirect.go.
use golink_url_shortener.Base.{
  if◌then◌else◌, Text, codes, is_empty, to_lower, split, ℕ, Bool, not, ◌||◌, Option, none, some,
  List, [],
}
use golink_url_shortener.Base.{Result, ok, err}
use golink_url_shortener.Config.{Config, ConfigPackages, advanced_links_allowed}
use golink_url_shortener.Db.Models.{Link, is_alias, is_advanced}
use golink_url_shortener.Db.Repo.{Repo}
use golink_url_shortener.Db.UseCounter.{Counts, bump}
use golink_url_shortener.Links.Domains.{UrlPackage, check_advanced_link_domain}
use golink_url_shortener.Redirect.Simple.{resolve_simple}
use golink_url_shortener.Redirect.Advanced.{RegexpPackage, TemplatePackage, resolve_advanced}
use golink_url_shortener.Server.Handler.{
  Identity, message, Response, redirect, login, failure, not_found_page, advanced_link_error,
  Handler, ◌>>=◌, ◌>>◌, return, reply, reply_if, refuse_on, or_reply, call, on_not_found,
  internal_error,
}
use golink_url_shortener.Server.Net.{NetPackage, HttpRequest, redirect_to_canonical}

unfoldable pub split_path : Text → List Text
split_path suffix = if is_empty suffix then [] else split suffix b'/'

unfoldable pub split_args : Text → List Text
split_args query = if is_empty query then [] else split query b'&'

-- The third-party and standard packages that a redirect needs.
pub record Packages : Type 1 where
  pub net : NetPackage
  pub url : UrlPackage
  pub config : ConfigPackages
  pub regexp : RegexpPackage
  pub template : TemplatePackage

abbrev pub email_of : Option Identity → Text
email_of none = []
email_of (some id) = id.email

abbrev pub missing_target : Response
missing_target = failure 404 (message (codes "alias target not found"))

abbrev pub bad_redirect_target : Response
bad_redirect_target = failure 500 (message (codes "bad redirect target"))

abbrev pub advanced_disabled : Response
advanced_disabled = advanced_link_error (codes "Advanced links are disabled on this server.")

abbrev pub domain_refused : Response
domain_refused =
    advanced_link_error
      (codes "This link redirects to a domain that is not permitted by the server configuration.")

module _ {S : Type 0} (repo : Repo S) (packages : Packages) (cfg : Config)
    (nets : List packages.net.Net) where
  -- s.useCounter.Increment
  unfoldable pub count_use : ℕ → Handler (S × Counts) (Unit {0})
  count_use id (s, counts) = (ok tt, (s, bump id counts))

  -- A call of the repository beside the counts.
  abbrev pub beside :
      {A : Type 0} → Counts → Result Response A × S → Result Response A × (S × Counts)
  beside counts (r, s) = (r, (s, counts))

  unfoldable pub get_link : Text → Response → Handler (S × Counts) Link
  get_link name missing (s, counts) =
      beside counts (call (repo.get_by_name name) (on_not_found missing internal_error) s)

  unfoldable pub advanced_location :
      Link → Text → Text → HttpRequest → Text → Handler (S × Counts) Text
  advanced_location link name suffix r email = do
    reply_if (not (advanced_links_allowed cfg)) advanced_disabled
    target ←
        or_reply (λ e. bad_redirect_target)
          (resolve_advanced packages.regexp packages.template link.target (record {
            path = suffix;
            parts = split_path suffix;
            args = split_args r.raw_query;
            ua = r.user_agent;
            email = email;
            alias = name;
          }))
    refuse_on (check_advanced_link_domain packages.url target cfg.domains_for_advanced_links)
        (λ e. domain_refused)
    return target

  unfoldable pub location : Link → Text → Text → HttpRequest → Text → Handler (S × Counts) Text
  location link name suffix r email =
      if is_advanced link
      then advanced_location link name suffix r email
      else or_reply (λ e. bad_redirect_target)
          (resolve_simple packages.url link.target suffix r.raw_query)

  unfoldable pub do_redirect :
      HttpRequest → Link → Text → Text → Option Identity → Handler (S × Counts) (Unit {0})
  do_redirect r link name suffix id =
      if is_alias link
      then (do
        canonical ← get_link link.alias_target missing_target
        count_use link.id
        target ← location canonical name suffix r (email_of id)
        reply (redirect 302 target))
      else (do
        target ← location link name suffix r (email_of id)
        count_use link.id
        reply (redirect 302 target))

  abbrev pub moved_or : Option Text → Handler (S × Counts) (Unit {0})
  moved_or none s = (ok tt, s)
  moved_or (some target) s = (err (redirect 301 target), s)

  -- The identity that is enforced; without one the login page or an error is shown.
  abbrev pub signed_in : Option Identity → Handler (S × Counts) (Unit {0})
  signed_in none s =
      (err (if cfg.oidc.enabled then login else failure 401 (message (codes "unauthorized"))), s)
  signed_in (some id) s = (ok tt, s)

  unfoldable pub needs_auth : Link → Bool
  needs_auth link = link.require_auth || cfg.require_auth_for_redirects

  unfoldable pub guard : HttpRequest → Link → Option Identity → Handler (S × Counts) (Unit {0})
  guard r link id =
      if not (needs_auth link)
      then return tt
      else moved_or (redirect_to_canonical packages.net packages.url packages.config cfg nets r)
        >> signed_in id

  -- `param` and `suffix` are the route's parameters, the name and the rest of the path.
  unfoldable pub handle_redirect :
      HttpRequest → Text → Text → Option Identity → Handler (S × Counts) (Unit {0})
  handle_redirect r param suffix id = do
    link ← get_link (to_lower param) (not_found_page (to_lower param))
    guard r link id
    do_redirect r link (to_lower param) suffix id

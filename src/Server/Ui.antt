-- ===== src/Server/Ui.antt =====
-- internal/server/ui.go: the form handlers that change links. A page that shows an error is
-- `page_error`; building the base data of a page is taken to succeed.
use golink_url_shortener.Base.{
  leb, if◌then◌else◌, Text, codes, text_eq, is_empty, to_lower, equal_fold, has_suffix,
  contains_rune, trim_space, Bool, false, not, ◌&&◌, Option, none, some, [], ◌∷◌, ◌++◌,
}
use golink_url_shortener.Base.{Result, ok, err}
use golink_url_shortener.Config.{Config, advanced_links_allowed}
use golink_url_shortener.Db.Models.{Link, LinkType, simple, advanced, alias, is_alias}
use golink_url_shortener.Db.Sql.{DbError, alias_limit_exceeded, unique_violation}
use golink_url_shortener.Db.Repo.{Repo}
use golink_url_shortener.Links.Domains.{UrlPackage}
use golink_url_shortener.Links.Validate.{validate_name, validate_target}
use golink_url_shortener.Redirect.Advanced.{check_template_target_domain}
use golink_url_shortener.Server.Handler.{
  Identity, Problem, message, bad_name, bad_target, bad_domain, alias_limit, failed, Response,
  redirect, failure, page, page_error, Handler, ◌>>=◌, ◌>>◌, return, reply, reply_if, refuse_on,
  call, internal_error, forbidden,
}
use golink_url_shortener.Server.Access.{is_owner_or_admin, lookup, require_edit_access}
use golink_url_shortener.Server.Actions.{resolve_alias_target, is_advanced_type}

-- A form with the token of its CSRF field and of the cookie, if there is one.
pub record Csrf : Type 0 where
  pub cookie : Option Text
  pub form_token : Text

unfoldable pub validate_csrf : Csrf → Bool
validate_csrf c = elim c.cookie [
  | none ↦ false
  | some value ↦ not (is_empty c.form_token) && text_eq c.form_token value
]

abbrev pub require_csrf : {S : Type 0} → Csrf → Handler S (Unit {0})
require_csrf c =
    reply_if (not (validate_csrf c)) (failure 403 (message (codes "invalid CSRF token")))

abbrev pub details_of : Text → Response
details_of name = redirect 302 (codes "/details/" ++ name)

abbrev pub page_not_found : Response
page_not_found = failure 404 (message (codes "404 page not found"))

pub record DetailsForm : Type 0 where
  pub link_type : Text
  pub target : Text
  pub alias_target : Text
  pub require_auth : Text

-- A bare user name gets the default domain.
unfoldable pub with_default_domain : Config → Text → Text
with_default_domain cfg email =
    if not (contains_rune email b'@') && not (is_empty cfg.default_domain)
    then email ++ b'@' ∷ cfg.default_domain
    else email

unfoldable pub outside_required_domain : Config → Text → Bool
outside_required_domain cfg email =
    not (is_empty cfg.required_domain) && not (has_suffix email (b'@' ∷ cfg.required_domain))

abbrev pub alias_create_failure : DbError → Response
alias_create_failure unique_violation =
    failure 409 (message (codes "A link with that name already exists."))
alias_create_failure e = internal_error

module _ {S : Type 0} (repo : Repo S) (url : UrlPackage) (cfg : Config) where
  abbrev pub not_saved : Link → DbError → Response
  not_saved link alias_limit_exceeded = page_error link (alias_limit cfg.max_aliases_per_link)
  not_saved link e = page_error link (failed e)

  abbrev pub resolved_for_page : Link → Result Problem Text × S → Result Response Text × S
  resolved_for_page link (ok t, s) = (ok t, s)
  resolved_for_page link (err p, s) = (err (page_error link p), s)

  unfoldable pub save_alias : Link → DetailsForm → Handler S (Unit {0})
  save_alias link form = do
    reply_if (is_empty (trim_space form.alias_target))
        (page_error link (message (codes "Alias target cannot be empty.")))
    resolved ← λ s.
        resolved_for_page link
          (resolve_alias_target repo (to_lower (trim_space form.alias_target)) link.name_lower s)
    updated ←
        call
          (repo.set_alias link.id link.name resolved (text_eq form.require_auth (codes "on"))
            cfg.max_aliases_per_link)
          (not_saved link)
    reply (page updated)

  unfoldable pub save_target : Link → DetailsForm → LinkType → Handler S (Unit {0})
  save_target link form link_type = do
    reply_if (is_advanced_type link_type && not (advanced_links_allowed cfg)) (
        page_error link
          (message (codes "Advanced links are disabled by the server configuration.")))
    refuse_on (validate_target (trim_space form.target)) (λ e. page_error link (bad_target e))
    refuse_on
        (if is_advanced_type link_type
          then check_template_target_domain url (trim_space form.target)
              cfg.domains_for_advanced_links
          else none)
        (λ e. page_error link (bad_domain e))
    updated ←
        call
          (repo.update link.id link.name (trim_space form.target) link_type
            (text_eq form.require_auth (codes "on")))
          (λ e. page_error link (failed e))
    reply (page updated)

  unfoldable pub handle_details_post : Link → Bool → Csrf → DetailsForm → Handler S (Unit {0})
  handle_details_post link can_edit csrf form =
      reply_if (not can_edit) forbidden >> require_csrf csrf >> saved
    where
      saved : Handler S (Unit {0})
      saved =
          if text_eq form.link_type (codes "alias")
          then save_alias link form
          else save_target link form
              (if text_eq form.link_type (codes "advanced") then advanced else simple)

  -- The address that a form names, completed and checked.
  unfoldable pub checked_email : Link → Text → Text → Text → Handler S Text
  checked_email link invalid restricted email = do
    reply_if (not (contains_rune (with_default_domain cfg email) b'@'))
        (page_error link (message invalid))
    reply_if (outside_required_domain cfg (with_default_domain cfg email))
        (page_error link (message restricted))
    return (with_default_domain cfg email)

  unfoldable pub handle_details_share : Text → Option Identity → Csrf → Text → Handler S (Unit {0})
  handle_details_share param id csrf given = do
    require_csrf csrf
    link ← require_edit_access repo (to_lower param) id
    reply_if (is_empty (trim_space given)) (details_of (to_lower param))
    email ←
        checked_email link (codes "Please enter a valid email address.")
          (codes "Sharing is restricted to @" ++ cfg.required_domain ++ codes " addresses.")
          (trim_space given)
    call (repo.add_share link.id email) (λ e. internal_error)
    reply (details_of (to_lower param))

  unfoldable pub handle_details_unshare :
      Text → Option Identity → Csrf → Text → Handler S (Unit {0})
  handle_details_unshare param id csrf given = do
    require_csrf csrf
    link ← require_edit_access repo (to_lower param) id
    call (repo.remove_share link.id (trim_space given)) (λ e. internal_error)
    reply (details_of (to_lower param))

  abbrev pub require_identity : Option Identity → Handler S Identity
  require_identity none = reply (failure 401 (message (codes "unauthorized")))
  require_identity (some id) = return id

  unfoldable pub handle_details_transfer :
      Text → Option Identity → Csrf → Text → Handler S (Unit {0})
  handle_details_transfer param user csrf given = do
    require_csrf csrf
    id ← require_identity user
    link ← lookup repo (to_lower param) page_not_found
    reply_if (not (is_owner_or_admin id link)) forbidden
    reply_if (is_empty (trim_space given))
        (page_error link (message (codes "New owner email cannot be empty.")))
    new_owner ←
        checked_email link (codes "Please enter a valid email address for the new owner.")
          (codes "Ownership transfers are restricted to @"
            ++ cfg.required_domain
            ++ codes " addresses.")
          (trim_space given)
    reply_if (equal_fold new_owner link.owner_email)
        (page_error link (message (codes "That user is already the owner of this link.")))
    updated ← call (repo.transfer_ownership link.id new_owner) (λ e. internal_error)
    reply (details_of (to_lower param))

  unfoldable pub handle_details_delete : Text → Option Identity → Csrf → Handler S (Unit {0})
  handle_details_delete param id csrf = do
    require_csrf csrf
    link ← require_edit_access repo (to_lower param) id
    call (repo.delete link.id) (λ e. internal_error)
    reply (redirect 302 (codes "/links"))

  unfoldable pub handle_create_alias : Text → Option Identity → Csrf → Text → Handler S (Unit {0})
  handle_create_alias param user csrf given = do
    require_csrf csrf
    id ← require_identity user
    canonical ← lookup repo (to_lower param) page_not_found
    reply_if (is_alias canonical)
        (failure 400 (message (codes "cannot create an alias of an alias")))
    refuse_on (validate_name (trim_space given)) (λ e. failure 400 (bad_name e))
    n ← call (repo.count_aliases (to_lower param)) (λ e. internal_error)
    reply_if (leb cfg.max_aliases_per_link n) (failure 422 (alias_limit cfg.max_aliases_per_link))
    created ←
        call (repo.create (trim_space given) [] id.email alias (to_lower param) false)
          alias_create_failure
    reply (details_of (to_lower param))

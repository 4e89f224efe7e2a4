-- ===== src/Server/NewLink.antt =====
-- handleNew of internal/server/ui.go, the page and the form that create a link, and the form of
-- handleDetails that saves one.
use golink_url_shortener.Base.{
  if◌then◌else◌, Text, codes, text_eq, is_empty, to_lower, trim_space, Bool, false, Option, none,
  some, [], ◌++◌,
}
use golink_url_shortener.Base.{Result, ok, err}
use golink_url_shortener.Config.{Config}
use golink_url_shortener.Db.Models.{Link, LinkType, simple, advanced, alias}
use golink_url_shortener.Db.Repo.{Repo}
use golink_url_shortener.Links.Domains.{UrlPackage}
use golink_url_shortener.Server.Handler.{
  Identity, Problem, message, failed, Response, redirect, Handler, ◌>>=◌, ◌>>◌, reply,
}
use golink_url_shortener.Server.Actions.{
  CreateLinkError, validation, conflict, internal, CreateLinkParams, do_create_link,
}
use golink_url_shortener.Server.Pages.{BaseData, base_or_reply, unauthorized}
use golink_url_shortener.Server.DetailsPage.{handle_details}
use golink_url_shortener.Server.Ui.{Csrf, require_csrf, DetailsForm, handle_details_post}

pub record NewLinkForm : Type 0 where
  pub name : Text
  pub target : Text
  pub link_type : Text
  pub require_auth : Bool

pub record NewPageData : Type 0 where
  pub base : BaseData
  pub error : Option Problem
  pub form : NewLinkForm

-- What the form sends, before it is trimmed.
pub record NewLinkFields : Type 0 where
  pub name : Text
  pub target : Text
  pub link_type : Text
  pub require_auth : Text

unfoldable pub read_form : NewLinkFields → NewLinkForm
read_form f = record {
  name = trim_space f.name;
  target = trim_space f.target;
  link_type = if is_empty f.link_type then codes "simple" else f.link_type;
  require_auth = text_eq f.require_auth (codes "on");
}

unfoldable pub form_link_type : Text → LinkType
form_link_type s =
    if text_eq s (codes "advanced")
    then advanced
    else if text_eq s (codes "alias")
    then alias
    else simple

-- What a form asks doCreateLink for.
unfoldable pub form_params : NewLinkForm → CreateLinkParams
form_params form = record {
  name = form.name;
  target = form.target;
  link_type = form_link_type form.link_type;
  alias_target = to_lower form.target;
  require_auth = form.require_auth;
}

unfoldable pub create_problem : CreateLinkError → Problem
create_problem conflict = message (codes "A link with that name already exists.")
create_problem (internal e) = failed e
create_problem (validation p) = p

module _ (cfg : Config) (version : Text) {S : Type 0} (repo : Repo S) (url : UrlPackage) where
  -- The page again with its error, or the redirect to the new link.
  abbrev pub created_or_page :
      BaseData → NewLinkForm → Result CreateLinkError Link × S → Result Response NewPageData × S
  created_or_page base form (ok link, s) = (err (redirect 302 (codes "/details/" ++ form.name)), s)
  created_or_page base form (err e, s) =
      (ok (record { base = base; error = some (create_problem e); form = form }), s)

  unfoldable pub create_from_form : BaseData → NewLinkForm → Identity → Handler S NewPageData
  create_from_form base form id s =
      created_or_page base form (do_create_link repo url cfg (form_params form) id.email s)

  abbrev pub signed_in_form : BaseData → NewLinkForm → Option Identity → Handler S NewPageData
  signed_in_form base form none = reply unauthorized
  signed_in_form base form (some id) = create_from_form base form id

  -- GET /new, with the name and the target that the query gives.
  unfoldable pub handle_new_get :
      Option Text → Option Identity → Text → Text → Handler S NewPageData
  handle_new_get token id name target = base_or_reply cfg version token id >>= λ base s. (
    ok (record {
      base = base;
      error = none;
      form = record { name = name; target = target; link_type = []; require_auth = false };
    }),
    s,
  )

  -- POST /new
  unfoldable pub handle_new_post :
      Option Text → Option Identity → Csrf → NewLinkFields → Handler S NewPageData
  handle_new_post token id csrf fields = do
    base ← base_or_reply cfg version token id
    require_csrf csrf
    signed_in_form base (read_form fields) id

  -- POST /details/{name}
  unfoldable pub handle_details_form :
      Option Text → Text → Option Identity → Csrf → DetailsForm → Handler S (Unit {0})
  handle_details_form token param id csrf form =
      handle_details cfg version repo
        (λ base i link can_edit. handle_details_post repo url cfg link can_edit csrf form) token
        param id

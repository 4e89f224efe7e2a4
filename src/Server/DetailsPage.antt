-- ===== src/Server/DetailsPage.antt =====
-- The page with the details of a link of internal/server/ui.go.
use golink_url_shortener.Base.{
  if◌then◌else◌, Text, codes, to_lower, Bool, true, Option, none, some, List, [],
}
use golink_url_shortener.Base.{Result, ok, err}
use golink_url_shortener.Config.{Config}
use golink_url_shortener.Db.Models.{Link, is_alias}
use golink_url_shortener.Db.Sql.{DbError, not_found}
use golink_url_shortener.Db.Repo.{Repo}
use golink_url_shortener.Server.Handler.{
  Identity, message, failure, Handler, ◌>>=◌, return, reply, call, internal_error,
}
use golink_url_shortener.Server.Access.{is_owner_or_admin, can_edit_basic, is_shared_with, lookup}
use golink_url_shortener.Server.Pages.{BaseData, unauthorized, base_or_reply}

pub record DetailsPageData : Type 0 where
  pub base : BaseData
  pub link : Link
  pub can_edit : Bool
  pub can_transfer : Bool
  pub aliases : List Link
  pub canonical_link : Option Link
  pub shares : List Text
  pub default_domain : Text

module _ (cfg : Config) (version : Text) where
  module _ {S : Type 0} (repo : Repo S) where
    -- The link that an alias leads to, if it is still there.
    abbrev pub link_or_none : Result DbError Link × S → Result DbError (Option Link) × S
    link_or_none (ok l, s) = (ok (some l), s)
    link_or_none (err not_found, s) = (ok none, s)
    link_or_none (err e, s) = (err e, s)

    unfoldable pub canonical_of : Link → Handler S (Option Link)
    canonical_of link =
        if is_alias link
        then call (λ s. link_or_none (repo.get_by_name link.alias_target s)) (λ e. internal_error)
        else return none

    unfoldable pub aliases_of : Link → Handler S (List Link)
    aliases_of link =
        if is_alias link
        then return []
        else call (repo.get_aliases link.name_lower) (λ e. internal_error)

    unfoldable pub shares_shown : Link → Bool → Handler S (List Text)
    shares_shown link can_edit =
        if can_edit then call (repo.get_shares link.id) (λ e. internal_error) else return []

    -- buildDetailsPageData, whose errors both callers answer alike.
    unfoldable pub build_details_page :
        BaseData → Identity → Link → Bool → Handler S DetailsPageData
    build_details_page base id link can_edit = do
      canonical ← canonical_of link
      aliases ← aliases_of link
      shares ← shares_shown link can_edit
      return (record {
        base = base;
        link = link;
        can_edit = can_edit;
        can_transfer = is_owner_or_admin id link;
        aliases = aliases;
        canonical_link = canonical;
        shares = shares;
        default_domain = if can_edit then cfg.default_domain else [];
      })

    -- Whether the user may edit the link that the details are about.
    unfoldable pub may_edit : Identity → Link → Handler S Bool
    may_edit id link =
        if can_edit_basic (some id) link
        then return true
        else call (is_shared_with repo link.id (some id)) (λ e. internal_error)

    -- What handleDetails does before it turns to the method of the request.
    unfoldable pub handle_details :
        {A : Type 0}
        → (BaseData → Identity → Link → Bool → Handler S A)
        → Option Text
        → Text
        → Option Identity
        → Handler S A
    handle_details method token param none =
        base_or_reply cfg version token none >>= λ base. reply unauthorized
    handle_details method token param (some id) = do
      base ← base_or_reply cfg version token (some id)
      link ← lookup repo (to_lower param) (failure 404 (message (codes "404 page not found")))
      can_edit ← may_edit id link
      method base id link can_edit

    unfoldable pub handle_details_get :
        Option Text → Text → Option Identity → Handler S DetailsPageData
    handle_details_get = handle_details build_details_page

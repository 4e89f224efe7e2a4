-- ===== src/Server/Access.antt =====
-- Who may edit a link: canEditBasic, isSharedWith and requireEditAccess of internal/server/ui.go,
-- and isAdmin of internal/auth/identity.go.
use golink_url_shortener.Base.{
  if◌then◌else◌, any, Text, codes, text_eq, equal_fold, ℕ, Bool, false, not, ◌||◌, Option, none,
  some, List,
}
use golink_url_shortener.Base.{Result, ok, err}
use golink_url_shortener.Config.{Config}
use golink_url_shortener.Db.Models.{Link}
use golink_url_shortener.Db.Sql.{DbError}
use golink_url_shortener.Db.Repo.{Repo, Call}
use golink_url_shortener.Server.Handler.{
  Identity, message, Response, failure, Handler, ◌>>=◌, ◌>>◌, return, reply_if, call, on_not_found,
  internal_error, forbidden,
}

unfoldable pub is_admin : Config → Identity → Bool
is_admin cfg id =
    any (λ e. text_eq e id.email) cfg.admin_emails
    || any (λ a. any (λ g. text_eq g a) id.groups) cfg.admin_groups

unfoldable pub can_edit_basic : Option Identity → Link → Bool
can_edit_basic none link = false
can_edit_basic (some id) link = id.is_admin || equal_fold id.email link.owner_email

-- !id.IsAdmin && !strings.EqualFold(id.Email, link.OwnerEmail), negated
abbrev pub is_owner_or_admin : Identity → Link → Bool
is_owner_or_admin id link = id.is_admin || equal_fold id.email link.owner_email

abbrev pub shares_result :
    {S : Type 0} → Identity → Result DbError (List Text) × S → Result DbError Bool × S
shares_result id (ok shares, s) = (ok (any (λ e. equal_fold e id.email) shares), s)
shares_result id (err e, s) = (err e, s)

module _ {S : Type 0} (repo : Repo S) where
  unfoldable pub is_shared_with : ℕ → Option Identity → Call S Bool
  is_shared_with link_id none s = (ok false, s)
  is_shared_with link_id (some id) s = shares_result id (repo.get_shares link_id s)

  -- The check that API and UI make: the share list is asked where the rest does not suffice.
  unfoldable pub check_edit : Option Identity → Link → Handler S (Unit {0})
  check_edit id link =
      if can_edit_basic id link
      then return tt
      else call (is_shared_with link.id id) (λ e. internal_error) >>= λ shared.
          reply_if (not shared) forbidden

  unfoldable pub lookup : Text → Response → Handler S Link
  lookup name missing = call (repo.get_by_name name) (on_not_found missing internal_error)

  unfoldable pub require_edit_access : Text → Option Identity → Handler S Link
  require_edit_access name id = do
    link ← lookup name (failure 404 (message (codes "404 page not found")))
    check_edit id link
    return link

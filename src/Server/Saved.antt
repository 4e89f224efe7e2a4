-- ===== src/Server/Saved.antt =====
-- Who can save a link by the form of handleDetails of internal/server/ui.go.
use golink_url_shortener.Base.{
  Bool-cases, any, Text, codes, to_lower, equal_fold, ◌≡◌, refl, sym, ap, ◌∙◌, ◌⊎◌, inl, inr, Bool,
  true, false, Option, none, some, List,
}
use mathlib.Core.Path.{subst}
use golink_url_shortener.Base.{Result, ok, err}
use golink_url_shortener.Config.{Config}
use golink_url_shortener.Db.Models.{Link}
use golink_url_shortener.Db.Sql.{Db, DbError}
use golink_url_shortener.Db.LinkRepo
use golink_url_shortener.Db.Repo.{sql_repo}
use golink_url_shortener.Links.Domains.{UrlPackage}
use golink_url_shortener.Server.Handler.{Identity, ◌>>=◌, called, failure, message, internal_error}
use golink_url_shortener.Server.Access.{
  can_edit_basic, is_owner_or_admin, is_shared_with, shares_result, lookup,
}
use golink_url_shortener.Server.Authorised.{
  shares_of, IsShared, MayEdit, Reads, Reads-bind, lookup-Reads, get_shares-ok, get_shares-tables,
}
use golink_url_shortener.Server.Pages.{new_base_data}
use golink_url_shortener.Server.DetailsPage.{may_edit, handle_details}
use golink_url_shortener.Server.Ui.{Csrf, validate_csrf, DetailsForm, handle_details_post}
use golink_url_shortener.Server.NewLink.{handle_details_form}

-- What makes a link editable for an identity.
abbrev Editor : Db → Link → Identity → Type 0
Editor db l id = (can_edit_basic (some id) l ≡ true) ⊎ IsShared db l id

shares-Reads :
    (id : Identity) (l : Link) (db : Db) (r : Result DbError (List Text) × Db)
    → r.1.tables ≡ db.tables
    → ((es : List Text) → r.0 ≡ ok es → es ≡ shares_of l.id db.tables)
    → Reads db (called (λ e. internal_error) (shares_result id r)) (λ b. b ≡ true → Editor db l id)
shares-Reads id l db (err e, db') same h = (db', same, inl (internal_error, refl))
shares-Reads id l db (ok es, db') same h = (
  db',
  same,
  inr (
    any (λ e. equal_fold e id.email) es,
    refl,
    λ shared. inr (ap (any (λ e. equal_fold e id.email)) (sym (h es refl)) ∙ shared),
  ),
)

module _ (cfg : Config) (version : Text) (url : UrlPackage) where
  may_edit-Reads :
      (id : Identity) (l : Link) (db : Db)
      → Reads db (may_edit cfg version sql_repo id l db) (λ b. b ≡ true → Editor db l id)
  unfolding may_edit is_shared_with can_edit_basic
  may_edit-Reads id l db = elim (Bool-cases (is_owner_or_admin id l)) [
    | inl can ↦ (db, refl, inr (true, rw can refl, λ _. inl can))
    | inr cannot ↦
        subst (λ r. Reads db r (λ b. b ≡ true → Editor db l id)) (sym (asked cannot))
          (shares-Reads id l db (LinkRepo.get_shares l.id db) (get_shares-tables l.id db)
            (get_shares-ok l.id db))
  ]
    where
      asked :
          is_owner_or_admin id l ≡ false
          → may_edit cfg version sql_repo id l db
            ≡ called (λ e. internal_error) (shares_result id (LinkRepo.get_shares l.id db))
      asked h = rw h refl

  -- The form saves only what may be edited, and only with a valid token.
  saved_only :
      (l : Link) (can_edit : Bool) (csrf : Csrf) (form : DetailsForm) (db : Db)
      → ((handle_details_post sql_repo url cfg l can_edit csrf form db).1.tables ≡ db.tables)
        ⊎ ((can_edit ≡ true) × (validate_csrf csrf ≡ true))
  unfolding handle_details_post
  saved_only l false csrf form db = inl refl
  saved_only l true csrf form db = elim (Bool-cases (validate_csrf csrf)) [
    | inr forged ↦ inl (rw forged refl)
    | inl valid ↦ inr (refl, valid)
  ]

  after_lookup :
      (id : Identity) (csrf : Csrf) (form : DetailsForm) (l : Link) (db : Db)
      → let h = may_edit cfg version sql_repo id l >>= λ can_edit.
          handle_details_post sql_repo url cfg l can_edit csrf form in
        ((h db).1.tables ≡ db.tables) ⊎ ((validate_csrf csrf ≡ true) × Editor db l id)
  after_lookup id csrf form l db =
      elim (Reads-bind (λ b. b ≡ true → Editor db l id) (may_edit cfg version sql_repo id l)
        (λ can_edit. handle_details_post sql_repo url cfg l can_edit csrf form) db
        (may_edit-Reads id l db)) [
          | inl same ↦ inl same
          | inr (can_edit, db', same, editor, e) ↦ elim (saved_only l can_edit csrf form db') [
            | inl same' ↦ inl (ap (λ (d : Db). d.tables) e ∙ same' ∙ same)
            | inr (can, valid) ↦ inr (valid, editor can)
          ]
        ]

  -- The form that saves a link changes the tables only if its token is valid and its user owns the
  -- link, is an admin, or has the link shared with them.
  pub handle_details_form-MayEdit :
      (token : Option Text) (param : Text) (user : Option Identity) (csrf : Csrf)
      (form : DetailsForm) (db : Db)
      → ((handle_details_form cfg version sql_repo url token param user csrf form db).1.tables
          ≡ db.tables)
        ⊎ ((validate_csrf csrf ≡ true) × MayEdit db.tables (to_lower param) user)
  unfolding handle_details_form handle_details new_base_data
  handle_details_form-MayEdit none param none csrf form db = inl refl
  handle_details_form-MayEdit (some token) param none csrf form db = inl refl
  handle_details_form-MayEdit none param (some id) csrf form db = inl refl
  handle_details_form-MayEdit (some token) param (some id) csrf form db =
      elim (Reads-bind _
        (lookup sql_repo (to_lower param) (failure 404 (message (codes "404 page not found"))))
        (λ l. may_edit cfg version sql_repo id l >>= λ can_edit.
          handle_details_post sql_repo url cfg l can_edit csrf form)
        db (lookup-Reads (to_lower param) _ db)) [
          | inl same ↦ inl same
          | inr (l, db', same, found, e) ↦ elim (after_lookup id csrf form l db') [
            | inl same' ↦ inl (ap (λ (d : Db). d.tables) e ∙ same' ∙ same)
            | inr (valid, inl can) ↦ inr (valid, (l, found, inl can))
            | inr (valid, inr shared) ↦ inr (
              valid,
              (
                l,
                found,
                inr (
                  id,
                  refl,
                  subst (λ t. any (λ e. equal_fold e id.email) (shares_of l.id t) ≡ true) same
                      shared,
                ),
              ),
            )
          ]
        ]

-- ===== src/Server/Forms.antt =====
-- Who can change links through the forms of internal/server/ui.go.
use golink_url_shortener.Base.{
  Bool-cases, any, find, Text, codes, to_lower, equal_fold, ◌≡◌, refl, ◌∙◌, ◌⊎◌, inl, inr, true,
  Option, none, some,
}
use mathlib.Core.Path.{subst}
use golink_url_shortener.Config.{Config}
use golink_url_shortener.Db.Models.{Link}
use golink_url_shortener.Db.Sql.{Db}
use golink_url_shortener.Db.Rows.{has_name}
use golink_url_shortener.Db.Repo.{sql_repo}
use golink_url_shortener.Links.Domains.{UrlPackage}
use golink_url_shortener.Server.Handler.{Identity, Handler, ◌>>=◌, failure, message}
use golink_url_shortener.Server.Access.{can_edit_basic, require_edit_access}
use golink_url_shortener.Server.Authorised.{
  shares_of, MayEdit, MayOwn, Reads, Reads-bind, lookup-Reads, check_edit-Reads, owner_only,
}
use golink_url_shortener.Server.Ui.{
  Csrf, validate_csrf, require_csrf, handle_details_share, handle_details_unshare,
  handle_details_delete, handle_details_transfer,
}

-- What requireEditAccess has established of a link that it returns.
abbrev Editable : Db → Text → Option Identity → Link → Type 0
Editable db name id l =
    (find (has_name name) db.tables.links ≡ some l)
    × ((can_edit_basic id l ≡ true)
        ⊎ ((i : Identity) × (id ≡ some i)
            × (any (λ e. equal_fold e i.email) (shares_of l.id db.tables) ≡ true)))

require_edit_access-Reads :
    (name : Text) (id : Option Identity) (db : Db)
    → Reads db (require_edit_access sql_repo name id db) (Editable db name id)
unfolding require_edit_access
require_edit_access-Reads name id db =
    let (db', same, r) =
      lookup-Reads name (failure 404 (message (codes "404 page not found"))) db in
    elim r [
      | inl (resp, e) ↦ (db', same, inl (resp, rw e refl))
      | inr (l, e, found) ↦
          let (db'', same', r') = check_edit-Reads id l db' in
          elim r' [
            | inl (resp, e') ↦ (db'', same' ∙ same, inl (resp, rw (e, e') refl))
            | inr (u, e', may) ↦ (
              db'',
              same' ∙ same,
              inr (
                l,
                rw (e, e') refl,
                (
                  found,
                  subst
                      (λ t.
                        (can_edit_basic id l ≡ true)
                        ⊎ ((i : Identity) × (id ≡ some i)
                            × (any (λ e. equal_fold e i.email) (shares_of l.id t) ≡ true)))
                      same may,
                ),
              ),
            )
          ]
    ]

-- A form goes on only with a valid token, and for those who may edit the link.
form_only :
    (csrf : Csrf) (name : Text) (id : Option Identity) (f : Link → Handler Db (Unit {0})) (db : Db)
    → let h = require_csrf csrf >>= λ _. (require_edit_access sql_repo name id >>= f) in
      ((h db).1.tables ≡ db.tables) ⊎ ((validate_csrf csrf ≡ true) × MayEdit db.tables name id)
form_only csrf name id f db = elim (Bool-cases (validate_csrf csrf)) [
  | inr forged ↦ inl (rw forged refl)
  | inl valid ↦
      elim (Reads-bind (Editable db name id) (require_edit_access sql_repo name id) f db
        (require_edit_access-Reads name id db)) [
          | inl same ↦ inl (rw valid same)
          | inr (l, db', same, (found, may), e) ↦ inr (valid, (l, found, may))
        ]
]

module _ (url : UrlPackage) (cfg : Config) where
  -- The forms that delete a link, share it and end a sharing change the tables only if their token is
  -- valid and their user owns the link, is an admin, or has the link shared with them.
  pub edit_forms-MayEdit :
      (param : Text) (id : Option Identity) (csrf : Csrf) (given : Text) (db : Db)
      → let allowed = (validate_csrf csrf ≡ true) × MayEdit db.tables (to_lower param) id in
        (((handle_details_delete sql_repo url cfg param id csrf db).1.tables ≡ db.tables) ⊎ allowed)
        × (((handle_details_share sql_repo url cfg param id csrf given db).1.tables ≡ db.tables)
            ⊎ allowed)
        × (((handle_details_unshare sql_repo url cfg param id csrf given db).1.tables ≡ db.tables)
            ⊎ allowed)
  unfolding handle_details_delete handle_details_share handle_details_unshare
  edit_forms-MayEdit param id csrf given db = (
    form_only csrf (to_lower param) id _ db,
    form_only csrf (to_lower param) id _ db,
    form_only csrf (to_lower param) id _ db,
  )

  -- The form that transfers a link changes the tables only if its token is valid and its user owns
  -- the link or is an admin.
  pub handle_details_transfer-MayOwn :
      (param : Text) (id : Option Identity) (csrf : Csrf) (given : Text) (db : Db)
      → ((handle_details_transfer sql_repo url cfg param id csrf given db).1.tables ≡ db.tables)
        ⊎ ((validate_csrf csrf ≡ true)
            × ((i : Identity) × (id ≡ some i) × MayOwn db.tables (to_lower param) i))
  unfolding handle_details_transfer
  handle_details_transfer-MayOwn param none csrf given db = elim (Bool-cases (validate_csrf csrf)) [
    | inr forged ↦ inl (rw forged refl)
    | inl valid ↦ inl (rw valid refl)
  ]
  handle_details_transfer-MayOwn param (some i) csrf given db =
      elim (Bool-cases (validate_csrf csrf)) [
        | inr forged ↦ inl (rw forged refl)
        | inl valid ↦ elim (owner_only url cfg (to_lower param) _ i _ db) [
          | inl same ↦ inl (rw valid same)
          | inr may ↦ inr (valid, (i, refl, may))
        ]
      ]

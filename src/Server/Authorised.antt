-- ===== src/Server/Authorised.antt =====
-- Who can change links through the handlers of internal/server/api.go and ui.go.
use golink_url_shortener.Base.{
  ◌==◌, Bool-cases, any, find, keep, Text, to_lower, equal_fold, ℕ, ◌≡◌, refl, sym, ap, ◌∙◌, ◌⊎◌,
  inl, inr, true, false, not, Option, none, some, List, map,
}
use mathlib.Core.Path.{subst}
use golink_url_shortener.Base.{Result, ok, err}
use golink_url_shortener.Config.{Config}
use golink_url_shortener.Db.Models.{Link}
use golink_url_shortener.Db.Sql.{Db, DbError, Tables, exec}
use golink_url_shortener.Db.Rows.{has_name}
use golink_url_shortener.Db.LinkRepo
use golink_url_shortener.Db.Repo.{sql_repo}
use golink_url_shortener.Db.Inversion.{exec-ok}
use golink_url_shortener.Db.Keeps.{exec-Keeps}
use golink_url_shortener.Db.Coherence.{read_link}
use golink_url_shortener.Links.Domains.{UrlPackage}
use golink_url_shortener.Server.Handler.{
  Identity, Response, Handler, ◌>>=◌, then_result, called, on_not_found, internal_error, Request,
  forbidden, reply_if,
}
use golink_url_shortener.Server.Access.{
  can_edit_basic, is_owner_or_admin, is_shared_with, shares_result, check_edit, lookup,
}
use golink_url_shortener.Server.Api.{
  UpdateLinkRequest, handle_api_update_link, handle_api_delete_link, handle_api_transfer_link,
}

-- The addresses a link is shared with.
abbrev pub shares_of : ℕ → Tables → List Text
shares_of link_id t = map (λ s. s.shared_with_email) (keep (λ s. s.link_id == link_id) t.shares)

-- The identity is the owner of the link with the name, or an admin.
abbrev pub MayOwn : Tables → Text → Identity → Type 0
MayOwn t name id =
    (l : Link) × (find (has_name name) t.links ≡ some l) × (is_owner_or_admin id l ≡ true)

-- The identity is that, or among those the link is shared with.
abbrev pub MayEdit : Tables → Text → Option Identity → Type 0
MayEdit t name id =
    (l : Link) × (find (has_name name) t.links ≡ some l)
    × ((can_edit_basic id l ≡ true)
        ⊎ ((i : Identity) × (id ≡ some i)
            × (any (λ e. equal_fold e i.email) (shares_of l.id t) ≡ true)))

-- A step that only reads ends with a value, of which something is known, or with a response.
abbrev pub Reads : {A : Type 0} → Db → Result Response A × Db → (A → Type 0) → Type 0
Reads {A} db r P =
    (db' : Db) × (db'.tables ≡ db.tables)
    × (((resp : Response) × (r ≡ (err resp, db'))) ⊎ ((a : A) × (r ≡ (ok a, db')) × P a))

pub read_same :
    {A : Type 0} (r : Tables → Result DbError A) (db : Db)
    → (exec (λ t. (r t, t)) db).1.tables ≡ db.tables
read_same r db = exec-Keeps (λ t. t ≡ db.tables) (λ t. (r t, t)) (λ t h. h) db refl

pub called-Reads :
    {A : Type 0} (f : DbError → Response) (db : Db) (P : A → Type 0) (r : Result DbError A × Db)
    → r.1.tables ≡ db.tables
    → ((a : A) → r.0 ≡ ok a → P a)
    → Reads db (called f r) P
called-Reads f db P (ok a, db') same h = (db', same, inr (a, refl, h a refl))
called-Reads f db P (err e, db') same h = (db', same, inl (f e, refl))

pub lookup-Reads :
    (name : Text) (missing : Response) (db : Db)
    → Reads db
        (lookup sql_repo name missing db)
        (λ l. find (has_name name) db.tables.links ≡ some l)
unfolding lookup LinkRepo.get_by_name
lookup-Reads name missing db =
    called-Reads (on_not_found missing internal_error) db _ (LinkRepo.get_by_name name db)
      (read_same _ db) (λ l got. read_link name db got)

-- A handler goes on only after what the first step has checked.
pub Reads-bind :
    {A : Type 0} (P : A → Type 0) (m : Handler Db A) (f : A → Handler Db (Unit {0})) (db : Db)
    → Reads db (m db) P
    → ((◌>>=◌ m f db).1.tables ≡ db.tables)
      ⊎ ((a : A) × (db' : Db) × (db'.tables ≡ db.tables) × P a × ((◌>>=◌ m f db).1 ≡ (f a db').1))
Reads-bind P m f db (db', same, inl (resp, e)) = inl (rw e same)
Reads-bind P m f db (db', same, inr (a, e, p)) = inr (a, db', same, p, rw e refl)

-- What the share list says of an identity.
abbrev pub IsShared : Db → Link → Identity → Type 0
IsShared db l i = any (λ e. equal_fold e i.email) (shares_of l.id db.tables) ≡ true

ok_inj : {A : Type 0} {a b : A} → ◌≡◌ {A = Result DbError A} (ok a) (ok b) → a ≡ b
ok_inj {A} {a} e = ap (λ (r : Result DbError A). value_or a r) e
  where
    value_or : A → Result DbError A → A
    value_or a (ok b) = b
    value_or a (err d) = a

IsShared-Reads :
    (i : Identity) (l : Link) (db : Db) (r : Result DbError (List Text) × Db)
    → r.1.tables ≡ db.tables
    → ((es : List Text) → r.0 ≡ ok es → es ≡ shares_of l.id db.tables)
    → Reads db
        (then_result
          (λ shared. reply_if (not shared) forbidden)
          (called (λ e. internal_error) (shares_result i r)))
        (λ _. IsShared db l i)
IsShared-Reads i l db (err e, db') same h = (db', same, inl (internal_error, refl))
IsShared-Reads i l db (ok es, db') same h = elim (Bool-cases (any (λ e. equal_fold e i.email) es)) [
  | inl shared ↦ (
    db',
    same,
    inr (tt, rw shared refl, ap (any (λ e. equal_fold e i.email)) (sym (h es refl)) ∙ shared),
  )
  | inr stranger ↦ (db', same, inl (forbidden, rw stranger refl))
]

pub get_shares-ok :
    (id : ℕ) (db : Db) (es : List Text)
    → (LinkRepo.get_shares id db).0 ≡ ok es
    → es ≡ shares_of id db.tables
unfolding LinkRepo.get_shares
get_shares-ok id db es got = sym (ok_inj (exec-ok (λ t. (ok (shares_of id t), t)) db got).0)

pub get_shares-tables : (id : ℕ) (db : Db) → (LinkRepo.get_shares id db).1.tables ≡ db.tables
unfolding LinkRepo.get_shares
get_shares-tables id db = read_same (λ t. ok (shares_of id t)) db

pub check_edit-Reads :
    (id : Option Identity) (l : Link) (db : Db)
    → Reads db
        (check_edit sql_repo id l db)
        (λ _. (can_edit_basic id l ≡ true) ⊎ ((i : Identity) × (id ≡ some i) × IsShared db l i))
unfolding check_edit is_shared_with can_edit_basic
check_edit-Reads none l db = (db, refl, inl (forbidden, refl))
check_edit-Reads (some i) l db = elim (Bool-cases (is_owner_or_admin i l)) [
  | inl can ↦ (db, refl, inr (tt, rw can refl, inl can))
  | inr cannot ↦
      subst
        (λ r. Reads db r (λ _.
          (is_owner_or_admin i l ≡ true) ⊎ ((j : Identity) × (some i ≡ some j) × IsShared db l j)))
        (sym (asked cannot))
        (weaken (
          IsShared-Reads i l db (LinkRepo.get_shares l.id db) (get_shares-tables l.id db)
            (get_shares-ok l.id db)))
]
  where
    asked :
        is_owner_or_admin i l ≡ false
        → check_edit sql_repo (some i) l db
          ≡ then_result
              (λ shared. reply_if (not shared) forbidden)
              (called (λ e. internal_error) (shares_result i (LinkRepo.get_shares l.id db)))
    asked h = rw h refl

    weaken :
        {r : Result Response (Unit {0}) × Db}
        → Reads db r (λ _. IsShared db l i)
        → Reads db r (λ _.
          (can_edit_basic (some i) l ≡ true)
          ⊎ ((j : Identity) × (some i ≡ some j) × IsShared db l j))
    weaken (db', same, inl stop) = (db', same, inl stop)
    weaken (db', same, inr (u, e, shared)) = (db', same, inr (u, e, inr (i, refl, shared)))

module _ (url : UrlPackage) (cfg : Config) where
  -- A handler that looks a link up, and goes on only for its owner or an admin.
  pub owner_only :
      (name : Text) (missing : Response) (id : Identity) (f : Link → Handler Db (Unit {0}))
      (db : Db)
      → let h = lookup sql_repo name missing >>= λ l.
          (reply_if (not (is_owner_or_admin id l)) forbidden >>= λ _. f l) in
        ((h db).1.tables ≡ db.tables) ⊎ MayOwn db.tables name id
  owner_only name missing id f db =
      elim (Reads-bind _ (lookup sql_repo name missing)
        (λ l. reply_if (not (is_owner_or_admin id l)) forbidden >>= λ _. f l) db
        (lookup-Reads name missing db)) [
          | inl same ↦ inl same
          | inr (l, db', same, found, e) ↦ elim (Bool-cases (is_owner_or_admin id l)) [
            | inl may ↦ inr (l, found, may)
            | inr may_not ↦ inl (ap (λ (d : Db). d.tables) e ∙ rw may_not same)
          ]
        ]

  -- DELETE changes the tables only if the caller owns the link or is an admin.
  pub handle_api_delete_link-MayOwn :
      (param : Text) (id : Identity) (db : Db)
      → ((handle_api_delete_link sql_repo url cfg param id db).1.tables ≡ db.tables)
        ⊎ MayOwn db.tables (to_lower param) id
  unfolding handle_api_delete_link
  handle_api_delete_link-MayOwn param id db = owner_only (to_lower param) _ id _ db

  -- A transfer changes the tables only if the caller owns the link or is an admin.
  pub handle_api_transfer_link-MayOwn :
      (param : Text) (id : Identity) (body : Request Text) (db : Db)
      → ((handle_api_transfer_link sql_repo url cfg param id body db).1.tables ≡ db.tables)
        ⊎ MayOwn db.tables (to_lower param) id
  unfolding handle_api_transfer_link
  handle_api_transfer_link-MayOwn param id body db = owner_only (to_lower param) _ id _ db

  editors_only :
      (name : Text) (missing : Response) (id : Option Identity) (f : Link → Handler Db (Unit {0}))
      (db : Db)
      → let h = lookup sql_repo name missing >>= λ l. (check_edit sql_repo id l >>= λ _. f l) in
        ((h db).1.tables ≡ db.tables) ⊎ MayEdit db.tables name id
  editors_only name missing id f db =
      elim (Reads-bind _ (lookup sql_repo name missing) (λ l. check_edit sql_repo id l >>= λ _. f l)
        db (lookup-Reads name missing db)) [
          | inl same ↦ inl same
          | inr (l, db', same, found, e) ↦
              elim (Reads-bind _ (check_edit sql_repo id l) (λ _. f l) db'
                (check_edit-Reads id l db')) [
                  | inl still ↦ inl (ap (λ (d : Db). d.tables) e ∙ still ∙ same)
                  | inr (_, db'', same', may, e') ↦ inr (
                    l,
                    found,
                    subst
                        (λ t.
                          (can_edit_basic id l ≡ true)
                          ⊎ ((i : Identity) × (id ≡ some i)
                              × (any (λ e. equal_fold e i.email) (shares_of l.id t) ≡ true)))
                        same may,
                  )
                ]
        ]

  -- PATCH changes the tables only if the caller owns the link, is an admin, or has the link shared
  -- with them.
  pub handle_api_update_link-MayEdit :
      (param : Text) (id : Identity) (body : Request UpdateLinkRequest) (db : Db)
      → ((handle_api_update_link sql_repo url cfg param id body db).1.tables ≡ db.tables)
        ⊎ MayEdit db.tables (to_lower param) (some id)
  unfolding handle_api_update_link
  handle_api_update_link-MayEdit param id body db = editors_only (to_lower param) _ (some id) _ db

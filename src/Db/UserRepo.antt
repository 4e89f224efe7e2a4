-- ===== src/Db/UserRepo.antt =====
-- SQLUserRepo of internal/db/user_repo.go.
use golink_url_shortener.Base.{
  if◌then◌else◌, Bool-cases, any, find, keep, count, take, drop, Text, text_eq, text_eq_iff, ℕ, suc,
  ◌≤◌, ◌≡◌, refl, sym, ap, ◌∙◌, inl, inr, Bool, false, not, ◌&&◌, ◌||◌, Option, none, some, List,
  [], ◌∷◌, ◌++◌, arith,
}
use mathlib.Core.Path.{subst}
use golink_url_shortener.Base.{Result, ok, err}
use golink_url_shortener.Db.Models.{User}
use golink_url_shortener.Db.Sql.{DbError, not_found, Tables, Db, Statement, Sql, exec}
use golink_url_shortener.Db.Order.{text_ltb}
use golink_url_shortener.Db.Search.{like}
use golink_url_shortener.Db.Inversion.{exec-ok}

abbrev pub has_email : Text → User → Bool
has_email email u = text_eq u.email email

-- The rows after INSERT ... ON CONFLICT(email) DO UPDATE: the row with the address is replaced in its
-- place, or a new one is added.
unfoldable pub upsert_row : User → List User → List User
upsert_row row [] = row ∷ []
upsert_row row (u ∷ us) = if has_email row.email u then row ∷ us else u ∷ upsert_row row us

-- VALUES (?, ?, ?, CURRENT_TIMESTAMP)
abbrev pub user_row : Text → Text → Text → ℕ → User
user_row email display_name avatar_url now = record {
  email = email;
  display_name = display_name;
  avatar_url = avatar_url;
  last_seen_at = now;
}

unfoldable pub upsert_user : Text → Text → Text → Statement User
upsert_user email display_name avatar_url t =
    let row = user_row email display_name avatar_url t.now in
    (ok row, record t { users = upsert_row row t.users })

unfoldable pub upsert : Text → Text → Text → Sql User
upsert email display_name avatar_url = exec (upsert_user email display_name avatar_url)

abbrev pub user_or : DbError → Option User → Result DbError User
user_or e none = err e
user_or e (some u) = ok u

unfoldable pub get : Text → Sql User
get email = exec (λ t. (user_or not_found (find (has_email email) t.users), t))

-- ORDER BY email ASC
unfoldable pub place_user : User → List User → List User
place_user u [] = u ∷ []
place_user u (v ∷ vs) =
    let rest = place_user u vs in if text_ltb v.email u.email then v ∷ rest else u ∷ v ∷ vs

unfoldable pub by_email : List User → List User
by_email [] = []
by_email (u ∷ us) = place_user u (by_email us)

unfoldable pub list_users : ℕ → ℕ → Sql (List User)
list_users limit offset = exec (λ t. (ok (take limit (drop offset (by_email t.users))), t))

-- "%" + query + "%", in which the query's own wildcards keep their meaning.
unfoldable pub user_pattern : Text → Text
user_pattern query = b'%' ∷ query ++ b'%' ∷ []

abbrev pub matches_user : Text → User → Bool
matches_user pattern u = like pattern u.email || like pattern u.display_name

unfoldable pub search_users : Text → ℕ → Sql (List User)
search_users query limit =
    exec (λ t. (ok (take limit (by_email (keep (matches_user (user_pattern query)) t.users))), t))

find-upsert_row :
    (email : Text) (row : User) (us : List User)
    → find (has_email email) (upsert_row row us)
      ≡ (if has_email email row then some row else find (has_email email) us)
unfolding upsert_row
find-upsert_row email row [] = refl
find-upsert_row email row (u ∷ us) = ground (
  arith,
  text_eq_iff u.email row.email,
  text_eq_iff u.email email,
  text_eq_iff row.email email,
  find-upsert_row email row us,
)

count-upsert_row :
    (email : Text) (row : User) (us : List User)
    → count (has_email email) (upsert_row row us) ≡ (
        if has_email email row && not (any (has_email email) us)
        then suc (count (has_email email) us)
        else count (has_email email) us)
unfolding upsert_row
count-upsert_row email row [] = ground arith
count-upsert_row email row (u ∷ us) = ground (
  arith,
  text_eq_iff u.email row.email,
  text_eq_iff u.email email,
  text_eq_iff row.email email,
  count-upsert_row email row us,
)

count-any :
    (email : Text) (us : List User)
    → any (has_email email) us ≡ false
    → count (has_email email) us ≡ 0
count-any email [] h = refl
count-any email (u ∷ us) h = ground (arith, count-any email us)

upsert_row_unique :
    (row : User) (us : List User)
    → ((k : Text) → count (has_email k) us ≤ 1)
    → (k : Text) → count (has_email k) (upsert_row row us) ≤ 1
upsert_row_unique row us unique k = elim (Bool-cases (any (has_email k) us)) [
  | inl there ↦ ground (arith, count-upsert_row k row us, unique k)
  | inr absent ↦ ground (arith, count-upsert_row k row us, count-any k us absent)
]

get-calm :
    (k : Text) (db : Db)
    → db.faults ≡ []
    → (get k db).0 ≡ user_or not_found (find (has_email k) db.tables.users)
unfolding get exec
get-calm k db calm = go db.faults calm
  where
    go :
        (fs : List Bool)
        → fs ≡ []
        → (exec
            (λ t. (user_or not_found (find (has_email k) t.users), t))
            (record db { faults = fs })).0
          ≡ user_or not_found (find (has_email k) db.tables.users)
    go [] e = refl
    go (f ∷ fs) e = absurd (ground arith)

-- A user that was upserted is what Get returns for the address, with the name and the picture given
-- and the time of now; Get returns for every other address what it did, and each address stays that of
-- one user at most.
pub upsert-get :
    (email display_name avatar_url k : Text) (db : Db) (u : User)
    → (upsert email display_name avatar_url db).0 ≡ ok u
    → (upsert email display_name avatar_url db).1.faults ≡ []
    → ((j : Text) → count (has_email j) db.tables.users ≤ 1)
    → (u ≡ user_row email display_name avatar_url db.tables.now)
      × ((get k (upsert email display_name avatar_url db).1).0
          ≡ user_or not_found
              (if text_eq email k then some u else find (has_email k) db.tables.users))
      × (count (has_email k) (upsert email display_name avatar_url db).1.tables.users ≤ 1)
unfolding upsert upsert_user
upsert-get email display_name avatar_url k db u h calm unique =
    let (made, tables) = exec-ok (upsert_user email display_name avatar_url) db h in
    let same = ok_eq made in
    let row = user_row email display_name avatar_url db.tables.now in
    let users = ap (λ (t : Tables). t.users) tables in
    (
      sym same,
      get-calm k (upsert email display_name avatar_url db).1 calm
          ∙ ap (λ us. user_or not_found (find (has_email k) us)) users
          ∙ ap (user_or not_found) (find-upsert_row k row db.tables.users)
          ∙ ap
              (λ v.
                user_or not_found
                  (if text_eq email k then some v else find (has_email k) db.tables.users))
              same,
      subst (λ us. count (has_email k) us ≤ 1) (sym users)
          (upsert_row_unique row db.tables.users unique k),
    )
  where
    ok_eq : {a b : User} → ◌≡◌ {A = Result DbError User} (ok a) (ok b) → a ≡ b
    ok_eq e = cc

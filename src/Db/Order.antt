-- ===== src/Db/Order.antt =====
-- Sorting of link lists: validateSort and orderByClause of internal/db/link_repo.go, and what ORDER
-- BY, LIMIT and OFFSET do. Texts are ordered by their code points and NULL comes first, as SQLite
-- has it.
use golink_url_shortener.Base.{
  ltb, ◌==◌, if◌then◌else◌, any, take, drop, Text, codes, text_eq, ℕ, Bool, true, false, not,
  Option, none, some, List, [], ◌∷◌,
}
use golink_url_shortener.Db.Models.{
  Link, SortField, SortDir, sort_by_name, sort_asc, valid_sort_fields, valid_sort_dirs,
}
use golink_url_shortener.Db.Sql.{DbError, invalid_sort_field, invalid_sort_direction}

unfoldable pub validate_sort : SortField → SortDir → Option DbError
validate_sort field dir =
    if not (any (text_eq field) valid_sort_fields)
    then some invalid_sort_field
    else if not (any (text_eq dir) valid_sort_dirs)
    then some invalid_sort_direction
    else none

-- The columns of the ORDER BY clause with their directions, most significant first.
unfoldable pub order_by_clause : SortField → SortDir → List (SortField × SortDir)
order_by_clause field dir =
    if text_eq field sort_by_name
    then (field, dir) ∷ []
    else (field, dir) ∷ (sort_by_name, sort_asc) ∷ []

-- A value in a column.
pub data Value : Type 0 where
  null : Value
  number : ℕ → Value
  text : Text → Value

unfoldable pub text_ltb : Text → Text → Bool
text_ltb s [] = false
text_ltb [] (d ∷ t) = true
text_ltb (c ∷ s) (d ∷ t) = let rest = text_ltb s t in if c == d then rest else ltb c d

unfoldable pub value_ltb : Value → Value → Bool
value_ltb null null = false
value_ltb null (number n) = true
value_ltb null (text t) = true
value_ltb (number m) null = false
value_ltb (number m) (number n) = ltb m n
value_ltb (number m) (text t) = true
value_ltb (text s) null = false
value_ltb (text s) (number n) = false
value_ltb (text s) (text t) = text_ltb s t

abbrev pub time_value : Option ℕ → Value
time_value none = null
time_value (some n) = number n

-- What a column of the table `links` holds, by its name in the schema.
unfoldable pub column : SortField → Link → Value
column field l =
    if text_eq field (codes "name_lower")
    then text l.name_lower
    else if text_eq field (codes "created_at")
    then number l.created_at
    else if text_eq field (codes "last_used_at")
    then time_value l.last_used_at
    else if text_eq field (codes "use_count")
    then number l.use_count
    else if text_eq field (codes "target")
    then text l.target
    else text l.owner_email

-- One row stands before another by the columns of the clause.
unfoldable pub stands_before : List (SortField × SortDir) → Link → Link → Bool
stands_before [] a b = false
stands_before ((field, dir) ∷ more) a b =
    let x = if text_eq dir (codes "ASC") then column field a else column field b in
    let y = if text_eq dir (codes "ASC") then column field b else column field a in
    let rest = stands_before more a b in
    if value_ltb x y then true else if value_ltb y x then false else rest

unfoldable pub insert_row : List (SortField × SortDir) → Link → List Link → List Link
insert_row clause l [] = l ∷ []
insert_row clause l (m ∷ ms) =
    let later = m ∷ insert_row clause l ms in if stands_before clause m l then later else l ∷ m ∷ ms

-- ORDER BY
unfoldable pub order_rows : List (SortField × SortDir) → List Link → List Link
order_rows clause [] = []
order_rows clause (l ∷ ls) = insert_row clause l (order_rows clause ls)

-- LIMIT ? OFFSET ?
unfoldable pub page : ℕ → ℕ → List Link → List Link
page limit offset ls = take limit (drop offset ls)

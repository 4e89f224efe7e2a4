-- ===== src/Db/Selected.antt =====
-- What the lists of internal/db/link_repo.go select: the rows of a page pass the test of its WHERE
-- clause, fit the page and lie within the count that comes with them.
use golink_url_shortener.Base.{
  Bool-cases, length, keep, count, take, drop, length-take, All, ℕ, zero, suc, ◌+◌, ◌≤◌, ◌<◌, ◌≡◌,
  refl, sym, ap, ◌∙◌, inl, inr, Bool, true, Option, none, some, List, [], ◌∷◌, arith,
}
use mathlib.Core.Path.{subst}
use golink_url_shortener.Base.{Result, ok}
use golink_url_shortener.Db.Models.{Link, SortField, SortDir}
use golink_url_shortener.Db.Sql.{Tables, Db, DbError, Sql, ◌>>=◌, return, throw, exec}
use golink_url_shortener.Db.Order.{
  validate_sort, order_by_clause, insert_row, order_rows, page, stands_before,
}
use golink_url_shortener.Db.Listing.{select_page, sorted_page}
use golink_url_shortener.Db.Inversion.{read-ok}

module _ (P : Link → Type 0) where
  pub All-insert_row :
      (clause : List (SortField × SortDir)) (l : Link) (ls : List Link)
      → P l
      → All P ls
      → All P (insert_row clause l ls)
  unfolding insert_row
  All-insert_row clause l [] h hs = (h, hs)
  All-insert_row clause l (m ∷ ms) h (k, ks) = elim (Bool-cases (stands_before clause m l)) [
    | inl before ↦ rw before (k, All-insert_row clause l ms h ks)
    | inr after ↦ rw after (h, (k, ks))
  ]

  pub All-order_rows :
      (clause : List (SortField × SortDir)) (ls : List Link)
      → All P ls
      → All P (order_rows clause ls)
  unfolding order_rows
  All-order_rows clause [] h = h
  All-order_rows clause (l ∷ ls) (h, hs) =
      All-insert_row clause l (order_rows clause ls) h (All-order_rows clause ls hs)

  All-take : (n : ℕ) (ls : List Link) → All P ls → All P (take n ls)
  All-take zero ls h = tt
  All-take (suc n) [] h = tt
  All-take (suc n) (l ∷ ls) (h, hs) = (h, All-take n ls hs)

  All-drop : (n : ℕ) (ls : List Link) → All P ls → All P (drop n ls)
  All-drop zero ls h = h
  All-drop (suc n) [] h = tt
  All-drop (suc n) (l ∷ ls) (h, hs) = All-drop n ls hs

kept-All : (p : Link → Bool) (ls : List Link) → All (λ l. p l ≡ true) (keep p ls)
kept-All p [] = tt
kept-All p (l ∷ ls) = elim (Bool-cases (p l)) [
  | inl yes_p ↦ rw yes_p (yes_p, kept-All p ls)
  | inr no_p ↦ rw no_p (kept-All p ls)
]

length-insert_row :
    (clause : List (SortField × SortDir)) (l : Link) (ls : List Link)
    → length (insert_row clause l ls) ≡ suc (length ls)
unfolding insert_row
length-insert_row clause l [] = refl
length-insert_row clause l (m ∷ ms) = ground (arith, length-insert_row clause l ms)

pub length-order_rows :
    (clause : List (SortField × SortDir)) (ls : List Link)
    → length (order_rows clause ls) ≡ length ls
unfolding order_rows
length-order_rows clause [] = refl
length-order_rows clause (l ∷ ls) =
    length-insert_row clause l (order_rows clause ls) ∙ ap suc (length-order_rows clause ls)

length-keep : (p : Link → Bool) (ls : List Link) → length (keep p ls) ≡ count p ls
length-keep p [] = refl
length-keep p (l ∷ ls) = ground (arith, length-keep p ls)

-- The rows of a page that is not empty lie within all rows.
length-page :
    (limit offset : ℕ) (ls : List Link)
    → 0 < length (page limit offset ls)
    → offset + length (page limit offset ls) ≤ length ls
unfolding page
length-page limit zero ls h = omega (arith, fits limit ls)
  where
    fits : (n : ℕ) (ms : List Link) → length (take n ms) ≤ length ms
    fits zero ms = omega arith
    fits (suc n) [] = omega arith
    fits (suc n) (m ∷ ms) = omega (arith, fits n ms)
length-page zero (suc offset) ls h = absurd (omega arith)
length-page (suc limit) (suc offset) [] h = absurd (omega arith)
length-page (suc limit) (suc offset) (l ∷ ls) h = omega (arith, length-page (suc limit) offset ls)

-- What a page of a list holds, from the tables that it was read from.
pub record Selects (test : Link → Bool) (t : Tables) (limit offset : ℕ) (rows : List Link)
    (total : ℕ) : Type 0 where
  pub selected : All (λ l. test l ≡ true) rows
  pub fits : length rows ≤ limit
  pub counted : total ≡ count test t.links
  pub within : 0 < length rows → offset + length rows ≤ total

page-Selects :
    (test : Link → Bool) (clause : List (SortField × SortDir)) (limit offset : ℕ) (t : Tables)
    → Selects test t limit offset
        (page limit offset (order_rows clause (keep test t.links)))
        (count test t.links)
unfolding page
page-Selects test clause limit offset t =
    let all = order_rows clause (keep test t.links) in
    let size : length all ≡ count test t.links =
      length-order_rows clause (keep test t.links) ∙ length-keep test t.links in
    record {
      selected =
          All-take (λ l. test l ≡ true) limit (drop offset all)
            (All-drop (λ l. test l ≡ true) offset all
              (All-order_rows (λ l. test l ≡ true) clause (keep test t.links)
                (kept-All test t.links)));
      fits = length-take limit (drop offset all);
      counted = refl;
      within = λ h. omega (arith, length-page limit offset all h, size);
    }

pair_eq :
    {a c : List Link} {b d : ℕ}
    → ◌≡◌ {A = Result DbError (List Link × ℕ)} (ok (a, b)) (ok (c, d))
    → (a ≡ c) × (b ≡ d)
pair_eq e = (ground arith, ground arith)

ok_eq : {A : Type 0} {a b : A} → ◌≡◌ {A = Result DbError A} (ok a) (ok b) → a ≡ b
ok_eq e = cc

module _ (test : Tables → Link → Bool) (limit offset : ℕ) (field : SortField) (dir : SortDir) where
  paged : Tables → List Link
  paged t = page limit offset (order_rows (order_by_clause field dir) (keep (test t) t.links))

  from_parts :
      (t : Tables) (rows : List Link) (total : ℕ)
      → paged t ≡ rows
      → count (test t) t.links ≡ total
      → Selects (test t) t limit offset rows total
  unfolding paged
  from_parts t rows total e n =
      subst (λ r. Selects (test t) t limit offset r total) e
        (subst (λ m. Selects (test t) t limit offset (paged t) m) n
          (page-Selects (test t) (order_by_clause field dir) limit offset t))

  rows_after : ℕ → Sql (List Link × ℕ)
  rows_after n = exec (λ t. (ok (paged t), t)) >>= λ ls. return (ls, n)

  select_page-Selects :
      (db : Db) (rows : List Link) (total : ℕ)
      → (select_page test limit offset field dir db).0 ≡ ok (rows, total)
      → Selects (test db.tables) db.tables limit offset rows total
  unfolding select_page paged rows_after
  select_page-Selects db rows total h =
      let (n, db', counted, same, _, rest) =
        read-ok (λ t. ok (count (test t) t.links)) rows_after db h in
      let (ls, db'', read, _, _, rest') =
        read-ok (λ t. ok (paged t)) (λ ls. return (ls, n)) db' rest in
      let (rows_eq, total_eq) = pair_eq rest' in
      from_parts db.tables rows total (ap paged (sym same) ∙ ok_eq read ∙ rows_eq)
        (ok_eq counted ∙ total_eq)

  -- The rows and the count of a page, where both statements succeed.
  pub sorted_page-Selects :
      (db : Db) (rows : List Link) (total : ℕ)
      → (sorted_page test limit offset field dir db).0 ≡ ok (rows, total)
      → Selects (test db.tables) db.tables limit offset rows total
  unfolding sorted_page
  sorted_page-Selects db rows total h = go (validate_sort field dir) h
    where
      go :
          (v : Option DbError)
          → (elim v as (λ x. Sql (List Link × ℕ)) [
            | some e ↦ throw e
            | none ↦ select_page test limit offset field dir
          ]
              db).0
            ≡ ok (rows, total)
          → Selects (test db.tables) db.tables limit offset rows total
      go none k = select_page-Selects db rows total k
      go (some e) k = cc

-- ===== src/Db/Open.antt =====
-- internal/db/open.go: the choice of the driver, and the placeholders of queries.
use golink_url_shortener.Base.{
  ltb, ◌==◌, if◌then◌else◌, Bool-cases, All, Text, codes, text_eq, contains_rune, ℕ, zero, suc, ◌+◌,
  ◌/◌, ◌%◌, ◌≡◌, refl, sym, ap, ◌∙◌, inl, inr, false, ◌||◌, Option, none, some, List, [], ◌∷◌, ◌++◌,
  append-nil, arith,
}

-- The driver and the backend that Open chooses, which have one name.
unfoldable pub backend_of : Text → Option Text
backend_of driver =
    if text_eq driver (codes "sqlite") || text_eq driver (codes "sqlite3")
    then some (codes "sqlite3")
    else if text_eq driver (codes "postgres") || text_eq driver (codes "postgresql")
    then some (codes "postgres")
    else none

-- The digits of a number below 10 to the power of the fuel.
unfoldable pub digits : ℕ → ℕ → Text
digits zero n = []
digits (suc fuel) n =
    let more = digits fuel (n / 10) in
    if ltb n 10 then (b'0' + n) ∷ [] else more ++ (b'0' + n % 10) ∷ []

-- %d
unfoldable pub decimal : ℕ → Text
decimal n = digits (n + 1) n

abbrev pub placeholder : ℕ → Text
placeholder n = b'$' ∷ decimal n

-- The loop of q, after n placeholders.
unfoldable pub rewrite_from : ℕ → Text → Text
rewrite_from n [] = []
rewrite_from n (c ∷ query) =
    let numbered = placeholder (n + 1) ++ rewrite_from (n + 1) query in
    let copied = c ∷ rewrite_from n query in if c == b'?' then numbered else copied

unfoldable pub q : Text → Text → Text
q backend query = if text_eq backend (codes "postgres") then rewrite_from 0 query else query

-- Pieces of a query with question marks between them, and with $1, $2 and so on.
abbrev pub with_marks : Text → List Text → Text
with_marks piece [] = piece
with_marks piece (p ∷ ps) = piece ++ b'?' ∷ with_marks p ps

abbrev pub with_numbers : ℕ → Text → List Text → Text
with_numbers n piece [] = piece
with_numbers n piece (p ∷ ps) = piece ++ (placeholder (n + 1) ++ with_numbers (n + 1) p ps)

rewrite_from-piece :
    (n : ℕ) (piece rest : Text)
    → contains_rune piece b'?' ≡ false
    → rewrite_from n (piece ++ rest) ≡ piece ++ rewrite_from n rest
unfolding rewrite_from contains_rune
rewrite_from-piece n [] rest h = refl
rewrite_from-piece n (c ∷ piece) rest h = ground (arith, rewrite_from-piece n piece rest)

rewrite_from-marks :
    (n : ℕ) (piece : Text) (ps : List Text)
    → contains_rune piece b'?' ≡ false
    → All (λ p. contains_rune p b'?' ≡ false) ps
    → rewrite_from n (with_marks piece ps) ≡ with_numbers n piece ps
unfolding rewrite_from
rewrite_from-marks n piece [] h hs =
    ap (rewrite_from n) (sym (append-nil piece))
    ∙ rewrite_from-piece n piece [] h
    ∙ append-nil piece
rewrite_from-marks n piece (p ∷ ps) h (k, ks) =
    rewrite_from-piece n piece (b'?' ∷ with_marks p ps) h
    ∙ ap (λ s. piece ++ (placeholder (n + 1) ++ s)) (rewrite_from-marks (n + 1) p ps k ks)

-- On Postgres the placeholders of a query are numbered from 1 in their order, and the text between
-- them is kept; on SQLite the query is kept.
pub q-marks :
    (backend piece : Text) (ps : List Text)
    → contains_rune piece b'?' ≡ false
    → All (λ p. contains_rune p b'?' ≡ false) ps
    → q backend (with_marks piece ps) ≡ (
        if text_eq backend (codes "postgres") then with_numbers 0 piece ps else with_marks piece ps)
unfolding q
q-marks backend piece ps h hs = elim (Bool-cases (text_eq backend (codes "postgres"))) [
  | inl postgres ↦ rw (postgres, rewrite_from-marks 0 piece ps h hs) refl
  | inr sqlite ↦ rw sqlite refl
]

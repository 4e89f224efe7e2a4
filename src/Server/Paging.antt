-- ===== src/Server/Paging.antt =====
-- The paging helpers of internal/server/ui.go. A page size below 0, which the code treats as 0, is
-- not a natural number.
use golink_url_shortener.Base.{
  ltb, ◌==◌, if◌then◌else◌, ==_iff, ℕ, zero, suc, ◌+◌, ◌-◌, ◌*◌, ◌/◌, ◌%◌, ◌≤◌, ◌<◌, ◌≡◌, refl,
  false, Option, none, some, arith,
}

unfoldable pub total_pages : ℕ → ℕ → ℕ
total_pages total page_size =
    if page_size == 0
    then 1
    else let pages =
        (if total % page_size == 0 then total / page_size else total / page_size + 1) in
      if pages == 0 then 1 else pages

-- strconv.Atoi gives `none` for an error, and for a number below 0, which the code treats alike.
unfoldable pub page_param : Option ℕ → ℕ
page_param none = 1
page_param (some p) = if ltb p 1 then 1 else p

-- A page has numbers from `start` to `end`. In the source `end` is an int, which is below `start`
-- on an empty page.
unfoldable pub page_range : ℕ → ℕ → ℕ → ℕ → ℕ × ℕ
page_range page page_size page_len total =
    if total == 0
    then (0, 0)
    else ((page - 1) * page_size + 1, (page - 1) * page_size + 1 + page_len - 1)

quotient : (total p : ℕ) → 0 < p → (total / p * p + total % p ≡ total) × (total % p < p)
quotient total p h = (omega arith, omega arith)

-- The count of pages from the quotient and the remainder.
pages_of : ℕ → ℕ → ℕ
pages_of q r = let pages = (if r == 0 then q else q + 1) in if pages == 0 then 1 else pages

pages_more : (q r : ℕ) → pages_of q (suc r) ≡ q + 1
unfolding pages_of
pages_more q r = ground arith

pages_same : (q : ℕ) → pages_of (suc q) 0 ≡ suc q
unfolding pages_of
pages_same q = ground arith

pages_of-cover :
    (q r p total : ℕ)
    → q * p + r ≡ total
    → r < p
    → (total ≤ pages_of q r * p)
      × ((0 < total → (pages_of q r - 1) * p < total) × (total ≡ 0 → pages_of q r ≡ 1))
unfolding pages_of
pages_of-cover zero zero p total e h = (omega arith, ((λ k. omega arith), (λ k. refl)))
pages_of-cover zero (suc r) p total e h =
    let same : pages_of 0 (suc r) ≡ 1 = pages_more 0 r in
    rw same (omega arith, ((λ k. omega arith), (λ k. omega arith)))
pages_of-cover (suc q) zero p total e h =
    let same : pages_of (suc q) 0 ≡ suc q = pages_same q in
    let before : suc q - 1 ≡ q = omega arith in
    let more : suc q * p ≡ q * p + p = omega arith in
    rw (same, before) (omega arith, ((λ k. omega arith), (λ k. omega arith)))
pages_of-cover (suc q) (suc r) p total e h =
    let same : pages_of (suc q) (suc r) ≡ suc q + 1 = pages_more (suc q) r in
    let before : suc q + 1 - 1 ≡ suc q = omega arith in
    rw (same, before) (omega arith, ((λ k. omega arith), (λ k. omega arith)))

-- The pages hold all the items, and one page fewer would not; an empty list has one page.
pub total_pages-cover :
    (total page_size : ℕ)
    → 0 < page_size
    → (total ≤ total_pages total page_size * page_size)
      × ((0 < total → (total_pages total page_size - 1) * page_size < total)
          × (total ≡ 0 → total_pages total page_size ≡ 1))
unfolding total_pages pages_of
total_pages-cover total page_size h =
    let (e, small) = quotient total page_size h in
    let some_size : (page_size == 0) ≡ false = ground (arith, ==_iff page_size 0) in
    rw some_size (pages_of-cover (total / page_size) (total % page_size) page_size total e small)

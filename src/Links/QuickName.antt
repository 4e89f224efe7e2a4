-- ===== src/Links/QuickName.antt =====
-- internal/links/quicklink.go. The random numbers are a list that crypto/rand yields; `none` in it
-- is a failure of the source of randomness.
use golink_url_shortener.Base.{
  ltb, if◌then◌else◌, length, all, Text, codes, is_empty, is_upper, is_lower, is_digit, lower,
  to_lower, ℕ, zero, suc, ◌%◌, ◌<◌, ◌≡◌, refl, Bool, true, false, ◌||◌, Option, none, some, List,
  [], ◌∷◌, arith,
}
use mathlib.Core.Path.{subst}
use golink_url_shortener.Links.Validate.{
  is_name_char, valid_name, is_reserved, validate_name, reserved_name,
}

abbrev pub quick_link_chars : Text
quick_link_chars = codes "abcdefghijklmnopqrstuvwxyz0123456789"

-- The character at an index, 0 outside.
unfoldable pub char_at : Text → ℕ → ℕ
char_at [] i = 0
char_at (c ∷ s) zero = c
char_at (c ∷ s) (suc i) = char_at s i

-- The loop: one draw below 36 for each character.
unfoldable pub draw_chars : ℕ → List (Option ℕ) → Option Text
draw_chars zero draws = some []
draw_chars (suc n) [] = none
draw_chars (suc n) (none ∷ draws) = none
draw_chars (suc n) (some k ∷ draws) = elim (draw_chars n draws) [
  | none ↦ none
  | some rest ↦ some (char_at quick_link_chars (k % 36) ∷ rest)
]

unfoldable pub generate_quick_name : ℕ → List (Option ℕ) → Option Text
unfolding draw_chars
generate_quick_name len draws = draw_chars (if ltb len 1 then 6 else len) draws

-- The characters of a random name.
abbrev is_quick : ℕ → Bool
is_quick c = is_lower c || is_digit c

char_at-all :
    (p : ℕ → Bool) (s : Text) (i : ℕ) → all p s ≡ true → i < length s → p (char_at s i) ≡ true
unfolding char_at
char_at-all p [] i h k = absurd (omega arith)
char_at-all p (c ∷ s) zero h k = ground arith
char_at-all p (c ∷ s) (suc i) h k = char_at-all p s i (ground arith) (omega arith)

drawn-quick : (k : ℕ) → is_quick (char_at quick_link_chars (k % 36)) ≡ true
unfolding is_lower is_digit
drawn-quick k = char_at-all is_quick quick_link_chars (k % 36) refl (omega arith)

draw_chars-all :
    (n : ℕ) (draws : List (Option ℕ)) (name : Text)
    → draw_chars n draws ≡ some name
    → (length name ≡ n) × (all is_quick name ≡ true)
unfolding draw_chars
draw_chars-all zero draws [] h = (refl, refl)
draw_chars-all zero draws (c ∷ name) h = absurd (ground arith)
draw_chars-all (suc n) [] name h = absurd (ground arith)
draw_chars-all (suc n) (none ∷ draws) name h = absurd (ground arith)
draw_chars-all (suc n) (some k ∷ draws) name h =
    go (draw_chars n draws) (draw_chars-all n draws) name h
  where
    c : ℕ
    c = char_at quick_link_chars (k % 36)

    go :
        (o : Option Text)
        → ((rest : Text) → o ≡ some rest → (length rest ≡ n) × (all is_quick rest ≡ true))
        → (name : Text)
        → (elim o as (λ _. Option Text) [ none ↦ none | some rest ↦ some (c ∷ rest) ]) ≡ some name
        → (length name ≡ suc n) × (all is_quick name ≡ true)
    go none ih name e = absurd (ground arith)
    go (some rest) ih name e =
        let (len, quick) = ih rest refl in
        subst (λ s. (length s ≡ suc n) × (all is_quick s ≡ true)) (some_inj e)
          (omega (arith, len), rw (drawn-quick k, quick) refl)
      where
        some_inj : {s : Text} → ◌≡◌ {A = Option Text} (some (c ∷ rest)) (some s) → c ∷ rest ≡ s
        some_inj e = cc

quick_lower : (s : Text) → all is_quick s ≡ true → to_lower s ≡ s
unfolding to_lower lower is_upper is_lower is_digit
quick_lower [] h = refl
quick_lower (c ∷ s) h = rw (quick_lower s (ground arith)) (ground arith)

quick_valid : (s : Text) → all is_quick s ≡ true → all is_name_char s ≡ true
unfolding is_name_char
quick_valid [] h = refl
quick_valid (c ∷ s) h = ground (arith, quick_valid s)

-- A random name has the length asked for, 6 where that is 0, is in lower case, and is a name that
-- ValidateName accepts unless it happens to be reserved.
pub generate_quick_name-valid :
    (len : ℕ) (draws : List (Option ℕ)) (name : Text)
    → generate_quick_name len draws ≡ some name
    → (length name ≡ (if ltb len 1 then 6 else len))
      × (to_lower name ≡ name)
      × (validate_name name ≡ (if is_reserved name then some reserved_name else none))
unfolding generate_quick_name validate_name valid_name is_empty
generate_quick_name-valid len draws name h =
    let (size, quick) = draw_chars-all (if ltb len 1 then 6 else len) draws name h in
    let same = quick_lower name quick in
    let some_char : 0 < length name = ground (arith, size) in
    (size, same, rw (same, quick_valid name quick, not_empty name some_char) refl)
  where
    not_empty : (s : Text) → 0 < length s → is_empty s ≡ false
    not_empty [] k = absurd (omega arith)
    not_empty (c ∷ s) k = refl

-- ===== src/Links/Target.antt =====
-- What internal/links/validate.go accepts.
use golink_url_shortener.Base.{
  all, Text, codes, is_empty, is_upper, is_lower, is_digit, lower, to_lower, strip_prefix,
  has_prefix, to_lower_idem, has_prefix_iff, ℕ, ◌≡◌, refl, ◌↔◌, ◌⊎◌, inl, inr, true, false, none,
  [], ◌∷◌, ◌++◌, arith,
}
use golink_url_shortener.Links.Validate.{is_name_char, valid_name, validate_name, validate_target}

is_name_char-lower : (c : ℕ) → is_name_char c ≡ true → is_name_char (lower c) ≡ true
unfolding is_name_char lower is_upper is_lower is_digit
is_name_char-lower c h = ground arith

all-to_lower : (s : Text) → all is_name_char s ≡ true → all is_name_char (to_lower s) ≡ true
unfolding to_lower
all-to_lower [] h = refl
all-to_lower (c ∷ s) h = ground (arith, is_name_char-lower c, all-to_lower s)

is_empty-to_lower : (s : Text) → is_empty (to_lower s) ≡ is_empty s
unfolding to_lower is_empty
is_empty-to_lower [] = refl
is_empty-to_lower (c ∷ s) = refl

-- An accepted name is stored under its lower case, which is accepted too.
pub validate_name-to_lower :
    (name : Text) → validate_name name ≡ none → validate_name (to_lower name) ≡ none
unfolding validate_name valid_name
validate_name-to_lower name h =
    ground (arith, is_empty-to_lower name, all-to_lower name, to_lower_idem name)

-- Two texts that begin alike: a text beginning with `http` begins with none of the three schemes
-- that are refused.
not_two_prefixes :
    (s : Text)
    → has_prefix s (codes "http") ≡ true
    → (has_prefix s (codes "javascript:") ≡ false)
      × (has_prefix s (codes "data:") ≡ false)
      × (has_prefix s (codes "vbscript:") ≡ false)
unfolding has_prefix strip_prefix
not_two_prefixes [] h = ground arith
not_two_prefixes (c ∷ s) h = ground arith

http_prefix :
    (s : Text)
    → (has_prefix s (codes "http://") ≡ true) ⊎ (has_prefix s (codes "https://") ≡ true)
    → has_prefix s (codes "http") ≡ true
http_prefix s (inl h) =
    let (r, e) = (has_prefix_iff s (codes "http://")).0 h in
    (has_prefix_iff s (codes "http")).1 (codes "://" ++ r, e)
http_prefix s (inr h) =
    let (r, e) = (has_prefix_iff s (codes "https://")).0 h in
    (has_prefix_iff s (codes "http")).1 (codes "s://" ++ r, e)

has_prefix-nonempty : (s : Text) → has_prefix s (codes "http") ≡ true → is_empty s ≡ false
unfolding has_prefix strip_prefix is_empty
has_prefix-nonempty [] h = ground arith
has_prefix-nonempty (c ∷ s) h = refl

-- A target is accepted exactly when it begins, in any case, with http:// or https://. The test
-- for dangerous schemes refuses nothing that the last test would let through.
pub validate_target_iff :
    (target : Text)
    → (validate_target target ≡ none) ↔ (
        (has_prefix (to_lower target) (codes "http://") ≡ true)
        ⊎ (has_prefix (to_lower target) (codes "https://") ≡ true))
unfolding validate_target
validate_target_iff target = (to, from)
  where
    to :
        validate_target target ≡ none
        → (has_prefix (to_lower target) (codes "http://") ≡ true)
          ⊎ (has_prefix (to_lower target) (codes "https://") ≡ true)
    to h = ground arith

    from :
        (has_prefix (to_lower target) (codes "http://") ≡ true)
          ⊎ (has_prefix (to_lower target) (codes "https://") ≡ true)
        → validate_target target ≡ none
    from h =
        let p = http_prefix (to_lower target) h in
        ground (
          arith,
          not_two_prefixes (to_lower target) p,
          is_empty-to_lower target,
          has_prefix-nonempty (to_lower target) p,
          h,
        )

-- ===== src/Redirect/Safety.antt =====
-- Where a resolved link can lead.
use golink_url_shortener.Base.{
  ◌==◌, Bool-cases, all, Text, codes, is_empty, to_lower, has_prefix, trim_left, trim_right,
  is_empty_iff, ℕ, ◌≡◌, refl, ap, ◌∙◌, ◌⊎◌, inl, inr, Bool, true, false, ◌&&◌, none, [], ◌∷◌, ◌++◌,
  arith,
}
use golink_url_shortener.Base.{ok}
use golink_url_shortener.Links.Validate.{validate_target}
use golink_url_shortener.Links.Target.{validate_target_iff}
use golink_url_shortener.Redirect.Simple.{is_slash, join_path}
use golink_url_shortener.Redirect.Advanced.{
  RegexpPackage, TemplatePackage, TemplateVars, resolve_advanced,
}

-- Whatever the template produces, an advanced link resolves only to a URL that begins, in any
-- case, with http:// or https://.
pub resolve_advanced-http :
    (re : RegexpPackage) (tmpl : TemplatePackage) (source : Text) (vars : TemplateVars) (r : Text)
    → resolve_advanced re tmpl source vars ≡ ok r
    → (has_prefix (to_lower r) (codes "http://") ≡ true)
      ⊎ (has_prefix (to_lower r) (codes "https://") ≡ true)
unfolding resolve_advanced
resolve_advanced-http re tmpl source vars r h = (validate_target_iff r).0 valid
  where
    valid : validate_target r ≡ none
    valid = ground arith

unfoldable pub last_is : ℕ → Text → Bool
last_is k [] = false
last_is k (c ∷ []) = c == k
last_is k (c ∷ d ∷ s) = last_is k (d ∷ s)

unfoldable pub first_is : ℕ → Text → Bool
first_is k [] = false
first_is k (c ∷ s) = c == k

last_is-cons :
    (c : ℕ) (s : Text)
    → last_is b'/' s ≡ false
    → (is_empty s && (c == b'/')) ≡ false
    → last_is b'/' (c ∷ s) ≡ false
unfolding last_is is_empty
last_is-cons c [] h k = k
last_is-cons c (d ∷ s) h k = h

trim_right-last : (s : Text) → last_is b'/' (trim_right is_slash s) ≡ false
unfolding trim_right
trim_right-last [] = unfold last_is in refl
trim_right-last (c ∷ s) = elim (Bool-cases (is_empty (trim_right is_slash s) && (c == b'/'))) [
  | inl gone ↦ rw gone (unfold last_is in refl)
  | inr kept ↦ rw kept (last_is-cons c (trim_right is_slash s) (trim_right-last s) kept)
]

trim_left-first : (s : Text) → first_is b'/' (trim_left is_slash s) ≡ false
unfolding trim_left first_is
trim_left-first [] = refl
trim_left-first (c ∷ s) = ground (arith, trim_left-first s)

trim_left-split :
    (s : Text) → (gone : Text) × (s ≡ gone ++ trim_left is_slash s) × (all is_slash gone ≡ true)
unfolding trim_left
trim_left-split [] = ([], refl, refl)
trim_left-split (c ∷ s) = elim (Bool-cases (c == b'/')) [
  | inl slash ↦
      let (gone, e, h) = trim_left-split s in (c ∷ gone, rw slash (ap (◌∷◌ c) e), ground arith)
  | inr other ↦ ([], rw other, refl)
]

trim_right-split :
    (s : Text) → (gone : Text) × (s ≡ trim_right is_slash s ++ gone) × (all is_slash gone ≡ true)
unfolding trim_right
trim_right-split [] = ([], refl, refl)
trim_right-split (c ∷ s) =
    let (gone, e, h) = trim_right-split s in
    elim (Bool-cases (is_empty (trim_right is_slash s) && (c == b'/'))) [
      | inl slash ↦ (
        c ∷ gone,
        rw slash (ap (◌∷◌ c) (e ∙ ap (λ r. r ++ gone) ((is_empty_iff _).0 (ground arith)))),
        ground arith,
      )
      | inr kept ↦ (gone, rw kept (ap (◌∷◌ c) e), h)
    ]

-- The path of a simple link and the suffix of the request are joined by exactly one slash: only
-- slashes are dropped, those at the end of the path and those in front of the suffix.
pub join_path-seam :
    (path suffix : Text)
    → (base : Text) × (rest : Text) × (left : Text) × (right : Text) × (join_path path suffix
        ≡ base ++ b'/' ∷ rest)
      × (path ≡ base ++ left)
      × (suffix ≡ right ++ rest)
      × (all is_slash left ≡ true)
      × (all is_slash right ≡ true)
      × (last_is b'/' base ≡ false)
      × (first_is b'/' rest ≡ false)
unfolding join_path
join_path-seam path suffix =
    let (left, split_path, slashes) = trim_right-split path in
    let (right, split_suffix, more) = trim_left-split suffix in
    (
      trim_right is_slash path,
      trim_left is_slash suffix,
      left,
      right,
      refl,
      split_path,
      split_suffix,
      slashes,
      more,
      trim_right-last path,
      trim_left-first suffix,
    )

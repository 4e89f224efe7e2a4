-- ===== src/Base/StringLaws.antt =====
-- Laws of the text functions.
use mathlib.Core.Path.{◌≡◌, refl, ap, subst}
use mathlib.Core.Logic.{◌↔◌, inl, inr}
use Prim.Native.Nat.{ℕ}
use mathlib.Core.Bool.{true}
use mathlib.Core.List.{[], ◌∷◌, ◌++◌}
use mathlib.Core.Option.{Option, none, some}
use native.Mathlib.Omega.{arith}
use golink_url_shortener.Base.Tests.{Option-cases}
use golink_url_shortener.Base.Strings.{
  Text, text_eq, is_empty, lower, to_lower, equal_fold, strip_prefix, has_prefix, strip_suffix,
  has_suffix,
}

pub text_eq-eq : (s t : Text) → text_eq s t ≡ true → s ≡ t
unfolding text_eq
text_eq-eq [] [] h = refl
text_eq-eq [] (d ∷ t) h = cc
text_eq-eq (c ∷ s) [] h = cc
text_eq-eq (c ∷ s) (d ∷ t) h = ground (arith, text_eq-eq s t)

pub text_eq_refl : (s : Text) → text_eq s s ≡ true
unfolding text_eq
text_eq_refl [] = refl
text_eq_refl (c ∷ s) = ground (arith, text_eq_refl s)

-- The test decides equality.
pub text_eq_iff : (s t : Text) → (text_eq s t ≡ true) ↔ (s ≡ t)
text_eq_iff s t = (text_eq-eq s t, λ e. subst (λ x. text_eq s x ≡ true) e (text_eq_refl s))

pub is_empty_iff : (s : Text) → (is_empty s ≡ true) ↔ (s ≡ [])
unfolding is_empty
is_empty_iff [] = ground arith
is_empty_iff (c ∷ s) = ground arith

pub lower_idem : (c : ℕ) → lower (lower c) ≡ lower c
unfolding lower
lower_idem c = ground arith

pub to_lower_idem : (s : Text) → to_lower (to_lower s) ≡ to_lower s
unfolding to_lower
to_lower_idem [] = refl
to_lower_idem (c ∷ s) = cc (lower_idem c, to_lower_idem s)

pub to_lower-append : (s t : Text) → to_lower (s ++ t) ≡ to_lower s ++ to_lower t
unfolding to_lower
to_lower-append [] t = refl
to_lower-append (c ∷ s) t = ap (◌∷◌ (lower c)) (to_lower-append s t)

pub equal_fold_iff : (s t : Text) → (equal_fold s t ≡ true) ↔ (to_lower s ≡ to_lower t)
unfolding equal_fold
equal_fold_iff s t = text_eq_iff (to_lower s) (to_lower t)

-- A prefix that is stripped is there.
pub strip_prefix-eq : (s p : Text) {r : Text} → strip_prefix s p ≡ some r → s ≡ p ++ r
unfolding strip_prefix
strip_prefix-eq s [] h = ground arith
strip_prefix-eq [] (d ∷ p) h = cc
strip_prefix-eq (c ∷ s) (d ∷ p) {r} h = ground (arith, strip_prefix-eq s p {r = r})

pub strip_prefix-append : (p r : Text) → strip_prefix (p ++ r) p ≡ some r
unfolding strip_prefix
strip_prefix-append [] r = refl
strip_prefix-append (c ∷ p) r = ground (arith, strip_prefix-append p r)

pub has_prefix_iff : (s p : Text) → (has_prefix s p ≡ true) ↔ ((r : Text) × (s ≡ p ++ r))
unfolding has_prefix
has_prefix_iff s p = (to, λ e. from e.0 e.1)
  where
    to : has_prefix s p ≡ true → (r : Text) × (s ≡ p ++ r)
    to h = go (strip_prefix s p) refl
      where
        go : (o : Option Text) → strip_prefix s p ≡ o → (r : Text) × (s ≡ p ++ r)
        go none e = absurd (ground arith)
        go (some r) e = (r, strip_prefix-eq s p e)

    from : (r : Text) → s ≡ p ++ r → has_prefix s p ≡ true
    from r e = ground (arith, strip_prefix-append p r)

pub strip_suffix-eq : (s t : Text) {r : Text} → strip_suffix s t ≡ some r → s ≡ r ++ t
unfolding strip_suffix
strip_suffix-eq [] t h = ground (arith, is_empty_iff t)
strip_suffix-eq (c ∷ s) t {r} h = elim (Option-cases (strip_suffix s t)) [
  | inl missing ↦ ground (arith, text_eq_iff (c ∷ s) t)
  | inr (q, found) ↦ ground (arith, text_eq_iff (c ∷ s) t, strip_suffix-eq s t found)
]

has_suffix_self : (t : Text) → has_suffix t t ≡ true
unfolding has_suffix strip_suffix is_empty
has_suffix_self [] = refl
has_suffix_self (c ∷ t) = ground (arith, text_eq_refl (c ∷ t))

has_suffix-append : (r t : Text) → has_suffix (r ++ t) t ≡ true
unfolding has_suffix strip_suffix
has_suffix-append [] t = has_suffix_self t
has_suffix-append (c ∷ r) t = ground (arith, has_suffix-append r t)

pub has_suffix_iff : (s t : Text) → (has_suffix s t ≡ true) ↔ ((r : Text) × (s ≡ r ++ t))
unfolding has_suffix
has_suffix_iff s t = (to (strip_suffix s t) refl, λ e. rw e.1 (has_suffix-append e.0 t))
  where
    to :
        (o : Option Text) → strip_suffix s t ≡ o → has_suffix s t ≡ true → (r : Text) × (s ≡ r ++ t)
    to none e h = absurd (ground arith)
    to (some r) e h = (r, strip_suffix-eq s t e)

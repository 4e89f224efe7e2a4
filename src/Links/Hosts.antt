-- ===== src/Links/Hosts.antt =====
-- What the domain patterns of internal/links/advanced_domains.go match.
use golink_url_shortener.Base.{
  ◌==◌, Bool-cases, Option-cases, length, all, length-append, all-append, Text, codes, text_eq,
  is_empty, is_upper, is_lower, is_digit, lower, to_lower, strip_prefix, strip_suffix, text_eq-eq,
  text_eq_refl, text_eq_iff, is_empty_iff, strip_suffix-eq, ℕ, ◌<◌, ◌≡◌, refl, ap, ◌≢◌, ◌↔◌, inl,
  inr, true, false, none, some, [], ◌∷◌, ◌++◌, arith,
}
use golink_url_shortener.Links.Domains.{
  is_host_char, validate_hostname, validate_domain_pattern, is_subdomain_char, valid_subdomain,
  matches_lower, matches_domain_pattern,
}

text_eq_longer : (r t : Text) → length t < length r → text_eq r t ≡ false
text_eq_longer r t h = elim (Bool-cases (text_eq r t)) [
  | inl same ↦ absurd (omega (arith, ap (length {A = ℕ}) (text_eq-eq r t same)))
  | inr other ↦ other
]

strip_suffix_self : (t : Text) → strip_suffix t t ≡ some []
unfolding strip_suffix is_empty
strip_suffix_self [] = refl
strip_suffix_self (c ∷ t) = ground (arith, text_eq_refl (c ∷ t))

strip_suffix-append : (r t : Text) → strip_suffix (r ++ t) t ≡ some r
unfolding strip_suffix
strip_suffix-append [] t = strip_suffix_self t
strip_suffix-append (c ∷ r) t = ground (
  arith,
  text_eq_longer (c ∷ r ++ t) t (omega (arith, length-append r t)),
  strip_suffix-append r t,
)

valid_subdomain_iff :
    (s : Text) → (valid_subdomain s ≡ true) ↔ ((s ≢ []) × (all is_subdomain_char s ≡ true))
unfolding valid_subdomain
valid_subdomain_iff s = ground (arith, is_empty_iff s)

to_lower-wildcard : (base : Text) → to_lower (codes "*." ++ base) ≡ codes "*." ++ to_lower base
unfolding to_lower lower is_upper
to_lower-wildcard base = refl

module _ (host base : Text) where
  abbrev Splits : Type 0
  Splits =
      (sub : Text) × (sub ≢ []) × (all is_subdomain_char sub ≡ true) × (host ≡ sub ++ b'.' ∷ base)

  matches_lower-Splits : matches_lower host (codes "*." ++ base) ≡ true → Splits
  unfolding matches_lower strip_prefix
  matches_lower-Splits h = elim (Option-cases (strip_suffix host (b'.' ∷ base))) [
    | inl missing ↦ absurd (ground arith)
    | inr (sub, found) ↦
        let ok = (valid_subdomain_iff sub).0 (ground arith) in
        (sub, ok.0, ok.1, strip_suffix-eq host (b'.' ∷ base) found)
  ]

  Splits-matches_lower : Splits → matches_lower host (codes "*." ++ base) ≡ true
  unfolding matches_lower strip_prefix
  Splits-matches_lower (sub, h, k, e) =
      rw e
        (ground (arith, strip_suffix-append sub (b'.' ∷ base), (valid_subdomain_iff sub).1 (h, k)))

-- A wildcard pattern matches exactly the hosts, in any case, that consist of a subdomain, a dot
-- and the base domain, where the subdomain is not empty and has hostname characters only.
pub matches_domain_pattern-wildcard :
    (host base : Text)
    → (matches_domain_pattern host (codes "*." ++ base) ≡ true) ↔ (
        (sub : Text) × (sub ≢ [])
        × (all is_subdomain_char sub ≡ true)
        × (to_lower host ≡ sub ++ b'.' ∷ to_lower base))
unfolding matches_domain_pattern
matches_domain_pattern-wildcard host base = rw (to_lower-wildcard base) (
  matches_lower-Splits (to_lower host) (to_lower base),
  Splits-matches_lower (to_lower host) (to_lower base),
)

is_host_char-lower : (c : ℕ) → is_host_char (lower c) ≡ is_host_char c
unfolding is_host_char lower is_upper is_lower is_digit
is_host_char-lower c = ground arith

all-to_lower : (s : Text) → all is_host_char (to_lower s) ≡ all is_host_char s
unfolding to_lower
all-to_lower [] = refl
all-to_lower (c ∷ s) = ground (arith, is_host_char-lower c, all-to_lower s)

is_subdomain_char-host : (c : ℕ) → is_subdomain_char c ≡ true → is_host_char c ≡ true
unfolding is_subdomain_char is_host_char
is_subdomain_char-host c h = ground arith

all-subdomain-host : (s : Text) → all is_subdomain_char s ≡ true → all is_host_char s ≡ true
all-subdomain-host [] h = refl
all-subdomain-host (c ∷ s) h = ground (arith, is_subdomain_char-host c, all-subdomain-host s)

-- `*.` stays in front under lower case, and nothing else becomes it.
lower_star : (c k : ℕ) → k < 65 → (lower c == k) ≡ (c == k)
unfolding lower is_upper
lower_star c k h = ground arith

strip_prefix-to_lower :
    (p : Text) {base : Text}
    → strip_prefix (to_lower p) (codes "*.") ≡ some base
    → (b : Text) × (strip_prefix p (codes "*.") ≡ some b) × (base ≡ to_lower b)
unfolding strip_prefix to_lower
strip_prefix-to_lower [] h = absurd (ground arith)
strip_prefix-to_lower (c ∷ []) h = absurd (ground arith)
strip_prefix-to_lower (c ∷ d ∷ p) h = (
  p,
  ground (arith, lower_star c b'*' (omega arith), lower_star d b'.' (omega arith)),
  ground (arith, lower_star c b'*' (omega arith), lower_star d b'.' (omega arith)),
)

strip_prefix-to_lower-none :
    (p : Text) → strip_prefix (to_lower p) (codes "*.") ≡ none → strip_prefix p (codes "*.") ≡ none
unfolding strip_prefix to_lower
strip_prefix-to_lower-none [] h = refl
strip_prefix-to_lower-none (c ∷ []) h = ground (arith, lower_star c b'*' (omega arith))
strip_prefix-to_lower-none (c ∷ d ∷ p) h =
    ground (arith, lower_star c b'*' (omega arith), lower_star d b'.' (omega arith))

matched_wildcard :
    (host base b : Text)
    → strip_suffix host (b'.' ∷ base) ≡ some b
    → all is_subdomain_char b ≡ true
    → all is_host_char base ≡ true
    → all is_host_char host ≡ true
unfolding is_host_char
matched_wildcard host base b found sub h =
    rw (strip_suffix-eq host (b'.' ∷ base) found)
      (ground (arith, all-append is_host_char b (b'.' ∷ base), all-subdomain-host b sub))

-- A host that matches a pattern which the configuration accepts has hostname characters only.
pub matches_domain_pattern_host :
    (host pattern : Text)
    → validate_domain_pattern pattern ≡ none
    → matches_domain_pattern host pattern ≡ true
    → all is_host_char host ≡ true
unfolding matches_domain_pattern matches_lower validate_domain_pattern validate_hostname
matches_domain_pattern_host host pattern valid h =
    elim (Option-cases (strip_prefix (to_lower pattern) (codes "*."))) [
      | inl plain ↦ ground (
        arith,
        strip_prefix-to_lower-none pattern plain,
        text_eq_iff (to_lower host) (to_lower pattern),
        all-to_lower host,
        all-to_lower pattern,
        ap (all is_host_char) (text_eq-eq (to_lower host) (to_lower pattern) (ground arith)),
      )
      | inr (base, wild) ↦ wildcard base wild
    ]
  where
    wildcard :
        (base : Text)
        → strip_prefix (to_lower pattern) (codes "*.") ≡ some base
        → all is_host_char host ≡ true
    wildcard base wild =
        let (b, plain, same) = strip_prefix-to_lower pattern wild in
        elim (Option-cases (strip_suffix (to_lower host) (b'.' ∷ base))) [
          | inl missing ↦ absurd (ground arith)
          | inr (sub, found) ↦ ground (
            arith,
            matched_wildcard (to_lower host) base sub found,
            valid_subdomain_iff sub,
            all-to_lower host,
            all-to_lower b,
            ap (all is_host_char) same,
          )
        ]

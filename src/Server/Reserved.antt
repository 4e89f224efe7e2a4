-- ===== src/Server/Reserved.antt =====
-- The names that internal/links/validate.go reserves, and the routes of internal/server/server.go.
use golink_url_shortener.Base.{
  Bool-cases, Option-cases, any, all, keep, Text, codes, text_eq, is_empty, is_upper, is_lower,
  is_digit, lower, to_lower, strip_prefix, has_prefix, break_at, text_eq-eq, ◌≡◌, refl, ap, ◌∙◌,
  ◌↔◌, inl, inr, Bool, true, false, not, ◌&&◌, ◌||◌, none, some, List, [], ◌∷◌, map, arith,
}
use golink_url_shortener.Links.Validate.{is_name_char, valid_name, is_reserved, validate_name}
use golink_url_shortener.Server.PageRoutes.{
  open_pattern, page_pattern, api_pattern, patterns, first_segment,
}

-- A path parameter of chi.
abbrev pub is_parameter : Text → Bool
is_parameter s = has_prefix s (codes "{")

-- The first segments of the routes that are neither parameters nor empty: a request whose path has
-- exactly such a segment is not a redirect.
abbrev pub static_segments : List Text
static_segments = keep (λ s. not (is_empty s) && not (is_parameter s)) (map first_segment patterns)

-- The names that reservedNames misses.
abbrev pub missed : List Text
missed = codes "favicon.ico" ∷ codes "importexport" ∷ codes "reassign" ∷ []

-- A segment is reserved or missed.
abbrev known : Text → Bool
known s = is_reserved (to_lower s) || any (text_eq s) missed

all-known : all known static_segments ≡ true
unfolding open_pattern page_pattern api_pattern first_segment break_at has_prefix strip_prefix
    is_empty is_reserved to_lower lower is_upper text_eq
all-known = refl

missed_static : all (λ s. any (text_eq s) static_segments) missed ≡ true
unfolding open_pattern page_pattern api_pattern first_segment break_at has_prefix strip_prefix
    is_empty text_eq
missed_static = refl

not_reserved : (name : Text) → validate_name name ≡ none → is_reserved (to_lower name) ≡ false
unfolding validate_name
not_reserved name h = ground arith

-- A name equals a segment of a list only if a test that all segments pass holds of the name.
any-all :
    (p : Text → Bool) (name : Text) (ss : List Text)
    → all p ss ≡ true
    → any (text_eq name) ss ≡ true
    → p name ≡ true
any-all p name [] h k = absurd (ground arith)
any-all p name (s ∷ ss) h k = elim (Bool-cases (text_eq name s)) [
  | inl same ↦ ap p (text_eq-eq name s same) ∙ ground arith
  | inr other ↦ any-all p name ss (ground arith) (ground arith)
]

abbrev is_accepted : Text → Bool
is_accepted s = elim (validate_name s) [ none ↦ true | some e ↦ false ]

missed_accepted : all is_accepted missed ≡ true
unfolding validate_name valid_name is_name_char is_reserved is_empty is_lower is_upper is_digit
    to_lower lower text_eq
missed_accepted = refl

is_accepted-none : (name : Text) → is_accepted name ≡ true → validate_name name ≡ none
is_accepted-none name h = elim (Option-cases (validate_name name)) [
  | inl accepted ↦ accepted
  | inr (e, refused) ↦ absurd (ground arith)
]

-- The names that ValidateName accepts and that are a static first segment of another route than the
-- redirects are exactly favicon.ico, importexport and reassign.
pub validate_name-shadowed :
    (name : Text)
    → ((validate_name name ≡ none) × (any (text_eq name) static_segments ≡ true))
      ↔ (any (text_eq name) missed ≡ true)
validate_name-shadowed name = (
  λ (h, taken).
      let k = any-all known name static_segments all-known taken in
      let free = not_reserved name h in ground arith,
  λ listed. (
    is_accepted-none name (any-all is_accepted name missed missed_accepted listed),
    any-all (λ s. any (text_eq s) static_segments) name missed missed_static listed,
  ),
)

-- ===== src/Db/Found.antt =====
-- What the patterns of a search find, in internal/db/link_repo.go.
use golink_url_shortener.Base.{
  ◌==◌, all, Text, codes, text_eq, is_empty, lower, to_lower, strip_prefix, has_prefix,
  strip_suffix, has_suffix, contains, ℕ, ◌≡◌, refl, ap, ◌∙◌, Bool, true, false, not, ◌&&◌, ◌||◌,
  none, some, [], ◌∷◌, ◌++◌, append_assoc, append-nil, arith,
}
use golink_url_shortener.Db.Search.{
  like, open_start, open_end, split_field, field_prefixes, parse_search_query,
}

-- A character that LIKE compares.
abbrev pub is_plain : ℕ → Bool
is_plain c = not (c == b'%') && not (c == b'_')

like-exact : (ps s : Text) → all is_plain ps ≡ true → like ps s ≡ text_eq (to_lower s) (to_lower ps)
unfolding like text_eq to_lower
like-exact [] [] h = refl
like-exact [] (c ∷ s) h = refl
like-exact (p ∷ ps) [] h = ground arith
like-exact (p ∷ ps) (c ∷ s) h = ground (arith, like-exact ps s)

like-prefix :
    (ps s : Text)
    → all is_plain ps ≡ true
    → like (ps ++ codes "%") s ≡ has_prefix (to_lower s) (to_lower ps)
unfolding like has_prefix strip_prefix to_lower
like-prefix [] s h = rest s
  where
    rest : (s : Text) → like (codes "%") s ≡ true
    rest [] = refl
    rest (c ∷ s) = ground (arith, rest s)
like-prefix (p ∷ ps) [] h = ground arith
like-prefix (p ∷ ps) (c ∷ s) h = ground (arith, like-prefix ps s)

has_suffix-step :
    (c : ℕ) (s t : Text) → has_suffix (c ∷ s) t ≡ (text_eq (c ∷ s) t || has_suffix s t)
unfolding has_suffix strip_suffix
has_suffix-step c s t = ground arith

like-suffix :
    (ps s : Text)
    → all is_plain ps ≡ true
    → like (b'%' ∷ ps) s ≡ has_suffix (to_lower s) (to_lower ps)
unfolding like to_lower text_eq has_suffix strip_suffix is_empty
like-suffix ps [] h = like-exact ps [] h ∙ empty (to_lower ps)
  where
    empty : (t : Text) → text_eq (to_lower []) t ≡ has_suffix (to_lower []) t
    empty [] = refl
    empty (d ∷ t) = refl
like-suffix ps (c ∷ s) h = ground (
  arith,
  like-exact ps (c ∷ s) h,
  like-suffix ps s h,
  has_suffix-step (lower c) (to_lower s) (to_lower ps),
)

like-anywhere :
    (ps s : Text)
    → all is_plain ps ≡ true
    → like (b'%' ∷ ps ++ codes "%") s ≡ contains (to_lower s) (to_lower ps)
unfolding like contains to_lower has_prefix strip_prefix is_empty
like-anywhere ps [] h = like-prefix ps [] h ∙ empty (to_lower ps)
  where
    empty : (t : Text) → has_prefix [] t ≡ contains [] t
    empty [] = refl
    empty (d ∷ t) = refl
like-anywhere ps (c ∷ s) h = ground (arith, like-prefix ps (c ∷ s) h, like-anywhere ps s h)

-- A character that means itself in a search: no wildcard of LIKE and no anchor.
abbrev pub is_literal : ℕ → Bool
is_literal c = is_plain c && not (c == b'^') && not (c == b'$')

literal_plain : (s : Text) → all is_literal s ≡ true → all is_plain s ≡ true
literal_plain [] h = refl
literal_plain (c ∷ s) h = ground (arith, literal_plain s)

-- What a search for a text finds, at the start where it is so anchored, and at the end.
abbrev pub found : Bool → Bool → Text → Text → Bool
found true true body s = text_eq s body
found true false body s = has_prefix s body
found false true body s = has_suffix s body
found false false body s = contains s body

abbrev pub mark : Bool → ℕ → Text
mark true c = c ∷ []
mark false c = []

-- The wildcard that stands where there is no anchor.
abbrev wildcard : Bool → Text
wildcard true = []
wildcard false = codes "%"

open_start-mark :
    (start stop : Bool) (body : Text)
    → all is_literal body ≡ true
    → open_start (mark start b'^' ++ (body ++ mark stop b'$'))
      ≡ (wildcard start, body ++ mark stop b'$')
unfolding open_start strip_prefix
open_start-mark true stop body h = refl
open_start-mark false true [] h = refl
open_start-mark false false [] h = refl
open_start-mark false stop (c ∷ body) h = ground arith

strip_suffix-mark :
    (body : Text)
    → all is_literal body ≡ true
    → strip_suffix (body ++ codes "$") (codes "$") ≡ some body
unfolding strip_suffix text_eq
strip_suffix-mark [] h = refl
strip_suffix-mark (c ∷ body) h = ground (arith, strip_suffix-mark body)

strip_suffix-none :
    (body : Text) → all is_literal body ≡ true → strip_suffix body (codes "$") ≡ none
unfolding strip_suffix text_eq is_empty
strip_suffix-none [] h = refl
strip_suffix-none (c ∷ body) h = ground (arith, strip_suffix-none body)

open_end-mark :
    (stop : Bool) (body : Text)
    → all is_literal body ≡ true
    → open_end (body ++ mark stop b'$') ≡ (body, wildcard stop)
unfolding open_end
open_end-mark true body h = rw (open_end, strip_suffix-mark body h) refl
open_end-mark false body h =
    ap open_end (append-nil body) ∙ rw (open_end, strip_suffix-none body h) refl

like-found :
    (start stop : Bool) (body s : Text)
    → all is_literal body ≡ true
    → like (wildcard start ++ (body ++ wildcard stop)) s
      ≡ found start stop (to_lower body) (to_lower s)
like-found true true body s h =
    ap (λ p. like p s) (append-nil body) ∙ like-exact body s (literal_plain body h)
like-found true false body s h = like-prefix body s (literal_plain body h)
like-found false true body s h =
    ap (λ p. like (b'%' ∷ p) s) (append-nil body) ∙ like-suffix body s (literal_plain body h)
like-found false false body s h = like-anywhere body s (literal_plain body h)

-- A search for a text without wildcards finds, in any case, what contains the text; where the text has
-- the anchor `^` in front, what begins with it; where it has `$` behind, what ends with it; and where
-- it has both, what equals it.
pub parse_search_query-found :
    (query body s : Text) (start stop : Bool)
    → to_lower (split_field field_prefixes query).1 ≡ mark start b'^' ++ (body ++ mark stop b'$')
    → all is_literal body ≡ true
    → like (parse_search_query query).1 s ≡ found start stop (to_lower body) (to_lower s)
unfolding parse_search_query
parse_search_query-found query body s start stop e h =
    joined (open_start (to_lower (split_field field_prefixes query).1))
    ∙ ap (λ low. pattern (open_start low)) e
    ∙ ap pattern (open_start-mark start stop body h)
    ∙ ap (λ (o : Text × Text). like (wildcard start ++ (o.0 ++ o.1)) s) (open_end-mark stop body h)
    ∙ like-found start stop body s h
  where
    pattern : Text × Text → Bool
    pattern o = like (o.0 ++ ((open_end o.1).0 ++ (open_end o.1).1)) s

    joined : (o : Text × Text) → like (o.0 ++ (open_end o.1).0 ++ (open_end o.1).1) s ≡ pattern o
    joined o = ap (λ p. like p s) (append_assoc o.0 (open_end o.1).0 (open_end o.1).1)

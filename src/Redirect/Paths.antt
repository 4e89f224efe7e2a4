-- ===== src/Redirect/Paths.antt =====
-- A link's name and a suffix come back from the path that they make.
use golink_url_shortener.Base.{
  all, Text, codes, is_upper, is_lower, is_digit, to_lower, strip_prefix, trim_prefix, break_at,
  ◌≡◌, refl, true, none, [], ◌∷◌, ◌++◌, arith,
}
use golink_url_shortener.Links.Validate.{is_name_char, valid_name, validate_name}
use golink_url_shortener.Redirect.Parse.{parse_request}

break_at-name :
    (name rest : Text)
    → all is_name_char name ≡ true
    → break_at b'/' (name ++ b'/' ∷ rest) ≡ (name, b'/' ∷ rest)
unfolding break_at is_name_char is_lower is_upper is_digit
break_at-name [] rest h = refl
break_at-name (c ∷ name) rest h = ground (arith, break_at-name name rest)

break_at-name_end : (name : Text) → all is_name_char name ≡ true → break_at b'/' name ≡ (name, [])
unfolding break_at is_name_char is_lower is_upper is_digit
break_at-name_end [] h = refl
break_at-name_end (c ∷ name) h = ground (arith, break_at-name_end name)

valid_chars : (name : Text) → validate_name name ≡ none → all is_name_char name ≡ true
unfolding validate_name valid_name
valid_chars name h = ground arith

-- The path of an accepted name, alone or followed by a slash and a rest, is parsed into the name
-- in lower case and what follows the name.
pub parse_request-path :
    (name rest : Text)
    → validate_name name ≡ none
    → (parse_request (codes "/" ++ name) ≡ (to_lower name, []))
      × (parse_request (codes "/" ++ name ++ b'/' ∷ rest) ≡ (to_lower name, b'/' ∷ rest))
unfolding parse_request trim_prefix strip_prefix
parse_request-path name rest valid = (
  ground (arith, break_at-name_end name (valid_chars name valid)),
  ground (arith, break_at-name name rest (valid_chars name valid)),
)

-- ===== src/Links/Validate.antt =====
-- internal/links/validate.go. An error is `some` of its kind, nil is `none`; the wording is left out.
use golink_url_shortener.Base.{
  ◌==◌, if◌then◌else◌, any, all, Text, codes, text_eq, is_empty, is_upper, is_lower, is_digit,
  to_lower, has_prefix, ℕ, Bool, not, ◌&&◌, ◌||◌, Option, none, some, List, [], ◌∷◌,
}

abbrev pub reserved_names : List Text
reserved_names =
    codes "new"
    ∷ codes "edit"
    ∷ codes "details"
    ∷ codes "delete"
    ∷ codes "links"
    ∷ codes "mylinks"
    ∷ codes "help"
    ∷ codes "auth"
    ∷ codes "api"
    ∷ codes "healthz"
    ∷ codes "apikeys"
    ∷ codes "import"
    ∷ codes "export"
    ∷ codes "search"
    ∷ codes "static"
    ∷ []

-- One character of `[a-zA-Z0-9\-_.]`.
unfoldable pub is_name_char : ℕ → Bool
is_name_char c = is_lower c || is_upper c || is_digit c || c == b'-' || c == b'_' || c == b'.'

-- `validNameRe.MatchString`: at least one such character, and no other.
unfoldable pub valid_name : Text → Bool
valid_name s = not (is_empty s) && all is_name_char s

pub data NameError : Type 0 where
  empty_name bad_character reserved_name : NameError

unfoldable pub is_reserved : Text → Bool
is_reserved s = any (text_eq s) reserved_names

unfoldable pub validate_name : Text → Option NameError
validate_name name =
    if is_empty name
    then some empty_name
    else if not (valid_name name)
    then some bad_character
    else if is_reserved (to_lower name)
    then some reserved_name
    else none

pub data TargetError : Type 0 where
  empty_target scheme_not_allowed scheme_not_http : TargetError

unfoldable pub validate_target : Text → Option TargetError
validate_target target =
    let low = to_lower target in
    if is_empty target
    then some empty_target
    else if has_prefix low (codes "javascript:")
        || has_prefix low (codes "data:")
        || has_prefix low (codes "vbscript:")
    then some scheme_not_allowed
    else if not (has_prefix low (codes "http://")) && not (has_prefix low (codes "https://"))
    then some scheme_not_http
    else none

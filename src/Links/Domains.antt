-- ===== src/Links/Domains.antt =====
-- internal/links/advanced_domains.go. Package net/url is the parameter `UrlPackage`.
use golink_url_shortener.Base.{
  ◌==◌, if◌then◌else◌, any, all, Text, codes, text_eq, is_empty, is_upper, is_lower, is_digit,
  to_lower, strip_prefix, strip_suffix, contains_rune, ℕ, Bool, true, false, ◌||◌, Option, none,
  some, List, [], ◌∷◌,
}

-- The parts of a *url.URL that the program reads or writes.
pub record Url : Type 0 where
  pub scheme : Text
  pub host : Text
  pub path : Text
  pub raw_query : Text
  pub fragment : Text

-- url.Parse (`none` is an error), u.Hostname() and u.String().
pub record UrlPackage : Type 0 where
  pub parse : Text → Option Url
  pub hostname : Url → Text
  pub to_string : Url → Text

pub data DomainError : Type 0 where
  no_base extra_wildcard misplaced_wildcard empty_host bad_host_character : DomainError
  no_domain domain_not_allowed : DomainError

-- The characters of a DNS hostname.
unfoldable pub is_host_char : ℕ → Bool
is_host_char c = is_lower c || is_upper c || is_digit c || c == b'-' || c == b'.'

unfoldable pub validate_hostname : Text → Option DomainError
validate_hostname s =
    if is_empty s
    then some empty_host
    else if all is_host_char s
    then none
    else some bad_host_character

unfoldable pub validate_domain_pattern : Text → Option DomainError
validate_domain_pattern pattern = elim (strip_prefix pattern (codes "*.")) [
  | some base ↦
      if is_empty base
      then some no_base
      else if contains_rune base b'*'
      then some extra_wildcard
      else validate_hostname base
  | none ↦ if contains_rune pattern b'*' then some misplaced_wildcard else validate_hostname pattern
]

-- The characters allowed in a subdomain prefix, which is in lower case already.
unfoldable pub is_subdomain_char : ℕ → Bool
is_subdomain_char c = is_lower c || is_digit c || c == b'-' || c == b'.'

-- The part of the host before the suffix of a wildcard.
unfoldable pub valid_subdomain : Text → Bool
valid_subdomain prefix = if is_empty prefix then false else all is_subdomain_char prefix

unfoldable pub matches_lower : Text → Text → Bool
matches_lower host pattern = elim (strip_prefix pattern (codes "*.")) [
  | none ↦ text_eq host pattern
  | some base ↦ elim (strip_suffix host (b'.' ∷ base)) [
    | none ↦ false
    | some prefix ↦ valid_subdomain prefix
  ]
]

unfoldable pub matches_domain_pattern : Text → Text → Bool
matches_domain_pattern host pattern = matches_lower (to_lower host) (to_lower pattern)

unfoldable pub matches_any_domain_pattern : Text → List Text → Bool
matches_any_domain_pattern host [] = true
matches_any_domain_pattern host (p ∷ ps) = any (matches_domain_pattern host) (p ∷ ps)

module _ (url : UrlPackage) where
  unfoldable pub check_advanced_link_domain : Text → List Text → Option DomainError
  check_advanced_link_domain resolved [] = none
  check_advanced_link_domain resolved (p ∷ ps) = elim (url.parse resolved) [
    | none ↦ some no_domain
    | some u ↦
        if is_empty u.host
        then some no_domain
        else if matches_any_domain_pattern (url.hostname u) (p ∷ ps)
        then none
        else some domain_not_allowed
  ]

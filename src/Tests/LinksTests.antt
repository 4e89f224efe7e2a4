-- ===== src/Tests/LinksTests.antt =====
-- internal/links at concrete inputs.
use golink_url_shortener.Base.{
  if◌then◌else◌, length, all, Text, codes, to_lower, has_prefix, ◌≡◌, refl, ◌≢◌, ◌↔◌, ◌⊎◌, true,
  none, some, [], ◌∷◌, ◌++◌,
}
use golink_url_shortener.Links.Validate.{validate_target, validate_name, is_reserved, reserved_name}
use golink_url_shortener.Links.Domains.{is_subdomain_char, matches_domain_pattern}
use golink_url_shortener.Links.Target
use golink_url_shortener.Links.QuickName
use golink_url_shortener.Links.QuickName.{generate_quick_name, draw_chars, char_at}
use golink_url_shortener.Links.Hosts

validate_target_iff_example : (validate_target (codes "HTTPS://example.com") ≡ none) ↔ (
    (has_prefix (to_lower (codes "HTTPS://example.com")) (codes "http://") ≡ true)
    ⊎ (has_prefix (to_lower (codes "HTTPS://example.com")) (codes "https://") ≡ true))
validate_target_iff_example = Target.validate_target_iff (codes "HTTPS://example.com")

matches_domain_pattern-wildcard_example :
    (matches_domain_pattern (codes "a.Example.com") (codes "*." ++ codes "example.com") ≡ true) ↔ (
      (sub : Text) × (sub ≢ [])
      × (all is_subdomain_char sub ≡ true)
      × (to_lower (codes "a.Example.com") ≡ sub ++ b'.' ∷ to_lower (codes "example.com")))
matches_domain_pattern-wildcard_example =
    Hosts.matches_domain_pattern-wildcard (codes "a.Example.com") (codes "example.com")

generate_quick_name-valid_example :
    (length (codes "a9cz") ≡ 4)
    × (to_lower (codes "a9cz") ≡ codes "a9cz")
    × (validate_name (codes "a9cz")
        ≡ (if is_reserved (codes "a9cz") then some reserved_name else none))
unfolding generate_quick_name draw_chars char_at
generate_quick_name-valid_example =
    QuickName.generate_quick_name-valid 4 (some 0 ∷ some 35 ∷ some 2 ∷ some 25 ∷ []) (codes "a9cz")
      refl

-- ===== src/Tests/RedirectTests.antt =====
-- internal/redirect at concrete inputs.
use golink_url_shortener.Base.{
  codes, text_eq, is_empty, is_upper, is_lower, is_digit, lower, to_lower, strip_prefix, has_prefix,
  is_space, trim_left, trim_right, trim_space, ◌≡◌, refl, ◌⊎◌, true, [], ◌∷◌, ◌++◌,
}
use golink_url_shortener.Links.Validate.{
  is_name_char, valid_name, is_reserved, validate_name, validate_target,
}
use golink_url_shortener.Redirect.Parse.{parse_request}
use golink_url_shortener.Redirect.Advanced.{
  zero_vars, parse_template, execute_template, remove_from, resolve_advanced,
}
use golink_url_shortener.Redirect.Paths
use golink_url_shortener.Redirect.Safety
use golink_url_shortener.Redirect.Safety.{first_is, last_is}
use golink_url_shortener.Tests.Fixtures.{regexp, template}

parse_request-path_example :
    (parse_request (codes "/" ++ codes "Docs") ≡ (codes "docs", []))
    × (parse_request (codes "/" ++ codes "Docs" ++ b'/' ∷ codes "a/b")
        ≡ (codes "docs", b'/' ∷ codes "a/b"))
unfolding validate_name valid_name is_name_char is_reserved is_empty is_upper is_lower is_digit
    to_lower lower text_eq
parse_request-path_example = Paths.parse_request-path (codes "Docs") (codes "a/b") refl

resolve_advanced-http_example :
    (has_prefix (to_lower (codes "https://a.b")) (codes "http://") ≡ true)
    ⊎ (has_prefix (to_lower (codes "https://a.b")) (codes "https://") ≡ true)
unfolding resolve_advanced parse_template execute_template remove_from validate_target has_prefix
    strip_prefix is_empty trim_space trim_left trim_right is_space to_lower lower is_upper
resolve_advanced-http_example =
    Safety.resolve_advanced-http regexp template (codes " https://a.b ") zero_vars
      (codes "https://a.b") refl

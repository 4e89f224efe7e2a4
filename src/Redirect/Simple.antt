-- ===== src/Redirect/Simple.antt =====
-- internal/redirect/simple.go.
use golink_url_shortener.Base.{
  ◌==◌, if◌then◌else◌, Text, is_empty, trim_left, trim_right, ℕ, Bool, not, ◌&&◌, ◌||◌, none, some,
  ◌∷◌, ◌++◌,
}
use golink_url_shortener.Base.{Result, ok, err}
use golink_url_shortener.Links.Domains.{Url, UrlPackage}

pub data ResolveError : Type 0 where
  invalid_target missing_scheme_or_host : ResolveError
  template_parse template_execution invalid_result : ResolveError

abbrev pub is_slash : ℕ → Bool
is_slash c = c == b'/'

-- u.Path = TrimRight(u.Path, "/") + "/" + TrimLeft(suffix, "/")
unfoldable pub join_path : Text → Text → Text
join_path path suffix = trim_right is_slash path ++ b'/' ∷ trim_left is_slash suffix

unfoldable pub join_query : Text → Text → Text
join_query raw query = if not (is_empty raw) then raw ++ b'&' ∷ query else query

-- The changes made to the parsed target.
unfoldable pub extend_url : Url → Text → Text → Url
unfolding join_path join_query
extend_url u suffix query = record u {
  path = if not (is_empty suffix) then join_path u.path suffix else u.path;
  raw_query = if not (is_empty query) then join_query u.raw_query query else u.raw_query;
}

module _ (url : UrlPackage) where
  unfoldable pub resolve_simple : Text → Text → Text → Result ResolveError Text
  unfolding extend_url
  resolve_simple target suffix query =
      if is_empty suffix && is_empty query then ok target else elim (url.parse target) [
        | none ↦ err invalid_target
        | some u ↦
            if is_empty u.scheme || is_empty u.host
            then err missing_scheme_or_host
            else ok (url.to_string (extend_url u suffix query))
      ]

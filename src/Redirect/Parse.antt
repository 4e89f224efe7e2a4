-- ===== src/Redirect/Parse.antt =====
-- internal/redirect/parse.go.
use golink_url_shortener.Base.{Text, codes, to_lower, trim_prefix, break_at}

unfoldable pub parse_request : Text → Text × Text
parse_request path =
    let parts = break_at b'/' (trim_prefix path (codes "/")) in (to_lower parts.0, parts.1)

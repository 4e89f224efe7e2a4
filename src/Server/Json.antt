-- ===== src/Server/Json.antt =====
-- internal/server/json.go.
use golink_url_shortener.Base.{
  if◌then◌else◌, Text, codes, text_eq, is_empty, to_lower, ◌≡◌, refl, ◌||◌,
}
use golink_url_shortener.Base.{Result, ok, err}
use golink_url_shortener.Db.Models.{Link, LinkType, simple, advanced, alias}
use golink_url_shortener.Server.Handler.{LinkResponse}

unfoldable pub link_type_to_string : LinkType → Text
link_type_to_string advanced = codes "advanced"
link_type_to_string alias = codes "alias"
link_type_to_string simple = codes "simple"

-- The error carries the text it is about.
unfoldable pub link_type_from_string : Text → Result Text LinkType
link_type_from_string s =
    if text_eq (to_lower s) (codes "advanced")
    then ok advanced
    else if text_eq (to_lower s) (codes "alias")
    then ok alias
    else if text_eq (to_lower s) (codes "simple") || is_empty (to_lower s)
    then ok simple
    else err s

unfoldable pub link_to_response : Link → LinkResponse
link_to_response l = record {
  name = l.name;
  target = l.target;
  owner_email = l.owner_email;
  link_type = link_type_to_string l.link_type;
  alias_target = l.alias_target;
  require_auth = l.require_auth;
  created_at = l.created_at;
  use_count = l.use_count;
}

-- The type of a link is read back from what the API prints, in whatever case it comes back.
pub link_type_from_string-to_string :
    (t : LinkType) (s : Text) → to_lower s ≡ link_type_to_string t → link_type_from_string s ≡ ok t
unfolding link_type_from_string link_type_to_string text_eq
link_type_from_string-to_string simple s h = rw h refl
link_type_from_string-to_string advanced s h = rw h refl
link_type_from_string-to_string alias s h = rw h refl

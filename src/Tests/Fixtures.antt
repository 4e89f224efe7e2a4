-- ===== src/Tests/Fixtures.antt =====
-- Concrete tables, settings and packages.
use golink_url_shortener.Base.{
  if◌then◌else◌, Text, codes, text_eq, is_empty, strip_prefix, contains_rune, contains, break_at,
  inr, true, false, ◌||◌, Option, none, some, [], ◌∷◌, ◌++◌,
}
use golink_url_shortener.Config.{Config}
use golink_url_shortener.Db.Models.{Link, simple, alias}
use golink_url_shortener.Db.Sql.{Tables, Db}
use golink_url_shortener.Links.Domains.{Url, UrlPackage}
use golink_url_shortener.Redirect.Advanced.{RegexpPackage, TemplatePackage}
use golink_url_shortener.Server.Handler.{Identity}
use golink_url_shortener.Server.Net.{NetPackage, HttpRequest}
use golink_url_shortener.Server.Redirects.{Packages}

abbrev pub docs : Link
docs = record {
  id = 1;
  name = codes "Docs";
  name_lower = codes "docs";
  target = codes "https://docs.example.com/start";
  owner_email = codes "alice@example.com";
  link_type = simple;
  alias_target = [];
  require_auth = true;
  created_at = 10;
  last_used_at = none;
  use_count = 4;
}

abbrev pub short : Link
short = record {
  id = 2;
  name = codes "d";
  name_lower = codes "d";
  target = [];
  owner_email = codes "bob@example.com";
  link_type = alias;
  alias_target = codes "docs";
  require_auth = false;
  created_at = 11;
  last_used_at = none;
  use_count = 0;
}

abbrev pub tables : Tables
tables = record {
  links = short ∷ docs ∷ [];
  shares = record { link_id = 1; shared_with_email = codes "bob@example.com" } ∷ [];
  users = [];
  api_keys = [];
  next_link_id = 3;
  next_key_id = 1;
  now = 20;
  foreign_keys = true;
}

abbrev pub db : Db
db = record { tables = tables; faults = [] }

-- The second statement to come fails.
abbrev pub faulty_db : Db
faulty_db = record { tables = tables; faults = false ∷ true ∷ [] }

abbrev pub alice : Identity
alice = record {
  email = codes "Alice@example.com";
  display_name = codes "Alice";
  avatar_url = [];
  groups = [];
  is_admin = false;
  source = codes "proxy";
  api_key_read_only = false;
}

abbrev pub bob : Identity
bob = record alice { email = codes "bob@example.com"; display_name = codes "Bob" }

abbrev pub cfg : Config
cfg = record {
  listen_addr = [];
  title = [];
  favicon_path = [];
  canonical_address = codes "https://go.example.com";
  trusted_proxy = codes "10.0.0.1" ∷ [];
  oidc = record {
    enabled = true;
    issuer = [];
    client_id = [];
    client_secret = [];
    client_secret_env_var = [];
    scopes = [];
    groups_claim = codes "groups";
    use_pkce = true;
    verified_email_claim = codes "email_verified";
  };
  proxy_auth = record {
    enabled = false;
    user_header = [];
    email_header = [];
    name_header = [];
    groups_header = [];
  };
  tailscale_enabled = false;
  anonymous_enabled = false;
  anonymous_is_admin = false;
  db_driver = [];
  db_dsn = [];
  jwt_secret = [];
  jwt_secret_env_var = [];
  quick_link_length = 0;
  cache_size = 0;
  cache_ttl = [];
  cache_ttl_duration = 0;
  max_aliases_per_link = 5;
  log_level = [];
  links_per_page = 0;
  require_auth_for_redirects = false;
  allow_advanced_links = none;
  domains_for_advanced_links = codes "*.example.com" ∷ [];
  default_domain = codes "example.com";
  required_domain = [];
  admin_emails = [];
  admin_groups = [];
}

-- URLs of the scheme https: a host, and a path from the first slash on.
abbrev pub url_of : Option Text → Option Url
url_of none = none
url_of (some rest) = some (record {
  scheme = codes "https";
  host = (break_at b'/' rest).0;
  path = (break_at b'/' rest).1;
  raw_query = [];
  fragment = [];
})

abbrev pub url : UrlPackage
url = record {
  parse = λ s. url_of (strip_prefix s (codes "https://"));
  hostname = λ u. u.host;
  to_string = λ u. codes "https://" ++ u.host ++ u.path ++ u.raw_query;
}

-- Addresses and networks of one address each.
abbrev pub net : NetPackage
net = record {
  IP = Text;
  Net = Text;
  parse_ip = λ s. if is_empty s || contains_rune s b':' then none else some s;
  split_host_port = λ s. if contains_rune s b':' then some (break_at b':' s).0 else none;
  contains_ip = text_eq;
  ip_to_string = λ ip. ip;
}

abbrev pub regexp : RegexpPackage
regexp = record {
  Regexp = Text;
  compile = some;
  match_string = λ r s. contains s r;
  find_submatch = λ r s. [];
  replace_all = λ r s repl. s;
}

-- Templates without actions.
abbrev pub template : TemplatePackage
template = record { Template = Text; parse = λ funcs s. some s; execute = λ t bindings. some t }

abbrev pub packages : Packages
packages = record {
  net = net;
  url = url;
  config = record { valid_cidr = λ s. true; parse_duration = λ s. some (inr 1) };
  regexp = regexp;
  template = template;
}

abbrev pub request : HttpRequest
request = record {
  remote_addr = codes "10.0.0.1:443";
  original_remote_addr = codes "10.0.0.1:443";
  tls = true;
  host = codes "go.example.com";
  path = codes "/docs";
  raw_query = [];
  user_agent = [];
  headers = [];
}

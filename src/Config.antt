-- ===== src/Config.antt =====
-- internal/config/config.go: the settings, their defaults and what they must satisfy. Numbers that
-- an administrator could set below 0 are natural numbers here.
pub mod Defaults
pub mod Accepted
pub mod Load
use golink_url_shortener.Base.{byte_length}
use golink_url_shortener.Base.{
  ltb, leb, ◌==◌, if◌then◌else◌, ==_iff, ==_refl, Bool-cases, Option-cases, length, any, all, find,
  keep, count, take, drop, length-append, any-append, all-append, All, All-append, All-keep,
  All-imply, Text, codes, text_eq, is_empty, is_upper, is_lower, is_digit, lower, to_lower,
  equal_fold, strip_prefix, has_prefix, trim_prefix, strip_suffix, has_suffix, contains_rune,
  contains, break_at, split_from, split, is_space, trim_left, trim_right, trim_space, text_eq-eq,
  text_eq_refl, text_eq_iff, is_empty_iff, lower_idem, to_lower_idem, to_lower-append,
  equal_fold_iff, strip_prefix-eq, strip_prefix-append, has_prefix_iff, strip_suffix-eq,
  has_suffix_iff, ℕ, zero, suc, ◌+◌, ◌-◌, ◌*◌, ◌/◌, ◌%◌, ◌^◌, ◌≤◌, ◌<◌, ◌≡◌, refl, sym, ap, ◌∙◌,
  ◌≢◌, ◌↔◌, ◌⊎◌, inl, inr, Bool, true, false, not, ◌&&◌, ◌||◌, Option, none, some, List, [], ◌∷◌,
  ◌++◌, map, append_assoc, append-nil, arith,
}
use golink_url_shortener.Base.{Result, ok, err}
use golink_url_shortener.Links.Domains.{UrlPackage, DomainError, validate_domain_pattern}

pub record OidcConfig : Type 0 where
  pub enabled : Bool
  pub issuer : Text
  pub client_id : Text
  pub client_secret : Text
  pub client_secret_env_var : Text
  pub scopes : List Text
  pub groups_claim : Text
  pub use_pkce : Bool
  pub verified_email_claim : Text

pub record ProxyAuthConfig : Type 0 where
  pub enabled : Bool
  pub user_header : Text
  pub email_header : Text
  pub name_header : Text
  pub groups_header : Text

-- `allow_advanced_links` is a pointer in the source.
pub record Config : Type 0 where
  pub listen_addr : Text
  pub title : Text
  pub favicon_path : Text
  pub canonical_address : Text
  pub trusted_proxy : List Text
  pub oidc : OidcConfig
  pub proxy_auth : ProxyAuthConfig
  pub tailscale_enabled : Bool
  pub anonymous_enabled : Bool
  pub anonymous_is_admin : Bool
  pub db_driver : Text
  pub db_dsn : Text
  pub jwt_secret : Text
  pub jwt_secret_env_var : Text
  pub quick_link_length : ℕ
  pub cache_size : ℕ
  pub cache_ttl : Text
  pub cache_ttl_duration : ℕ
  pub max_aliases_per_link : ℕ
  pub log_level : Text
  pub links_per_page : ℕ
  pub require_auth_for_redirects : Bool
  pub allow_advanced_links : Option Bool
  pub domains_for_advanced_links : List Text
  pub default_domain : Text
  pub required_domain : Text
  pub admin_emails : List Text
  pub admin_groups : List Text

unfoldable pub advanced_links_allowed : Config → Bool
advanced_links_allowed c = elim c.allow_advanced_links [ none ↦ true | some b ↦ b ]

unfoldable pub or_text : Text → Text → Text
or_text s default = if is_empty s then default else s

unfoldable pub or_number : ℕ → ℕ → ℕ
or_number n default = if n == 0 then default else n

unfoldable pub or_texts : List Text → List Text → List Text
or_texts [] default = default
or_texts (s ∷ ss) default = s ∷ ss

unfoldable pub apply_defaults : Config → Config
apply_defaults c = record c {
  listen_addr = or_text c.listen_addr (codes "0.0.0.0:8080");
  title = or_text c.title (codes "GoLink");
  oidc = record c.oidc {
    scopes = or_texts c.oidc.scopes (codes "openid" ∷ codes "email" ∷ codes "profile" ∷ []);
    groups_claim = or_text c.oidc.groups_claim (codes "groups");
  };
  proxy_auth = record c.proxy_auth {
    user_header = or_text c.proxy_auth.user_header (codes "Remote-User");
    email_header = or_text c.proxy_auth.email_header (codes "Remote-Email");
    name_header = or_text c.proxy_auth.name_header (codes "Remote-Name");
    groups_header = or_text c.proxy_auth.groups_header (codes "Remote-Groups");
  };
  db_driver = or_text c.db_driver (codes "sqlite");
  db_dsn = or_text c.db_dsn (codes "golink.db");
  quick_link_length = or_number c.quick_link_length 6;
  cache_size = or_number c.cache_size 1000;
  cache_ttl = or_text c.cache_ttl (codes "1m");
  max_aliases_per_link = or_number c.max_aliases_per_link 100;
  log_level = or_text c.log_level (codes "info");
  links_per_page = or_number c.links_per_page 50;
}

pub data ConfigError : Type 0 where
  bad_canonical_address bad_canonical_scheme oidc_without_address no_provider : ConfigError
  quick_link_too_short bad_driver no_jwt_secret short_jwt_secret : ConfigError
  tailscale_untrusted proxy_untrusted bad_cidr few_links_per_page bad_log_level : ConfigError
  bad_cache_ttl negative_cache_ttl : ConfigError
  bad_domain : DomainError → ConfigError

-- net.ParseCIDR succeeds; time.ParseDuration, whose value may be negative (`inl`), in nanoseconds.
pub record ConfigPackages : Type 0 where
  pub valid_cidr : Text → Bool
  pub parse_duration : Text → Option (ℕ ⊎ ℕ)

abbrev pub is_nil : List Text → Bool
is_nil [] = true
is_nil (s ∷ ss) = false

-- The `if`s that return an error, in order: the first one returned.
abbrev pub first_violation : List (Option ConfigError) → Option ConfigError
first_violation [] = none
first_violation (none ∷ os) = first_violation os
first_violation (some e ∷ os) = some e

abbrev pub reject : Bool → ConfigError → Option ConfigError
reject b e = if b then some e else none

module _ (url : UrlPackage) (packages : ConfigPackages) where
  unfoldable pub canonical_host : Config → Text
  canonical_host c =
      if is_empty c.canonical_address
      then []
      else elim (url.parse c.canonical_address) [ none ↦ [] | some u ↦ u.host ]

  unfoldable pub canonical_scheme : Config → Text
  canonical_scheme c =
      if is_empty c.canonical_address
      then []
      else elim (url.parse c.canonical_address) [ none ↦ [] | some u ↦ u.scheme ]

  unfoldable pub validate_address : Text → Option ConfigError
  validate_address address = if is_empty address then none else elim (url.parse address) [
    | none ↦ some bad_canonical_address
    | some u ↦
        if is_empty u.host || is_empty u.scheme
        then some bad_canonical_address
        else if text_eq u.scheme (codes "http") || text_eq u.scheme (codes "https")
        then none
        else some bad_canonical_scheme
  ]

  unfoldable pub validate_cidr_list : List Text → Option ConfigError
  validate_cidr_list cidrs = if all packages.valid_cidr cidrs then none else some bad_cidr

  unfoldable pub validate_ttl : Text → Option ConfigError
  validate_ttl ttl =
      if is_empty ttl || text_eq ttl (codes "0") then none else elim (packages.parse_duration ttl) [
        | none ↦ some bad_cache_ttl
        | some (inl below) ↦ some negative_cache_ttl
        | some (inr d) ↦ none
      ]

  unfoldable pub validate_patterns : List Text → Option ConfigError
  validate_patterns [] = none
  validate_patterns (p ∷ ps) = elim (validate_domain_pattern p) [
    | some e ↦ some (bad_domain e)
    | none ↦ validate_patterns ps
  ]

  -- The checks, in the order of the source.
  unfoldable pub checks : Config → List (Option ConfigError)
  checks c =
      validate_address c.canonical_address
      ∷ reject (c.oidc.enabled && is_empty c.canonical_address) oidc_without_address
      ∷ reject
          (not c.anonymous_enabled
            && not c.tailscale_enabled
            && not c.proxy_auth.enabled
            && not c.oidc.enabled)
          no_provider
      ∷ reject (ltb c.quick_link_length 4) quick_link_too_short
      ∷ reject
          (not (text_eq c.db_driver (codes "sqlite") || text_eq c.db_driver (codes "postgres")))
          bad_driver
      ∷ reject (c.oidc.enabled && is_empty c.jwt_secret) no_jwt_secret
      ∷ reject (c.oidc.enabled && ltb (byte_length c.jwt_secret) 32) short_jwt_secret
      ∷ reject (c.tailscale_enabled && is_nil c.trusted_proxy) tailscale_untrusted
      ∷ reject (c.proxy_auth.enabled && is_nil c.trusted_proxy) proxy_untrusted
      ∷ validate_cidr_list c.trusted_proxy
      ∷ reject (ltb c.links_per_page 10) few_links_per_page
      ∷ reject
          (not (
            any (text_eq c.log_level)
              (codes "debug" ∷ codes "info" ∷ codes "warn" ∷ codes "error" ∷ [])))
          bad_log_level
      ∷ validate_ttl c.cache_ttl
      ∷ validate_patterns c.domains_for_advanced_links
      ∷ []

  unfoldable pub violation : Config → Option ConfigError
  violation c = first_violation (checks c)

module _ (url : UrlPackage) (packages : ConfigPackages) where
  -- The duration of a TTL that passed, which is stored beside it.
  unfoldable pub with_ttl : Config → Config
  with_ttl c =
      if is_empty c.cache_ttl || text_eq c.cache_ttl (codes "0")
      then c
      else elim (packages.parse_duration c.cache_ttl) [
        | some (inr d) ↦ record c { cache_ttl_duration = d }
        | _ ↦ c
      ]

  unfoldable pub validate : Config → Result ConfigError Config
  validate c = elim (violation url packages c) [ some e ↦ err e | none ↦ ok (with_ttl c) ]

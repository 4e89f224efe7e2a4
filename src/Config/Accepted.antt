-- ===== src/Config/Accepted.antt =====
-- What internal/config/config.go promises of settings that it accepts.
use golink_url_shortener.Base.{byte_length}
use golink_url_shortener.Base.{
  Bool-cases, Option-cases, any, all, All, Text, codes, text_eq, is_empty, text_eq-eq, is_empty_iff,
  ℕ, ◌≤◌, ◌≡◌, refl, ◌⊎◌, inl, inr, Bool, true, false, ◌||◌, Option, none, some, List, [], ◌∷◌,
  arith,
}
use golink_url_shortener.Base.{ok}
use golink_url_shortener.Links.Domains.{Url, UrlPackage, validate_domain_pattern}
use golink_url_shortener.Config.{
  Config, ConfigPackages, ConfigError, first_violation, reject, checks, is_nil, violation, validate,
  validate_patterns, validate_address, validate_cidr_list, validate_ttl, bad_cache_ttl,
  negative_cache_ttl,
}

first_violation-none :
    (os : List (Option ConfigError)) → first_violation os ≡ none → All (λ o. o ≡ none) os
first_violation-none [] h = tt
first_violation-none (none ∷ os) h = (refl, first_violation-none os h)
first_violation-none (some e ∷ os) h = absurd (ground arith)

reject-none : (b : Bool) (e : ConfigError) → reject b e ≡ none → b ≡ false
reject-none false e h = refl
reject-none true e h = absurd (ground arith)

validate_patterns-All :
    (url : UrlPackage) (packages : ConfigPackages) (ps : List Text)
    → validate_patterns url packages ps ≡ none
    → All (λ p. validate_domain_pattern p ≡ none) ps
unfolding validate_patterns
validate_patterns-All url packages [] h = tt
validate_patterns-All url packages (p ∷ ps) h = elim (Option-cases (validate_domain_pattern p)) [
  | inl fine ↦ (fine, validate_patterns-All url packages ps (rw (fine, validate_patterns) at h))
  | inr (e, bad) ↦ absurd (ground arith)
]

module _ (url : UrlPackage) (packages : ConfigPackages) where
  -- A canonical address that is not empty is a URL with a host, by http or https.
  abbrev pub IsAddress : Text → Type 0
  IsAddress address =
      (address ≡ [])
      ⊎ ((u : Url) × (url.parse address ≡ some u)
          × (is_empty u.host ≡ false)
          × ((u.scheme ≡ codes "http") ⊎ (u.scheme ≡ codes "https")))

  -- The time to live is that of the duration, or there is none.
  abbrev pub IsTtl : Text → Type 0
  IsTtl ttl =
      (ttl ≡ []) ⊎ ((ttl ≡ codes "0") ⊎ ((d : ℕ) × (packages.parse_duration ttl ≡ some (inr d))))

  validate_address-IsAddress :
      (address : Text) → validate_address url packages address ≡ none → IsAddress address
  unfolding validate_address
  validate_address-IsAddress address h = elim (Bool-cases (is_empty address)) [
    | inl empty ↦ inl ((is_empty_iff address).0 empty)
    | inr given ↦ elim (Option-cases (url.parse address)) [
      | inl no_url ↦ absurd (ground arith)
      | inr (u, parsed) ↦ elim (Bool-cases (is_empty u.host || is_empty u.scheme)) [
        | inl missing ↦
            let k = (rw (validate_address, given, parsed, missing) at h) in absurd (ground arith)
        | inr there ↦ elim (Bool-cases (text_eq u.scheme (codes "http"))) [
          | inl http ↦ inr (u, parsed, ground arith, inl (text_eq-eq u.scheme (codes "http") http))
          | inr not_http ↦ elim (Bool-cases (text_eq u.scheme (codes "https"))) [
            | inl https ↦
                inr (u, parsed, ground arith, inr (text_eq-eq u.scheme (codes "https") https))
            | inr not_https ↦
                let k = (rw (validate_address, given, parsed, there, not_http, not_https) at h) in
                absurd (ground arith)
          ]
        ]
      ]
    ]
  ]

  all-All : {A : Type 0} (p : A → Bool) (xs : List A) → all p xs ≡ true → All (λ x. p x ≡ true) xs
  all-All p [] h = tt
  all-All p (x ∷ xs) h = (ground arith, all-All p xs (ground arith))

  validate_cidr_list-All :
      (cidrs : List Text)
      → validate_cidr_list url packages cidrs ≡ none
      → All (λ n. packages.valid_cidr n ≡ true) cidrs
  unfolding validate_cidr_list
  validate_cidr_list-All cidrs h = all-All packages.valid_cidr cidrs (ground arith)

  validate_ttl-IsTtl : (ttl : Text) → validate_ttl url packages ttl ≡ none → IsTtl ttl
  unfolding validate_ttl
  validate_ttl-IsTtl ttl h = elim (Bool-cases (is_empty ttl)) [
    | inl empty ↦ inl ((is_empty_iff ttl).0 empty)
    | inr given ↦ elim (Bool-cases (text_eq ttl (codes "0"))) [
      | inl zero_ttl ↦ inr (inl (text_eq-eq ttl (codes "0") zero_ttl))
      | inr other ↦ parsed (packages.parse_duration ttl) refl (rw (validate_ttl, given, other) at h)
    ]
  ]
    where
      parsed :
          (o : Option (ℕ ⊎ ℕ))
          → packages.parse_duration ttl ≡ o
          → (elim o as (λ _. Option ConfigError) [
            | none ↦ some bad_cache_ttl
            | some (inl below) ↦ some negative_cache_ttl
            | some (inr d) ↦ none
          ])
            ≡ none
          → IsTtl ttl
      parsed none e k = absurd (ground arith)
      parsed (some (inl n)) e k = absurd (ground arith)
      parsed (some (inr d)) e k = inr (inr (d, e))

  is_driver :
      (driver : Text)
      → (text_eq driver (codes "sqlite") || text_eq driver (codes "postgres")) ≡ true
      → (driver ≡ codes "sqlite") ⊎ (driver ≡ codes "postgres")
  is_driver driver h = elim (Bool-cases (text_eq driver (codes "sqlite"))) [
    | inl sqlite ↦ inl (text_eq-eq driver (codes "sqlite") sqlite)
    | inr other ↦ inr (text_eq-eq driver (codes "postgres") (ground arith))
  ]

  -- Settings that a server can run with safely: what the validation promises of each.
  pub record IsSafe (c : Config) : Type 0 where
    pub address : IsAddress c.canonical_address
    pub known_address : c.oidc.enabled ≡ true → is_empty c.canonical_address ≡ false
    pub some_provider :
        (c.anonymous_enabled || c.tailscale_enabled || c.proxy_auth.enabled || c.oidc.enabled)
        ≡ true
    pub long_names : 4 ≤ c.quick_link_length
    pub driver : (c.db_driver ≡ codes "sqlite") ⊎ (c.db_driver ≡ codes "postgres")
    pub long_secret : c.oidc.enabled ≡ true → 32 ≤ byte_length c.jwt_secret
    pub trusted_headers :
        (c.tailscale_enabled || c.proxy_auth.enabled) ≡ true → is_nil c.trusted_proxy ≡ false
    pub valid_networks : All (λ n. packages.valid_cidr n ≡ true) c.trusted_proxy
    pub enough_links : 10 ≤ c.links_per_page
    pub known_level :
        any (text_eq c.log_level) (codes "debug" ∷ codes "info" ∷ codes "warn" ∷ codes "error" ∷ [])
        ≡ true
    pub ttl : IsTtl c.cache_ttl
    pub valid_domains : All (λ p. validate_domain_pattern p ≡ none) c.domains_for_advanced_links

  -- What the validation checks, for all settings that it passes.
  pub validate-IsSafe : (c c' : Config) → validate url packages c ≡ ok c' → IsSafe c
  unfolding validate violation checks
  validate-IsSafe c c' h =
      let (
        address,
        (
          oidc,
          (
            provider,
            (
              names,
              (
                driver,
                (
                  _,
                  (secret, (tailscale, (proxy, (cidrs, (per_page, (level, (ttl, (domains, _)))))))),
                ),
              ),
            ),
          ),
        ),
      ) =
        first_violation-none (checks url packages c) (passed (violation url packages c) refl) in
      record {
        address = validate_address-IsAddress c.canonical_address address;
        known_address = λ on. ground (arith, reject-none _ _ oidc);
        some_provider = ground (arith, reject-none _ _ provider);
        long_names = ground (arith, reject-none _ _ names);
        driver = is_driver c.db_driver (ground (arith, reject-none _ _ driver));
        long_secret = λ on. ground (arith, reject-none _ _ secret);
        trusted_headers = λ on. ground (arith, reject-none _ _ tailscale, reject-none _ _ proxy);
        valid_networks = validate_cidr_list-All c.trusted_proxy cidrs;
        enough_links = ground (arith, reject-none _ _ per_page);
        known_level = ground (arith, reject-none _ _ level);
        ttl = validate_ttl-IsTtl c.cache_ttl ttl;
        valid_domains = validate_patterns-All url packages c.domains_for_advanced_links domains;
      }
    where
      passed :
          (o : Option ConfigError) → violation url packages c ≡ o → violation url packages c ≡ none
      passed none e = e
      passed (some d) e = absurd (ground arith)

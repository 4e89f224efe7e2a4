-- ===== src/Config/Load.antt =====
-- Load, resolveSecret and resolveSecrets of internal/config/config.go. The file as os.ReadFile and
-- toml.Decode read it, and os.LookupEnv, are parameters.
use golink_url_shortener.Base.{
  if◌then◌else◌, Text, codes, is_empty, ℕ, ◌≡◌, ◌⊎◌, inr, Bool, not, ◌&&◌, Option, none, some, [],
}
use golink_url_shortener.Base.{Result, ok, err, ◌>>=◌}
use golink_url_shortener.Links.Domains.{UrlPackage}
use golink_url_shortener.Config.{Config, ConfigPackages, ConfigError, apply_defaults, validate}
use golink_url_shortener.Config.Accepted.{IsSafe}

pub data LoadError : Type 0 where
  unreadable unparsable unknown_keys : LoadError
  -- a secret is set twice, or its environment variable is not set
  both_set unset_variable : Text → LoadError
  invalid : ConfigError → LoadError

-- What the decoder makes of the file: it may leave keys undecoded.
pub data ConfigFile : Type 0 where
  no_file no_toml : ConfigFile
  settings : Config → (has_unknown_keys : Bool) → ConfigFile

module _ (lookup_env : Text → Option Text) where
  unfoldable pub resolve_secret : Text → Text → Text → Result LoadError Text
  resolve_secret field value env_var =
      if not (is_empty value) && not (is_empty env_var)
      then err (both_set field)
      else if is_empty env_var
      then ok value
      else elim (lookup_env env_var) [
        | none ↦ err (unset_variable field)
        | some resolved ↦ ok resolved
      ]

  unfoldable pub resolve_secrets : Config → Result LoadError Config
  resolve_secrets c =
      resolve_secret (codes "jwt_secret") c.jwt_secret c.jwt_secret_env_var >>= λ jwt.
      (resolve_secret (codes "oidc.client_secret") c.oidc.client_secret c.oidc.client_secret_env_var
        >>= λ client.
            ok (record c { jwt_secret = jwt; oidc = record c.oidc { client_secret = client } }))

  abbrev pub checked : Result ConfigError Config → Result LoadError Config
  checked (ok c) = ok c
  checked (err e) = err (invalid e)

  unfoldable pub load : UrlPackage → ConfigPackages → ConfigFile → Result LoadError Config
  load url packages no_file = err unreadable
  load url packages no_toml = err unparsable
  load url packages (settings c unknown) =
      if unknown
      then err unknown_keys
      else resolve_secrets (apply_defaults c) >>= λ c'. checked (validate url packages c')

  -- The secret is the value that is set, or that of the environment variable that is named instead.
  abbrev pub IsSecret : Text → Text → Text → Type 0
  IsSecret value env_var secret =
      ((env_var ≡ []) × (secret ≡ value)) ⊎ ((value ≡ []) × (lookup_env env_var ≡ some secret))

module _ (url : UrlPackage) (packages : ConfigPackages) where
  -- The time to live of cached links is the one that its text says, if it is not empty and not 0.
  abbrev pub HasDuration : Config → Type 0
  HasDuration c =
      (c.cache_ttl ≡ [])
      ⊎ ((c.cache_ttl ≡ codes "0")
          ⊎ ((d : ℕ) × (packages.parse_duration c.cache_ttl ≡ some (inr d))
              × (c.cache_ttl_duration ≡ d)))

  -- What is known of settings that were loaded from a file.
  pub record Loaded (lookup_env : Text → Option Text) (file c : Config) : Type 0 where
    pub safe : IsSafe url packages c
    pub duration : HasDuration c
    pub jwt : IsSecret lookup_env file.jwt_secret file.jwt_secret_env_var c.jwt_secret
    pub client :
        IsSecret lookup_env file.oidc.client_secret file.oidc.client_secret_env_var
          c.oidc.client_secret

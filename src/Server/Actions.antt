-- ===== src/Server/Actions.antt =====
-- internal/server/link_actions.go, and resolveAliasTarget of api.go.
use golink_url_shortener.Base.{
  leb, if◌then◌else◌, Text, codes, text_eq, is_empty, ℕ, Bool, true, false, not, ◌&&◌, Option, none,
  some, [],
}
use golink_url_shortener.Base.{Result, ok, err}
use golink_url_shortener.Config.{Config, advanced_links_allowed}
use golink_url_shortener.Db.Models.{Link, LinkType, simple, advanced, alias, is_alias}
use golink_url_shortener.Db.Sql.{DbError, not_found, unique_violation}
use golink_url_shortener.Db.Repo.{Repo}
use golink_url_shortener.Links.Domains.{UrlPackage}
use golink_url_shortener.Links.Validate.{validate_name, validate_target}
use golink_url_shortener.Redirect.Advanced.{check_template_target_domain}
use golink_url_shortener.Server.Handler.{
  Problem, message, bad_name, bad_target, bad_domain, self_alias, circular_alias, lookup_failed,
  no_alias_target, no_canonical, alias_limit,
}

pub record CreateLinkParams : Type 0 where
  pub name : Text
  pub target : Text
  pub link_type : LinkType
  pub alias_target : Text
  pub require_auth : Bool

-- createLinkError by its kind.
pub data CreateLinkError : Type 0 where
  validation : Problem → CreateLinkError
  conflict : CreateLinkError
  internal : DbError → CreateLinkError

-- A step of an action: it fails with an error, or goes on.
abbrev pub Action : Type 0 → Type 0 → Type 0 → Type 0
Action S E A = S → Result E A × S

abbrev pub and_then : {S E A B : Type 0} → (A → Action S E B) → Result E A × S → Result E B × S
and_then f (ok a, s) = f a s
and_then f (err e, s) = (err e, s)

infixl 5 ◌>>=◌ ◌>>◌
abbrev pub ◌>>=◌ : {S E A B : Type 0} → Action S E A → (A → Action S E B) → Action S E B
◌>>=◌ m f s = and_then f (m s)

abbrev pub ◌>>◌ : {S E B : Type 0} → Action S E (Unit {0}) → Action S E B → Action S E B
m >> k = m >>= λ _. k

abbrev pub return : {S E A : Type 0} → A → Action S E A
return a s = (ok a, s)

abbrev pub fail : {S E A : Type 0} → E → Action S E A
fail e s = (err e, s)

abbrev pub fail_if : {S E : Type 0} → Bool → E → Action S E (Unit {0})
fail_if b e s = if b then (err e, s) else (ok tt, s)

abbrev pub fail_on : {S D E : Type 0} → Option D → (D → E) → Action S E (Unit {0})
fail_on none f s = (ok tt, s)
fail_on (some d) f s = (err (f d), s)

-- `return wrap(err)`
abbrev pub wrapped : {S D E A : Type 0} → (D → E) → Result D A × S → Result E A × S
wrapped f (ok a, s) = (ok a, s)
wrapped f (err d, s) = (err (f d), s)

abbrev pub wrap : {S D E A : Type 0} → (D → E) → Action S D A → Action S E A
wrap f m s = wrapped f (m s)

abbrev pub alias_lookup_error : Problem → DbError → Problem
alias_lookup_error missing not_found = missing
alias_lookup_error missing e = lookup_failed

-- strings.Contains(err.Error(), "UNIQUE") || ... "unique": the drivers' report of the unique index.
abbrev pub create_error : DbError → CreateLinkError
create_error unique_violation = conflict
create_error e = internal e

abbrev pub is_advanced_type : LinkType → Bool
is_advanced_type advanced = true
is_advanced_type simple = false
is_advanced_type alias = false

module _ {S : Type 0} (repo : Repo S) where
  -- One level of indirection is resolved, to a link that must exist.
  unfoldable pub follow_alias : Text → Link → Action S Problem Text
  follow_alias self link = do
    fail_if (text_eq link.alias_target self && not (is_empty self)) circular_alias
    canonical ←
        wrap (alias_lookup_error (no_canonical link.alias_target))
          (repo.get_by_name link.alias_target)
    return link.alias_target

  unfoldable pub resolve_alias_target : Text → Text → Action S Problem Text
  resolve_alias_target target self = do
    fail_if (text_eq target self && not (is_empty self)) self_alias
    link ← wrap (alias_lookup_error (no_alias_target target)) (repo.get_by_name target)
    if is_alias link then follow_alias self link else return target

  module _ (url : UrlPackage) (cfg : Config) where
    unfoldable pub limited_alias : Text → ℕ → Action S CreateLinkError Text
    limited_alias resolved n =
        fail_if (leb cfg.max_aliases_per_link n) (validation (alias_limit cfg.max_aliases_per_link))
        >> return resolved

    unfoldable pub counted_alias : Text → Action S CreateLinkError Text
    counted_alias resolved = wrap internal (repo.count_aliases resolved) >>= limited_alias resolved

    -- The branch for aliases: the alias target to store.
    unfoldable pub checked_alias_target : Text → Action S CreateLinkError Text
    checked_alias_target target =
        fail_if (is_empty target) (validation (message (codes "alias target cannot be empty")))
        >> (wrap validation (resolve_alias_target target []) >>= counted_alias)

    -- The branch for the other links.
    unfoldable pub check_target : LinkType → Text → Action S CreateLinkError (Unit {0})
    check_target link_type target = do
      fail_if (is_advanced_type link_type && not (advanced_links_allowed cfg))
          (validation (message (codes "advanced links are disabled by the server configuration")))
      fail_on (validate_target target) (λ e. validation (bad_target e))
      fail_on
          (if is_advanced_type link_type
            then check_template_target_domain url target cfg.domains_for_advanced_links
            else none)
          (λ e. validation (bad_domain e))

    unfoldable pub stored_alias_target : CreateLinkParams → Action S CreateLinkError Text
    stored_alias_target p = elim p.link_type [
      | alias ↦ checked_alias_target p.alias_target
      | simple ↦ check_target simple p.target >> return p.alias_target
      | advanced ↦ check_target advanced p.target >> return p.alias_target
    ]

    unfoldable pub insert_checked : CreateLinkParams → Text → Text → Action S CreateLinkError Link
    insert_checked p owner alias_target =
        wrap create_error
          (repo.create p.name p.target owner p.link_type alias_target p.require_auth)

    unfoldable pub do_create_link : CreateLinkParams → Text → Action S CreateLinkError Link
    do_create_link p owner =
        fail_on (validate_name p.name) (λ e. validation (bad_name e))
        >> (stored_alias_target p >>= insert_checked p owner)

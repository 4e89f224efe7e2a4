-- ===== src/Server/Created.antt =====
-- What links the actions of internal/server/link_actions.go create.
use golink_url_shortener.Base.{
  any, count, Text, to_lower, ℕ, ◌<◌, ◌≡◌, ◌≢◌, true, false, none, List,
}
use golink_url_shortener.Base.{ok}
use golink_url_shortener.Config.{Config, advanced_links_allowed}
use golink_url_shortener.Db.Models.{Link, LinkType, alias}
use golink_url_shortener.Db.LinkRepo
use golink_url_shortener.Db.Rows.{has_name, has_alias_target}
use golink_url_shortener.Db.Sql.{Db, Statement}
use golink_url_shortener.Server.Resolved.{IsResolved}
use golink_url_shortener.Links.Domains.{UrlPackage}
use golink_url_shortener.Links.Validate.{validate_name, validate_target}
use golink_url_shortener.Redirect.Advanced.{check_template_target_domain}
use golink_url_shortener.Server.Actions.{CreateLinkParams, is_advanced_type}

abbrev count_rows : Text → Statement ℕ
count_rows name t = (ok (count (has_alias_target name) t.links), t)

module _ (url : UrlPackage) (cfg : Config) where
  -- The limit of the aliases of a link, as it was when a further one was added.
  abbrev pub IsBelowLimit : List Link → Text → Type 0
  IsBelowLimit ls name = count (has_alias_target name) ls < cfg.max_aliases_per_link

  -- The target of a new link of a type, if it is no alias, is valid, and if it is advanced,
  -- allowed. The alias target of an alias is resolved, to a link below the limit.
  abbrev pub IsChecked : List Link → LinkType → Text → Text → Text → Type 0
  IsChecked ls t target name stored =
      (t ≢ alias
        → (validate_target target ≡ none)
          × (is_advanced_type t ≡ true
              → (advanced_links_allowed cfg ≡ true)
                × (check_template_target_domain url target cfg.domains_for_advanced_links ≡ none))
          × (stored ≡ name))
      × (t ≡ alias → IsResolved ls name stored × IsBelowLimit ls stored)

  -- A link as asked for, checked against the rows before it.
  abbrev pub IsMade : List Link → CreateLinkParams → Text → Link → Type 0
  IsMade ls p owner l =
      (l.name ≡ p.name)
      × (l.name_lower ≡ to_lower p.name)
      × (l.target ≡ p.target)
      × (l.owner_email ≡ owner)
      × (l.link_type ≡ p.link_type)
      × (l.require_auth ≡ p.require_auth)
      × (validate_name l.name ≡ none)
      × (any (has_name l.name_lower) ls ≡ false)
      × IsChecked ls l.link_type l.target p.alias_target l.alias_target

-- ===== src/Tests/RouteTests.antt =====
-- The routes at concrete inputs.
use golink_url_shortener.Base.{
  any, codes, text_eq, is_empty, strip_prefix, break_at, ◌≡◌, refl, ◌↔◌, true, none, some, [],
}
use golink_url_shortener.Config.{canonical_scheme, canonical_host}
use golink_url_shortener.Links.Validate.{validate_name}
use golink_url_shortener.Server.Canonical.{domain_redirect, OnCanonical}
use golink_url_shortener.Server.PageRoutes
use golink_url_shortener.Server.PageRoutes.{
  PageRoute, is_admin_path, page_pattern, page_guards, admin_guards,
}
use golink_url_shortener.Server.Middleware.{chain, require_auth, require_admin, require_ui_access}
use golink_url_shortener.Server.Net.{redirect_to_canonical, request_scheme}
use golink_url_shortener.Server.Reserved
use golink_url_shortener.Server.Reserved.{static_segments, missed}
use golink_url_shortener.Server.Handler.{Identity}
use golink_url_shortener.Tests.Fixtures.{alice, cfg, url, net, packages, request}

abbrev admin : Identity
admin = record alice { is_admin = true }

page_guards-Passes_example :
    OnCanonical net url packages.config cfg [] request
    × ((i : Identity) × (some admin ≡ some i)
        × (is_admin_path (page_pattern PageRoute.reassign) ≡ true → i.is_admin ≡ true))
unfolding page_guards domain_redirect admin_guards chain require_auth require_admin
    require_ui_access redirect_to_canonical canonical_scheme canonical_host request_scheme is_empty
    text_eq strip_prefix break_at
page_guards-Passes_example =
    PageRoutes.page_guards-Passes net url packages.config cfg [] request PageRoute.reassign
      (some admin) refl

validate_name-shadowed_example :
    ((validate_name (codes "reassign") ≡ none)
      × (any (text_eq (codes "reassign")) static_segments ≡ true))
    ↔ (any (text_eq (codes "reassign")) missed ≡ true)
validate_name-shadowed_example = Reserved.validate_name-shadowed (codes "reassign")

-- ===== src/Tests/AuthTests.antt =====
-- Identities, guards and forms at concrete inputs.
use golink_url_shortener.Base.{
  if◌then◌else◌, codes, text_eq, is_empty, is_upper, lower, to_lower, equal_fold, strip_prefix,
  has_prefix, contains_rune, break_at, split, is_space, trim_left, trim_right, trim_space, ◌≡◌,
  refl, ◌⊎◌, true, false, none, some, [], ◌∷◌,
}
use golink_url_shortener.Db.Repo.{sql_repo}
use golink_url_shortener.Server.Handler.{Identity, forbidden}
use golink_url_shortener.Server.Middleware.{chain, require_auth, require_write_scope}
use golink_url_shortener.Config.{canonical_scheme, canonical_host}
use golink_url_shortener.Server.Canonical.{domain_redirect, OnCanonical}
use golink_url_shortener.Server.Routes
use golink_url_shortener.Server.Routes.{api_guards, route_guards, Passes}
use golink_url_shortener.Server.Net
use golink_url_shortener.Server.Net.{
  redirect_to_canonical, request_scheme, peer_ip, ip_in_ranges, HttpRequest, trusted_real_ip,
  from_trusted_peer, xff_entries, lines_entries, line_entries, header_values, last_untrusted,
  parse_forwarded_ip, parse_trimmed,
}
use golink_url_shortener.Server.Providers
use golink_url_shortener.Server.Providers.{
  identify, anonymous, oidc, callback_destination, login_state, safe_destination,
}
use golink_url_shortener.Server.Authorised.{MayEdit, MayOwn}
use golink_url_shortener.Server.Ui.{
  Csrf, validate_csrf, handle_create_alias, handle_details_share, handle_details_unshare,
  handle_details_delete, handle_details_transfer,
}
use golink_url_shortener.Server.Forms
use golink_url_shortener.Server.AliasForm
use golink_url_shortener.Server.AliasForm.{AddsAlias}
use golink_url_shortener.Tests.Fixtures.{db, alice, bob, cfg, url, net, packages, request}

api_guards-Passes_example :
    OnCanonical net url packages.config cfg [] request
    × ((i : Identity) × (some alice ≡ some i) × Passes i Routes.update_link)
unfolding chain api_guards route_guards domain_redirect require_auth require_write_scope
    redirect_to_canonical canonical_scheme canonical_host request_scheme is_empty text_eq
    strip_prefix break_at
api_guards-Passes_example =
    Routes.api_guards-Passes net url packages.config cfg [] request forbidden Routes.update_link
      (some alice) refl

-- A client that is no proxy claims to be someone.
abbrev forged : HttpRequest
forged = record request {
  original_remote_addr = codes "8.8.8.8:1";
  headers = (codes "Tailscale-User-Login", codes "admin@example.com") ∷ [];
}

identify-untrusted_example :
    identify net (record cfg { tailscale_enabled = true }) (codes "10.0.0.1" ∷ []) forged none
    ≡ anonymous net
        (record cfg { tailscale_enabled = true })
        (codes "10.0.0.1" ∷ [])
        (oidc net (record cfg { tailscale_enabled = true }) (codes "10.0.0.1" ∷ []) none none)
unfolding peer_ip ip_in_ranges is_empty contains_rune break_at text_eq
identify-untrusted_example =
    Providers.identify-untrusted net (record cfg { tailscale_enabled = true })
      (codes "10.0.0.1" ∷ []) forged none refl refl

-- A client behind the proxy writes the address of the proxy into the header.
abbrev forwarded : HttpRequest
forwarded = record request {
  headers = (codes "X-Forwarded-For", codes "10.0.0.1, 8.8.8.8,10.0.0.1") ∷ [];
}

trusted_real_ip-unspoofed_example :
    (trusted_real_ip net (codes "10.0.0.1" ∷ []) forwarded).remote_addr ≡ (
      if from_trusted_peer net forwarded (codes "10.0.0.1" ∷ [])
      then codes "8.8.8.8"
      else forwarded.remote_addr)
unfolding xff_entries lines_entries line_entries header_values equal_fold to_lower lower is_upper
    split last_untrusted parse_forwarded_ip parse_trimmed ip_in_ranges is_empty contains_rune
    break_at trim_space trim_left trim_right is_space text_eq
trusted_real_ip-unspoofed_example =
    Net.trusted_real_ip-unspoofed net (codes "10.0.0.1" ∷ []) forwarded (codes "10.0.0.1" ∷ [])
      (codes "8.8.8.8" ∷ codes "10.0.0.1" ∷ []) (codes "8.8.8.8") refl refl refl

callback_destination-safe_example :
    (has_prefix (callback_destination (codes "x|//evil.com")) (codes "/") ≡ true)
    × (has_prefix (callback_destination (codes "x|//evil.com")) (codes "//") ≡ false)
    × (callback_destination (login_state (codes "r4nd") (codes "/docs")) ≡ codes "/docs")
unfolding contains_rune has_prefix strip_prefix
callback_destination-safe_example =
    Providers.callback_destination-safe (codes "x|//evil.com") (codes "r4nd") (codes "/docs") refl

abbrev csrf : Csrf
csrf = record { cookie = some (codes "t"); form_token = codes "t" }

edit_forms-MayEdit_example :
    let allowed =
      (validate_csrf csrf ≡ true) × MayEdit db.tables (to_lower (codes "docs")) (some bob) in
    (((handle_details_delete sql_repo url cfg (codes "docs") (some bob) csrf db).1.tables
        ≡ db.tables)
      ⊎ allowed)
    × (((handle_details_share sql_repo url cfg
            (codes "docs")
            (some bob)
            csrf
            (codes "c")
            db).1.tables
          ≡ db.tables)
        ⊎ allowed)
    × (((handle_details_unshare sql_repo url cfg
            (codes "docs")
            (some bob)
            csrf
            (codes "c")
            db).1.tables
          ≡ db.tables)
        ⊎ allowed)
edit_forms-MayEdit_example =
    Forms.edit_forms-MayEdit url cfg (codes "docs") (some bob) csrf (codes "c") db

handle_details_transfer-MayOwn_example :
    ((handle_details_transfer sql_repo url cfg
        (codes "docs")
        (some alice)
        csrf
        (codes "c")
        db).1.tables
      ≡ db.tables)
    ⊎ ((validate_csrf csrf ≡ true)
        × ((i : Identity) × (some alice ≡ some i) × MayOwn db.tables (to_lower (codes "docs")) i))
handle_details_transfer-MayOwn_example =
    Forms.handle_details_transfer-MayOwn url cfg (codes "docs") (some alice) csrf (codes "c") db

handle_create_alias-AddsAlias_example :
    ((handle_create_alias sql_repo url cfg
        (codes "docs")
        (some bob)
        csrf
        (codes "start")
        db).1.tables
      ≡ db.tables)
    ⊎ AddsAlias cfg
        (to_lower (codes "docs"))
        (trim_space (codes "start"))
        csrf
        (some bob)
        db.tables
        (handle_create_alias sql_repo url cfg
          (codes "docs")
          (some bob)
          csrf
          (codes "start")
          db).1.tables
handle_create_alias-AddsAlias_example =
    AliasForm.handle_create_alias-AddsAlias url cfg (codes "docs") (some bob) csrf (codes "start")
      db

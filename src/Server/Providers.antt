-- ===== src/Server/Providers.antt =====
-- The identity of a request, by the middlewares of internal/auth in the order in which
-- internal/server/server.go runs them, and the destination after a login of oidc.go.
use golink_url_shortener.Base.{
  if◌then◌else◌, ==_refl, keep, Text, codes, is_empty, strip_prefix, has_prefix, contains_rune,
  break_at, split, trim_space, ℕ, ◌≡◌, refl, ap, ◌∙◌, Bool, true, false, not, ◌&&◌, ◌||◌, Option,
  none, some, List, [], ◌∷◌, ◌++◌, map, arith,
}
use golink_url_shortener.Config.{Config}
use golink_url_shortener.Server.Handler.{Identity}
use golink_url_shortener.Server.Access.{is_admin}
use golink_url_shortener.Server.Net.{NetPackage, HttpRequest, header, from_trusted_peer}

-- id.IsAdmin = isAdmin(cfg, id)
abbrev pub with_admin : Config → Identity → Identity
with_admin cfg id = record id { is_admin = is_admin cfg id }

abbrev pub has_nets : {A : Type 0} → List A → Bool
has_nets [] = false
has_nets (n ∷ ns) = true

abbrev pub is_present : Option Identity → Bool
is_present none = false
is_present (some id) = true

unfoldable pub split_groups : Text → List Text
split_groups raw = keep (λ g. not (is_empty g)) (map trim_space (split raw b','))

module _ (net : NetPackage) (cfg : Config) (nets : List net.Net) where
  unfoldable pub tailscale : HttpRequest → Option Identity → Option Identity
  tailscale r id =
      let user = header r (codes "Tailscale-User-Login") in
      if not cfg.tailscale_enabled
        || is_empty user
        || (has_nets nets && not (from_trusted_peer net r nets))
      then id
      else some (
          with_admin cfg (record {
            email = user;
            display_name = header r (codes "Tailscale-User-Name");
            avatar_url = header r (codes "Tailscale-User-Profile-Pic");
            groups = [];
            is_admin = false;
            source = codes "tailscale";
            api_key_read_only = false;
          }))

  -- The e-mail header, or the user header where it is missing.
  unfoldable pub proxy_user : HttpRequest → Text
  proxy_user r =
      let email = header r cfg.proxy_auth.email_header in
      if is_empty email then header r cfg.proxy_auth.user_header else email

  unfoldable pub proxy_auth : HttpRequest → Option Identity → Option Identity
  proxy_auth r id =
      let raw = header r cfg.proxy_auth.groups_header in
      if not cfg.proxy_auth.enabled
        || is_present id
        || not (from_trusted_peer net r nets)
        || is_empty (proxy_user r)
      then id
      else some (
          with_admin cfg (record {
            email = proxy_user r;
            display_name = header r cfg.proxy_auth.name_header;
            avatar_url = [];
            groups = if is_empty raw then [] else split_groups raw;
            is_admin = false;
            source = codes "proxy";
            api_key_read_only = false;
          }))

  -- The claims of a session cookie whose signature and expiry the JWT library has accepted.
  unfoldable pub oidc : Option Identity → Option Identity → Option Identity
  oidc session id = elim session [
    | none ↦ id
    | some claims ↦
        if cfg.oidc.enabled
        then some
            (with_admin cfg (record claims { source = codes "oidc"; api_key_read_only = false }))
        else id
  ]

  unfoldable pub anonymous : Option Identity → Option Identity
  anonymous id =
      if cfg.anonymous_enabled && not (is_present id)
      then some (record {
        email = codes "anonymous@localhost";
        display_name = codes "Anonymous";
        avatar_url = [];
        groups = [];
        is_admin = cfg.anonymous_is_admin;
        source = codes "anonymous";
        api_key_read_only = false;
      })
      else id

  unfoldable pub identify : HttpRequest → Option Identity → Option Identity
  identify r session = anonymous (oidc session (proxy_auth r (tailscale r none)))

  -- A request whose peer is in no trusted network gets the identity of its session cookie, or the
  -- anonymous one, whatever headers it carries. The trusted networks must not be empty, as the
  -- validation of the settings demands where headers are used.
  pub identify-untrusted :
      (r : HttpRequest) (session : Option Identity)
      → has_nets nets ≡ true
      → from_trusted_peer net r nets ≡ false
      → identify r session ≡ anonymous (oidc session none)
  unfolding identify proxy_auth tailscale
  identify-untrusted r session some_net untrusted = ground arith

-- HandleLogin: the destination that is stored in the state.
unfoldable pub safe_destination : Text → Text
safe_destination rd =
    if is_empty rd || not (has_prefix rd (codes "/")) || has_prefix rd (codes "//")
    then codes "/"
    else rd

unfoldable pub login_state : Text → Text → Text
login_state random rd = random ++ b'|' ∷ safe_destination rd

-- HandleCallback: what follows the first bar of the state, if it is a path of this server.
abbrev pub destination_after : Text → Text
destination_after [] = codes "/"
destination_after (bar ∷ rd) =
    if has_prefix rd (codes "/") && not (has_prefix rd (codes "//")) then rd else codes "/"

unfoldable pub callback_destination : Text → Text
callback_destination state = destination_after (break_at b'|' state).1

break_at-append :
    (sep : ℕ) (s t : Text)
    → contains_rune s sep ≡ false
    → break_at sep (s ++ sep ∷ t) ≡ (s, sep ∷ t)
unfolding break_at contains_rune
break_at-append sep [] t h = ground (arith, ==_refl sep)
break_at-append sep (c ∷ s) t h = ground (arith, break_at-append sep s t)

destination_after-safe :
    (s : Text)
    → (has_prefix (destination_after s) (codes "/") ≡ true)
      × (has_prefix (destination_after s) (codes "//") ≡ false)
unfolding has_prefix strip_prefix
destination_after-safe [] = (refl, refl)
destination_after-safe (bar ∷ rd) = (ground arith, ground arith)

destination_after-safe_destination :
    (bar : ℕ) (rd : Text) → destination_after (bar ∷ safe_destination rd) ≡ safe_destination rd
unfolding safe_destination has_prefix strip_prefix
destination_after-safe_destination bar rd = ground arith

safe_destination-local :
    (rd : Text)
    → safe_destination rd
      ≡ (if has_prefix rd (codes "/") && not (has_prefix rd (codes "//")) then rd else codes "/")
unfolding safe_destination has_prefix strip_prefix is_empty
safe_destination-local [] = refl
safe_destination-local (c ∷ rd) = ground arith

-- After a login the destination begins with one slash and not with two. It is the one that was asked
-- for, where that begins so, and the root where it does not, whatever random text without a bar was
-- put before it.
pub callback_destination-safe :
    (state random rd : Text)
    → contains_rune random b'|' ≡ false
    → (has_prefix (callback_destination state) (codes "/") ≡ true)
      × (has_prefix (callback_destination state) (codes "//") ≡ false)
      × (callback_destination (login_state random rd) ≡ (
          if has_prefix rd (codes "/") && not (has_prefix rd (codes "//")) then rd else codes "/"))
unfolding callback_destination login_state
callback_destination-safe state random rd h =
    let (path, local) = destination_after-safe (break_at b'|' state).1 in
    (
      path,
      local,
      ap (λ (q : Text × Text). destination_after q.1)
            (break_at-append b'|' random (safe_destination rd) h)
          ∙ destination_after-safe_destination b'|' rd
          ∙ safe_destination-local rd,
    )

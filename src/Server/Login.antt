-- ===== src/Server/Login.antt =====
-- internal/auth/oidc.go: the login through an OIDC provider, and the session that it leaves.
use golink_url_shortener.Base.{
  if◌then◌else◌, Text, codes, text_eq, is_empty, equal_fold, ℕ, ◌+◌, Bool, false, not, ◌||◌, Option,
  none, some, List, [],
}
use golink_url_shortener.Config.{Config}
use golink_url_shortener.Server.Handler.{
  Identity, message, redirect, failure, ◌>>=◌, ◌>>◌, return, reply, reply_if,
}
use golink_url_shortener.Server.Net.{NetPackage}
use golink_url_shortener.Server.Providers.{oidc, login_state, callback_destination}
use golink_url_shortener.Server.Cookies.{
  state_cookie_name, oidc_verifier_cookie, session_duration, SessionClaims, Claims, JwtPackage,
  OidcPackage, CallbackRequest, bad_state, CookieHandler, set_cookie, or_fail, state_cookie,
  verifier_cookie, cleared, session_cookie, deleted,
}

unfoldable pub handle_logout : CookieHandler (Unit {0})
handle_logout =
    set_cookie (record (session_cookie []) { max_age = deleted })
    >> reply (redirect 302 (codes "/"))

module _ (jwt : JwtPackage) (pk : OidcPackage) (cfg : Config) where
  -- The redirect to the provider, with a PKCE challenge where that is used.
  unfoldable pub to_provider : Option Text → Text → CookieHandler (Unit {0})
  to_provider verifier state =
      if cfg.oidc.use_pkce
      then (do
        v ← or_fail verifier (failure 500 (message (codes "internal error")))
        set_cookie (verifier_cookie v)
        reply (redirect 302 (pk.auth_code_url state (some (pk.challenge_of v)))))
      else reply (redirect 302 (pk.auth_code_url state none))

  -- HandleLogin, from what the source of randomness yields for the state and for the verifier.
  unfoldable pub handle_login : Option Text → Option Text → Text → CookieHandler (Unit {0})
  handle_login random verifier rd = do
    r ← or_fail random (failure 500 (message (codes "internal error")))
    set_cookie (state_cookie (login_state r rd))
    to_provider verifier (login_state r rd)

  -- The JSON value true, or the text "true" in any case.
  unfoldable pub claim_is_true : Option pk.Json → Bool
  claim_is_true none = false
  claim_is_true (some raw) = elim (pk.json_bool raw) [
    | some b ↦ b
    | none ↦ elim (pk.json_text raw) [ some s ↦ equal_fold s (codes "true") | none ↦ false ]
  ]

  -- The PKCE verifier: of its cookie where PKCE is used, and empty where it is not.
  unfoldable pub verifier_of : CallbackRequest → CookieHandler Text
  verifier_of r =
      if cfg.oidc.use_pkce
      then or_fail r.verifier_cookie (failure 400 (message (codes "missing PKCE verifier")))
      else return []

  unfoldable pub sent_verifier : Text → Option Text
  sent_verifier verifier = if is_empty verifier then none else some verifier

  unfoldable pub is_verified_email : pk.IdToken → Bool
  is_verified_email id_token =
      is_empty cfg.oidc.verified_email_claim
      || claim_is_true (pk.raw_claim id_token cfg.oidc.verified_email_claim)

  unfoldable pub groups_of : pk.IdToken → List Text
  groups_of id_token = elim (pk.raw_claim id_token cfg.oidc.groups_claim) [
    | none ↦ []
    | some raw ↦ pk.json_texts raw
  ]

  -- The payload that issueSessionCookie signs for the identity of an ID token.
  unfoldable pub session_claims : pk.IdToken → Claims → ℕ → SessionClaims
  session_claims id_token c now = record {
    expires_at = now + session_duration;
    issued_at = now;
    email = c.email;
    display_name = c.name;
    avatar_url = c.picture;
    groups = groups_of id_token;
  }

  unfoldable pub issue_session_cookie : SessionClaims → CookieHandler (Unit {0})
  issue_session_cookie claims =
      or_fail (jwt.sign cfg.jwt_secret claims)
        (failure 500 (message (codes "session creation failed")))
      >>= λ signed. set_cookie (session_cookie signed)

  -- The state of the query must be that of the cookie.
  unfoldable pub checked_state : CallbackRequest → CookieHandler Text
  checked_state r = or_fail r.state_cookie bad_state >>= λ state.
      (reply_if (not (text_eq state r.state)) bad_state >> return state)

  abbrev pub exchange_code : CallbackRequest → Text → CookieHandler pk.Token
  exchange_code r verifier =
      or_fail (pk.exchange r.code (sent_verifier verifier))
        (failure 500 (message (codes "token exchange failed")))

  abbrev pub raw_id_token : pk.Token → CookieHandler Text
  raw_id_token token =
      or_fail (pk.id_token_of token) (failure 500 (message (codes "missing id_token")))

  abbrev pub verified_token : Text → CookieHandler pk.IdToken
  verified_token raw =
      or_fail (pk.verify raw) (failure 401 (message (codes "id_token verification failed")))

  unfoldable pub exchanged : CallbackRequest → Text → CookieHandler pk.IdToken
  exchanged r verifier =
      exchange_code r verifier >>= λ token. (raw_id_token token >>= verified_token)

  abbrev pub standard_claims : pk.IdToken → CookieHandler Claims
  standard_claims id_token =
      or_fail (pk.claims id_token) (failure 500 (message (codes "claims extraction failed")))

  abbrev pub refuse_unverified : pk.IdToken → CookieHandler (Unit {0})
  refuse_unverified id_token =
      reply_if (not (is_verified_email id_token))
        (failure 403 (message (codes "email address is not verified")))

  -- The session of a verified identity, and the way back to where the user came from.
  unfoldable pub log_in : Text → pk.IdToken → ℕ → CookieHandler (Unit {0})
  log_in state id_token now = do
    c ← standard_claims id_token
    refuse_unverified id_token
    issue_session_cookie (session_claims id_token c now)
    reply (redirect 302 (callback_destination state))

  unfoldable pub handle_callback : CallbackRequest → ℕ → CookieHandler (Unit {0})
  handle_callback r now = do
    state ← checked_state r
    set_cookie (cleared state_cookie_name (codes "/"))
    set_cookie (cleared oidc_verifier_cookie (codes "/auth/"))
    verifier ← verifier_of r
    id_token ← exchanged r verifier
    log_in state id_token now

  -- The key function: only HMAC methods are accepted.
  unfoldable pub session_key : jwt.Method → Option Text
  session_key m = if jwt.is_hmac m then some cfg.jwt_secret else none

  unfoldable pub session_identity : SessionClaims → Identity
  session_identity claims = record {
    email = claims.email;
    display_name = claims.display_name;
    avatar_url = claims.avatar_url;
    groups = claims.groups;
    is_admin = false;
    source = codes "oidc";
    api_key_read_only = false;
  }

  abbrev pub identity_or_none : Option SessionClaims → Option Identity
  identity_or_none none = none
  identity_or_none (some claims) = some (session_identity claims)

  -- What OIDCMiddleware makes of the session cookie of a request.
  unfoldable pub read_session : Option Text → ℕ → Option Identity
  read_session none now = none
  read_session (some cookie) now = identity_or_none (jwt.parse_with_claims session_key now cookie)

  unfoldable pub oidc_middleware :
      (net : NetPackage) → List net.Net → Option Text → ℕ → Option Identity → Option Identity
  oidc_middleware net nets cookie now id = oidc net cfg nets (read_session cookie now) id

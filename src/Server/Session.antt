-- ===== src/Server/Session.antt =====
-- What a login through internal/auth/oidc.go has verified, and what its session cookie is worth.
use golink_url_shortener.Base.{
  if◌then◌else◌, Option-cases, any, Text, codes, text_eq, ℕ, ◌+◌, ◌<◌, ◌≡◌, refl, sym, ap, ◌∙◌, ◌⊎◌,
  inl, inr, Bool, true, false, ◌||◌, Option, none, some, List, [], ◌∷◌, ◌++◌,
}
use golink_url_shortener.Base.{Result, err}
use mathlib.Core.Path.{subst}
use golink_url_shortener.Config.{Config}
use golink_url_shortener.Server.Handler.{
  Identity, Problem, message, Response, redirect, failure, ◌>>=◌, ◌>>◌, reply,
}
use golink_url_shortener.Server.Net.{NetPackage}
use golink_url_shortener.Server.Providers.{oidc, callback_destination}
use golink_url_shortener.Server.Access.{is_admin}
use golink_url_shortener.Server.Login.{
  groups_of, verifier_of, session_claims, issue_session_cookie, checked_state, exchanged,
  standard_claims, refuse_unverified, log_in, handle_callback, session_key, session_identity,
  identity_or_none, read_session, oidc_middleware,
}
use golink_url_shortener.Server.Cookies.{
  Cookie, Claims, JwtPackage, IsJwt, OidcPackage, CallbackRequest, CookieHandler, set_cookie,
  cleared, session_cookie, session_cookie_name, session_duration, state_cookie_name,
  oidc_verifier_cookie,
}
use golink_url_shortener.Server.Verified.{
  Stage-bind, or_fail-Stage, checked_state-Stage, verifier_of-Stage, Exchanged, exchanged-Stage,
  EmailVerified, refuse_unverified-Stage,
}

module _ (jwt : JwtPackage) (pk : OidcPackage) (cfg : Config) where
  -- What a session is issued on: the provider's claims, a verified address, and a signature.
  abbrev pub Signed : pk.IdToken → ℕ → Claims → Text → Type 0
  Signed id_token now c signed =
      (pk.claims id_token ≡ some c)
      × EmailVerified jwt pk cfg id_token
      × (jwt.sign cfg.jwt_secret (session_claims jwt pk cfg id_token c now) ≡ some signed)

  to_session : Text → pk.IdToken → ℕ → Claims → CookieHandler (Unit {0})
  to_session state id_token now c =
      issue_session_cookie jwt pk cfg (session_claims jwt pk cfg id_token c now) >>= λ _.
      reply (redirect 302 (callback_destination state))

  abbrev Ends :
      Text → pk.IdToken → ℕ → List Cookie → Result Response (Unit {0}) × List Cookie → Type 0
  Ends state id_token now cs res =
      ((n : ℕ) × (p : Problem) × (res ≡ (err (failure n p), cs)))
      ⊎ ((c : Claims) × (signed : Text) × Signed id_token now c signed
          × (res ≡ (
            err (redirect 302 (callback_destination state)),
            cs ++ session_cookie signed ∷ [],
          )))

  to_session-Ends :
      (state : Text) (id_token : pk.IdToken) (now : ℕ) (c : Claims) (cs : List Cookie)
      → pk.claims id_token ≡ some c
      → EmailVerified jwt pk cfg id_token
      → Ends state id_token now cs (to_session state id_token now c cs)
  unfolding to_session issue_session_cookie
  to_session-Ends state id_token now c cs claimed email =
      elim (Option-cases (jwt.sign cfg.jwt_secret (session_claims jwt pk cfg id_token c now))) [
        | inl failed ↦ inl (500, message (codes "session creation failed"), rw failed refl)
        | inr (signed, e) ↦ inr (c, signed, (claimed, email, e), rw e refl)
      ]

  log_in-Ends :
      (state : Text) (id_token : pk.IdToken) (now : ℕ) (cs : List Cookie)
      → Ends state id_token now cs (log_in jwt pk cfg state id_token now cs)
  unfolding log_in to_session
  log_in-Ends state id_token now cs =
      elim (Stage-bind (standard_claims jwt pk cfg id_token)
        (λ c. refuse_unverified jwt pk cfg id_token >>= λ _. to_session state id_token now c) cs
        (λ c. pk.claims id_token ≡ some c) (or_fail-Stage _ _ _ cs)) [
          | inl stop ↦ inl stop
          | inr (c, e, claimed) ↦
              elim (Stage-bind (refuse_unverified jwt pk cfg id_token)
                (λ _. to_session state id_token now c) cs (λ _. EmailVerified jwt pk cfg id_token)
                (refuse_unverified-Stage jwt pk cfg id_token cs)) [
                  | inl (n, p, e') ↦ inl (n, p, e ∙ e')
                  | inr (_, e', email) ↦
                      elim (to_session-Ends state id_token now c cs claimed email) [
                        | inl (n, p, e'') ↦ inl (n, p, e ∙ e' ∙ e'')
                        | inr (c', signed, s, e'') ↦ inr (c', signed, s, e ∙ e' ∙ e'')
                      ]
                ]
        ]

  abbrev pub is_session : Cookie → Bool
  is_session c = text_eq c.name session_cookie_name

  abbrev pub clearing : List Cookie
  clearing =
      cleared state_cookie_name (codes "/") ∷ cleared oidc_verifier_cookie (codes "/auth/") ∷ []

  -- A request that logs in: its state is that of its cookie, the provider exchanged its code, with
  -- its PKCE verifier where PKCE is used, for an ID token that was verified.
  abbrev pub LogsIn : CallbackRequest → ℕ → Result Response (Unit {0}) × List Cookie → Type 0
  LogsIn r now res =
      (r.state_cookie ≡ some r.state)
      × ((id_token : pk.IdToken) × (verifier : Text) × (c : Claims) × (signed : Text)
          × (cfg.oidc.use_pkce ≡ true → r.verifier_cookie ≡ some verifier)
          × Exchanged jwt pk cfg r verifier id_token
          × Signed id_token now c signed
          × (res ≡ (
            err (redirect 302 (callback_destination r.state)),
            clearing ++ session_cookie signed ∷ [],
          )))

  -- An error response, with no session cookie.
  abbrev pub Refuses : Result Response (Unit {0}) × List Cookie → Type 0
  Refuses res =
      (n : ℕ) × (p : Problem) × (cs : List Cookie) × (res ≡ (err (failure n p), cs))
      × (any is_session cs ≡ false)

  after_state : CallbackRequest → ℕ → Text → CookieHandler (Unit {0})
  after_state r now state = verifier_of jwt pk cfg r >>= λ verifier.
      (exchanged jwt pk cfg r verifier >>= λ id_token. log_in jwt pk cfg state id_token now)

  after_state-LogsIn :
      (r : CallbackRequest) (now : ℕ)
      → r.state_cookie ≡ some r.state
      → LogsIn r now (after_state r now r.state clearing)
        ⊎ Refuses (after_state r now r.state clearing)
  unfolding after_state cleared text_eq
  after_state-LogsIn r now same =
      elim (Stage-bind (verifier_of jwt pk cfg r)
        (λ v. exchanged jwt pk cfg r v >>= λ t. log_in jwt pk cfg r.state t now) clearing _
        (verifier_of-Stage jwt pk cfg r clearing)) [
          | inl (n, p, e) ↦ inr (n, p, clearing, e, refl)
          | inr (v, e, pkce) ↦
              elim (Stage-bind (exchanged jwt pk cfg r v) (λ t. log_in jwt pk cfg r.state t now)
                clearing _ (exchanged-Stage jwt pk cfg r v clearing)) [
                  | inl (n, p, e') ↦ inr (n, p, clearing, e ∙ e', refl)
                  | inr (t, e', got) ↦ elim (log_in-Ends r.state t now clearing) [
                    | inl (n, p, e'') ↦ inr (n, p, clearing, e ∙ e' ∙ e'', refl)
                    | inr (c, signed, s, e'') ↦
                        inl (same, (t, v, c, signed, pkce, got, s, e ∙ e' ∙ e''))
                  ]
                ]
        ]

  after_clearing : CallbackRequest → ℕ → Text → CookieHandler (Unit {0})
  after_clearing r now state =
      set_cookie (cleared state_cookie_name (codes "/"))
      >> (set_cookie (cleared oidc_verifier_cookie (codes "/auth/")) >> after_state r now state)

  -- HandleCallback either answers with an error and sets no session cookie, or it redirects, sets
  -- exactly one session cookie and has verified this: the state is that of the cookie, the provider
  -- exchanged the code, with the PKCE verifier of the cookie where PKCE is used, for an ID token that
  -- was verified, and the configured claim, if any, says that the e-mail address is verified.
  pub handle_callback-LogsIn :
      (r : CallbackRequest) (now : ℕ)
      → LogsIn r now (handle_callback jwt pk cfg r now [])
        ⊎ Refuses (handle_callback jwt pk cfg r now [])
  unfolding handle_callback after_state after_clearing
  handle_callback-LogsIn r now =
      elim (Stage-bind (checked_state jwt pk cfg r) (after_clearing r now) [] _
        (checked_state-Stage jwt pk cfg r [])) [
          | inl (n, p, e) ↦ inr (n, p, [], e, refl)
          | inr (state, e, (same, state_eq)) ↦
              let found : handle_callback jwt pk cfg r now [] ≡ after_state r now r.state clearing =
                e ∙ ap (λ s. after_state r now s clearing) state_eq in
              subst (λ res. LogsIn r now res ⊎ Refuses res) (sym found)
                (after_state-LogsIn r now same)
        ]

  -- The identity of a user whom the provider has identified by claims: the groups are those of the
  -- configured claim, and the user is an admin by address or by group.
  abbrev pub session_of : pk.IdToken → Claims → Identity
  session_of id_token c =
      let groups : List Text = elim (pk.raw_claim id_token cfg.oidc.groups_claim) [
        | none ↦ []
        | some raw ↦ pk.json_texts raw
      ] in
      record {
        email = c.email;
        display_name = c.name;
        avatar_url = c.picture;
        groups = groups;
        is_admin =
            any (λ e. text_eq e c.email) cfg.admin_emails
            || any (λ a. any (λ g. text_eq g a) groups) cfg.admin_groups;
        source = codes "oidc";
        api_key_read_only = false;
      }

  -- A session that was issued on a login gives each later request, for as long as the session lasts
  -- and whichever identity the request came with, the identity with the address, the names and the
  -- groups that the provider claimed; it is an admin's where the settings name the address or one of
  -- the groups.
  pub oidc_middleware-session :
      (laws : IsJwt jwt) (net : NetPackage) (nets : List net.Net) (id_token : pk.IdToken)
      (c : Claims) (signed : Text) (now later : ℕ) (id : Option Identity)
      → cfg.oidc.enabled ≡ true
      → Signed id_token now c signed
      → later < now + session_duration
      → oidc_middleware jwt pk cfg net nets (some signed) later id ≡ some (session_of id_token c)
  unfolding oidc_middleware read_session oidc session_key session_claims session_identity groups_of
      is_admin
  oidc_middleware-session laws net nets id_token c signed now later id on (claimed, email, e)
        fresh =
      let accepted : jwt.parse_with_claims (session_key jwt pk cfg) later signed
          ≡ some (session_claims jwt pk cfg id_token c now) =
        laws.parse-sign cfg.jwt_secret (session_claims jwt pk cfg id_token c now) signed
          (session_key jwt pk cfg) later e (rw laws.hs256_hmac refl) fresh in
      let session : read_session jwt pk cfg (some signed) later
          ≡ some (session_identity jwt pk cfg (session_claims jwt pk cfg id_token c now)) =
        ap (identity_or_none jwt pk cfg) accepted in
      ap (λ s. oidc net cfg nets s id) session
      ∙ ap (λ b. if b then some (session_of id_token c) else id) on

-- ===== src/Server/Verified.antt =====
-- The steps of HandleCallback in internal/auth/oidc.go: what each has verified when it goes on.
use golink_url_shortener.Base.{
  Bool-cases, Option-cases, Text, codes, text_eq, is_empty, equal_fold, text_eq-eq, is_empty_iff, ℕ,
  ◌≡◌, refl, ap, ◌∙◌, ◌⊎◌, inl, inr, Bool, true, false, not, Option, none, some, List, [], arith,
}
use golink_url_shortener.Base.{ok, err}
use golink_url_shortener.Config.{Config}
use golink_url_shortener.Server.Handler.{Problem, message, failure, ◌>>=◌, return, reply_if}
use golink_url_shortener.Server.Login.{
  claim_is_true, sent_verifier, verifier_of, is_verified_email, checked_state, exchange_code,
  raw_id_token, verified_token, exchanged, refuse_unverified,
}
use golink_url_shortener.Server.Cookies.{
  bad_state, Cookie, JwtPackage, OidcPackage, CallbackRequest, CookieHandler, or_fail,
}

-- A step that sets no cookie: it ends with an error response, or with a value of which something is
-- known.
abbrev pub Stage : {A : Type 0} → CookieHandler A → List Cookie → (A → Type 0) → Type 0
Stage {A} m cs Q =
    ((n : ℕ) × (p : Problem) × (m cs ≡ (err (failure n p), cs)))
    ⊎ ((a : A) × (m cs ≡ (ok a, cs)) × Q a)

pub Stage-bind :
    {A B : Type 0} (m : CookieHandler A) (f : A → CookieHandler B) (cs : List Cookie)
    (Q : A → Type 0)
    → Stage m cs Q
    → ((n : ℕ) × (p : Problem) × (◌>>=◌ m f cs ≡ (err (failure n p), cs)))
      ⊎ ((a : A) × (◌>>=◌ m f cs ≡ f a cs) × Q a)
Stage-bind m f cs Q (inl (n, p, e)) = inl (n, p, rw e refl)
Stage-bind m f cs Q (inr (a, e, q)) = inr (a, rw e refl, q)

Stage-then :
    {A B : Type 0} (m : CookieHandler A) (f : A → CookieHandler B) (cs : List Cookie)
    (Q : A → Type 0) (R : B → Type 0)
    → Stage m cs Q
    → ((a : A) → Q a → Stage (f a) cs R)
    → Stage (◌>>=◌ m f) cs R
Stage-then m f cs Q R (inl (n, p, e)) next = inl (n, p, rw e refl)
Stage-then m f cs Q R (inr (a, e, q)) next = elim (next a q) [
  | inl (n, p, e') ↦ inl (n, p, rw e e')
  | inr (b, e', s) ↦ inr (b, rw e e', s)
]

Stage-imply :
    {A : Type 0} (m : CookieHandler A) (cs : List Cookie) (Q R : A → Type 0)
    → ((a : A) → Q a → R a)
    → Stage m cs Q
    → Stage m cs R
Stage-imply m cs Q R f (inl stop) = inl stop
Stage-imply m cs Q R f (inr (a, e, q)) = inr (a, e, f a q)

pub or_fail-Stage :
    {A : Type 0} (o : Option A) (n : ℕ) (p : Problem) (cs : List Cookie)
    → Stage (or_fail o (failure n p)) cs (λ a. o ≡ some a)
or_fail-Stage none n p cs = inl (n, p, refl)
or_fail-Stage (some a) n p cs = inr (a, refl, refl)

module _ (jwt : JwtPackage) (pk : OidcPackage) (cfg : Config) where
  pub checked_state-Stage :
      (r : CallbackRequest) (cs : List Cookie)
      → Stage
          (checked_state jwt pk cfg r)
          cs
          (λ state. (r.state_cookie ≡ some r.state) × (state ≡ r.state))
  unfolding checked_state
  checked_state-Stage r cs = go r.state_cookie refl
    where
      go :
          (o : Option Text)
          → r.state_cookie ≡ o
          → Stage
              (or_fail o bad_state >>= λ state.
                (reply_if (not (text_eq state r.state)) bad_state >>= λ _. return state))
              cs
              (λ state. (r.state_cookie ≡ some r.state) × (state ≡ r.state))
      go none e = inl (400, message (codes "invalid state"), refl)
      go (some s) e = elim (Bool-cases (text_eq s r.state)) [
        | inl same ↦
            let s_eq = text_eq-eq s r.state same in inr (s, rw same refl, (e ∙ ap some s_eq, s_eq))
        | inr other ↦ inl (400, message (codes "invalid state"), rw other refl)
      ]

  pub verifier_of-Stage :
      (r : CallbackRequest) (cs : List Cookie)
      → Stage
          (verifier_of jwt pk cfg r)
          cs
          (λ v. cfg.oidc.use_pkce ≡ true → r.verifier_cookie ≡ some v)
  unfolding verifier_of
  verifier_of-Stage r cs = elim (Bool-cases cfg.oidc.use_pkce) [
    | inr off ↦ inr ([], rw off refl, λ on. absurd (ground arith))
    | inl on ↦
        elim (or_fail-Stage r.verifier_cookie 400 (message (codes "missing PKCE verifier")) cs) [
          | inl (n, p, e) ↦ inl (n, p, rw on e)
          | inr (v, e, q) ↦ inr (v, rw on e, λ _. q)
        ]
  ]

  -- The provider gave an ID token for the code, and the token was verified.
  abbrev pub Exchanged : CallbackRequest → Text → pk.IdToken → Type 0
  Exchanged r verifier id_token =
      (token : pk.Token) × (raw : Text) × (pk.exchange r.code (sent_verifier jwt pk cfg verifier)
        ≡ some token)
      × (pk.id_token_of token ≡ some raw)
      × (pk.verify raw ≡ some id_token)

  pub exchanged-Stage :
      (r : CallbackRequest) (verifier : Text) (cs : List Cookie)
      → Stage (exchanged jwt pk cfg r verifier) cs (Exchanged r verifier)
  unfolding exchanged
  exchanged-Stage r verifier cs =
      Stage-then (exchange_code jwt pk cfg r verifier)
        (λ token. raw_id_token jwt pk cfg token >>= verified_token jwt pk cfg) cs
        (λ token. pk.exchange r.code (sent_verifier jwt pk cfg verifier) ≡ some token)
        (Exchanged r verifier) (or_fail-Stage _ _ _ cs)
        (λ token got.
          Stage-then (raw_id_token jwt pk cfg token) (verified_token jwt pk cfg) cs
            (λ raw. pk.id_token_of token ≡ some raw) (Exchanged r verifier) (or_fail-Stage _ _ _ cs)
            (λ raw of_token.
              Stage-imply (verified_token jwt pk cfg raw) cs
                (λ id_token. pk.verify raw ≡ some id_token) (Exchanged r verifier)
                (λ id_token good. (token, raw, got, of_token, good)) (or_fail-Stage _ _ _ cs)))

  -- A JSON value that says yes: true, or the text "true" in any case.
  abbrev pub SaysTrue : pk.Json → Type 0
  SaysTrue raw =
      (pk.json_bool raw ≡ some true)
      ⊎ ((s : Text) × (pk.json_bool raw ≡ none)
          × (pk.json_text raw ≡ some s)
          × (equal_fold s (codes "true") ≡ true))

  -- The configured claim, if there is one, says that the address is verified.
  abbrev pub EmailVerified : pk.IdToken → Type 0
  EmailVerified id_token =
      (cfg.oidc.verified_email_claim ≡ [])
      ⊎ ((raw : pk.Json) × (pk.raw_claim id_token cfg.oidc.verified_email_claim ≡ some raw)
          × SaysTrue raw)

  claim_is_true-SaysTrue :
      (o : Option pk.Json)
      → claim_is_true jwt pk cfg o ≡ true
      → (raw : pk.Json) × (o ≡ some raw) × SaysTrue raw
  unfolding claim_is_true
  claim_is_true-SaysTrue none h = absurd (ground arith)
  claim_is_true-SaysTrue (some raw) h = (raw, refl, go (pk.json_bool raw) refl h)
    where
      go :
          (b : Option Bool)
          → pk.json_bool raw ≡ b
          → (elim b as (λ _. Bool) [
            | some c ↦ c
            | none ↦ elim (pk.json_text raw) as (λ _. Bool) [
              | some s ↦ equal_fold s (codes "true")
              | none ↦ false
            ]
          ])
            ≡ true
          → SaysTrue raw
      go (some c) e k = inl (e ∙ ap some k)
      go none e k = elim (Option-cases (pk.json_text raw)) [
        | inl missing ↦ absurd (ground arith)
        | inr (s, got) ↦ inr (s, e, got, ground arith)
      ]

  is_verified_email-EmailVerified :
      (id_token : pk.IdToken)
      → is_verified_email jwt pk cfg id_token ≡ true
      → EmailVerified id_token
  unfolding is_verified_email
  is_verified_email-EmailVerified id_token h =
      elim (Bool-cases (is_empty cfg.oidc.verified_email_claim)) [
        | inl off ↦ inl ((is_empty_iff cfg.oidc.verified_email_claim).0 off)
        | inr on ↦ inr (claim_is_true-SaysTrue _ (rw on at h))
      ]

  pub refuse_unverified-Stage :
      (id_token : pk.IdToken) (cs : List Cookie)
      → Stage (refuse_unverified jwt pk cfg id_token) cs (λ _. EmailVerified id_token)
  refuse_unverified-Stage id_token cs = elim (Bool-cases (is_verified_email jwt pk cfg id_token)) [
    | inl good ↦ inr (tt, rw good refl, is_verified_email-EmailVerified id_token good)
    | inr bad ↦ inl (403, message (codes "email address is not verified"), rw bad refl)
  ]

-- ===== src/Server/Canonical.antt =====
-- DomainRedirect of internal/server/middleware/domain.go.
use golink_url_shortener.Base.{
  Bool-cases, Option-cases, Text, text_eq, is_empty, text_eq-eq, is_empty_iff, ◌≡◌, refl, ◌⊎◌, inl,
  inr, ◌&&◌, Option, none, some, List, [], ◌∷◌, arith,
}
use golink_url_shortener.Config.{canonical_scheme, canonical_host, Config, ConfigPackages}
use golink_url_shortener.Links.Domains.{UrlPackage}
use golink_url_shortener.Server.Handler.{Identity, Response, redirect}
use golink_url_shortener.Server.Middleware.{Guard, chain}
use golink_url_shortener.Server.Net.{request_scheme, NetPackage, HttpRequest, redirect_to_canonical}

pub chain-none :
    (g : Guard) (gs : List Guard) (id : Option Identity)
    → chain (g ∷ gs) id ≡ none
    → (g id ≡ none) × (chain gs id ≡ none)
unfolding chain
chain-none g gs id h = elim (Option-cases (g id)) [
  | inl passed ↦ (passed, rw (passed, chain) at h)
  | inr (resp, stopped) ↦ let k = (rw (stopped, chain) at h) in absurd (ground arith)
]

module _ (net : NetPackage) (url : UrlPackage) (packages : ConfigPackages) (cfg : Config)
    (nets : List net.Net) (r : HttpRequest) where
  -- DomainRedirect
  unfoldable pub domain_redirect : Guard
  domain_redirect id = elim (redirect_to_canonical net url packages cfg nets r) [
    | none ↦ none
    | some target ↦ some (redirect 301 target)
  ]

  domain_redirect-none :
      (id : Option Identity)
      → domain_redirect id ≡ none
      → redirect_to_canonical net url packages cfg nets r ≡ none
  unfolding domain_redirect
  domain_redirect-none id h = go (redirect_to_canonical net url packages cfg nets r) h
    where
      go :
          (o : Option Text)
          → (elim o as (λ _. Option Response) [ none ↦ none | some t ↦ some (redirect 301 t) ])
            ≡ none
          → o ≡ none
      go none k = refl
      go (some t) k = absurd (ground arith)

  -- The request came by the scheme and to the host of the canonical address, if one is configured.
  abbrev pub OnCanonical : Type 0
  OnCanonical =
      (canonical_scheme url packages cfg ≡ [])
      ⊎ ((canonical_host url packages cfg ≡ [])
          ⊎ ((request_scheme net nets r ≡ canonical_scheme url packages cfg)
              × (r.host ≡ canonical_host url packages cfg)))

  redirect_to_canonical-none :
      redirect_to_canonical net url packages cfg nets r ≡ none → OnCanonical
  unfolding redirect_to_canonical
  redirect_to_canonical-none h = elim (Bool-cases (is_empty (canonical_scheme url packages cfg))) [
    | inl no_scheme ↦ inl ((is_empty_iff (canonical_scheme url packages cfg)).0 no_scheme)
    | inr scheme ↦ elim (Bool-cases (is_empty (canonical_host url packages cfg))) [
      | inl no_host ↦ inr (inl ((is_empty_iff (canonical_host url packages cfg)).0 no_host))
      | inr host ↦
          elim (Bool-cases (
            text_eq (request_scheme net nets r) (canonical_scheme url packages cfg)
            && text_eq r.host (canonical_host url packages cfg))) [
              | inl same ↦ inr (
                  inr (
                    text_eq-eq (request_scheme net nets r) (canonical_scheme url packages cfg)
                        (ground arith),
                    text_eq-eq r.host (canonical_host url packages cfg) (ground arith),
                  ))
              | inr other ↦
                  let k = (rw (redirect_to_canonical, scheme, host, other) at h) in
                  absurd (ground arith)
            ]
    ]
  ]

  -- A request that DomainRedirect lets through is on the canonical address.
  pub domain_redirect-OnCanonical : (id : Option Identity) → domain_redirect id ≡ none → OnCanonical
  domain_redirect-OnCanonical id h = redirect_to_canonical-none (domain_redirect-none id h)

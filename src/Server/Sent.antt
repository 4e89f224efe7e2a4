-- ===== src/Server/Sent.antt =====
-- What a client is sent to by internal/server/redirect.go, and what is counted.
use golink_url_shortener.Base.{
  Bool-cases, Option-cases, Text, codes, to_lower, ◌≡◌, refl, sym, ap, ◌∙◌, ◌⊎◌, inl, inr, true,
  false, Option, none, some, List, arith,
}
use golink_url_shortener.Base.{Result, ok, err}
use golink_url_shortener.Config.{Config}
use golink_url_shortener.Db.Models.{Link, is_alias}
use golink_url_shortener.Db.Sql.{
  DbError, not_found, alias_limit_exceeded, unique_violation, foreign_key_violation, no_rows,
  driver_error, invalid_sort_field, invalid_sort_direction,
}
use golink_url_shortener.Db.Repo.{Repo}
use golink_url_shortener.Db.UseCounter.{Counts, bump}
use golink_url_shortener.Server.Handler.{
  Identity, Response, redirect, login, failure, message, on_not_found, internal_error, called,
}
use golink_url_shortener.Server.Net.{HttpRequest, redirect_to_canonical}
use golink_url_shortener.Server.Targets.{is_found, IsTargetOf, location-Located}
use golink_url_shortener.Server.Redirects.{
  Packages, email_of, missing_target, count_use, get_link, do_redirect, needs_auth, guard,
  handle_redirect, beside,
}

Result-cases : {E A : Type 0} (r : Result E A) → ((e : E) × (r ≡ err e)) ⊎ ((a : A) × (r ≡ ok a))
Result-cases (ok a) = inr (a, refl)
Result-cases (err e) = inl (e, refl)

module _ {S : Type 0} (repo : Repo S) (packages : Packages) (cfg : Config)
    (nets : List packages.net.Net) where
  -- The link whose target a link leads to: itself, or for an alias the link of that name.
  abbrev pub LeadsTo : S → Link → Link → Type 0
  LeadsTo s link final =
      ((is_alias link ≡ false) × (final ≡ link))
      ⊎ ((is_alias link ≡ true) × ((repo.get_by_name link.alias_target s).0 ≡ ok final))

  -- The client is sent to a target, and the counts are as said.
  abbrev pub Sends : Text → Link → Counts → Result Response (Unit {0}) × (S × Counts) → Type 0
  Sends target link counts r = (r.0 ≡ err (redirect 302 target)) × (r.1.1 ≡ bump link.id counts)

  abbrev pub Refuses : Result Response (Unit {0}) × (S × Counts) → Type 0
  Refuses r = (resp : Response) × (r.0 ≡ err resp) × (is_found resp ≡ false)

  plain-Sends :
      (r : HttpRequest) (link : Link) (name suffix : Text) (id : Option Identity) (s : S)
      (counts : Counts)
      → is_alias link ≡ false
      → let out = do_redirect repo packages cfg nets r link name suffix id (s, counts) in
        (Refuses out × (out.1.1 ≡ counts))
        ⊎ ((target : Text) × Sends target link counts out
            × IsTargetOf repo packages cfg nets r name suffix (email_of id) link target)
  unfolding do_redirect count_use
  plain-Sends r link name suffix id s counts plain =
      elim (location-Located repo packages cfg nets link name suffix r (email_of id) (s, counts)) [
        | inl (resp, e, other) ↦ inl ((resp, rw (plain, e) refl, other), rw (plain, e) refl)
        | inr (target, e, allowed) ↦ inr (target, (rw (plain, e) refl, rw (plain, e) refl), allowed)
      ]

  abbrev NextLink : S → Text → Counts → Result Response Link × (S × Counts) → Type 0
  NextLink s name counts r =
      ((resp : Response) × (s' : S) × (r ≡ (err resp, (s', counts))) × (is_found resp ≡ false))
      ⊎ ((l : Link) × (s' : S) × (r ≡ (ok l, (s', counts))) × ((repo.get_by_name name s).0 ≡ ok l))

  get_link-NextLink :
      (name : Text) (missing : Response) (s : S) (counts : Counts)
      → is_found missing ≡ false
      → NextLink s name counts (get_link repo packages cfg nets name missing (s, counts))
  unfolding get_link
  get_link-NextLink name missing s counts other = go (repo.get_by_name name s) refl
    where
      not_found_page : (e : DbError) → is_found (on_not_found missing internal_error e) ≡ false
      not_found_page not_found = other
      not_found_page alias_limit_exceeded = refl
      not_found_page unique_violation = refl
      not_found_page foreign_key_violation = refl
      not_found_page no_rows = refl
      not_found_page driver_error = refl
      not_found_page invalid_sort_field = refl
      not_found_page invalid_sort_direction = refl

      go :
          (q : Result DbError Link × S)
          → q ≡ repo.get_by_name name s
          → NextLink s name counts (
              beside repo packages cfg nets counts (called (on_not_found missing internal_error) q))
      go (err e, s') h = inl (on_not_found missing internal_error e, s', refl, not_found_page e)
      go (ok l, s') h = inr (l, s', refl, ap (λ (q : Result DbError Link × S). q.0) (sym h))

  -- doRedirect either answers with something other than a redirect to a target, and then counts
  -- no use of a link that is no alias; or it sends the client to the target of the link that the
  -- named link leads to. That is the stored target of this link with the rest of the path and the
  -- query, or for an advanced link the result of its template on the request, which lies in the
  -- domains allowed for advanced links. Then it has counted exactly one use, of the link that was
  -- named, alias or not.
  pub do_redirect-Sends :
      (r : HttpRequest) (link : Link) (name suffix : Text) (id : Option Identity) (s : S)
      (counts : Counts)
      → let out = do_redirect repo packages cfg nets r link name suffix id (s, counts) in
        (Refuses out × (is_alias link ≡ false → out.1.1 ≡ counts))
        ⊎ ((target : Text) × (final : Link) × Sends target link counts out
            × LeadsTo s link final
            × IsTargetOf repo packages cfg nets r name suffix (email_of id) final target)
  unfolding do_redirect count_use
  do_redirect-Sends r link name suffix id s counts = elim (Bool-cases (is_alias link)) [
    | inr plain ↦ elim (plain-Sends r link name suffix id s counts plain) [
      | inl (refused, same) ↦ inl (refused, λ _. same)
      | inr (target, sent, allowed) ↦ inr (target, link, sent, inl (plain, refl), allowed)
    ]
    | inl is ↦ elim (get_link-NextLink link.alias_target missing_target s counts refl) [
      | inl (resp, s', e, other) ↦
          inl ((resp, rw (is, e) refl, other), λ plain. absurd (ground arith))
      | inr (final, s', e, found) ↦
          elim (location-Located repo packages cfg nets final name suffix r (email_of id)
            (s', bump link.id counts)) [
              | inl (resp, e', other) ↦
                  inl ((resp, rw (is, e, e') refl, other), λ plain. absurd (ground arith))
              | inr (target, e', allowed) ↦ inr (
                target,
                final,
                (rw (is, e, e') refl, rw (is, e, e') refl),
                inr (is, found),
                allowed,
              )
            ]
    ]
  ]

  -- Without an identity, a request for a link that needs authentication counts no use, and is
  -- answered with the canonical address, the login page or a refusal, never with a target.
  pub handle_redirect-guarded :
      (r : HttpRequest) (param suffix : Text) (s : S) (counts : Counts) (link : Link)
      → (repo.get_by_name (to_lower param) s).0 ≡ ok link
      → needs_auth repo packages cfg nets link ≡ true
      → let out = handle_redirect repo packages cfg nets r param suffix none (s, counts) in
        (out.1.1 ≡ counts)
        × (((address : Text) × (redirect_to_canonical packages.net packages.url packages.config cfg
                  nets r
                ≡ some address)
              × (out.0 ≡ err (redirect 301 address)))
            ⊎ ((out.0 ≡ err login) ⊎ (out.0 ≡ err (failure 401 (message (codes "unauthorized"))))))
  unfolding handle_redirect guard get_link
  handle_redirect-guarded r param suffix s counts link got needed =
      go (repo.get_by_name (to_lower param) s) refl got
    where
      ok_inj : {a b : Link} → ◌≡◌ {A = Result DbError Link} (ok a) (ok b) → a ≡ b
      ok_inj e = ground arith

      go :
          (q : Result DbError Link × S)
          → repo.get_by_name (to_lower param) s ≡ q
          → q.0 ≡ ok link
          → let out = handle_redirect repo packages cfg nets r param suffix none (s, counts) in
            (out.1.1 ≡ counts)
            × (((address : Text) × (redirect_to_canonical packages.net packages.url packages.config
                      cfg nets r
                    ≡ some address)
                  × (out.0 ≡ err (redirect 301 address)))
                ⊎ ((out.0 ≡ err login)
                    ⊎ (out.0 ≡ err (failure 401 (message (codes "unauthorized"))))))
      go (err e, s') h bad = cc
      go (ok l, s') h same =
          let auth : needs_auth repo packages cfg nets l ≡ true =
            ap (needs_auth repo packages cfg nets) (ok_inj same) ∙ needed in
          elim (Option-cases
            (redirect_to_canonical packages.net packages.url packages.config cfg nets r)) [
              | inr (address, moved) ↦
                  (rw (h, auth, moved) refl, inl (address, moved, rw (h, auth, moved) refl))
              | inl here ↦ elim (Bool-cases cfg.oidc.enabled) [
                | inl on ↦ (rw (h, auth, here) refl, inr (inl (rw (h, auth, here, on) refl)))
                | inr off ↦ (rw (h, auth, here) refl, inr (inr (rw (h, auth, here, off) refl)))
              ]
            ]

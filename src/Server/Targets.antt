-- ===== src/Server/Targets.antt =====
-- Where internal/server/redirect.go finds the target of a link.
use golink_url_shortener.Base.{
  ◌==◌, if◌then◌else◌, Bool-cases, Option-cases, Text, is_empty, trim_left, trim_right, ◌≡◌, refl,
  sym, ◌⊎◌, inl, inr, Bool, true, false, not, ◌&&◌, ◌||◌, none, some, List, ◌∷◌, ◌++◌, arith,
}
use golink_url_shortener.Base.{Result, ok, err}
use golink_url_shortener.Config.{Config, advanced_links_allowed}
use golink_url_shortener.Db.Models.{Link, is_advanced}
use golink_url_shortener.Db.Repo.{Repo}
use golink_url_shortener.Db.UseCounter.{Counts}
use golink_url_shortener.Links.Domains.{Url, check_advanced_link_domain}
use golink_url_shortener.Redirect.Simple.{
  ResolveError, is_slash, join_path, join_query, extend_url, resolve_simple,
}
use golink_url_shortener.Redirect.Advanced.{TemplateVars, resolve_advanced}
use golink_url_shortener.Server.Handler.{Response, redirect}
use golink_url_shortener.Server.Net.{HttpRequest}
use golink_url_shortener.Server.Redirects.{
  Packages, bad_redirect_target, advanced_disabled, domain_refused, advanced_location, location,
  split_path, split_args,
}

Result-cases : {E A : Type 0} (r : Result E A) → ((e : E) × (r ≡ err e)) ⊎ ((a : A) × (r ≡ ok a))
Result-cases (ok a) = inr (a, refl)
Result-cases (err e) = inl (e, refl)

-- A redirect to the target of a link, as opposed to one to the canonical address.
abbrev pub is_found : Response → Bool
is_found (redirect status target) = status == 302
is_found r = false

module _ {S : Type 0} (repo : Repo S) (packages : Packages) (cfg : Config)
    (nets : List packages.net.Net) where
  -- What the template of an advanced link sees of a request.
  abbrev pub vars_of : HttpRequest → Text → Text → Text → TemplateVars
  vars_of r name suffix email = record {
    path = suffix;
    parts = split_path suffix;
    args = split_args r.raw_query;
    ua = r.user_agent;
    email = email;
    alias = name;
  }

  -- A stored target with the rest of the path and the query of a request appended: itself where
  -- there is neither, and else an address with a scheme and a host.
  abbrev pub IsExtended : Text → Text → Text → Text → Type 0
  IsExtended stored suffix query target =
      ((is_empty suffix ≡ true) × (is_empty query ≡ true) × (target ≡ stored))
      ⊎ ((u : Url) × (packages.url.parse stored ≡ some u)
          × (is_empty u.scheme ≡ false)
          × (is_empty u.host ≡ false)
          × (target
              ≡ packages.url.to_string (record u {
                path =
                    if not (is_empty suffix)
                    then trim_right is_slash u.path ++ b'/' ∷ trim_left is_slash suffix
                    else u.path;
                raw_query =
                    if not (is_empty query)
                    then (if not (is_empty u.raw_query) then u.raw_query ++ b'&' ∷ query else query)
                    else u.raw_query;
              })))

  resolve_simple-IsExtended :
      (stored suffix query target : Text)
      → resolve_simple packages.url stored suffix query ≡ ok target
      → IsExtended stored suffix query target
  unfolding resolve_simple extend_url join_path join_query
  resolve_simple-IsExtended stored suffix query target h =
      elim (Bool-cases (is_empty suffix && is_empty query)) [
        | inl bare ↦ inl (ground arith, ground arith, sym (ok_inj (rw bare at h)))
        | inr more ↦ elim (Option-cases (packages.url.parse stored)) [
          | inl bad ↦ absurd (fails (rw (more, bad) at h))
          | inr (u, parsed) ↦ elim (Bool-cases (is_empty u.scheme || is_empty u.host)) [
            | inl without ↦ absurd (fails (rw (more, parsed, without) at h))
            | inr whole ↦ inr (
              u,
              parsed,
              ground arith,
              ground arith,
              sym (ok_inj (rw (more, parsed, whole) at h)),
            )
          ]
        ]
      ]
    where
      ok_inj : {a b : Text} → ◌≡◌ {A = Result ResolveError Text} (ok a) (ok b) → a ≡ b
      ok_inj e = ground arith

      fails : {e : ResolveError} {b : Text} → ◌≡◌ {A = Result ResolveError Text} (err e) (ok b) → ⊥
      fails e = cc

  -- An address is the target of a link for a request: its target with the rest of the path and the
  -- query, or for an advanced link what its template gives, where such links are allowed and it
  -- lies in the allowed domains.
  abbrev pub IsTargetOf : HttpRequest → Text → Text → Text → Link → Text → Type 0
  IsTargetOf r name suffix email link target =
      ((is_advanced link ≡ false) × IsExtended link.target suffix r.raw_query target)
      ⊎ ((is_advanced link ≡ true)
          × (advanced_links_allowed cfg ≡ true)
          × (resolve_advanced packages.regexp packages.template link.target
                (vars_of r name suffix email)
              ≡ ok target)
          × (check_advanced_link_domain packages.url target cfg.domains_for_advanced_links ≡ none))

  -- Finding the location of a link changes nothing. It ends with an error page or with its target.
  abbrev pub Located :
      HttpRequest
      → Text
      → Text
      → Text
      → Link
      → S × Counts
      → Result Response Text × (S × Counts)
      → Type 0
  Located r name suffix email link st out =
      ((resp : Response) × (out ≡ (err resp, st)) × (is_found resp ≡ false))
      ⊎ ((target : Text) × (out ≡ (ok target, st)) × IsTargetOf r name suffix email link target)

  advanced_location-Located :
      (link : Link) (name suffix : Text) (r : HttpRequest) (email : Text) (st : S × Counts)
      → is_advanced link ≡ true
      → Located r name suffix email link st
          (advanced_location repo packages cfg nets link name suffix r email st)
  unfolding advanced_location
  advanced_location-Located link name suffix r email st is =
      elim (Bool-cases (advanced_links_allowed cfg)) [
        | inr off ↦ inl (advanced_disabled, rw off refl, refl)
        | inl on ↦
            elim (Result-cases (
              resolve_advanced packages.regexp packages.template link.target
                (vars_of r name suffix email))) [
                  | inl (e, bad) ↦ inl (bad_redirect_target, rw (on, bad) refl, refl)
                  | inr (target, good) ↦
                      elim (Option-cases (
                        check_advanced_link_domain packages.url target
                          cfg.domains_for_advanced_links)) [
                            | inl fine ↦
                                inr (target, rw (on, good, fine) refl, inr (is, on, good, fine))
                            | inr (e, outside) ↦
                                inl (domain_refused, rw (on, good, outside) refl, refl)
                          ]
                ]
      ]

  pub location-Located :
      (link : Link) (name suffix : Text) (r : HttpRequest) (email : Text) (st : S × Counts)
      → Located r name suffix email link st
          (location repo packages cfg nets link name suffix r email st)
  unfolding location
  location-Located link name suffix r email st = elim (Bool-cases (is_advanced link)) [
    | inl on ↦ elim (advanced_location-Located link name suffix r email st on) [
      | inl (resp, e, other) ↦ inl (resp, rw on e, other)
      | inr (target, e, allowed) ↦ inr (target, rw on e, allowed)
    ]
    | inr off ↦ elim (Result-cases (resolve_simple packages.url link.target suffix r.raw_query)) [
      | inl (e, bad) ↦ inl (bad_redirect_target, rw (off, bad) refl, refl)
      | inr (target, good) ↦ inr (
        target,
        rw (off, good) refl,
        inl (off, resolve_simple-IsExtended link.target suffix r.raw_query target good),
      )
    ]
  ]

-- ===== src/Server/Net.antt =====
-- internal/auth/cidr.go, internal/server/middleware/realip.go and domain.go: who the peer is, which
-- client a trusted proxy forwards for, and the redirect to the canonical address.
use golink_url_shortener.Base.{
  if◌then◌else◌, any, Text, codes, text_eq, equal_fold, is_empty, split, trim_space, ◌≡◌, refl, ap,
  ◌∙◌, Bool, true, false, not, ◌&&◌, ◌||◌, Option, none, some, List, [], ◌∷◌, ◌++◌,
}
use golink_url_shortener.Config.{Config, canonical_host, canonical_scheme, ConfigPackages}
use golink_url_shortener.Links.Domains.{UrlPackage}

-- The package net: ParseIP, SplitHostPort (its host), IPNet.Contains and IP.String.
pub record NetPackage : Type 1 where
  pub IP : Type 0
  pub Net : Type 0
  pub parse_ip : Text → Option IP
  pub split_host_port : Text → Option Text
  pub contains_ip : Net → IP → Bool
  pub ip_to_string : IP → Text

-- What the middleware reads of a request. `original_remote_addr` is the context value that
-- PreserveRemoteAddr stores; headers are in order, under their canonical names.
pub record HttpRequest : Type 0 where
  pub remote_addr : Text
  pub original_remote_addr : Text
  pub tls : Bool
  pub host : Text
  pub path : Text
  pub raw_query : Text
  pub user_agent : Text
  pub headers : List (Text × Text)

-- r.Header.Values
unfoldable pub header_values : Text → List (Text × Text) → List Text
header_values name [] = []
header_values name ((key, value) ∷ hs) =
    let rest = header_values name hs in if equal_fold key name then value ∷ rest else rest

abbrev pub first_or_empty : List Text → Text
first_or_empty [] = []
first_or_empty (v ∷ vs) = v

-- r.Header.Get
unfoldable pub header : HttpRequest → Text → Text
header r name = first_or_empty (header_values name r.headers)

abbrev pub reverse_onto : {A : Type 0} → List A → List A → List A
reverse_onto acc [] = acc
reverse_onto acc (x ∷ xs) = reverse_onto (x ∷ acc) xs

-- The non-empty parts of a header line, trimmed.
unfoldable pub line_entries : List Text → List Text
line_entries [] = []
line_entries (part ∷ parts) =
    let rest = line_entries parts in
    if is_empty (trim_space part) then rest else trim_space part ∷ rest

unfoldable pub lines_entries : List Text → List Text
lines_entries [] = []
lines_entries (l ∷ ls) = line_entries (split l b',') ++ lines_entries ls

unfoldable pub xff_entries : HttpRequest → List Text
xff_entries r = lines_entries (header_values (codes "X-Forwarded-For") r.headers)

module _ (net : NetPackage) where
  unfoldable pub ip_in_ranges : net.IP → List net.Net → Bool
  ip_in_ranges ip nets = any (λ n. net.contains_ip n ip) nets

  unfoldable pub peer_ip : HttpRequest → Option net.IP
  peer_ip r =
      let addr =
        if is_empty r.original_remote_addr then r.remote_addr else r.original_remote_addr in
      elim (net.split_host_port addr) [ none ↦ net.parse_ip addr | some host ↦ net.parse_ip host ]

  unfoldable pub parse_trimmed : Text → Option net.IP
  parse_trimmed s = if is_empty s then none else elim (net.parse_ip s) [
    | some ip ↦ some ip
    | none ↦ elim (net.split_host_port s) [ some host ↦ net.parse_ip host | none ↦ none ]
  ]

  unfoldable pub parse_forwarded_ip : Text → Option net.IP
  parse_forwarded_ip s = parse_trimmed (trim_space s)

  -- The loop from the right: the entries from the last to the first, and the first whose address
  -- is no trusted proxy.
  unfoldable pub last_untrusted : List net.Net → List Text → Option net.IP
  last_untrusted nets [] = none
  last_untrusted nets (e ∷ es) = elim (last_untrusted nets es) [
    | some ip ↦ some ip
    | none ↦ elim (parse_forwarded_ip e) [
      | none ↦ none
      | some ip ↦ if ip_in_ranges ip nets then none else some ip
    ]
  ]

  abbrev pub or_else : {A : Type 0} → Option A → Option A → Option A
  or_else none o = o
  or_else (some a) o = some a

  unfoldable pub forwarded_for : List net.Net → List Text → Option net.IP
  forwarded_for nets [] = none
  forwarded_for nets (e ∷ es) = or_else (last_untrusted nets (e ∷ es)) (parse_forwarded_ip e)

  unfoldable pub single_header : HttpRequest → Option net.IP
  single_header r =
      or_else (parse_forwarded_ip (header r (codes "True-Client-IP")))
        (parse_forwarded_ip (header r (codes "X-Real-IP")))

  unfoldable pub forwarded_client_ip : HttpRequest → List net.Net → Text
  forwarded_client_ip r nets =
      elim (or_else (forwarded_for nets (xff_entries r)) (single_header r)) [
        | none ↦ []
        | some ip ↦ net.ip_to_string ip
      ]

  abbrev pub from_trusted_peer : HttpRequest → List net.Net → Bool
  from_trusted_peer r nets = elim (peer_ip r) [ none ↦ false | some ip ↦ ip_in_ranges ip nets ]

  -- The request that the next handler sees. With no trusted network no peer is in one.
  unfoldable pub trusted_real_ip : List net.Net → HttpRequest → HttpRequest
  trusted_real_ip nets r =
      let ip = forwarded_client_ip r nets in
      if from_trusted_peer r nets && not (is_empty ip) then record r { remote_addr = ip } else r

  unfoldable pub request_scheme : List net.Net → HttpRequest → Text
  request_scheme nets r =
      let proto = header r (codes "X-Forwarded-Proto") in
      if r.tls
      then codes "https"
      else if from_trusted_peer r nets && not (is_empty proto)
      then proto
      else codes "http"

  -- RedirectToCanonical: the location it redirects to, if it does.
  unfoldable pub redirect_to_canonical :
      UrlPackage → ConfigPackages → Config → List net.Net → HttpRequest → Option Text
  redirect_to_canonical url packages cfg nets r =
      let scheme = canonical_scheme url packages cfg in
      let host = canonical_host url packages cfg in
      if is_empty scheme || is_empty host
      then none
      else if text_eq (request_scheme nets r) scheme && text_eq r.host host
      then none
      else some (
          url.to_string (record {
            scheme = scheme;
            host = host;
            path = r.path;
            raw_query = r.raw_query;
            fragment = [];
          }))

  last_untrusted-append :
      (nets : List net.Net) (injected appended : List Text) (ip : net.IP)
      → last_untrusted nets appended ≡ some ip
      → last_untrusted nets (injected ++ appended) ≡ some ip
  unfolding last_untrusted
  last_untrusted-append nets [] appended ip h = h
  last_untrusted-append nets (e ∷ es) appended ip h =
      rw (last_untrusted-append nets es appended ip h, last_untrusted) refl

  forwarded_for-some :
      (nets : List net.Net) (entries : List Text) (ip : net.IP)
      → last_untrusted nets entries ≡ some ip
      → forwarded_for nets entries ≡ some ip
  unfolding forwarded_for last_untrusted
  forwarded_for-some nets [] ip h = h
  forwarded_for-some nets (e ∷ es) ip h = rw (h) refl

  forwarded_client_ip-last :
      (nets : List net.Net) (r : HttpRequest) (injected appended : List Text) (ip : net.IP)
      → xff_entries r ≡ injected ++ appended
      → last_untrusted nets appended ≡ some ip
      → forwarded_client_ip r nets ≡ net.ip_to_string ip
  unfolding forwarded_client_ip
  forwarded_client_ip-last nets r injected appended ip entries h =
      let last =
        forwarded_for-some nets (injected ++ appended) ip
          (last_untrusted-append nets injected appended ip h) in
      ap
        (λ (o : Option net.IP). elim (or_else o (single_header r)) [
          | none ↦ []
          | some ip ↦ net.ip_to_string ip
        ])
        (ap (forwarded_for nets) entries ∙ last)

  -- Whatever addresses a client writes into X-Forwarded-For, to the left of those that its proxies
  -- append: where one of the appended addresses is outside the trusted networks, the request goes on
  -- with the last such address if its peer is trusted, and with the address of the peer if not.
  pub trusted_real_ip-unspoofed :
      (nets : List net.Net) (r : HttpRequest) (injected appended : List Text) (ip : net.IP)
      → xff_entries r ≡ injected ++ appended
      → last_untrusted nets appended ≡ some ip
      → is_empty (net.ip_to_string ip) ≡ false
      → (trusted_real_ip nets r).remote_addr
        ≡ (if from_trusted_peer r nets then net.ip_to_string ip else r.remote_addr)
  unfolding trusted_real_ip
  trusted_real_ip-unspoofed nets r injected appended ip entries h shown =
      rw (forwarded_client_ip-last nets r injected appended ip entries h, shown)
        (elim (from_trusted_peer r nets)
          as (λ (b : Bool).
            (if b && true then record r { remote_addr = net.ip_to_string ip } else r).remote_addr
            ≡ (if b then net.ip_to_string ip else r.remote_addr)) [ true ↦ refl | false ↦ refl ])

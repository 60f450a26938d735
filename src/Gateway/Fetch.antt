-- ===== src/Gateway/Fetch.antt =====
-- `handle_fetch` of af/crates/af-web-gateway/src/gateway.rs: the checks of a URL, the requests along
-- its redirects, the body and the cache of pages. The crates for URLs, addresses, HTTP and HTML, the
-- network and the rate limiters are arguments; what is asked in a round may be answered otherwise in
-- another. Messages of errors are not modelled.
pub mod Handler
pub mod Checks
pub mod Requests
pub mod Guarded
pub mod Body
pub mod Examples
use arbeiterfarm.Base.{
  ℕ, zero, suc, ◌-◌, min, ◌⊎◌, inl, inr, Bool, true, false, ◌&&◌, ◌||◌, not, Option, none, some,
  List, [], ◌∷◌, ◌++◌, map, ltb, leb, ◌==◌, if◌then◌else◌, ◌>>=◌, length, take, drop, is_empty,
  try_then, ok_or, Checked, guard,
}
use arbeiterfarm.Base.Text.{Text, lit, text_eq, trim, mem_text}
use arbeiterfarm.Gateway.Ssrf.{IpAddr, is_private_ip}
use arbeiterfarm.Gateway.Rules.{
  Url, RuleRow, Lib, eq_ignore_ascii_case, Cache, evaluate_rules, allowed, blocked, RuleResult,
}

-- A request of a client, with every address of the host that the builder of the client is given;
-- which of them a connection goes to is the HTTP library's.
pub record Request : Type 0 where
  pub url : Url
  pub host : Text
  pub addrs : List (IpAddr × ℕ)

-- `location` is `some none` for a header that is no text; a chunk is `none` where reading fails.
pub record Response : Type 0 where
  pub status : ℕ
  pub location : Option (Option Text)
  pub content_type : Option Text
  pub chunks : List (Option (List ℕ))

pub data FetchError : Type 0 where
  invalid_input invalid_url dns_error rate_limited internal_error fetch_error : FetchError
  invalid_scheme : Text → FetchError
  ssrf_blocked : IpAddr → FetchError
  country_blocked : IpAddr → Text → FetchError
  url_blocked : Option Text → FetchError
  too_many_redirects : ℕ → FetchError

-- A row of `web_fetch_cache`, without its headers and the time of its fetch.
pub record CacheRow : Type 0 where
  pub url_hash : Text
  pub url : Text
  pub status_code : ℕ
  pub content_type : Option Text
  pub body : Option Text
  pub expires_at : ℕ

-- A checker of geoip.rs: the country code that the database has for an address, `none` where it has
-- none or fails, and the blocked codes in upper case.
pub record GeoIpChecker : Type 0 where
  pub lookup : IpAddr → Option Text
  pub to_uppercase : Text → Text
  pub blocked_countries : List Text

-- The code of a country that is blocked.
unfoldable pub geo_check : GeoIpChecker → IpAddr → Option Text
geo_check checker ip = if is_empty checker.blocked_countries then none else do
  c ← checker.lookup ip
  if mem_text (checker.to_uppercase c) checker.blocked_countries
      then some (checker.to_uppercase c)
      else none

-- What the code asks of other crates and of the network; a query of a host or a server carries the
-- round in which it is asked.
pub record Net : Type 0 where
  pub parse : Text → Option Url
  pub join : Url → Text → Option Url
  pub scheme : Url → Text
  pub port_or_known_default : Url → Option ℕ
  pub lookup_host : ℕ → Text → ℕ → Option (List IpAddr)
  pub geoip : Option GeoIpChecker
  pub send : ℕ → Request → Option Response
  pub digest : Text → Text
  pub html2text : List ℕ → Text
  pub from_utf8 : List ℕ → Option Text
  pub from_utf8_lossy : List ℕ → Text

pub record Config : Type 0 where
  pub max_redirects : ℕ
  pub max_response_bytes : ℕ
  pub cache_ttl : ℕ

-- `resp.status().is_redirection()`
abbrev pub is_redirection : ℕ → Bool
is_redirection status = leb 300 status && leb status 399

abbrev pub is_success : ℕ → Bool
is_success status = leb 200 status && ltb status 400

-- Where a response leads; a redirection without the header is taken as it is.
abbrev pub redirect_of : Response → Option (Option Text)
redirect_of resp = if is_redirection resp.status then resp.location else none

-- The loop over the body, on the bytes read before, with whether something was cut off.
unfoldable pub read_body : ℕ → List ℕ → List (Option (List ℕ)) → FetchError ⊎ (List ℕ × Bool)
read_body max_response_bytes body [] = inr (body, false)
read_body max_response_bytes body (none ∷ chunks) = inl fetch_error
read_body max_response_bytes body (some chunk ∷ chunks) =
    let remaining = max_response_bytes - length body in
    let rest =
      read_body max_response_bytes (body ++ take (min (length chunk) remaining) chunk) chunks in
    if remaining == 0
    then inr (body, true)
    else if ltb (min (length chunk) remaining) (length chunk)
    then inr (body ++ take (min (length chunk) remaining) chunk, true)
    else rest

-- `windows(n).position(|w| w.eq_ignore_ascii_case(tag))`: what stands before and behind the tag.
unfoldable pub split_at_tag : Text → Text → Option (Text × Text)
split_at_tag tag [] = if is_empty tag then some ([], []) else none
split_at_tag tag (c ∷ s) = elim (split_at_tag tag s) [
  | none ↦
      if eq_ignore_ascii_case (take (length tag) (c ∷ s)) tag
      then some ([], drop (length tag) (c ∷ s))
      else none
  | some (before, after) ↦
      if eq_ignore_ascii_case (take (length tag) (c ∷ s)) tag
      then some ([], drop (length tag) (c ∷ s))
      else some (c ∷ before, after)
]

unfoldable pub title_of : Text → Option Text
title_of html = do
  (_, after) ← split_at_tag (lit "<title>") html
  (title, _) ← split_at_tag (lit "</title>") after
  some (trim title)

-- `SELECT * FROM web_fetch_cache WHERE url_hash = $1 AND expires_at > NOW()`
unfoldable pub cache_get : ℕ → Text → List CacheRow → Option CacheRow
cache_get now url_hash [] = none
cache_get now url_hash (row ∷ rest) =
    if text_eq row.url_hash url_hash && ltb now row.expires_at
    then some row
    else cache_get now url_hash rest

-- `INSERT .. ON CONFLICT (url_hash) DO UPDATE`
unfoldable pub cache_put : CacheRow → List CacheRow → List CacheRow
cache_put row [] = row ∷ []
cache_put row (r ∷ rest) =
    if text_eq r.url_hash row.url_hash then row ∷ rest else r ∷ cache_put row rest

abbrev pub judged : RuleResult → Checked FetchError
judged allowed = inr tt
judged (blocked reason) = inl (url_blocked reason)

module _ (lib : Lib) (net : Net) where
  open net use {
    parse, join, scheme, port_or_known_default, lookup_host, geoip, send, digest, html2text,
    from_utf8, from_utf8_lossy,
  }

  -- The requests so far, the cache of regular expressions and the cache of pages.
  pub record World : Type 0 where
    pub requests : List Request
    pub regexes : Cache lib
    pub pages : List CacheRow

  -- `?`, with the world that is left.
  abbrev pub next {ℓ κ} :
      {A : Type ℓ} {B : Type κ}
      → (FetchError ⊎ A) × World
      → (A → World → (FetchError ⊎ B) × World)
      → (FetchError ⊎ B) × World
  next (inl e, w) f = (inl e, w)
  next (inr a, w) f = f a w

  unfoldable pub check_scheme : Url → World → Checked FetchError × World
  check_scheme url w = (
    guard (not (text_eq (scheme url) (lit "http") || text_eq (scheme url) (lit "https")))
        (invalid_scheme (scheme url)),
    w,
  )

  unfoldable pub check_rules : Url → List IpAddr → List RuleRow → World → Checked FetchError × World
  check_rules url ips rules w =
      let (verdict, regexes) = evaluate_rules lib url ips rules w.regexes in
      (judged verdict, record w { regexes = regexes })

  unfoldable pub first_private : List IpAddr → Checked FetchError
  first_private [] = inr tt
  first_private (ip ∷ ips) = if is_private_ip ip then inl (ssrf_blocked ip) else first_private ips

  unfoldable pub first_blocked : GeoIpChecker → List IpAddr → Checked FetchError
  first_blocked check [] = inr tt
  first_blocked check (ip ∷ ips) = elim (geo_check check ip) [
    | none ↦ first_blocked check ips
    | some country ↦ inl (country_blocked ip country)
  ]

  abbrev pub check_countries : Option GeoIpChecker → List IpAddr → Checked FetchError
  check_countries none ips = inr tt
  check_countries (some check) ips = first_blocked check ips

  abbrev pub port_of : Url → ℕ
  port_of url = elim (port_or_known_default url) [ none ↦ 443 | some port ↦ port ]

  unfoldable pub resolve : ℕ → Url → FetchError ⊎ List IpAddr
  resolve round url = try_then (ok_or invalid_url url.host_str) (λ host.
      try_then (ok_or dns_error (lookup_host round host (port_of url))) (λ ips.
        try_then (guard (is_empty ips) dns_error) (λ _.
          try_then (first_private ips) (λ _. try_then (check_countries geoip ips) (λ _. inr ips)))))

  unfoldable pub resolve_and_validate :
      ℕ → Url → List RuleRow → World → (FetchError ⊎ List IpAddr) × World
  resolve_and_validate round url rules w =
      next (resolve round url, w)
        (λ ips v. next (check_rules url ips rules v) (λ _ u. (inr ips, u)))

  -- `build_pinned_client`, with the URL that is asked for.
  unfoldable pub pinned : Url → List IpAddr → Request
  pinned url ips = record {
    url = url;
    host = elim url.host_str [ none ↦ [] | some host ↦ host ];
    addrs = map (λ ip. (ip, port_of url)) ips;
  }

  unfoldable pub redirect_url : Url → Option Text → FetchError ⊎ Url
  redirect_url url location =
      try_then (ok_or fetch_error location) (λ loc. ok_or fetch_error (join url loc))

  -- The checks of a URL that a redirection leads to, and the client for it.
  unfoldable pub checked_request : ℕ → Url → List RuleRow → World → (FetchError ⊎ Request) × World
  checked_request round url rules w = next (check_scheme url w) (λ _ v.
      next (check_rules url [] rules v)
        (λ _ v. next (resolve_and_validate round url rules v) (λ ips v. (inr (pinned url ips), v))))

  unfoldable pub next_request :
      ℕ → Url → Option Text → List RuleRow → World → (FetchError ⊎ Request) × World
  next_request round url location rules w =
      next (redirect_url url location, w) (λ target v. checked_request round target rules v)

  abbrev pub sent : Request → World → World
  sent request w = record w { requests = w.requests ++ request ∷ [] }

  -- The loop over redirects, on how many more it takes: `max_redirects` less `redirect_count`.
  unfoldable pub follow_redirects :
      ℕ → ℕ → Config → Request → List RuleRow → World → (FetchError ⊎ (Url × Response)) × World
  follow_redirects zero round config request rules w = elim (send round request) [
    | none ↦ (inl fetch_error, sent request w)
    | some resp ↦ (
      if is_redirection resp.status
          then inl (too_many_redirects config.max_redirects)
          else inr (request.url, resp),
      sent request w,
    )
  ]
  follow_redirects (suc left) round config request rules w = elim (send round request) [
    | none ↦ (inl fetch_error, sent request w)
    | some resp ↦ elim (redirect_of resp) [
      | none ↦ (inr (request.url, resp), sent request w)
      | some location ↦
          next (next_request (suc round) request.url location rules (sent request w))
            (λ request v. follow_redirects left (suc round) config request rules v)
    ]
  ]

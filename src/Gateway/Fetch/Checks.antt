-- ===== src/Gateway/Fetch/Checks.antt =====
-- What a request must be before it is sent, and that the checks see to it.
use arbeiterfarm.Base.{
  ℕ, ◌≤◌, ◌≡◌, refl, sym, ap, subst, ◌∙◌, inl, inr, Bool, true, false, ◌&&◌, ◌||◌, not, Option,
  none, some, List, [], ◌∷◌, map, arith, Bool-cases, Option-cases, List-cases, if_of_false,
  some_injective, length, any, all, is_empty, All, try_then-inr, inr_injective, ok_or, guard-passed,
}
use arbeiterfarm.Base.Text.{Text, lit, text_eq, mem_text}
use arbeiterfarm.Gateway.Ssrf.{IpAddr, is_private_ip}
use arbeiterfarm.Gateway.Rules.{
  Url, RuleRow, RuleResult, Lib, is_block, evaluate_rules, allowed, blocked,
}
use arbeiterfarm.Gateway.Rules.Cache.{IsSound, rule_matches}
use arbeiterfarm.Gateway.Rules.Verdict.{is_allowed, evaluate_rules-verdict}
use arbeiterfarm.Gateway.Fetch.{
  Request, GeoIpChecker, geo_check, Net, judged, World, check_rules, first_private, first_blocked,
  check_countries, port_of, resolve, invalid_url, dns_error,
}

module _ (lib : Lib) (net : Net) where
  open net use {scheme, geoip}

  -- No block rule matches, and an allow rule does if there is any.
  abbrev pub verdict : Url → List IpAddr → List RuleRow → Bool
  verdict url ips rules =
      not (any (λ r. is_block lib r && rule_matches lib url ips r) rules)
      && (all (is_block lib) rules
          || any (λ r. not (is_block lib r) && rule_matches lib url ips r) rules)

  -- An address in no country that is blocked.
  abbrev pub IsOutside : GeoIpChecker → IpAddr → Type 0
  IsOutside checker ip =
      (code : Text)
      → checker.lookup ip ≡ some code
      → mem_text (checker.to_uppercase code) checker.blocked_countries ≡ false

  -- An address that is not private and in no blocked country.
  abbrev pub IsPublic : IpAddr → Type 0
  IsPublic ip =
      (is_private_ip ip ≡ false)
      × ((checker : GeoIpChecker) → geoip ≡ some checker → IsOutside checker ip)

  -- A request to a web address that the rules let through, alone and with the addresses that it is
  -- pinned to, all of them public.
  abbrev pub IsChecked : List RuleRow → Request → Type 0
  IsChecked rules request =
      ((text_eq (scheme request.url) (lit "http") || text_eq (scheme request.url) (lit "https"))
        ≡ true)
      × (verdict request.url [] rules ≡ true)
      × (ips : List IpAddr) × (map (λ a. a.0) request.addrs ≡ ips)
      × (is_empty ips ≡ false)
      × (verdict request.url ips rules ≡ true)
      × All IsPublic ips

  -- A world of at most so many requests, all checked, with a sound cache of regular expressions.
  abbrev pub IsGuarded : ℕ → List RuleRow → World lib net → Type 0
  IsGuarded n rules w =
      All (IsChecked rules) w.requests × IsSound lib w.regexes × (length w.requests ≤ n)

  judged-inr : (v : RuleResult) → judged v ≡ inr tt → is_allowed v ≡ true
  judged-inr allowed h = refl
  judged-inr (blocked reason) h = absurd (ground (arith, h))

  pub check_rules-inr :
      (n : ℕ) (url : Url) (ips : List IpAddr) (rules : List RuleRow) (w : World lib net)
      → IsGuarded n rules w
      → IsGuarded n rules (check_rules lib net url ips rules w).1
        × ((check_rules lib net url ips rules w).0 ≡ inr tt → verdict url ips rules ≡ true)
  unfolding check_rules
  check_rules-inr n url ips rules w g =
      let known = evaluate_rules-verdict lib url ips rules w.regexes g.1 in
      (
        (g.0, known.1, g.2),
        λ h. sym known.0 ∙ judged-inr (evaluate_rules lib url ips rules w.regexes).0 h,
      )

  first_private-inr :
      (ips : List IpAddr)
      → first_private lib net ips ≡ inr tt
      → All (λ ip. is_private_ip ip ≡ false) ips
  unfolding first_private
  first_private-inr [] h = tt
  first_private-inr (ip ∷ ips) h = elim (Bool-cases (is_private_ip ip)) [
    | inl e ↦ absurd (ground (arith, h, e))
    | inr e ↦ (e, first_private-inr ips (sym (if_of_false _ _ _ e) ∙ h))
  ]

  geo_check-none :
      (checker : GeoIpChecker) (ip : IpAddr) → geo_check checker ip ≡ none → IsOutside checker ip
  unfolding geo_check
  geo_check-none checker ip h code e = elim (Bool-cases (is_empty checker.blocked_countries)) [
    | inl b ↦ elim (List-cases checker.blocked_countries) [
      | inl n ↦ subst (λ l. mem_text (checker.to_uppercase code) l ≡ false) (sym n) refl
      | inr (c, rest, n) ↦ absurd (ground (arith, sym b ∙ ap is_empty n))
    ]
    | inr b ↦ elim (Bool-cases (mem_text (checker.to_uppercase code) checker.blocked_countries)) [
      | inr m ↦ m
      | inl m ↦ absurd (ground (arith, rw (b, e, m, geo_check) at h))
    ]
  ]

  first_blocked-inr :
      (checker : GeoIpChecker) (ips : List IpAddr)
      → first_blocked lib net checker ips ≡ inr tt
      → All (IsOutside checker) ips
  unfolding first_blocked
  first_blocked-inr checker [] h = tt
  first_blocked-inr checker (ip ∷ ips) h = elim (Option-cases (geo_check checker ip)) [
    | inl e ↦
        (geo_check-none checker ip e, first_blocked-inr checker ips (rw (e, first_blocked) at h))
    | inr (c, e) ↦ absurd (ground (arith, rw (e, first_blocked) at h))
  ]

  IsPublic-both :
      (ips : List IpAddr)
      → All (λ ip. is_private_ip ip ≡ false) ips
      → ((checker : GeoIpChecker) → geoip ≡ some checker → All (IsOutside checker) ips)
      → All IsPublic ips
  IsPublic-both [] h k = tt
  IsPublic-both (ip ∷ ips) h k =
      ((h.0, λ checker e. (k checker e).0), IsPublic-both ips h.1 (λ checker e. (k checker e).1))

  check_countries-inr :
      (o : Option GeoIpChecker) (ips : List IpAddr)
      → check_countries lib net o ips ≡ inr tt
      → (checker : GeoIpChecker) → o ≡ some checker
      → All (IsOutside checker) ips
  check_countries-inr none ips h checker e = absurd (ground (arith, e))
  check_countries-inr (some c) ips h checker e =
      subst (λ f. All (IsOutside f) ips) (some_injective c checker e) (first_blocked-inr c ips h)

  -- A host is resolved to public addresses.
  pub resolve-inr :
      (round : ℕ) (url : Url) (ips : List IpAddr)
      → resolve lib net round url ≡ inr ips
      → (is_empty ips ≡ false) × All IsPublic ips
  unfolding resolve
  resolve-inr round url ips h =
      let (host, _, h1) = try_then-inr (ok_or invalid_url url.host_str) _ ips h in
      let (found, _, h2) =
        try_then-inr (ok_or dns_error (net.lookup_host round host (port_of lib net url))) _ ips
          h1 in
      let (full, h3) = guard-passed (is_empty found) dns_error _ ips h2 in
      let (_, open_ones, h4) = try_then-inr (first_private lib net found) _ ips h3 in
      let (_, near, h5) = try_then-inr (check_countries lib net geoip found) _ ips h4 in
      subst (λ l. (is_empty l ≡ false) × All IsPublic l) (inr_injective found ips h5)
        (
          full,
          IsPublic-both found (first_private-inr found open_ones)
              (check_countries-inr geoip found near),
        )

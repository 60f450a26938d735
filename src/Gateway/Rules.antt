-- ===== src/Gateway/Rules.antt =====
-- af/crates/af-web-gateway/src/rules.rs: block and allow rules over URLs. What the crates `url` and
-- `regex` and the standard library's Unicode lower case and address parser do is a parameter.
pub mod Cache
pub mod Verdict
pub mod Examples
use arbeiterfarm.Base.{
  ℕ, ◌+◌, ◌-◌, ◌*◌, Bool, false, ◌&&◌, ◌||◌, not, Option, none, some, List, [], ◌∷◌, map, ltb, leb,
  ◌==◌, if◌then◌else◌, ◌>>=◌, length, any, keep, is_empty,
}
use arbeiterfarm.Base.Text.{Text, lit, text_eq, starts_with, trim_start_matches, split, ends_with}
use arbeiterfarm.Gateway.Ssrf.{IpAddr, ip_in_cidr}

-- What the code reads of a `url::Url`.
pub record Url : Type 0 where
  pub host_str : Option Text
  pub as_str : Text

-- What the code reads of a `WebFetchRuleRow`.
pub record RuleRow : Type 0 where
  pub rule_type : Text
  pub pattern_type : Text
  pub pattern : Text
  pub description : Option Text

pub data RuleResult : Type 0 where
  allowed : RuleResult
  blocked : Option Text → RuleResult

-- `Regex::new`, `is_match`, `str::to_lowercase`, and `str::parse` for addresses.
pub record Lib : Type 1 where
  pub Regex : Type 0
  pub new : Text → Option Regex
  pub is_match : Regex → Text → Bool
  pub to_lowercase : Text → Text
  pub parse_ip : Text → Option IpAddr

unfoldable pub ascii_lower : ℕ → ℕ
ascii_lower c = if leb 0x41 c && leb c 0x5a then c + 32 else c

-- `eq_ignore_ascii_case`
unfoldable pub eq_ignore_ascii_case : Text → Text → Bool
eq_ignore_ascii_case s t = text_eq (map ascii_lower s) (map ascii_lower t)

-- `u8::from_str`: an optional plus sign and decimal digits, at most 255.
unfoldable pub digits_value : ℕ → Text → Option ℕ
digits_value n [] = some n
digits_value n (c ∷ s) =
    let rest = digits_value (n * 10 + (c - 0x30)) s in
    if leb 0x30 c && leb c 0x39 && leb (n * 10 + (c - 0x30)) 255 then rest else none

unfoldable pub parse_u8 : Text → Option ℕ
parse_u8 [] = none
parse_u8 (c ∷ []) = if c == b'+' then none else digits_value 0 (c ∷ [])
parse_u8 (c ∷ d ∷ s) = if c == b'+' then digits_value 0 (d ∷ s) else digits_value 0 (c ∷ d ∷ s)

abbrev is_dot : ℕ → Bool
is_dot c = c == b'.'

module _ (lib : Lib) where
  open lib use {Regex, new, is_match, to_lowercase, parse_ip}

  unfoldable pub parse_cidr : Text → Option (IpAddr × ℕ)
  parse_cidr cidr = elim (split b'/' cidr) [
    | [] ↦ none
    | a ∷ [] ↦ none
    | a ∷ p ∷ [] ↦ do ip ← parse_ip a; prefix ← parse_u8 p; some (ip, prefix)
    | a ∷ p ∷ q ∷ more ↦ none
  ]

  unfoldable pub matches_domain : Url → Text → Bool
  matches_domain url pattern = elim url.host_str [
    | none ↦ false
    | some host ↦ eq_ignore_ascii_case host pattern
  ]

  unfoldable pub matches_suffix : Url → Text → Bool
  matches_suffix url pattern = elim url.host_str [
    | none ↦ false
    | some host ↦
        let pat = trim_start_matches is_dot (to_lowercase pattern) in
        text_eq (to_lowercase host) pat || ends_with (to_lowercase host) (b'.' ∷ pat)
  ]

  unfoldable pub matches_cidr : List IpAddr → Text → Bool
  matches_cidr resolved_ips pattern = elim (parse_cidr pattern) [
    | none ↦ false
    | some (net, prefix_len) ↦ any (λ ip. ip_in_cidr ip net prefix_len) resolved_ips
  ]

  -- `REGEX_CACHE`
  abbrev pub Cache : Type 0
  Cache = List (Text × Regex)

  unfoldable pub cached : Text → Cache → Option Regex
  cached pattern [] = none
  cached pattern ((p, re) ∷ rest) = if text_eq p pattern then some re else cached pattern rest

  unfoldable pub remember : Text → Regex → Cache → Cache
  remember pattern re cache = if ltb (length cache) 1000 then (pattern, re) ∷ cache else cache

  unfoldable pub matches_regex : Url → Text → Cache → Bool × Cache
  matches_regex url pattern cache = elim (cached pattern cache) [
    | some re ↦ (is_match re url.as_str, cache)
    | none ↦ elim (new pattern) [
      | some re ↦ (is_match re url.as_str, remember pattern re cache)
      | none ↦ (false, cache)
    ]
  ]

  unfoldable pub matches_rule : Url → List IpAddr → RuleRow → Cache → Bool × Cache
  matches_rule url resolved_ips rule cache =
      if text_eq rule.pattern_type (lit "domain")
      then (matches_domain url rule.pattern, cache)
      else if text_eq rule.pattern_type (lit "domain_suffix")
      then (matches_suffix url rule.pattern, cache)
      else if text_eq rule.pattern_type (lit "url_prefix")
      then (starts_with url.as_str rule.pattern, cache)
      else if text_eq rule.pattern_type (lit "url_regex")
      then matches_regex url rule.pattern cache
      else if text_eq rule.pattern_type (lit "ip_cidr")
      then (matches_cidr resolved_ips rule.pattern, cache)
      else (false, cache)

  -- `for rule in .. { if matches_rule(..) { return .. } }`: the first rule that matches.
  unfoldable pub first_match : Url → List IpAddr → List RuleRow → Cache → Option RuleRow × Cache
  first_match url ips [] cache = (none, cache)
  first_match url ips (rule ∷ rest) cache =
      let (matched, cache') = matches_rule url ips rule cache in
      let later = first_match url ips rest cache' in if matched then (some rule, cache') else later

  unfoldable pub is_block : RuleRow → Bool
  is_block rule = text_eq rule.rule_type (lit "block")

  -- The allowlist, after no block rule has matched.
  unfoldable pub evaluate_allows : Url → List IpAddr → List RuleRow → Cache → RuleResult × Cache
  evaluate_allows url ips allows cache =
      let (hit, cache') = first_match url ips allows cache in
      if is_empty allows then (allowed, cache) else elim hit [
        | some rule ↦ (allowed, cache')
        | none ↦ (blocked (some (lit "no matching allow rule")), cache')
      ]

  unfoldable pub evaluate_rules : Url → List IpAddr → List RuleRow → Cache → RuleResult × Cache
  evaluate_rules url resolved_ips rules cache =
      let (hit, cache') = first_match url resolved_ips (keep is_block rules) cache in
      let allows = keep (λ r. not (is_block r)) rules in
      elim hit [
        | some rule ↦ (blocked rule.description, cache')
        | none ↦ evaluate_allows url resolved_ips allows cache'
      ]

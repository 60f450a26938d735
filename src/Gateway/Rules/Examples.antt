-- ===== src/Gateway/Rules/Examples.antt =====
-- Rules of the unit tests, with a matcher for literal patterns in the place of the regex crate.
use arbeiterfarm.Base.{
  ◌≡◌, refl, false, none, some, List, [], ◌∷◌, map, arith, if◌then◌else◌, is_empty,
}
use arbeiterfarm.Base.Text.{
  Text, lit, text_eq, starts_with, trim_start_matches, split, ends_with, contains_text,
}
use arbeiterfarm.Gateway.Ssrf.{same_prefix, ip_in_cidr, v4}
use arbeiterfarm.Gateway.Ssrf.Ranges.{octets}
use arbeiterfarm.Gateway.Rules.{
  Url, RuleRow, Lib, ascii_lower, digits_value, parse_u8, parse_cidr, matches_domain,
  matches_suffix, matches_cidr, cached, remember, matches_regex, matches_rule, first_match,
  is_block, evaluate_allows, evaluate_rules, allowed,
}
use arbeiterfarm.Gateway.Rules.Cache.{IsSound}
use arbeiterfarm.Gateway.Rules.Verdict.{is_allowed, evaluate_rules-verdict}

-- A pattern matches the texts that contain it; the empty pattern does not compile.
abbrev pub literal_lib : Lib
literal_lib = record {
  Regex = Text;
  new = λ p. if is_empty p then none else some p;
  is_match = λ re s. contains_text s re;
  to_lowercase = map ascii_lower;
  parse_ip = λ s. if text_eq s (lit "10.0.0.0") then some (v4 (octets 10 0 0 0)) else none;
}

abbrev evil : Url
evil = record { host_str = some (lit "www.Evil.com"); as_str = lit "https://www.evil.com/x" }

abbrev pub rule_of : Text → Text → Text → RuleRow
rule_of rule_type pattern_type pattern = record {
  rule_type = rule_type;
  pattern_type = pattern_type;
  pattern = pattern;
  description = none;
}

abbrev rules : List RuleRow
rules =
    rule_of (lit "allow") (lit "url_regex") (lit "evil")
    ∷ rule_of (lit "block") (lit "ip_cidr") (lit "10.0.0.0/8")
    ∷ rule_of (lit "block") (lit "domain_suffix") (lit ".good.com")
    ∷ []

allowed_by_regex :
    evaluate_rules literal_lib evil (v4 (octets 93 184 216 34) ∷ []) rules []
    ≡ (allowed, (lit "evil", lit "evil") ∷ [])
unfolding evaluate_rules first_match matches_rule matches_regex cached remember matches_cidr
    parse_cidr split parse_u8 digits_value ip_in_cidr same_prefix matches_suffix matches_domain
    ascii_lower trim_start_matches ends_with is_block evaluate_allows text_eq contains_text
    starts_with
allowed_by_regex = refl

blocked_by_address :
    is_allowed (evaluate_rules literal_lib evil (v4 (octets 10 2 3 4) ∷ []) rules []).0 ≡ false
unfolding evaluate_rules first_match matches_rule matches_regex cached remember matches_cidr
    parse_cidr split parse_u8 digits_value ip_in_cidr same_prefix matches_suffix matches_domain
    ascii_lower trim_start_matches ends_with is_block evaluate_allows text_eq contains_text
    starts_with
blocked_by_address = refl

evaluate_rules-verdict_example :
    IsSound literal_lib
      (evaluate_rules literal_lib evil (v4 (octets 93 184 216 34) ∷ []) rules []).1
evaluate_rules-verdict_example =
    (evaluate_rules-verdict literal_lib evil (v4 (octets 93 184 216 34) ∷ []) rules []
      (record { compiled = tt; bounded = omega arith })).1

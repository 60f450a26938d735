-- ===== src/Gateway/Rules/Verdict.antt =====
-- When `evaluate_rules` lets a URL through.
use arbeiterfarm.Base.{
  ◌≡◌, refl, sym, ap, ◌∙◌, inl, inr, Bool, true, false, ◌&&◌, ◌||◌, not, List, [], ◌∷◌, arith,
  Option-cases, is_some, any, all, keep, is_empty, any-keep, is_empty-keep,
}
use arbeiterfarm.Gateway.Ssrf.{IpAddr}
use arbeiterfarm.Gateway.Rules.{
  Url, RuleRow, RuleResult, Lib, Cache, is_block, evaluate_allows, evaluate_rules, allowed, blocked,
  first_match,
}
use arbeiterfarm.Gateway.Rules.Cache.{IsSound, rule_matches, find_match, first_match-Agrees}

abbrev pub is_allowed : RuleResult → Bool
is_allowed allowed = true
is_allowed (blocked reason) = false

module _ (lib : Lib) where
  any-find_match :
      (url : Url) (ips : List IpAddr) (rules : List RuleRow)
      → is_some (find_match lib url ips rules) ≡ any (rule_matches lib url ips) rules
  unfolding find_match
  any-find_match url ips [] = refl
  any-find_match url ips (rule ∷ rest) = ground (arith, any-find_match url ips rest)

  allows-Agrees :
      (url : Url) (ips : List IpAddr) (allows : List RuleRow) (cache : Cache lib)
      → IsSound lib cache
      → (is_allowed (evaluate_allows lib url ips allows cache).0
          ≡ (is_empty allows || any (rule_matches lib url ips) allows))
        × IsSound lib (evaluate_allows lib url ips allows cache).1
  unfolding evaluate_allows
  allows-Agrees url ips [] cache s = (refl, s)
  allows-Agrees url ips (r ∷ rest) cache s =
      let f = first_match-Agrees lib url ips (r ∷ rest) cache s in
      elim (Option-cases (find_match lib url ips (r ∷ rest))) [
        | inl e ↦
            rw (f.0 ∙ e, evaluate_allows)
              (ground (arith, any-find_match url ips (r ∷ rest), ap is_some e), f.1)
        | inr (rule, e) ↦
            rw (f.0 ∙ e, evaluate_allows)
              (ground (arith, any-find_match url ips (r ∷ rest), ap is_some e), f.1)
      ]

  -- With sound entries in the regex cache, a URL is let through exactly if no block rule matches it
  -- and, where some rule is not a block rule, one of those matches it. The cache stays sound and
  -- within its bound, so that its contents never change a verdict.
  pub evaluate_rules-verdict :
      (url : Url) (ips : List IpAddr) (rules : List RuleRow) (cache : Cache lib)
      → IsSound lib cache
      → (is_allowed (evaluate_rules lib url ips rules cache).0 ≡ (
          not (any (λ r. is_block lib r && rule_matches lib url ips r) rules)
          && (all (is_block lib) rules
              || any (λ r. not (is_block lib r) && rule_matches lib url ips r) rules)))
        × IsSound lib (evaluate_rules lib url ips rules cache).1
  unfolding evaluate_rules
  evaluate_rules-verdict url ips rules cache s =
      let matches = rule_matches lib url ips in
      let blocks = keep (is_block lib) rules in
      let f = first_match-Agrees lib url ips blocks cache s in
      let some_block : any (λ r. is_block lib r && matches r) rules ≡ any matches blocks =
        sym (any-keep (is_block lib) matches rules) in
      elim (Option-cases (find_match lib url ips blocks)) [
        | inl e ↦
            let allows = keep (λ r. not (is_block lib r)) rules in
            let al = allows-Agrees url ips allows (first_match lib url ips blocks cache).1 f.1 in
            rw (f.0 ∙ e, evaluate_rules)
              (
                al.0
                    ∙ ground (
                      arith,
                      some_block,
                      any-find_match url ips blocks,
                      ap is_some e,
                      is_empty-keep (is_block lib) rules,
                      any-keep (λ r. not (is_block lib r)) matches rules,
                    ),
                al.1,
              )
        | inr (rule, e) ↦
            rw (f.0 ∙ e, evaluate_rules)
              (ground (arith, some_block, any-find_match url ips blocks, ap is_some e), f.1)
      ]

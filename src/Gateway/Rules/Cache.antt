-- ===== src/Gateway/Rules/Cache.antt =====
-- The regex cache changes no answer, and stays within its bound.
use arbeiterfarm.Base.{
  ◌≤◌, ◌≡◌, refl, subst, ◌∙◌, inl, inr, Bool, true, false, Option, none, some, List, [], ◌∷◌, arith,
  if◌then◌else◌, Bool-cases, Option-cases, length, All,
}
use arbeiterfarm.Base.Text.{Text, lit, text_eq, eq_of_text_eq, starts_with}
use arbeiterfarm.Gateway.Ssrf.{IpAddr}
use arbeiterfarm.Gateway.Rules.{
  Url, RuleRow, Lib, matches_domain, matches_suffix, matches_cidr, Cache, cached, remember,
  matches_regex, matches_rule, first_match,
}

module _ (lib : Lib) where
  open lib use {Regex, new, is_match}

  -- Each entry is what its pattern compiles to, and there are at most 1000.
  pub record IsSound (cache : Cache lib) : Type 0 where
    pub compiled : All (λ e. new e.0 ≡ some e.1) cache
    pub bounded : length cache ≤ 1000

  cached-compiled :
      (pattern : Text) (cache : Cache lib) (re : Regex)
      → All (λ e. new e.0 ≡ some e.1) cache
      → cached lib pattern cache ≡ some re
      → new pattern ≡ some re
  unfolding cached
  cached-compiled pattern [] re s h = absurd (ground arith)
  cached-compiled pattern ((p, r) ∷ rest) re s h = elim (Bool-cases (text_eq p pattern)) [
    | inl e ↦ subst (λ q. new q ≡ some re) (eq_of_text_eq p pattern e) (s.0 ∙ ground arith)
    | inr e ↦ cached-compiled pattern rest re s.1 (ground arith)
  ]

  remember-IsSound :
      (pattern : Text) (re : Regex) (cache : Cache lib)
      → new pattern ≡ some re
      → IsSound cache
      → IsSound (remember lib pattern re cache)
  unfolding remember
  remember-IsSound pattern re cache h s = ground (arith, s.compiled, s.bounded)

  -- Without a cache.
  unfoldable pub regex_matches : Url → Text → Bool
  regex_matches url pattern = elim (new pattern) [ some re ↦ is_match re url.as_str | none ↦ false ]

  unfoldable pub rule_matches : Url → List IpAddr → RuleRow → Bool
  rule_matches url resolved_ips rule =
      if text_eq rule.pattern_type (lit "domain")
      then matches_domain lib url rule.pattern
      else if text_eq rule.pattern_type (lit "domain_suffix")
      then matches_suffix lib url rule.pattern
      else if text_eq rule.pattern_type (lit "url_prefix")
      then starts_with url.as_str rule.pattern
      else if text_eq rule.pattern_type (lit "url_regex")
      then regex_matches url rule.pattern
      else if text_eq rule.pattern_type (lit "ip_cidr")
      then matches_cidr lib resolved_ips rule.pattern
      else false

  -- The answer is the one without a cache, and the cache stays sound.
  abbrev pub Agrees {ℓ} : {A : Type ℓ} → A × Cache lib → A → Type ℓ
  Agrees r a = (r.0 ≡ a) × IsSound r.1

  Agrees-if {ℓ} :
      {A : Type ℓ} (t : Bool) {r r' : A × Cache lib} {a a' : A}
      → Agrees r a
      → Agrees r' a'
      → Agrees (if t then r else r') (if t then a else a')
  Agrees-if true h k = h
  Agrees-if false h k = k

  matches_regex-Agrees :
      (url : Url) (pattern : Text) (cache : Cache lib)
      → IsSound cache
      → Agrees (matches_regex lib url pattern cache) (regex_matches url pattern)
  unfolding matches_regex regex_matches
  matches_regex-Agrees url pattern cache s = elim (Option-cases (cached lib pattern cache)) [
    | inl e ↦ elim (Option-cases (new pattern)) [
      | inl n ↦ rw (e, n, matches_regex, regex_matches) (refl, s)
      | inr (re, n) ↦
          rw (e, n, matches_regex, regex_matches) (refl, remember-IsSound pattern re cache n s)
    ]
    | inr (re, e) ↦
        rw (e, cached-compiled pattern cache re s.compiled e, matches_regex, regex_matches)
          (refl, s)
  ]

  matches_rule-Agrees :
      (url : Url) (ips : List IpAddr) (rule : RuleRow) (cache : Cache lib)
      → IsSound cache
      → Agrees (matches_rule lib url ips rule cache) (rule_matches url ips rule)
  unfolding matches_rule rule_matches
  matches_rule-Agrees url ips rule cache s =
      Agrees-if (text_eq rule.pattern_type (lit "domain")) (refl, s)
        (Agrees-if (text_eq rule.pattern_type (lit "domain_suffix")) (refl, s)
          (Agrees-if (text_eq rule.pattern_type (lit "url_prefix")) (refl, s)
            (Agrees-if (text_eq rule.pattern_type (lit "url_regex"))
              (matches_regex-Agrees url rule.pattern cache s)
              (Agrees-if (text_eq rule.pattern_type (lit "ip_cidr")) (refl, s) (refl, s)))))

  -- The first rule that matches.
  unfoldable pub find_match : Url → List IpAddr → List RuleRow → Option RuleRow
  find_match url ips [] = none
  find_match url ips (rule ∷ rest) =
      if rule_matches url ips rule then some rule else find_match url ips rest

  pub first_match-Agrees :
      (url : Url) (ips : List IpAddr) (rules : List RuleRow) (cache : Cache lib)
      → IsSound cache
      → Agrees (first_match lib url ips rules cache) (find_match url ips rules)
  unfolding first_match find_match
  first_match-Agrees url ips [] cache s = (refl, s)
  first_match-Agrees url ips (rule ∷ rest) cache s =
      let m = matches_rule-Agrees url ips rule cache s in
      let l = first_match-Agrees url ips rest (matches_rule lib url ips rule cache).1 m.1 in
      rw m.0 (Agrees-if (rule_matches url ips rule) {a = some rule} (refl, m.1) l)

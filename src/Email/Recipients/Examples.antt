-- ===== src/Email/Recipients/Examples.antt =====
-- The rules of the unit tests, over ASCII lower case.
use arbeiterfarm.Base.{◌+◌, ◌≡◌, refl, true, ◌&&◌, List, [], ◌∷◌, map, leb, if◌then◌else◌}
use arbeiterfarm.Base.Text.{Text, lit, text_eq, trim_start_matches, split, ends_with}
use arbeiterfarm.Email.Recipients.{
  RuleRow, domain_of, has_type, blocked_by, matches_email_rule, first_match, evaluate_recipient,
  evaluate_each, evaluate_all_recipients, err,
}
use arbeiterfarm.Email.Recipients.Verdict.{is_ok, evaluate_all_recipients-may}

abbrev lower : Text → Text
lower = map (λ c. if leb 0x41 c && leb c 0x5a then c + 32 else c)

abbrev rules : List RuleRow
rules =
    record {
      rule_type = lit "block";
      pattern_type = lit "exact_email";
      pattern = lit "spam@bad.com";
    }
    ∷ record {
      rule_type = lit "allow";
      pattern_type = lit "domain_suffix";
      pattern = lit ".Bad.com";
    }
    ∷ []

blocked_in_cc :
    evaluate_all_recipients lower (lit "a@eu.bad.com" ∷ []) (lit "SPAM@bad.com" ∷ []) [] rules
    ≡ err (lit "'SPAM@bad.com' blocked by exact_email rule: spam@bad.com")
unfolding evaluate_all_recipients evaluate_each evaluate_recipient first_match matches_email_rule
    has_type domain_of split trim_start_matches ends_with text_eq blocked_by
blocked_in_cc = refl

evaluate_all_recipients-may_example :
    is_ok (evaluate_all_recipients lower (lit "a@eu.bad.com" ∷ []) [] [] rules) ≡ true
unfolding matches_email_rule has_type domain_of split trim_start_matches ends_with text_eq
evaluate_all_recipients-may_example =
    evaluate_all_recipients-may lower (lit "a@eu.bad.com" ∷ []) [] [] rules

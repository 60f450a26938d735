-- ===== src/Email/Recipients.antt =====
-- af/crates/af-email/src/recipient_rules.rs. The standard library's Unicode lower case is the
-- parameter `to_lowercase`.
pub mod Verdict
pub mod Examples
use arbeiterfarm.Base.{
  ℕ, Bool, false, ◌||◌, not, Option, none, some, List, [], ◌∷◌, ◌++◌, ◌==◌, if◌then◌else◌, any,
  keep, is_empty,
}
use arbeiterfarm.Base.Text.{Text, lit, text_eq, trim_start_matches, split, ends_with}

-- What the code reads of an `EmailRecipientRuleRow`.
pub record RuleRow : Type 0 where
  pub rule_type : Text
  pub pattern_type : Text
  pub pattern : Text

pub data RuleResult : Type 0 where
  allowed : RuleResult
  blocked : Text → RuleResult

-- `Result<(), String>`
pub data Outcome : Type 0 where
  ok : Outcome
  err : Text → Outcome

-- `split('@').nth(1)`
unfoldable pub domain_of : Text → Option Text
domain_of email = elim (split b'@' email) [
  | [] ↦ none
  | name ∷ [] ↦ none
  | name ∷ domain ∷ rest ↦ some domain
]

abbrev pub is_dot : ℕ → Bool
is_dot c = c == b'.'

unfoldable pub has_type : Text → RuleRow → Bool
has_type t r = text_eq r.rule_type t

-- The two messages.
unfoldable pub blocked_by : Text → RuleRow → Text
blocked_by email rule =
    lit "'"
    ++ (email ++ (lit "' blocked by " ++ (rule.pattern_type ++ (lit " rule: " ++ rule.pattern))))

unfoldable pub not_matched : Text → Text
not_matched email = lit "'" ++ (email ++ lit "' not matched by any allow rule")

module _ (to_lowercase : Text → Text) where
  unfoldable pub matches_email_rule : Text → RuleRow → Bool
  matches_email_rule email_lower rule =
      let pattern_lower = to_lowercase rule.pattern in
      if text_eq rule.pattern_type (lit "exact_email")
      then text_eq email_lower pattern_lower
      else if text_eq rule.pattern_type (lit "domain")
      then elim (domain_of email_lower) [
        | none ↦ false
        | some domain ↦ text_eq domain pattern_lower
      ]
      else if text_eq rule.pattern_type (lit "domain_suffix")
      then elim (domain_of email_lower) [
        | none ↦ false
        | some domain ↦
            text_eq domain (trim_start_matches is_dot pattern_lower)
            || ends_with domain (b'.' ∷ trim_start_matches is_dot pattern_lower)
      ]
      else false

  -- The first rule of a list that matches.
  unfoldable pub first_match : Text → List RuleRow → Option RuleRow
  first_match email_lower [] = none
  first_match email_lower (rule ∷ rest) =
      if matches_email_rule email_lower rule then some rule else first_match email_lower rest

  unfoldable pub evaluate_recipient : Text → List RuleRow → RuleResult
  evaluate_recipient email rules =
      let email_lower = to_lowercase email in
      let allow_rules = keep (has_type (lit "allow")) rules in
      elim (first_match email_lower (keep (has_type (lit "block")) rules)) [
        | some rule ↦ blocked (blocked_by email rule)
        | none ↦
            if is_empty allow_rules then allowed else elim (first_match email_lower allow_rules) [
              | some rule ↦ allowed
              | none ↦ blocked (not_matched email)
            ]
      ]

  -- The loop over `to`, `cc` and `bcc`.
  unfoldable pub evaluate_each : List Text → List RuleRow → Outcome
  evaluate_each [] rules = ok
  evaluate_each (addr ∷ rest) rules =
      let later = evaluate_each rest rules in
      elim (evaluate_recipient addr rules) [ allowed ↦ later | blocked reason ↦ err reason ]

  unfoldable pub evaluate_all_recipients :
      List Text → List Text → List Text → List RuleRow → Outcome
  evaluate_all_recipients to cc_ bcc rules = evaluate_each (to ++ (cc_ ++ bcc)) rules

-- ===== src/Email/Recipients/Verdict.antt =====
-- When a message may be sent.
use arbeiterfarm.Base.{
  ◌≡◌, refl, ap, ◌∙◌, Bool, true, false, ◌&&◌, ◌||◌, not, List, [], ◌∷◌, ◌++◌, arith, is_some, any,
  all, keep, is_empty, any-keep, all-append,
}
use arbeiterfarm.Base.Text.{Text, lit}
use arbeiterfarm.Email.Recipients.{
  RuleRow, RuleResult, Outcome, has_type, matches_email_rule, first_match, evaluate_recipient,
  evaluate_each, evaluate_all_recipients, allowed, blocked, ok, err,
}

abbrev pub is_allowed : RuleResult → Bool
is_allowed allowed = true
is_allowed (blocked reason) = false

abbrev pub is_ok : Outcome → Bool
is_ok ok = true
is_ok (err reason) = false

module _ (to_lowercase : Text → Text) where
  -- Some rule of the type matches the recipient.
  abbrev pub some_match : Text → Text → List RuleRow → Bool
  some_match rule_type email rules =
      any (λ r. has_type rule_type r && matches_email_rule to_lowercase (to_lowercase email) r)
        rules

  -- No block rule matches, and an allow rule does if there is one.
  abbrev pub may_write_to : List RuleRow → Text → Bool
  may_write_to rules email =
      not (some_match (lit "block") email rules)
      && (not (any (has_type (lit "allow")) rules) || some_match (lit "allow") email rules)

  first_match-any :
      (email : Text) (rules : List RuleRow)
      → is_some (first_match to_lowercase email rules)
        ≡ any (matches_email_rule to_lowercase email) rules
  unfolding first_match
  first_match-any email [] = refl
  first_match-any email (r ∷ rest) = ground (arith, first_match-any email rest)

  typed_match :
      (t email : Text) (rules : List RuleRow)
      → is_some (first_match to_lowercase (to_lowercase email) (keep (has_type t) rules))
        ≡ some_match t email rules
  typed_match t email rules =
      first_match-any (to_lowercase email) (keep (has_type t) rules)
      ∙ any-keep (has_type t) (matches_email_rule to_lowercase (to_lowercase email)) rules

  is_empty-typed :
      (t : Text) (rules : List RuleRow)
      → is_empty (keep (has_type t) rules) ≡ not (any (has_type t) rules)
  is_empty-typed t [] = refl
  is_empty-typed t (r ∷ rest) = ground (arith, is_empty-typed t rest)

  evaluate_recipient-may :
      (email : Text) (rules : List RuleRow)
      → is_allowed (evaluate_recipient to_lowercase email rules) ≡ may_write_to rules email
  unfolding evaluate_recipient
  evaluate_recipient-may email rules = ground (
    arith,
    typed_match (lit "block") email rules,
    typed_match (lit "allow") email rules,
    is_empty-typed (lit "allow") rules,
  )

  evaluate_each-may :
      (addrs : List Text) (rules : List RuleRow)
      → is_ok (evaluate_each to_lowercase addrs rules) ≡ all (may_write_to rules) addrs
  unfolding evaluate_each
  evaluate_each-may [] rules = refl
  evaluate_each-may (a ∷ rest) rules =
      ground (arith, evaluate_recipient-may a rules, evaluate_each-may rest rules)

  -- A message is sent exactly if every address of `to`, `cc` and `bcc` is matched by no block rule
  -- and, where the rules hold an allow rule, is matched by one.
  pub evaluate_all_recipients-may :
      (to cc_ bcc : List Text) (rules : List RuleRow)
      → is_ok (evaluate_all_recipients to_lowercase to cc_ bcc rules) ≡ (
          all (may_write_to rules) to
          && (all (may_write_to rules) cc_ && all (may_write_to rules) bcc))
  unfolding evaluate_all_recipients
  evaluate_all_recipients-may to cc_ bcc rules =
      evaluate_each-may (to ++ (cc_ ++ bcc)) rules
      ∙ all-append (may_write_to rules) to (cc_ ++ bcc)
      ∙ ap (λ r. all (may_write_to rules) to && r) (all-append (may_write_to rules) cc_ bcc)

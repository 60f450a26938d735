-- ===== src/Agents/Redaction.antt =====
-- af/crates/af-llm/src/redact.rs: the patterns that are stripped from texts before they are sent to
-- a model that is not local. The crate `regex` is a parameter.
pub mod Leaves
use arbeiterfarm.Base.{Option, none, some, List, [], ◌∷◌}
use arbeiterfarm.Base.Json.{
  Json, JsonItems, JsonMembers, null, bool, number, string, array, object, nil, item, end, member,
}
use arbeiterfarm.Base.Text.{Text, lit}

-- What the code uses of the crate `regex`.
pub record RegexCrate : Type 1 where
  pub Regex : Type 0
  pub new : Text → Option Regex
  pub replace_all : Regex → Text → Text → Text

-- The patterns and what stands for their matches.
abbrev pub default_patterns : List (Text × Text)
default_patterns =
    (lit "sk-[a-zA-Z0-9_-]{20,}", lit "[REDACTED_KEY]")
    ∷ (lit "Bearer\\s+[a-zA-Z0-9_\\-\\.]{20,}", lit "Bearer [REDACTED]")
    ∷ (lit "(?i)password\\s*=\\s*\\S+", lit "password=[REDACTED]")
    ∷ (lit "(?i)api[_-]?key\\s*[:=]\\s*\\S+", lit "api_key=[REDACTED]")
    ∷ (lit "AKIA[0-9A-Z]{16}", lit "[REDACTED_AWS_KEY]")
    ∷ (lit "(?i)(?:postgres|mysql|mongodb|redis)://\\S+", lit "[REDACTED_DB_URL]")
    ∷ (lit "eyJ[a-zA-Z0-9_-]{10,}\\.[a-zA-Z0-9_-]{10,}\\.[a-zA-Z0-9_-]{10,}", lit "[REDACTED_JWT]")
    ∷ (lit "-----BEGIN (?:RSA |EC |OPENSSH )?PRIVATE KEY-----", lit "[REDACTED_PRIVATE_KEY]")
    ∷ (lit "gh[ps]_[a-zA-Z0-9]{36}", lit "[REDACTED_GH_TOKEN]")
    ∷ (
      lit
          "\\b(?:(?:25[0-5]|2[0-4][0-9]|[01]?[0-9][0-9]?)\\.){3}(?:25[0-5]|2[0-4][0-9]|[01]?[0-9][0-9]?)\\b",
      lit "[REDACTED_IP]",
    )
    ∷ (lit "/home/[a-zA-Z0-9_.-]+", lit "/home/[REDACTED]")
    ∷ (lit "/Users/[a-zA-Z0-9_.-]+", lit "/Users/[REDACTED]")
    ∷ []

module _ (regex : RegexCrate) where
  open regex use {Regex, new, replace_all}

  pub record RedactionPattern : Type 0 where
    pub pattern : Regex
    pub replacement : Text

  -- A pattern that does not compile is left out.
  unfoldable pub compiled : List (Text × Text) → List RedactionPattern
  compiled [] = []
  compiled ((pattern, replacement) ∷ rest) = elim (new pattern) [
    | none ↦ compiled rest
    | some r ↦ record { pattern = r; replacement = replacement } ∷ compiled rest
  ]

  unfoldable pub new_layer : List RedactionPattern
  new_layer = compiled default_patterns

  unfoldable pub redact : List RedactionPattern → Text → Text
  redact [] text = text
  redact (p ∷ patterns) text = redact patterns (replace_all p.pattern text p.replacement)

  unfoldable mutual
    pub redact_json_values : List RedactionPattern → Json → Json
    redact_json_values layer (string s) = string (redact layer s)
    redact_json_values layer (object members) = object (redact_members layer members)
    redact_json_values layer (array items) = array (redact_items layer items)
    redact_json_values layer null = null
    redact_json_values layer (bool b) = bool b
    redact_json_values layer (number n) = number n

    pub redact_items : List RedactionPattern → JsonItems → JsonItems
    redact_items layer nil = nil
    redact_items layer (item v items) = item (redact_json_values layer v) (redact_items layer items)

    pub redact_members : List RedactionPattern → JsonMembers → JsonMembers
    redact_members layer end = end
    redact_members layer (member k v members) =
        member k (redact_json_values layer v) (redact_members layer members)

-- ===== src/Agents/Redaction/Leaves.antt =====
-- What redaction changes of a JSON value.
use mathlib.Core.List.{map-append}
use arbeiterfarm.Base.{◌≡◌, refl, sym, ap, ap₂, ◌∙◌, List, [], ◌∷◌, ◌++◌, map}
use arbeiterfarm.Base.Text.{Text}
use arbeiterfarm.Agents.Redaction.{
  RegexCrate, RedactionPattern, redact, redact_json_values, redact_items, redact_members, new_layer,
}
use arbeiterfarm.Base.Json.{
  Json, JsonItems, JsonMembers, null, bool, number, string, array, object, nil, item, end, member,
}

-- The texts of a value, in order; keys are not among them.
unfoldable mutual
  pub texts : Json → List Text
  texts null = []
  texts (bool b) = []
  texts (number n) = []
  texts (string s) = s ∷ []
  texts (array items) = item_texts items
  texts (object members) = member_texts members

  pub item_texts : JsonItems → List Text
  item_texts nil = []
  item_texts (item v items) = texts v ++ item_texts items

  pub member_texts : JsonMembers → List Text
  member_texts end = []
  member_texts (member k v members) = texts v ++ member_texts members

-- A value with the empty text for each of its texts.
unfoldable mutual
  pub blank : Json → Json
  blank null = null
  blank (bool b) = bool b
  blank (number n) = number n
  blank (string s) = string []
  blank (array items) = array (blank_items items)
  blank (object members) = object (blank_members members)

  pub blank_items : JsonItems → JsonItems
  blank_items nil = nil
  blank_items (item v items) = item (blank v) (blank_items items)

  pub blank_members : JsonMembers → JsonMembers
  blank_members end = end
  blank_members (member k v members) = member k (blank v) (blank_members members)

module _ (regex : RegexCrate) (layer : List (RedactionPattern regex)) where
  append-map :
      (f : Text → Text) (us vs xs ys : List Text)
      → us ≡ map f xs
      → vs ≡ map f ys
      → us ++ vs ≡ map f (xs ++ ys)
  append-map f us vs xs ys e e' = ap₂ (λ a b. a ++ b) e e' ∙ sym (map-append f xs ys)

  mutual
    unfolding redact_json_values texts blank

    value-leaves :
        (v : Json)
        → (texts (redact_json_values regex layer v) ≡ map (redact regex layer) (texts v))
          × (blank (redact_json_values regex layer v) ≡ blank v)
    value-leaves null = (refl, refl)
    value-leaves (bool b) = (refl, refl)
    value-leaves (number n) = (refl, refl)
    value-leaves (string s) = (refl, refl)
    value-leaves (array items) = let (t, b) = items-leaves items in (t, ap array b)
    value-leaves (object members) = let (t, b) = members-leaves members in (t, ap object b)

    items-leaves :
        (items : JsonItems)
        → (item_texts (redact_items regex layer items)
            ≡ map (redact regex layer) (item_texts items))
          × (blank_items (redact_items regex layer items) ≡ blank_items items)
    items-leaves nil = (refl, refl)
    items-leaves (item v items) =
        let (t, b) = value-leaves v in
        let (ts, bs) = items-leaves items in
        (append-map (redact regex layer) _ _ (texts v) (item_texts items) t ts, ap₂ item b bs)

    members-leaves :
        (members : JsonMembers)
        → (member_texts (redact_members regex layer members)
            ≡ map (redact regex layer) (member_texts members))
          × (blank_members (redact_members regex layer members) ≡ blank_members members)
    members-leaves end = (refl, refl)
    members-leaves (member k v members) =
        let (t, b) = value-leaves v in
        let (ts, bs) = members-leaves members in
        (
          append-map (redact regex layer) _ _ (texts v) (member_texts members) t ts,
          ap₂ (member k) b bs,
        )

-- Redaction of a JSON value redacts each of its texts, at every depth, and changes nothing else:
-- neither the shape, nor the keys, nor numbers.
pub redact_json_values-leaves :
    (regex : RegexCrate) (v : Json)
    → (texts (redact_json_values regex (new_layer regex) v)
        ≡ map (redact regex (new_layer regex)) (texts v))
      × (blank (redact_json_values regex (new_layer regex) v) ≡ blank v)
redact_json_values-leaves regex v = value-leaves regex (new_layer regex) v

-- ===== src/Core/Resolver/Examples.antt =====
-- A tool that takes an artifact behind two properties, and one that takes a list of objects.
use arbeiterfarm.Base.{
  ℕ, ◌≡◌, refl, inr, true, Option, none, some, [], ◌∷◌, arith, ◌==◌, if◌then◌else◌, any,
}
use arbeiterfarm.Base.Text.{Text, lit, text_eq, split}
use arbeiterfarm.Base.Json.{Json, string, array, object, nil, item, end, member}
use arbeiterfarm.Core.Resolver.{
  is_artifact_ref, child_path, walk_members, walk_properties, walk_items, walk_schema,
  resolve_schema_paths, parts, parse_uuid, extract_target, extract_at_path, extract_artifact_ids,
}
use arbeiterfarm.Core.Resolver.Paths.{Refers, here, property}
use arbeiterfarm.Core.Resolver.Completeness.{extract_artifact_ids_complete}

abbrev field : Text → Json → Json
field key v = object (member key v end)

abbrev a_ref : Json
a_ref = field (lit "$ref") (string (lit "#/$defs/ArtifactId"))

-- {"properties": {"comparison": {"properties": {"primary": {"$ref": ..}}}}}
abbrev nested : Json
nested =
    field (lit "properties")
      (field (lit "comparison") (field (lit "properties") (field (lit "primary") a_ref)))

abbrev input : Json
input = field (lit "comparison") (field (lit "primary") (string (lit "a1")))

-- A parser that knows the artifacts `a1` and `a2`.
abbrev two_ids : Text → Option ℕ
two_ids s = if text_eq s (lit "a1") then some 1 else if text_eq s (lit "a2") then some 2 else none

nested_path : resolve_schema_paths nested ≡ lit "/comparison/primary" ∷ []
unfolding resolve_schema_paths walk_schema walk_properties walk_members walk_items is_artifact_ref
    child_path text_eq
nested_path = refl

nested_ids : extract_artifact_ids two_ids input (resolve_schema_paths nested) ≡ inr (1 ∷ [])
unfolding resolve_schema_paths walk_schema walk_properties walk_members walk_items is_artifact_ref
    child_path text_eq extract_artifact_ids extract_at_path extract_target parse_uuid parts split
nested_ids = refl

-- {"properties": {"targets": {"items": {"properties": {"id": {"$ref": ..}}}}}}: the path leads
-- through the array, and nothing is extracted from an array of objects.
abbrev in_objects : Json
in_objects = field (lit "properties") (
    field (lit "targets") (field (lit "items") (field (lit "properties") (field (lit "id") a_ref))))

missed :
    (resolve_schema_paths in_objects ≡ lit "/targets/id" ∷ [])
    × (extract_artifact_ids two_ids
          (field (lit "targets") (array (item (field (lit "id") (string (lit "a2"))) nil)))
          (resolve_schema_paths in_objects)
        ≡ inr [])
unfolding resolve_schema_paths walk_schema walk_properties walk_members walk_items is_artifact_ref
    child_path text_eq extract_artifact_ids extract_at_path extract_target parse_uuid parts split
missed = (refl, refl)

nested-Refers : Refers nested (lit "comparison" ∷ lit "primary" ∷ [])
unfolding is_artifact_ref text_eq
nested-Refers =
    property
      (member (lit "comparison") (field (lit "properties") (field (lit "primary") a_ref)) end)
      (lit "comparison") refl refl refl
      (property (member (lit "primary") a_ref end) (lit "primary") refl refl refl (here refl))

extract_artifact_ids_complete_example :
    (id : ℕ) × (two_ids (lit "a1") ≡ some id) × (any (λ i. i == id) (1 ∷ []) ≡ true)
unfolding text_eq
extract_artifact_ids_complete_example =
    extract_artifact_ids_complete two_ids nested input (string (lit "a1"))
      (lit "comparison" ∷ lit "primary" ∷ []) (lit "a1") (1 ∷ []) nested-Refers (omega arith)
      ((refl, refl), ((refl, refl), tt)) refl refl nested_ids

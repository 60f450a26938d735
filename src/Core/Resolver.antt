-- ===== src/Core/Resolver.antt =====
-- af/crates/af-core/src/resolver.rs: the artifacts that the input of a tool refers to, found by the
-- references in the tool's schema. The parser of the crate uuid is a parameter.
pub mod Paths
pub mod Completeness
pub mod Examples
use arbeiterfarm.Base.{
  ℕ, zero, suc, ◌⊎◌, inl, inr, Bool, false, ◌||◌, not, Option, none, some, List, [], ◌∷◌, ◌++◌,
  if◌then◌else◌, ◌>>=◌, keep, is_empty, try_then,
}
use arbeiterfarm.Base.Text.{Text, lit, text_eq, split}
use arbeiterfarm.Base.Json.{
  Json, JsonItems, JsonMembers, get, as_str, as_object, null, bool, number, string, array, object,
  nil, item, end, member,
}

abbrev pub max_depth : ℕ
max_depth = 16

-- The test for `$ref`.
unfoldable pub is_artifact_ref : Json → Bool
is_artifact_ref schema = elim (get (lit "$ref") schema >>= as_str) [
  | none ↦ false
  | some ref ↦ text_eq ref (lit "#/$defs/ArtifactId") || text_eq ref (lit "#/$defs/ArtifactIds")
]

unfoldable pub child_path : Text → Text → Text
child_path current_path key =
    if is_empty current_path then b'/' ∷ key else current_path ++ b'/' ∷ key

-- The loop over the properties, with the walk of one.
unfoldable pub walk_members : (Json → Text → List Text) → JsonMembers → Text → List Text
walk_members walk end current_path = []
walk_members walk (member key sub_schema rest) current_path =
    walk sub_schema (child_path current_path key) ++ walk_members walk rest current_path

unfoldable pub walk_properties : (Json → Text → List Text) → Option JsonMembers → Text → List Text
walk_properties walk none current_path = []
walk_properties walk (some props) current_path = walk_members walk props current_path

unfoldable pub walk_items : (Json → Text → List Text) → Option Json → Text → List Text
walk_items walk none current_path = []
walk_items walk (some items) current_path = walk items current_path

-- On the number of levels that are left: `MAX_DEPTH + 1` less the depth. The paths are those that a
-- call pushes, in order.
unfoldable pub walk_schema : ℕ → Json → Text → List Text
walk_schema zero schema current_path = []
walk_schema (suc levels) schema current_path =
    let properties =
      walk_properties (walk_schema levels) (get (lit "properties") schema >>= as_object)
        current_path in
    let items = walk_items (walk_schema levels) (get (lit "items") schema) current_path in
    if is_artifact_ref schema then current_path ∷ [] else properties ++ items

unfoldable pub resolve_schema_paths : Json → List Text
resolve_schema_paths schema = walk_schema (suc max_depth) schema []

pub data ExtractError : Type 0 where
  invalid_uuid : Text → ExtractError
  unexpected : Json → ExtractError

-- `path.split('/').filter(|s| !s.is_empty())`
unfoldable pub parts : Text → List Text
parts path = keep (λ s. not (is_empty s)) (split b'/' path)

module _ (parse_str : Text → Option ℕ) where
  unfoldable pub parse_uuid : Text → ExtractError ⊎ ℕ
  parse_uuid s = elim (parse_str s) [ none ↦ inl (invalid_uuid s) | some id ↦ inr id ]

  -- The loop over an array at the end of a path.
  unfoldable pub extract_items : JsonItems → ExtractError ⊎ List ℕ
  extract_items nil = inr []
  extract_items (item (string s) rest) =
      try_then (parse_uuid s) (λ id. try_then (extract_items rest) (λ ids. inr (id ∷ ids)))
  extract_items (item null rest) = extract_items rest
  extract_items (item (bool b) rest) = extract_items rest
  extract_items (item (number n) rest) = extract_items rest
  extract_items (item (array items) rest) = extract_items rest
  extract_items (item (object members) rest) = extract_items rest

  unfoldable pub extract_target : Json → ExtractError ⊎ List ℕ
  extract_target (string s) = try_then (parse_uuid s) (λ id. inr (id ∷ []))
  extract_target (array arr) = extract_items arr
  extract_target null = inr []
  extract_target (bool b) = inl (unexpected (bool b))
  extract_target (number n) = inl (unexpected (number n))
  extract_target (object members) = inl (unexpected (object members))

  unfoldable pub extract_at_path : Json → List Text → ExtractError ⊎ List ℕ
  extract_at_path value [] = extract_target value
  extract_at_path value (key ∷ path) = elim (get key value) [
    | none ↦ inr []
    | some child ↦ extract_at_path child path
  ]

  unfoldable pub extract_artifact_ids : Json → List Text → ExtractError ⊎ List ℕ
  extract_artifact_ids input [] = inr []
  extract_artifact_ids input (path ∷ paths) =
      try_then (extract_at_path input (parts path))
        (λ ids. try_then (extract_artifact_ids input paths) (λ more. inr (ids ++ more)))

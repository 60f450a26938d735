-- ===== src/Jobs/Enqueue/Accepted.antt =====
-- What an accepted request is, and what it leaves.
use arbeiterfarm.Base.{
  ℕ, ◌+◌, ◌≤◌, min, ◌≡◌, sym, subst, ◌∙◌, inl, inr, Bool, true, false, ◌&&◌, not, Option, some,
  List, [], ◌∷◌, arith, ltb, ◌==◌, ==_iff, Bool-cases, if_of_false, any, keep, is_empty, any-keep,
  any-weaken, try_then-inr, inr_injective, ok_or, ok_or-inr, map_err, map_err-inr, guard-inr,
  guard-passed,
}
use arbeiterfarm.Base.Text.{Text, byte_len}
use arbeiterfarm.Base.Json.{Json}
use arbeiterfarm.Core.Resolver.{resolve_schema_paths, extract_artifact_ids}
use arbeiterfarm.Core.Resolver.Paths.{}
use arbeiterfarm.Core.Resolver.Completeness.{}
use arbeiterfarm.Jobs.ToolRuns.{}
use arbeiterfarm.Jobs.Quotas.{}
use arbeiterfarm.Jobs.Depth.{}
use arbeiterfarm.Jobs.Depth.Nesting.{nesting, json_depth_bounded_lem}
use arbeiterfarm.Jobs.Enqueue.{
  ToolSpec, ToolRequest, ArtifactRow, Database, Statement, get_artifacts_by_ids, invalid_ids,
  check_depth, check_artifacts, check_request, read_artifacts, tool_not_found, too_large, too_deep,
  no_ids, not_accessible, db_error,
}

check_depth-inr :
    (input : Json) (max_input_depth : ℕ)
    → check_depth input max_input_depth ≡ inr tt
    → nesting input ≤ max_input_depth
unfolding check_depth
check_depth-inr input m h = ground (
  arith,
  guard-inr _ (too_deep (min (m + 1) (nesting input)) m)
      (rw (json_depth_bounded_lem input (m + 1), check_depth) at h),
)

-- An artifact is one of the project.
abbrev pub IsOwn : Database → ℕ → ℕ → Type 0
IsOwn db project id = any (λ r. r.id == id && r.project_id == project) db.artifacts ≡ true

own_rows :
    (project id : ℕ) (ids : List ℕ) (rows : List ArtifactRow)
    → any
        (λ r. r.id == id)
        (keep (λ r. r.project_id == project) (keep (λ r. any (λ i. i == r.id) ids) rows))
      ≡ true
    → any (λ r. r.id == id && r.project_id == project) rows ≡ true
own_rows project id ids rows h =
    any-weaken _ (λ r. r.id == id && r.project_id == project) rows (λ r e. ground (arith, e))
      (sym (
          any-keep (λ r. any (λ i. i == r.id) ids) (λ r. r.project_id == project && r.id == id)
            rows)
        ∙ (sym (
              any-keep (λ r. r.project_id == project) (λ r. r.id == id)
                (keep (λ r. any (λ i. i == r.id) ids) rows))
            ∙ h))

-- Nothing is left by `keep` that passes.
all_of_none_left :
    (p : ℕ → Bool) (ids : List ℕ)
    → not (is_empty (keep (λ i. not (p i)) ids)) ≡ false
    → (id : ℕ) → any (λ i. i == id) ids ≡ true
    → p id ≡ true
all_of_none_left p [] h id m = absurd (ground (arith, m))
all_of_none_left p (i ∷ ids) h id m = elim (Bool-cases (i == id)) [
  | inl e ↦ subst (λ n. p n ≡ true) ((==_iff i id).0 e) (ground (arith, h))
  | inr e ↦ all_of_none_left p ids (ground (arith, h)) id (ground (arith, m, e))
]

check_artifacts-inr :
    (refuses : Statement → Bool) (db : Database) (project : ℕ) (ids : List ℕ)
    → check_artifacts refuses db project ids ≡ inr tt
    → (id : ℕ) → any (λ i. i == id) ids ≡ true
    → IsOwn db project id
unfolding check_artifacts invalid_ids get_artifacts_by_ids
check_artifacts-inr refuses db project [] h id m = absurd (ground (arith, m))
check_artifacts-inr refuses db project (i ∷ ids) h id m =
    elim (Bool-cases (refuses read_artifacts)) [
      | inl e ↦ absurd (ground (arith, h, e))
      | inr e ↦ own_rows project id (i ∷ ids) db.artifacts (
          all_of_none_left
            (λ j.
              any (λ r. r.id == j)
                (keep (λ r. r.project_id == project) (get_artifacts_by_ids (i ∷ ids) db.artifacts)))
            (i ∷ ids)
            (guard-inr _
              (not_accessible
                (invalid_ids project (i ∷ ids) (get_artifacts_by_ids (i ∷ ids) db.artifacts)))
              (sym (if_of_false _ (inl (db_error read_artifacts)) _ e) ∙ h))
            id m)
    ]

-- A request that may be run with a specification and the artifacts of its input.
abbrev pub IsAllowed :
    (Text → Option ToolSpec)
    → (Json → Text)
    → (Text → Option ℕ)
    → Database
    → ToolRequest
    → ToolSpec
    → List ℕ
    → Type 0
IsAllowed get_latest to_string parse_str db request spec ids =
    (get_latest request.tool_name ≡ some spec)
    × (byte_len (to_string request.input_json) ≤ spec.policy.max_input_bytes)
    × (nesting request.input_json ≤ spec.policy.max_input_depth)
    × (extract_artifact_ids parse_str request.input_json (resolve_schema_paths spec.input_schema)
        ≡ inr ids)
    × ((id : ℕ) → any (λ i. i == id) ids ≡ true → IsOwn db request.project_id id)

not_above : (a b : ℕ) → ltb a b ≡ false → b ≤ a
not_above a b h = ground (arith, h)

pub check_request-inr :
    (get_latest : Text → Option ToolSpec) (to_string : Json → Text) (parse_str : Text → Option ℕ)
    (refuses : Statement → Bool) (request : ToolRequest) (db : Database) (spec : ToolSpec)
    (ids : List ℕ)
    → check_request get_latest to_string parse_str refuses request db ≡ inr (spec, ids)
    → IsAllowed get_latest to_string parse_str db request spec ids
unfolding check_request
check_request-inr get_latest to_string parse_str refuses request db spec ids h =
    let (found, a, h1) =
      try_then-inr (ok_or (tool_not_found request.tool_name) (get_latest request.tool_name)) _
        (spec, ids) h in
    let (small, h2) =
      guard-passed (ltb found.policy.max_input_bytes (byte_len (to_string request.input_json)))
        (too_large _ _) _ (spec, ids) h1 in
    let (_, shallow, h3) =
      try_then-inr (check_depth request.input_json found.policy.max_input_depth) _ (spec, ids) h2 in
    let (got, e, h4) =
      try_then-inr
        (map_err no_ids (
          extract_artifact_ids parse_str request.input_json
            (resolve_schema_paths found.input_schema)))
        _ (spec, ids) h3 in
    let (_, own, h5) =
      try_then-inr (check_artifacts refuses db request.project_id got) _ (spec, ids) h4 in
    let same = inr_injective (found, got) (spec, ids) h5 in
    subst (λ p. IsAllowed get_latest to_string parse_str db request p.0 p.1) same
      (
        ok_or-inr (tool_not_found request.tool_name) (get_latest request.tool_name) found a,
        not_above found.policy.max_input_bytes _ small,
        check_depth-inr request.input_json found.policy.max_input_depth shallow,
        map_err-inr no_ids
            (extract_artifact_ids parse_str request.input_json
              (resolve_schema_paths found.input_schema))
            got e,
        check_artifacts-inr refuses db request.project_id got own,
      )

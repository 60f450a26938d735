-- ===== src/Jobs/Enqueue/Examples.antt =====
-- Two projects with an artifact each, and a user with room for one run.
use arbeiterfarm.Base.{
  ℕ, ◌≡◌, refl, ◌⊎◌, inl, inr, true, false, Option, none, some, List, [], ◌∷◌, arith, ◌==◌,
  if◌then◌else◌, any,
}
use arbeiterfarm.Base.Text.{Text, lit, text_eq, byte_len, split}
use arbeiterfarm.Base.Json.{Json, string, object, end, member}
use arbeiterfarm.Core.Resolver.{
  is_artifact_ref, child_path, walk_members, walk_properties, walk_items, walk_schema,
  resolve_schema_paths, parts, parse_uuid, extract_target, extract_at_path, extract_artifact_ids,
}
use arbeiterfarm.Core.Resolver.Paths.{here, property}
use arbeiterfarm.Jobs.ToolRuns.{new_row, enqueue}
use arbeiterfarm.Jobs.Quotas.{get_quota, count_active_runs, over_quota}
use arbeiterfarm.Jobs.Depth.{push_members, depth_loop, size, json_depth_bounded}
use arbeiterfarm.Jobs.Enqueue.{
  ToolSpec, ToolRequest, Database, EnqueueError, get_artifacts_by_ids, invalid_ids, record_tool_run,
  link_artifact, check_depth, check_artifacts, admit_user, admit, link_inputs, transact,
  check_request, new_run, enqueue_request, not_accessible, quota_exceeded,
}
use arbeiterfarm.Jobs.Enqueue.Transaction.{HadRoom, IsLinked}
use arbeiterfarm.Jobs.Enqueue.Accepted.{IsOwn, IsAllowed}
use arbeiterfarm.Jobs.Enqueue.Outcome.{enqueue_request-inr, enqueue_request-IsOwn}

abbrev single : Text → Json → Json
single key v = object (member key v end)

abbrev a_ref : Json
a_ref = single (lit "$ref") (string (lit "#/$defs/ArtifactId"))

abbrev file_info : ToolSpec
file_info = record {
  version = 1;
  input_schema = single (lit "properties") (single (lit "artifact_id") a_ref);
  policy = record { max_input_bytes = 100; max_input_depth = 4 };
}

abbrev known : Text → Option ToolSpec
known name = if text_eq name (lit "file.info") then some file_info else none

abbrev two_ids : Text → Option ℕ
two_ids s = if text_eq s (lit "a1") then some 1 else if text_eq s (lit "a2") then some 2 else none

abbrev two_projects : Database
two_projects = record {
  artifacts = record { id = 1; project_id = 1 } ∷ record { id = 2; project_id = 2 } ∷ [];
  quotas =
      record {
        user_id = 7;
        max_storage_bytes = 0;
        max_projects = 0;
        max_concurrent_runs = 1;
        max_llm_tokens_per_day = 0;
        max_upload_bytes = 0;
        max_vt_lookups_per_day = 0;
      }
      ∷ [];
  usage = [];
  tool_runs = [];
  links = [];
}

abbrev asks_for : Text → ToolRequest
asks_for name = record {
  tool_name = lit "file.info";
  input_json = single (lit "artifact_id") (string name);
  project_id = 1;
  thread_id = none;
  parent_message_id = none;
  actor_user_id = some 7;
}

-- A call that the database refuses nothing, as run 5.
abbrev call : Text → Database → (EnqueueError ⊎ ℕ) × Database
call name db = enqueue_request known (λ _. []) two_ids (λ _. false) 5 100 (asks_for name) none db

abbrev with_run : Database
with_run = record two_projects {
  usage = (7, 1) ∷ [];
  tool_runs = new_row 5 100 (new_run file_info (asks_for (lit "a1")) none) ∷ [];
  links = record { tool_run_id = 5; artifact_id = 1; role = lit "input" } ∷ [];
}

accepted : call (lit "a1") two_projects ≡ (inr 5, with_run)
unfolding enqueue_request check_request check_depth json_depth_bounded depth_loop size push_members
    extract_artifact_ids extract_at_path extract_target parse_uuid parts split resolve_schema_paths
    walk_schema walk_properties walk_members walk_items is_artifact_ref child_path text_eq
    check_artifacts invalid_ids get_artifacts_by_ids transact admit admit_user count_active_runs
    get_quota over_quota record_tool_run link_inputs link_artifact byte_len enqueue
accepted = refl

-- An artifact of another project, and a second run.
refused :
    (call (lit "a2") two_projects ≡ (inl (not_accessible (2 ∷ [])), two_projects))
    × (call (lit "a1") with_run ≡ (inl (quota_exceeded 1), with_run))
unfolding enqueue_request check_request check_depth json_depth_bounded depth_loop size push_members
    extract_artifact_ids extract_at_path extract_target parse_uuid parts split resolve_schema_paths
    walk_schema walk_properties walk_members walk_items is_artifact_ref child_path text_eq
    check_artifacts invalid_ids get_artifacts_by_ids transact admit admit_user count_active_runs
    get_quota over_quota record_tool_run link_inputs link_artifact byte_len new_row
refused = (refl, refl)

enqueue_request-inr_example :
    (spec : ToolSpec) × (ids : List ℕ) × IsAllowed known
      (λ _. [])
      two_ids
      two_projects
      (asks_for (lit "a1"))
      spec
      ids
    × HadRoom (some 7) two_projects
    × (with_run.tool_runs ≡ new_row 5 100 (new_run spec (asks_for (lit "a1")) none) ∷ [])
    × ((artifact : ℕ) → any (λ a. a == artifact) ids ≡ true → IsLinked 5 with_run.links artifact)
enqueue_request-inr_example =
    enqueue_request-inr known (λ _. []) two_ids (λ _. false) 5 100 (asks_for (lit "a1")) none
      two_projects with_run 5 accepted

enqueue_request-IsOwn_example :
    (artifact : ℕ) × (two_ids (lit "a1") ≡ some artifact) × IsOwn two_projects 1 artifact
unfolding is_artifact_ref text_eq
enqueue_request-IsOwn_example =
    enqueue_request-IsOwn known (λ _. []) two_ids (λ _. false) 5 100 (asks_for (lit "a1")) none
      two_projects with_run 5 file_info (lit "artifact_id" ∷ []) (string (lit "a1")) (lit "a1")
      accepted refl
      (property (member (lit "artifact_id") a_ref end) (lit "artifact_id") refl refl refl
        (here refl))
      (omega arith) ((refl, refl), tt) refl refl

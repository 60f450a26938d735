-- ===== src/Jobs/Enqueue.antt =====
-- `enqueue` of af/crates/af-jobs/src/enqueue.rs, with the statements of af/crates/af-db that it runs.
-- The latest specification of a tool, the printer of serde_json and the parser of uuid are
-- arguments; so are the statements that the database refuses. Texts of errors are not modelled.
pub mod Transaction
pub mod Accepted
pub mod Outcome
pub mod Examples
use arbeiterfarm.Base.{
  ℕ, ◌+◌, ◌⊎◌, inl, inr, Bool, ◌&&◌, not, Option, none, some, List, [], ◌∷◌, ◌++◌, ltb, ◌==◌,
  if◌then◌else◌, any, keep, is_empty, try_then, ok_or, map_err, Checked, guard,
}
use arbeiterfarm.Base.Text.{Text, lit, text_eq, byte_len}
use arbeiterfarm.Base.Json.{Json}
use arbeiterfarm.Core.Resolver.{ExtractError, resolve_schema_paths, extract_artifact_ids}
use arbeiterfarm.Jobs.ToolRuns.{Table, NewRun, enqueue}
use arbeiterfarm.Jobs.Quotas.{UserQuotaRow, get_quota, count_active_runs, over_quota}
use arbeiterfarm.Jobs.Depth.{json_depth_bounded}

-- What the code reads of a specification and its policy.
pub record ToolPolicy : Type 0 where
  pub max_input_bytes : ℕ
  pub max_input_depth : ℕ

pub record ToolSpec : Type 0 where
  pub version : ℕ
  pub input_schema : Json
  pub policy : ToolPolicy

pub record ToolRequest : Type 0 where
  pub tool_name : Text
  pub input_json : Json
  pub project_id : ℕ
  pub thread_id : Option ℕ
  pub parent_message_id : Option ℕ
  pub actor_user_id : Option ℕ

-- What the code reads of a row of `artifacts`.
pub record ArtifactRow : Type 0 where
  pub id : ℕ
  pub project_id : ℕ

-- A row of `tool_run_artifacts`, without its time.
pub record Link : Type 0 where
  pub tool_run_id : ℕ
  pub artifact_id : ℕ
  pub role : Text

-- The tables; of `usage_daily` the runs of the day by user.
pub record Database : Type 0 where
  pub artifacts : List ArtifactRow
  pub quotas : List UserQuotaRow
  pub usage : List (ℕ × ℕ)
  pub tool_runs : Table
  pub links : List Link

-- The statements that the database can refuse.
pub data Statement : Type 0 where
  read_artifacts begin lock count_runs read_quota record_usage insert_run commit : Statement
  link : ℕ → Statement

pub data EnqueueError : Type 0 where
  tool_not_found : Text → EnqueueError
  too_large : ℕ → ℕ → EnqueueError
  too_deep : ℕ → ℕ → EnqueueError
  no_ids : ExtractError → EnqueueError
  not_accessible : List ℕ → EnqueueError
  db_error : Statement → EnqueueError
  quota_exceeded : ℕ → EnqueueError

unfoldable pub get_artifacts_by_ids : List ℕ → List ArtifactRow → List ArtifactRow
get_artifacts_by_ids ids = keep (λ r. any (λ i. i == r.id) ids)

-- The ids that are not among the rows of the project.
unfoldable pub invalid_ids : ℕ → List ℕ → List ArtifactRow → List ℕ
invalid_ids project ids rows =
    let valid = keep (λ r. r.project_id == project) rows in
    keep (λ i. not (any (λ r. r.id == i) valid)) ids

-- `INSERT INTO usage_daily .. ON CONFLICT .. DO UPDATE`
unfoldable pub record_tool_run : ℕ → List (ℕ × ℕ) → List (ℕ × ℕ)
record_tool_run user [] = (user, 1) ∷ []
record_tool_run user ((u, n) ∷ rest) =
    if u == user then (u, n + 1) ∷ rest else (u, n) ∷ record_tool_run user rest

abbrev pub same_link : ℕ → ℕ → Text → Link → Bool
same_link run artifact role l =
    l.tool_run_id == run && l.artifact_id == artifact && text_eq l.role role

-- `INSERT .. ON CONFLICT DO NOTHING`
unfoldable pub link_artifact : ℕ → ℕ → Text → List Link → List Link
link_artifact run artifact role links =
    if any (same_link run artifact role) links
    then links
    else links ++ record { tool_run_id = run; artifact_id = artifact; role = role } ∷ []

unfoldable pub check_depth : Json → ℕ → Checked EnqueueError
check_depth input max_input_depth = elim (json_depth_bounded input (max_input_depth + 1)) [
  | none ↦ inl (too_deep (max_input_depth + 1) max_input_depth)
  | some depth ↦ guard (ltb max_input_depth depth) (too_deep depth max_input_depth)
]

unfoldable pub check_artifacts : (Statement → Bool) → Database → ℕ → List ℕ → Checked EnqueueError
check_artifacts refuses db project ids =
    let invalid = invalid_ids project ids (get_artifacts_by_ids ids db.artifacts) in
    if is_empty ids
    then inr tt
    else if refuses read_artifacts
    then inl (db_error read_artifacts)
    else guard (not (is_empty invalid)) (not_accessible invalid)

-- The part of the transaction that is run for a user. A refusal of `record_tool_run`, which the
-- code passes over, aborts the transaction in PostgreSQL, so that the statement behind it fails.
unfoldable pub admit_user : (Statement → Bool) → ℕ → Database → EnqueueError ⊎ Database
admit_user refuses user db =
    let active = count_active_runs user db.tool_runs in
    let quota = get_quota user db.quotas in
    try_then (guard (refuses lock) (db_error lock)) (λ _.
      try_then (guard (refuses count_runs) (db_error count_runs)) (λ _.
        try_then (guard (refuses read_quota) (db_error read_quota)) (λ _.
          try_then (guard (over_quota active quota) (quota_exceeded active)) (λ _.
            try_then (guard (refuses record_usage) (db_error insert_run))
              (λ _. inr (record db { usage = record_tool_run user db.usage }))))))

unfoldable pub admit : (Statement → Bool) → Option ℕ → Database → EnqueueError ⊎ Database
admit refuses none db = inr db
admit refuses (some user) db = admit_user refuses user db

unfoldable pub link_inputs : (Statement → Bool) → ℕ → List ℕ → List Link → EnqueueError ⊎ List Link
link_inputs refuses run [] links = inr links
link_inputs refuses run (aid ∷ rest) links =
    try_then (guard (refuses (link aid)) (db_error (link aid)))
      (λ _. link_inputs refuses run rest (link_artifact run aid (lit "input") links))

-- The transaction, on a database that it alone changes: what it leaves where it commits.
unfoldable pub transact :
    (Statement → Bool) → ℕ → ℕ → NewRun → List ℕ → Database → EnqueueError ⊎ Database
transact refuses id now run ids db = try_then (guard (refuses begin) (db_error begin)) (λ _.
    try_then (admit refuses run.actor_user_id db) (λ admitted.
      try_then (guard (refuses insert_run) (db_error insert_run)) (λ _.
        try_then (link_inputs refuses id ids admitted.links) (λ links.
          try_then (guard (refuses commit) (db_error commit)) (λ _. inr (record admitted {
            tool_runs = (enqueue id now run admitted.tool_runs).1;
            links = links;
          }))))))

-- The checks before the transaction: the specification and the artifacts of the input.
unfoldable pub check_request :
    (Text → Option ToolSpec)
    → (Json → Text)
    → (Text → Option ℕ)
    → (Statement → Bool)
    → ToolRequest
    → Database
    → EnqueueError ⊎ (ToolSpec × List ℕ)
check_request get_latest to_string parse_str refuses request db =
    try_then (ok_or (tool_not_found request.tool_name) (get_latest request.tool_name)) (λ spec.
      let bytes = byte_len (to_string request.input_json) in
      try_then
        (guard (ltb spec.policy.max_input_bytes bytes)
          (too_large bytes spec.policy.max_input_bytes))
        (λ _. try_then (check_depth request.input_json spec.policy.max_input_depth) (λ _.
          try_then
            (map_err no_ids (
              extract_artifact_ids parse_str request.input_json
                (resolve_schema_paths spec.input_schema)))
            (λ ids.
              try_then (check_artifacts refuses db request.project_id ids)
                (λ _. inr (spec, ids))))))

abbrev pub new_run : ToolSpec → ToolRequest → Option Text → NewRun
new_run spec request subject = record {
  project_id = request.project_id;
  tool_name = request.tool_name;
  tool_version = spec.version;
  input_json = request.input_json;
  thread_id = request.thread_id;
  parent_message_id = request.parent_message_id;
  actor_subject = subject;
  actor_user_id = request.actor_user_id;
}

-- The id of the row, or the error, with the database that is left.
abbrev pub settle : ℕ → Database → EnqueueError ⊎ Database → (EnqueueError ⊎ ℕ) × Database
settle id db (inl e) = (inl e, db)
settle id db (inr left) = (inr id, left)

-- The whole call, as the id that the database gives to the row and the database that is left; a
-- transaction that does not commit leaves what was there.
unfoldable pub enqueue_request :
    (Text → Option ToolSpec)
    → (Json → Text)
    → (Text → Option ℕ)
    → (Statement → Bool)
    → ℕ
    → ℕ
    → ToolRequest
    → Option Text
    → Database
    → (EnqueueError ⊎ ℕ) × Database
enqueue_request get_latest to_string parse_str refuses id now request subject db = settle id db (
    try_then (check_request get_latest to_string parse_str refuses request db)
      (λ checked. transact refuses id now (new_run checked.0 request subject) checked.1 db))

-- ===== src/Jobs/Worker.antt =====
-- `try_execute_one` of af/crates/af-jobs/src/worker.rs: a run is claimed, executed and ended. What the
-- registries hold, what a tool answers and which statements the database refuses are arguments, and
-- so is what other transactions do to the runs while the tool works, the heartbeats of the worker
-- among it. The directory of a run and messages are not modelled.
pub mod Ends
pub mod Examples
use arbeiterfarm.Base.{
  ℕ, ◌⊎◌, inl, inr, Bool, true, false, ◌&&◌, ◌||◌, not, Option, none, some, List, [], ◌∷◌, ◌++◌,
  if◌then◌else◌, is_some, any, try_then, Checked, guard,
}
use arbeiterfarm.Base.Text.{Text, lit}
use arbeiterfarm.Base.Json.{Json, null, bool, string, object, end, member}
use arbeiterfarm.Jobs.ToolRuns.{ToolRunRow, Table, claim, Output, complete, fail, completed, failed}
use arbeiterfarm.Jobs.Lifecycle.{lease_duration_secs}
use arbeiterfarm.Jobs.Enqueue.{Link, link_artifact}

pub data WorkerError : Type 0 where
  db : WorkerError
  no_tool no_executor : Text → WorkerError
  context : WorkerError

-- The result of a tool: what is stored of it, and the artifacts that it made.
pub record ToolResult : Type 0 where
  pub output : Output
  pub produced_artifacts : List ℕ

-- How an execution ends: the input is not valid, or the tool has a result or an error.
pub data Execution : Type 0 where
  validation_error : Text → Execution
  finished : ToolResult → Execution
  tool_error : Json → Execution

-- The statements of a worker that the database can refuse; `scope` stands for `begin_scoped`.
pub data WorkerStatement : Type 0 where
  claim_run scope write_end commit_end write_audit : WorkerStatement
  link_output : ℕ → WorkerStatement

-- What a worker asks of others.
pub record Tools : Type 0 where
  pub has_spec : Text → ℕ → Bool
  pub has_executor : Text → ℕ → Bool
  pub build_context : ToolRunRow → Bool
  pub execute : ToolRunRow → Execution
  pub refuses : WorkerStatement → Bool
  pub locked : ℕ → Bool
  pub meanwhile : Table → Table

-- The tables that a worker writes; an entry of the log is the run and its status.
pub record Store : Type 0 where
  pub tool_runs : Table
  pub links : List Link
  pub audit_log : List (ℕ × Text)

-- The `err_json` of an input that is not valid.
unfoldable pub validation_json : Text → Json
validation_json msg = object (
    member (lit "code") (string (lit "validation_error")) (
      member (lit "message") (string msg)
        (member (lit "retryable") (bool false) (member (lit "details") null end))))

-- A statement whose error is passed over.
abbrev pub unless {ℓ} : {A : Type ℓ} → Bool → (A → A) → A → A
unless refused f a = if refused then a else f a

unfoldable pub audit : Tools → ℕ → Text → Store → Store
audit tools run status s = record s {
  audit_log = unless (tools.refuses write_audit) (λ log. log ++ (run, status) ∷ []) s.audit_log;
}

-- Whether a transaction with the user's scope is open; otherwise the pool is used.
abbrev pub is_scoped : Tools → Option ℕ → Bool
is_scoped tools actor = is_some actor && not (tools.refuses scope)

unfoldable pub scoped_fail : Tools → ℕ → Option ℕ → ℕ → Json → Store → Checked WorkerError × Store
scoped_fail tools now actor run err_json s =
    let refused = tools.refuses write_end || (is_scoped tools actor && tools.refuses commit_end) in
    (
      guard refused db,
      record s { tool_runs = unless refused (fail now run err_json none) s.tool_runs },
    )

-- The links of the produced artifacts, each statement on its own.
unfoldable pub link_outputs : Tools → ℕ → List ℕ → List Link → List Link
link_outputs tools run [] links = links
link_outputs tools run (aid ∷ rest) links =
    link_outputs tools run rest
      (unless (tools.refuses (link_output aid)) (link_artifact run aid (lit "output")) links)

unfoldable pub unscoped_complete : Tools → ℕ → ℕ → ToolResult → Store → Store
unscoped_complete tools now run result s = record s {
  links = link_outputs tools run result.produced_artifacts s.links;
  tool_runs = unless (tools.refuses write_end) (complete now run result.output) s.tool_runs;
}

-- In a transaction a refused statement, whose error is passed over, undoes all of it.
unfoldable pub scoped_complete : Tools → ℕ → ℕ → ToolResult → Store → Store
scoped_complete tools now run result s =
    let refused =
      any (λ a. tools.refuses (link_output a)) result.produced_artifacts
      || (tools.refuses write_end || tools.refuses commit_end) in
    record s {
      links = unless refused (link_outputs tools run result.produced_artifacts) s.links;
      tool_runs = unless refused (complete now run result.output) s.tool_runs;
    }

unfoldable pub store_result : Tools → ℕ → Option ℕ → ℕ → ToolResult → Store → Store
store_result tools now actor run result s =
    if is_scoped tools actor
    then scoped_complete tools now run result s
    else unscoped_complete tools now run result s

-- A failure, with its entry in the log where it could be written.
abbrev pub fail_and_audit :
    Tools → ℕ → ToolRunRow → Json → Text → Store → (WorkerError ⊎ Bool) × Store
fail_and_audit tools now run err_json status s =
    let (written, failed_store) = scoped_fail tools now run.actor_user_id run.id err_json s in
    elim written [
      | inl e ↦ (inl e, failed_store)
      | inr _ ↦ (inr true, audit tools run.id status failed_store)
    ]

unfoldable pub execute_claimed : Tools → ℕ → ToolRunRow → Store → (WorkerError ⊎ Bool) × Store
execute_claimed tools now run s = elim (tools.execute run) [
  | validation_error msg ↦
      fail_and_audit tools now run (validation_json msg) (lit "validation_failed") s
  | finished result ↦ (
    inr true,
    audit tools run.id (lit "completed") (store_result tools now run.actor_user_id run.id result s),
  )
  | tool_error err_json ↦ fail_and_audit tools now run err_json (lit "failed") s
]

-- The checks of a claimed run, whose errors leave it as it is.
unfoldable pub check_run : Tools → ToolRunRow → Checked WorkerError
check_run tools run =
    try_then (guard (not (tools.has_spec run.tool_name run.tool_version)) (no_tool run.tool_name))
      (λ _.
        try_then
          (guard (not (tools.has_executor run.tool_name run.tool_version))
            (no_executor run.tool_name))
          (λ _. guard (not (tools.build_context run)) context))

-- The claim is made at one time and the end is written at another.
unfoldable pub try_execute_one : Tools → ℕ → ℕ → Store → (WorkerError ⊎ Bool) × Store
try_execute_one tools claim_at end_at s =
    let (run, claimed_runs) = claim tools.locked claim_at lease_duration_secs s.tool_runs in
    if tools.refuses claim_run then (inl db, s) else elim run [
      | none ↦ (inr false, s)
      | some r ↦ elim (check_run tools r) [
        | inl e ↦ (inl e, record s { tool_runs = claimed_runs })
        | inr _ ↦
            execute_claimed tools end_at r (record s { tool_runs = tools.meanwhile claimed_runs })
      ]
    ]

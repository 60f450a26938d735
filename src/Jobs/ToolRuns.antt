-- ===== src/Jobs/ToolRuns.antt =====
-- af/crates/af-db/src/tool_runs.rs: the table of tool runs and the statements on it. A statement is
-- one step, as PostgreSQL runs it; a time is what `now()` gives to it, in seconds. Uuids are numbers.
pub mod Statements
use arbeiterfarm.Base.{
  ℕ, ◌+◌, Bool, true, false, ◌&&◌, not, Option, none, some, List, [], ◌∷◌, ◌++◌, ltb, leb, ◌==◌,
  if◌then◌else◌,
}
use arbeiterfarm.Base.Text.{Text, lit}
use arbeiterfarm.Base.Json.{Json, null, bool, string, object, end, member}

-- The values of the column `status` that the code writes.
pub data Status : Type 0 where
  queued running completed failed : Status

abbrev pub is_queued : Status → Bool
is_queued queued = true
is_queued running = false
is_queued completed = false
is_queued failed = false

abbrev pub is_running : Status → Bool
is_running running = true
is_running queued = false
is_running completed = false
is_running failed = false

pub record ToolRunRow : Type 0 where
  pub id : ℕ
  pub project_id : ℕ
  pub tool_name : Text
  pub tool_version : ℕ
  pub input_json : Json
  pub status : Status
  pub output_json : Option Json
  pub output_kind : Option Text
  pub error_json : Option Json
  pub stdout : Option Text
  pub stderr : Option Text
  pub thread_id : Option ℕ
  pub parent_message_id : Option ℕ
  pub actor_subject : Option Text
  pub actor_user_id : Option ℕ
  pub attempt : ℕ
  pub lease_expires : Option ℕ
  pub created_at : ℕ
  pub started_at : Option ℕ
  pub completed_at : Option ℕ

abbrev pub Table : Type 0
Table = List ToolRunRow

-- `UPDATE .. SET .. WHERE ..`
unfoldable pub update : (ToolRunRow → Bool) → (ToolRunRow → ToolRunRow) → Table → Table
update chosen set [] = []
update chosen set (row ∷ rest) = (if chosen row then set row else row) ∷ update chosen set rest

-- The arguments of `enqueue`, in its order.
pub record NewRun : Type 0 where
  pub project_id : ℕ
  pub tool_name : Text
  pub tool_version : ℕ
  pub input_json : Json
  pub thread_id : Option ℕ
  pub parent_message_id : Option ℕ
  pub actor_subject : Option Text
  pub actor_user_id : Option ℕ

-- The row that is inserted; the columns that the statement leaves out have the table's defaults.
unfoldable pub new_row : ℕ → ℕ → NewRun → ToolRunRow
new_row id now run = record {
  id = id;
  project_id = run.project_id;
  tool_name = run.tool_name;
  tool_version = run.tool_version;
  input_json = run.input_json;
  status = queued;
  output_json = none;
  output_kind = none;
  error_json = none;
  stdout = none;
  stderr = none;
  thread_id = run.thread_id;
  parent_message_id = run.parent_message_id;
  actor_subject = run.actor_subject;
  actor_user_id = run.actor_user_id;
  attempt = 0;
  lease_expires = none;
  created_at = now;
  started_at = none;
  completed_at = none;
}

unfoldable pub enqueue : ℕ → ℕ → NewRun → Table → ToolRunRow × Table
enqueue id now run table = (new_row id now run, table ++ new_row id now run ∷ [])

-- `ORDER BY created_at LIMIT 1`, of a row and what is chosen from the rows behind it.
abbrev pub older : ToolRunRow → Option ToolRunRow → Option ToolRunRow
older row none = some row
older row (some other) = if leb row.created_at other.created_at then some row else some other

-- The queued row that `claim` picks; `SKIP LOCKED` passes over the rows that another transaction
-- holds.
unfoldable pub oldest_queued : (ℕ → Bool) → Table → Option ToolRunRow
oldest_queued locked [] = none
oldest_queued locked (row ∷ rest) =
    let later = oldest_queued locked rest in
    if is_queued row.status && not (locked row.id) then older row later else later

unfoldable pub claimed : ℕ → ℕ → ToolRunRow → ToolRunRow
claimed now lease_duration row = record row {
  status = running;
  attempt = row.attempt + 1;
  started_at = some now;
  lease_expires = some (now + lease_duration);
}

unfoldable pub claim : (ℕ → Bool) → ℕ → ℕ → Table → Option ToolRunRow × Table
claim locked now lease_duration table = elim (oldest_queued locked table) [
  | none ↦ (none, table)
  | some row ↦ (
    some (claimed now lease_duration row),
    update (λ r. r.id == row.id) (claimed now lease_duration) table,
  )
]

-- What an executor returns that is stored.
pub record Output : Type 0 where
  pub output_json : Json
  pub output_kind : Text
  pub stdout : Option Text
  pub stderr : Option Text

unfoldable pub complete : ℕ → ℕ → Output → Table → Table
complete now id output =
    update (λ r. r.id == id)
      (λ r. record r {
        status = completed;
        output_json = some output.output_json;
        output_kind = some output.output_kind;
        stdout = output.stdout;
        stderr = output.stderr;
        completed_at = some now;
      })

unfoldable pub fail : ℕ → ℕ → Json → Option Text → Table → Table
fail now id error stderr =
    update (λ r. r.id == id)
      (λ r. record r {
        status = failed;
        error_json = some error;
        stderr = stderr;
        completed_at = some now;
      })

unfoldable pub heartbeat : ℕ → ℕ → ℕ → Table → Table
heartbeat now id lease_duration =
    update (λ r. r.id == id) (λ r. record r { lease_expires = some (now + lease_duration) })

-- `lease_expires < now()`, which a NULL does not pass.
abbrev pub expired : ℕ → Option ℕ → Bool
expired now none = false
expired now (some t) = ltb t now

unfoldable pub reclaim_expired : ℕ → ℕ → Table → Table
reclaim_expired now max_attempts =
    update (λ r. is_running r.status && expired now r.lease_expires && ltb r.attempt max_attempts)
      (λ r. record r { status = queued; lease_expires = none })

-- The `error_json` of a run that is given up.
abbrev pub exhausted_error : Json
exhausted_error = object (
    member (lit "code") (string (lit "max_attempts_exceeded")) (
      member (lit "message") (string (lit "tool run exceeded maximum retry attempts"))
        (member (lit "retryable") (bool false) (member (lit "details") null end))))

unfoldable pub fail_exhausted : ℕ → ℕ → Table → Table
fail_exhausted now max_attempts =
    update (λ r. is_running r.status && expired now r.lease_expires && leb max_attempts r.attempt)
      (λ r. record r {
        status = failed;
        error_json = some exhausted_error;
        completed_at = some now;
      })

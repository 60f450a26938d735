-- ===== src/Jobs/Quotas.antt =====
-- af/crates/af-db/src/user_quotas.rs: the limit on the tool runs that a user has at a time.
use arbeiterfarm.Base.{
  ℕ, Bool, false, ◌&&◌, ◌||◌, Option, none, some, List, [], ◌∷◌, leb, ◌==◌, if◌then◌else◌, length,
  keep,
}
use arbeiterfarm.Jobs.ToolRuns.{is_queued, is_running, ToolRunRow, Table}

-- The row of a user; a limit that is not negative.
pub record UserQuotaRow : Type 0 where
  pub user_id : ℕ
  pub max_storage_bytes : ℕ
  pub max_projects : ℕ
  pub max_concurrent_runs : ℕ
  pub max_llm_tokens_per_day : ℕ
  pub max_upload_bytes : ℕ
  pub max_vt_lookups_per_day : ℕ

unfoldable pub get_quota : ℕ → List UserQuotaRow → Option UserQuotaRow
get_quota user [] = none
get_quota user (row ∷ rest) = if row.user_id == user then some row else get_quota user rest

-- `actor_user_id = $1`, which a NULL does not pass.
abbrev pub belongs_to : ℕ → Option ℕ → Bool
belongs_to user none = false
belongs_to user (some actor) = actor == user

-- `actor_user_id = $1 AND status IN ('queued', 'running')`
abbrev pub is_active : ℕ → ToolRunRow → Bool
is_active user row =
    belongs_to user row.actor_user_id && (is_queued row.status || is_running row.status)

unfoldable pub count_active_runs : ℕ → Table → ℕ
count_active_runs user table = length (keep (is_active user) table)

-- The test of `enqueue` in af/crates/af-jobs/src/enqueue.rs on both answers.
unfoldable pub over_quota : ℕ → Option UserQuotaRow → Bool
over_quota active none = false
over_quota active (some q) = leb q.max_concurrent_runs active

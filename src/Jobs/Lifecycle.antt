-- ===== src/Jobs/Lifecycle.antt =====
-- The queue as a system of steps: the transactions of af/crates/af-jobs/src/enqueue.rs, which other
-- transactions interrupt, and the single statements of worker.rs and reaper.rs.
pub mod Attempts
pub mod Claims
pub mod Weights
pub mod Quota
pub mod Reaped
pub mod Leases
pub mod Examples
use arbeiterfarm.Base.{
  ℕ, ◌+◌, ◌≤◌, ◌≡◌, Bool, true, false, ◌&&◌, Option, none, some, List, [], ◌∷◌, ◌++◌, ◌==◌,
  if◌then◌else◌, any,
}
use arbeiterfarm.Base.Json.{Json}
use arbeiterfarm.Base.Text.{Text}
use arbeiterfarm.Jobs.ToolRuns.{
  Table, NewRun, enqueue, claim, Output, complete, fail, heartbeat, reclaim_expired, fail_exhausted,
}
use arbeiterfarm.Jobs.Quotas.{UserQuotaRow, get_quota, belongs_to, count_active_runs, over_quota}

-- `LEASE_DURATION_SECS` of worker.rs and `MAX_ATTEMPTS` of reaper.rs.
abbrev pub lease_duration_secs : ℕ
lease_duration_secs = 120

abbrev pub max_attempts : ℕ
max_attempts = 3

-- The two statements of a tick of `run_reaper`. Where one fails, which its first argument tells, the
-- error is logged and the tick goes on.
unfoldable pub reap_expired : Bool → ℕ → Table → Table
reap_expired done now table = if done then reclaim_expired now max_attempts table else table

unfoldable pub reap_exhausted : Bool → ℕ → Table → Table
reap_exhausted done now table = if done then fail_exhausted now max_attempts table else table

-- Where a transaction of `enqueue` stands: before the advisory lock, with it, or past the quota.
pub data Phase : Type 0 where
  waiting holding admitted : Phase

pub record Transaction : Type 0 where
  pub run : NewRun
  pub phase : Phase

pub record System : Type 0 where
  pub transactions : List Transaction
  pub table : Table

abbrev pub sum_of {ℓ} : {A : Type ℓ} → (A → ℕ) → List A → ℕ
sum_of weight [] = 0
sum_of weight (x ∷ xs) = weight x + sum_of weight xs

abbrev pub has_lock : Phase → Bool
has_lock waiting = false
has_lock holding = true
has_lock admitted = true

abbrev pub is_admitted : Phase → Bool
is_admitted waiting = false
is_admitted holding = false
is_admitted admitted = true

-- 1 for a transaction that holds the lock of a user, 0 for others.
abbrev pub holds : ℕ → Transaction → ℕ
holds user t = if has_lock t.phase && belongs_to user t.run.actor_user_id then 1 else 0

abbrev pub has_id : ℕ → Table → Bool
has_id id = any (λ r. r.id == id)

-- The lock is on a hash of the user: that other users wait for it too only leaves out steps. A
-- transaction without a user takes no lock and is not counted.
pub data Step (quotas : List UserQuotaRow) (s : System) : System → Type 0 where
  begins :
      (run : NewRun)
      → Step quotas s
          (record s { transactions = record { run = run; phase = waiting } ∷ s.transactions })
  locks :
      (before after : List Transaction) (run : NewRun) (user : ℕ)
      → s.transactions ≡ before ++ record { run = run; phase = waiting } ∷ after
      → run.actor_user_id ≡ some user
      → sum_of (holds user) (before ++ after) ≡ 0
      → Step quotas s
          (record s { transactions = before ++ record { run = run; phase = holding } ∷ after })
  checks :
      (before after : List Transaction) (run : NewRun) (user : ℕ)
      → s.transactions ≡ before ++ record { run = run; phase = holding } ∷ after
      → run.actor_user_id ≡ some user
      → over_quota (count_active_runs user s.table) (get_quota user quotas) ≡ false
      → Step quotas s
          (record s { transactions = before ++ record { run = run; phase = admitted } ∷ after })
  skips_quota :
      (before after : List Transaction) (run : NewRun)
      → s.transactions ≡ before ++ record { run = run; phase = waiting } ∷ after
      → run.actor_user_id ≡ none
      → Step quotas s
          (record s { transactions = before ++ record { run = run; phase = admitted } ∷ after })
  rolls_back :
      (before after : List Transaction) (t : Transaction)
      → s.transactions ≡ before ++ t ∷ after
      → Step quotas s (record s { transactions = before ++ after })
  commits :
      (before after : List Transaction) (run : NewRun) (id now : ℕ)
      → s.transactions ≡ before ++ record { run = run; phase = admitted } ∷ after
      → has_id id s.table ≡ false
      → Step quotas s
          (record { transactions = before ++ after; table = (enqueue id now run s.table).1 })
  claims :
      (locked : ℕ → Bool) (now : ℕ)
      → Step quotas s (record s { table = (claim locked now lease_duration_secs s.table).1 })
  completes :
      (now id : ℕ) (output : Output)
      → Step quotas s (record s { table = complete now id output s.table })
  fails :
      (now id : ℕ) (error : Json) (stderr : Option Text)
      → Step quotas s (record s { table = fail now id error stderr s.table })
  beats :
      (now id : ℕ)
      → Step quotas s (record s { table = heartbeat now id lease_duration_secs s.table })
  reclaims :
      (now : ℕ) → Step quotas s (record s { table = reclaim_expired now max_attempts s.table })
  exhausts :
      (now : ℕ) → Step quotas s (record s { table = fail_exhausted now max_attempts s.table })

-- The states that the empty queue reaches.
pub data Reachable (quotas : List UserQuotaRow) : System → Type 0 where
  start : Reachable quotas (record { transactions = []; table = [] })
  next : {s t : System} → Reachable quotas s → Step quotas s t → Reachable quotas t

-- A step that gives no lease of a time before `since`.
abbrev pub NotBefore : {quotas : List UserQuotaRow} {s t : System} → ℕ → Step quotas s t → Type 0
NotBefore since (begins run) = Unit
NotBefore since (locks before after run user e f g) = Unit
NotBefore since (checks before after run user e f g) = Unit
NotBefore since (skips_quota before after run e f) = Unit
NotBefore since (rolls_back before after t e) = Unit
NotBefore since (commits before after run id now e f) = Unit
NotBefore since (claims locked now) = since ≤ now
NotBefore since (completes now id output) = Unit
NotBefore since (fails now id error stderr) = Unit
NotBefore since (beats now id) = since ≤ now
NotBefore since (reclaims now) = Unit
NotBefore since (exhausts now) = Unit

-- Steps one after the other, none of which reads the clock before `since`.
pub data Later (quotas : List UserQuotaRow) (since : ℕ) (s : System) : System → Type 0 where
  stays : Later quotas since s s
  goes_on :
      {t u : System}
      → Later quotas since s t
      → (step : Step quotas t u) → NotBefore since step
      → Later quotas since s u

-- One tick of `run_reaper`: two statements, each a transaction of its own that reads its own clock
-- and may fail, and whatever others do between them.
pub data Tick (quotas : List UserQuotaRow) (reclaimed given_up : Bool) (reclaim_at fail_at : ℕ)
    (s : System) : System → Type 0 where
  ticks :
      (between : System)
      → Later quotas reclaim_at
          (record s { table = reap_expired reclaimed reclaim_at s.table })
          between
      → Tick quotas reclaimed given_up reclaim_at fail_at s
          (record between { table = reap_exhausted given_up fail_at between.table })

-- ===== src/Jobs/Lifecycle/Examples.antt =====
-- A user with room for one run, which a worker claims and leaves.
use arbeiterfarm.Base.{ℕ, ◌≤◌, ◌≡◌, refl, true, false, none, some, List, [], ◌∷◌, map, arith, All}
use arbeiterfarm.Base.Text.{lit}
use arbeiterfarm.Base.Json.{null}
use arbeiterfarm.Jobs.ToolRuns.{
  Status, Table, update, NewRun, new_row, enqueue, oldest_queued, claimed, claim, complete, fail,
  heartbeat, reclaim_expired, fail_exhausted, queued, running, completed, failed,
}
use arbeiterfarm.Jobs.Quotas.{UserQuotaRow, get_quota, count_active_runs, over_quota}
use arbeiterfarm.Jobs.Lifecycle.{
  lease_duration_secs, reap_expired, reap_exhausted, Reachable, begins, locks, checks, commits,
  claims, start, next, stays, ticks,
}
use arbeiterfarm.Jobs.Lifecycle.Attempts.{IsValid}
use arbeiterfarm.Jobs.Lifecycle.Claims.{claims_of, claims_in, claims_of-le}
use arbeiterfarm.Jobs.Lifecycle.Quota.{count_active_runs-bound}
use arbeiterfarm.Jobs.Lifecycle.Reaped.{reaped}
use arbeiterfarm.Jobs.Lifecycle.Leases.{IsSettled, Tick-IsSettled}

abbrev one_at_a_time : UserQuotaRow
one_at_a_time = record {
  user_id = 7;
  max_storage_bytes = 0;
  max_projects = 0;
  max_concurrent_runs = 1;
  max_llm_tokens_per_day = 0;
  max_upload_bytes = 0;
  max_vt_lookups_per_day = 0;
}

abbrev a_run : NewRun
a_run = record {
  project_id = 1;
  tool_name = lit "file.info";
  tool_version = 1;
  input_json = null;
  thread_id = none;
  parent_message_id = none;
  actor_subject = none;
  actor_user_id = some 7;
}

abbrev inserted : Table
inserted = (enqueue 1 0 a_run []).1

abbrev under_way : Table
under_way = (claim (λ _. false) 10 lease_duration_secs inserted).1

-- The transaction of a run, and the claim of a worker.
reachable_claim : Reachable (one_at_a_time ∷ []) (record { transactions = []; table = under_way })
unfolding count_active_runs over_quota get_quota
reachable_claim =
    next
      (next
        (next (next (next start (begins a_run)) (locks [] [] a_run 7 refl refl refl))
          (checks [] [] a_run 7 refl refl refl))
        (commits [] [] a_run 1 0 refl refl))
      (claims (λ _. false) 10)

-- Where a table's runs stand: the status and the attempt.
abbrev standing : Table → List (Status × ℕ)
standing = map (λ r. (r.status, r.attempt))

-- A tick that meets no error and no other transaction.
abbrev quiet_tick : ℕ → ℕ → Table → Table
quiet_tick reclaim_at fail_at table =
    reap_exhausted true fail_at (reap_expired true reclaim_at table)

-- The worker is silent: the reaper queues the run again, two times, and then gives it up.
thrice :
    let second = (claim (λ _. false) 140 120 (quiet_tick 131 131 under_way)).1 in
    let third = (claim (λ _. false) 270 120 (quiet_tick 261 261 second)).1 in
    (standing (quiet_tick 130 130 under_way) ≡ (running, 1) ∷ [])
    × (standing (quiet_tick 131 131 under_way) ≡ (queued, 1) ∷ [])
    × (standing (quiet_tick 261 261 second) ≡ (queued, 2) ∷ [])
    × (standing (quiet_tick 391 391 third) ≡ (failed, 3) ∷ [])
unfolding reap_expired reap_exhausted reclaim_expired fail_exhausted claim claimed oldest_queued
    update enqueue new_row
thrice = (refl, refl, refl, refl)

-- A worker whose run was reclaimed and completed by another still writes its own end over it.
overwritten :
    let second = (claim (λ _. false) 140 120 (quiet_tick 131 131 under_way)).1 in
    let done =
      complete 150 1
        (record { output_json = null; output_kind = lit "text"; stdout = none; stderr = none })
        second in
    (standing done ≡ (completed, 2) ∷ [])
    × (standing (fail 160 1 null none done) ≡ (failed, 2) ∷ [])
unfolding reap_expired reap_exhausted reclaim_expired fail_exhausted claim claimed oldest_queued
    update enqueue new_row complete fail
overwritten = (refl, refl)

-- It also lengthens the lease that the other has.
lengthened :
    let second = (claim (λ _. false) 140 120 (quiet_tick 131 131 under_way)).1 in
    map (λ r. r.lease_expires) (heartbeat 200 1 120 second) ≡ some 320 ∷ []
unfolding reap_expired reap_exhausted reclaim_expired fail_exhausted claim claimed oldest_queued
    update enqueue new_row heartbeat
lengthened = refl

-- The claim is counted.
one_claim : claims_of 1 reachable_claim ≡ 1
unfolding claims_of claims_in reachable_claim claim claimed oldest_queued enqueue new_row
one_claim = refl

claims_of-le_example : (claims_of 1 reachable_claim ≤ 3) × IsValid under_way
claims_of-le_example =
    let bound =
      claims_of-le (one_at_a_time ∷ []) (record { transactions = []; table = under_way })
        reachable_claim in
    (bound.0 1, bound.1)

count_active_runs-bound_example : count_active_runs 7 under_way ≤ 1
unfolding get_quota
count_active_runs-bound_example =
    count_active_runs-bound (one_at_a_time ∷ []) (record { transactions = []; table = under_way }) 7
      one_at_a_time reachable_claim refl

Tick-IsSettled_example :
    All (IsSettled true true 131) (quiet_tick 131 132 under_way)
    × (quiet_tick 131 132 under_way ≡ map (reaped true true 131 132) under_way)
Tick-IsSettled_example =
    Tick-IsSettled (one_at_a_time ∷ []) true true 131 132
      (record { transactions = []; table = under_way })
      (record { transactions = []; table = quiet_tick 131 132 under_way }) reachable_claim
      (omega arith) (ticks _ stays)

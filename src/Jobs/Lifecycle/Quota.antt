-- ===== src/Jobs/Lifecycle/Quota.antt =====
-- How many tool runs a user has at a time, whatever the transactions of `enqueue` do in between.
use arbeiterfarm.Base.{
  ℕ, ◌+◌, ◌≤◌, ◌≡◌, ap, subst, inl, inr, false, none, some, List, ◌∷◌, ◌++◌, arith, ◌==◌, ==_iff,
  Bool-cases,
}
use arbeiterfarm.Jobs.ToolRuns.{
  Table, NewRun, complete, fail, heartbeat, reclaim_expired, fail_exhausted,
}
use arbeiterfarm.Jobs.ToolRuns.Statements.{All-every}
use arbeiterfarm.Jobs.Quotas.{UserQuotaRow, get_quota, count_active_runs, over_quota}
use arbeiterfarm.Jobs.Lifecycle.{
  lease_duration_secs, Transaction, System, sum_of, Step, Reachable, waiting, holding, admitted,
  begins, locks, checks, skips_quota, rolls_back, commits, claims, completes, fails, beats,
  reclaims, exhausts, start, next,
}
use arbeiterfarm.Jobs.Lifecycle.Attempts.{IsKeyed, Reachable-IsValid}
use arbeiterfarm.Jobs.Lifecycle.Weights.{
  admits, sum_of-le, IsWithin, IsWithin-lighter, update-count, claim-count, enqueue-count,
  under_quota, IsWithin-replaced, others_hold, locks-IsWithin, sum_of-split,
}

checks-IsWithin :
    (user : ℕ) (quotas : List UserQuotaRow) (s : System) (before after : List Transaction)
    (run : NewRun) (owner : ℕ)
    → s.transactions ≡ before ++ record { run = run; phase = holding } ∷ after
    → run.actor_user_id ≡ some owner
    → over_quota (count_active_runs owner s.table) (get_quota owner quotas) ≡ false
    → IsWithin user quotas s
    → IsWithin user quotas
        (record s { transactions = before ++ record { run = run; phase = admitted } ∷ after })
checks-IsWithin user quotas s before after run owner e f g w =
    IsWithin-replaced user quotas s before after (record { run = run; phase = holding })
      (record { run = run; phase = admitted }) e w
      (omega
        (arith, others_hold user s before after (record { run = run; phase = holding }) e, w.0))
      (λ q h. elim (Bool-cases (owner == user)) [
        | inr n ↦ inl (ground (arith, f, n))
        | inl n ↦ inr (
          ground arith,
          ground (
            arith,
            f,
            n,
            others_hold user s before after (record { run = run; phase = holding }) e,
            w.0,
            sum_of-le user (before ++ after),
          ),
          under_quota (count_active_runs user s.table) q (get_quota user quotas) h (
              subst (λ u. over_quota (count_active_runs u s.table) (get_quota u quotas) ≡ false)
                ((==_iff owner user).0 n) g),
        )
      ])

skips-IsWithin :
    (user : ℕ) (quotas : List UserQuotaRow) (s : System) (before after : List Transaction)
    (run : NewRun)
    → s.transactions ≡ before ++ record { run = run; phase = waiting } ∷ after
    → run.actor_user_id ≡ none
    → IsWithin user quotas s
    → IsWithin user quotas
        (record s { transactions = before ++ record { run = run; phase = admitted } ∷ after })
skips-IsWithin user quotas s before after run e f w =
    IsWithin-replaced user quotas s before after (record { run = run; phase = waiting })
      (record { run = run; phase = admitted }) e w
      (ground
        (arith, f, others_hold user s before after (record { run = run; phase = waiting }) e, w.0))
      (λ q _. inl (ground (arith, f)))

-- A transaction that ends, with what it adds to the table.
ends-IsWithin :
    (user : ℕ) (quotas : List UserQuotaRow) (s : System) (before after : List Transaction)
    (old : Transaction) (table : Table)
    → s.transactions ≡ before ++ old ∷ after
    → count_active_runs user table ≤ count_active_runs user s.table + admits user old
    → IsWithin user quotas s
    → IsWithin user quotas (record { transactions = before ++ after; table = table })
ends-IsWithin user quotas s before after old table e h w =
    IsWithin-lighter user quotas s (record { transactions = before ++ after; table = table })
      (omega (arith, others_hold user s before after old e))
      (omega (arith, h, ap (sum_of (admits user)) e, sum_of-split (admits user) before after old)) w

-- A statement on rows.
rows-IsWithin :
    (user : ℕ) (quotas : List UserQuotaRow) (s : System) (table : Table)
    → count_active_runs user table ≤ count_active_runs user s.table
    → IsWithin user quotas s
    → IsWithin user quotas (record s { table = table })
rows-IsWithin user quotas s table h w =
    IsWithin-lighter user quotas s (record s { table = table }) (omega arith) (omega (arith, h)) w

Step-IsWithin :
    (user : ℕ) {quotas : List UserQuotaRow} {s t : System}
    → Step quotas s t
    → IsKeyed s.table
    → IsWithin user quotas s
    → IsWithin user quotas t
unfolding complete fail heartbeat reclaim_expired fail_exhausted
Step-IsWithin user {quotas = quotas} {s = s} (begins run) v w =
    IsWithin-lighter user quotas s
      (record s { transactions = record { run = run; phase = waiting } ∷ s.transactions })
      (ground arith) (ground arith) w
Step-IsWithin user {quotas = quotas} {s = s} (locks before after run owner e f g) v w =
    locks-IsWithin user quotas s before after run owner e f g w
Step-IsWithin user {quotas = quotas} {s = s} (checks before after run owner e f g) v w =
    checks-IsWithin user quotas s before after run owner e f g w
Step-IsWithin user {quotas = quotas} {s = s} (skips_quota before after run e f) v w =
    skips-IsWithin user quotas s before after run e f w
Step-IsWithin user {quotas = quotas} {s = s} (rolls_back before after t e) v w =
    ends-IsWithin user quotas s before after t s.table e (omega arith) w
Step-IsWithin user {quotas = quotas} {s = s} (commits before after run id now e f) v w =
    ends-IsWithin user quotas s before after (record { run = run; phase = admitted }) _ e
      (ground (arith, enqueue-count user id now run s.table)) w
Step-IsWithin user {quotas = quotas} {s = s} (claims locked now) v w =
    rows-IsWithin user quotas s _ (claim-count user locked now lease_duration_secs s.table v) w
Step-IsWithin user {quotas = quotas} {s = s} (completes now id output) v w =
    rows-IsWithin user quotas s _
      (update-count user _ _ s.table (All-every _ s.table (λ r c a. absurd (ground (arith, a))))) w
Step-IsWithin user {quotas = quotas} {s = s} (fails now id error stderr) v w =
    rows-IsWithin user quotas s _
      (update-count user _ _ s.table (All-every _ s.table (λ r c a. absurd (ground (arith, a))))) w
Step-IsWithin user {quotas = quotas} {s = s} (beats now id) v w =
    rows-IsWithin user quotas s _ (update-count user _ _ s.table (All-every _ s.table (λ r c a. a)))
      w
Step-IsWithin user {quotas = quotas} {s = s} (reclaims now) v w =
    rows-IsWithin user quotas s _
      (update-count user _ _ s.table (All-every _ s.table (λ r c a. ground (arith, c, a)))) w
Step-IsWithin user {quotas = quotas} {s = s} (exhausts now) v w =
    rows-IsWithin user quotas s _
      (update-count user _ _ s.table (All-every _ s.table (λ r c a. absurd (ground (arith, a))))) w

Reachable-IsWithin :
    (user : ℕ) (quotas : List UserQuotaRow) (s : System)
    → Reachable quotas s
    → IsWithin user quotas s
unfolding count_active_runs
Reachable-IsWithin user quotas _ start = (omega arith, λ q h. omega arith)
Reachable-IsWithin user quotas _ (next {s = s} r st) =
    Step-IsWithin user st (Reachable-IsValid quotas s r).0 (Reachable-IsWithin user quotas s r)

-- A user never has more queued and running tool runs together than the quota allows, in any state
-- that the queue reaches, however the transactions that enqueue runs for the user and the
-- statements of workers and reapers interleave.
pub count_active_runs-bound :
    (quotas : List UserQuotaRow) (s : System) (user : ℕ) (q : UserQuotaRow)
    → Reachable quotas s
    → get_quota user quotas ≡ some q
    → count_active_runs user s.table ≤ q.max_concurrent_runs
count_active_runs-bound quotas s user q r h =
    omega (arith, (Reachable-IsWithin user quotas s r).1 q h)

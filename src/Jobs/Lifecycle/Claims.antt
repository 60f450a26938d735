-- ===== src/Jobs/Lifecycle/Claims.antt =====
-- How often workers have claimed a run on the way to a state.
use arbeiterfarm.Base.{
  ℕ, ◌+◌, ◌≤◌, ◌≡◌, refl, subst, inl, inr, Bool, true, false, none, some, List, [], ◌∷◌, ◌++◌,
  arith, ◌==◌, if◌then◌else◌, Bool-cases, Option-cases, All,
}
use arbeiterfarm.Jobs.ToolRuns.{
  ToolRunRow, Table, update, new_row, enqueue, oldest_queued, claimed, claim, complete, fail,
  heartbeat, reclaim_expired, fail_exhausted,
}
use arbeiterfarm.Jobs.Quotas.{UserQuotaRow}
use arbeiterfarm.Jobs.Lifecycle.{
  has_id, lease_duration_secs, max_attempts, System, Step, Reachable, begins, locks, checks,
  skips_quota, rolls_back, commits, claims, completes, fails, beats, reclaims, exhausts, start,
  next,
}
use arbeiterfarm.Jobs.Lifecycle.Attempts.{
  IsKeyed, IsSound, IsValid, oldest_queued-ids, Reachable-IsValid,
}

-- Whether a step is a claim of the run `id`: what `claim` answers to the worker tells.
unfoldable pub claims_in : {quotas : List UserQuotaRow} {s t : System} → ℕ → Step quotas s t → ℕ
claims_in {s = s} id (claims locked now) = elim (claim locked now lease_duration_secs s.table).0 [
  | none ↦ 0
  | some row ↦ if row.id == id then 1 else 0
]
claims_in id _ = 0

-- The claims of the run `id` among the steps to a state.
unfoldable pub claims_of : {quotas : List UserQuotaRow} {s : System} → ℕ → Reachable quotas s → ℕ
claims_of id start = 0
claims_of id (next r step) = claims_in id step + claims_of id r

-- The attempts that the rows of a run show.
abbrev attempts : ℕ → Table → ℕ
attempts id [] = 0
attempts id (r ∷ rest) = (if r.id == id then r.attempt else 0) + attempts id rest

attempts-update :
    (id : ℕ) (chosen : ToolRunRow → Bool) (set : ToolRunRow → ToolRunRow) (table : Table)
    → ((r : ToolRunRow) → (set r).id ≡ r.id)
    → ((r : ToolRunRow) → r.attempt ≤ (set r).attempt)
    → 0 + attempts id table ≤ attempts id (update chosen set table)
unfolding update
attempts-update id chosen set [] h k = omega arith
attempts-update id chosen set (r ∷ rest) h k =
    ground (arith, h r, k r, attempts-update id chosen set rest h k)

attempts-claimed :
    (id n now d : ℕ) (table : Table)
    → has_id n table ≡ true
    → (if n == id then 1 else 0) + attempts id table
      ≤ attempts id (update (λ r. r.id == n) (claimed now d) table)
unfolding update claimed
attempts-claimed id n now d [] h = absurd (ground (arith, h))
attempts-claimed id n now d (r ∷ rest) h = elim (Bool-cases (has_id n rest)) [
  | inl e ↦ ground (arith, attempts-claimed id n now d rest e)
  | inr e ↦ ground (
    arith,
    h,
    e,
    attempts-update id (λ r. r.id == n) (claimed now d) rest (λ r. refl) (λ r. omega arith),
  )
]

claims-attempts :
    (id : ℕ) (locked : ℕ → Bool) (now d : ℕ) (table : Table)
    → IsKeyed table
    → elim (claim locked now d table).0 [ none ↦ 0 | some row ↦ if row.id == id then 1 else 0 ]
        + attempts id table
      ≤ attempts id (claim locked now d table).1
unfolding claim claimed
claims-attempts id locked now d table keyed = elim (Option-cases (oldest_queued locked table)) [
  | inl e ↦ rw (e, claim) (omega arith)
  | inr (row, e) ↦
      rw (e, claim)
        (attempts-claimed id row.id now d table (oldest_queued-ids locked table row keyed e).0)
]

attempts-append :
    (id : ℕ) (table : Table) (row : ToolRunRow)
    → attempts id table ≤ attempts id (table ++ row ∷ [])
attempts-append id [] row = omega arith
attempts-append id (r ∷ rest) row = omega (arith, attempts-append id rest row)

Step-attempts :
    {quotas : List UserQuotaRow} {s t : System} (id : ℕ) (step : Step quotas s t)
    → IsKeyed s.table
    → claims_in id step + attempts id s.table ≤ attempts id t.table
unfolding claims_in complete fail heartbeat reclaim_expired fail_exhausted enqueue
Step-attempts id (begins run) k = omega arith
Step-attempts id (locks before after run user e f g) k = omega arith
Step-attempts id (checks before after run user e f g) k = omega arith
Step-attempts id (skips_quota before after run e f) k = omega arith
Step-attempts id (rolls_back before after t e) k = omega arith
Step-attempts {s = s} id (commits before after run n now e f) k =
    omega (arith, attempts-append id s.table (new_row n now run))
Step-attempts {s = s} id (claims locked now) k =
    claims-attempts id locked now lease_duration_secs s.table k
Step-attempts {s = s} id (completes now n output) k =
    attempts-update id _ _ s.table (λ r. refl) (λ r. omega arith)
Step-attempts {s = s} id (fails now n error stderr) k =
    attempts-update id _ _ s.table (λ r. refl) (λ r. omega arith)
Step-attempts {s = s} id (beats now n) k =
    attempts-update id _ _ s.table (λ r. refl) (λ r. omega arith)
Step-attempts {s = s} id (reclaims now) k =
    attempts-update id _ _ s.table (λ r. refl) (λ r. omega arith)
Step-attempts {s = s} id (exhausts now) k =
    attempts-update id _ _ s.table (λ r. refl) (λ r. omega arith)

Reachable-attempts :
    {quotas : List UserQuotaRow} {s : System} (id : ℕ) (r : Reachable quotas s)
    → claims_of id r ≤ attempts id s.table
unfolding claims_of
Reachable-attempts id start = omega arith
Reachable-attempts id (next r step) =
    omega (arith, Reachable-attempts id r, Step-attempts id step (Reachable-IsValid _ _ r).0)

no_attempts : (id : ℕ) (table : Table) → has_id id table ≡ false → attempts id table ≡ 0
no_attempts id [] h = refl
no_attempts id (r ∷ rest) h = ground (arith, h, no_attempts id rest)

same_id :
    (n id : ℕ) (table : Table) → (n == id) ≡ true → has_id n table ≡ false → has_id id table ≡ false
same_id n id table e h = subst (λ k. has_id k table ≡ false) (ground (arith, e)) h

attempts-le :
    (id : ℕ) (table : Table) → IsKeyed table → All IsSound table → attempts id table ≤ max_attempts
attempts-le id [] k h = omega arith
attempts-le id (r ∷ rest) k h = elim (Bool-cases (r.id == id)) [
  | inl e ↦ ground (arith, e, h.0.0, no_attempts id rest (same_id r.id id rest e k.0))
  | inr e ↦ ground (arith, e, attempts-le id rest k.1 h.1)
]

-- On every way to a state of the queue, whatever the order of the statements of its transactions,
-- workers and reapers, no run has been handed to workers more than three times; and in that state
-- no two runs share an id, the attempts of a run are at most three, a queued run has a claim left,
-- and a running run has a lease.
pub claims_of-le :
    (quotas : List UserQuotaRow) (s : System) (r : Reachable quotas s)
    → ((id : ℕ) → claims_of id r ≤ 3) × IsValid s.table
claims_of-le quotas s r =
    let v = Reachable-IsValid quotas s r in
    (λ id. omega (arith, Reachable-attempts id r, attempts-le id s.table v.0 v.1), v)

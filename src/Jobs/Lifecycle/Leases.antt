-- ===== src/Jobs/Lifecycle/Leases.antt =====
-- What a tick of the reaper leaves.
use arbeiterfarm.Base.{
  ℕ, ◌+◌, ◌≤◌, ◌<◌, ◌≡◌, refl, sym, subst, ◌⊎◌, inl, inr, Bool, true, false, ◌&&◌, Option, none,
  some, List, [], ◌∷◌, map, arith, ltb, leb, Bool-cases, is_some, All, All-append, All-weaken,
}
use arbeiterfarm.Jobs.ToolRuns.{
  is_running, ToolRunRow, Table, update, NewRun, new_row, enqueue, claimed, claim, complete, fail,
  heartbeat, expired, reclaim_expired, fail_exhausted,
}
use arbeiterfarm.Jobs.ToolRuns.Statements.{All-updated, claim-cases}
use arbeiterfarm.Jobs.Quotas.{UserQuotaRow}
use arbeiterfarm.Jobs.Lifecycle.{
  max_attempts, lease_duration_secs, reap_expired, reap_exhausted, System, Step, Reachable,
  NotBefore, Later, Tick, begins, locks, checks, skips_quota, rolls_back, commits, claims,
  completes, fails, beats, reclaims, exhausts, stays, goes_on, ticks,
}
use arbeiterfarm.Jobs.Lifecycle.Reaped.{reaped, reap-map}
use arbeiterfarm.Jobs.Lifecycle.Attempts.{IsSound, Reachable-IsValid}

-- A lease that lasts until a time at least.
abbrev pub HasLease : ℕ → ToolRunRow → Type 0
HasLease now r = (until : ℕ) × (r.lease_expires ≡ some until) × (now ≤ until)

-- A run that still runs has a lease of `now` at least, or its case was due to a statement that
-- failed: the first one with a claim left, the second one without.
abbrev pub IsSettled : Bool → Bool → ℕ → ToolRunRow → Type 0
IsSettled reclaimed given_up now r =
    is_running r.status ≡ true
    → HasLease now r
      ⊎ ((r.attempt < 3) × (reclaimed ≡ false))
      ⊎ ((3 ≤ r.attempt) × (given_up ≡ false))

-- What holds of every row between the two statements.
abbrev IsMarked : Bool → ℕ → ToolRunRow → Type 0
IsMarked reclaimed now r =
    is_running r.status ≡ true
    → HasLease now r
      ⊎ ((r.attempt < 3) × (reclaimed ≡ false))
      ⊎ ((3 ≤ r.attempt) × (is_some r.lease_expires ≡ true))

lasting :
    (now : ℕ) (lease : Option ℕ)
    → is_some lease ≡ true
    → expired now lease ≡ false
    → (until : ℕ) × (lease ≡ some until) × (now ≤ until)
lasting now none s e = absurd (ground (arith, s))
lasting now (some t) s e = (t, refl, ground (arith, e))

-- A running row that has a lease and is not due to the first statement.
not_due :
    (now : ℕ) (r : ToolRunRow)
    → IsSound r
    → (is_running r.status && expired now r.lease_expires && ltb r.attempt max_attempts) ≡ false
    → IsMarked true now r
not_due now r s e run = elim (Bool-cases (expired now r.lease_expires)) [
  | inl x ↦ inr (inr (ground (arith, e, x, run), s.2 run))
  | inr x ↦ inl (lasting now r.lease_expires (s.2 run) x)
]

IsMarked-sound : (now : ℕ) (r : ToolRunRow) → IsSound r → IsMarked false now r
IsMarked-sound now r s run = elim (Bool-cases (ltb r.attempt 3)) [
  | inl e ↦ inr (inl (ground (arith, e), refl))
  | inr e ↦ inr (inr (ground (arith, e), s.2 run))
]

-- After the first statement, whether it fails or not.
reap_expired-IsMarked :
    (done : Bool) (now : ℕ) (table : Table)
    → All IsSound table
    → All (IsMarked done now) (reap_expired done now table)
unfolding reap_expired reclaim_expired
reap_expired-IsMarked false now table s =
    All-weaken IsSound (IsMarked false now) table (λ r k. IsMarked-sound now r k) s
reap_expired-IsMarked true now table s =
    All-updated IsSound (IsMarked true now) _ _ table (λ r c k run. absurd (ground (arith, run)))
      (λ r c k. not_due now r k c) s

-- A statement of others that ends runs, queues them or gives them leases.
update-IsMarked :
    (done : Bool) (since : ℕ) (chosen : ToolRunRow → Bool) (set : ToolRunRow → ToolRunRow)
    → (table : Table) → ((r : ToolRunRow) → IsMarked done since (set r))
    → All (IsMarked done since) table
    → All (IsMarked done since) (update chosen set table)
update-IsMarked done since chosen set table f h =
    All-updated (IsMarked done since) (IsMarked done since) chosen set table (λ r c k. f r)
      (λ r c k. k) h

claim-IsMarked :
    (done : Bool) (since now d : ℕ) (locked : ℕ → Bool) (table : Table)
    → since ≤ now
    → All (IsMarked done since) table
    → All (IsMarked done since) (claim locked now d table).1
unfolding claimed
claim-IsMarked done since now d locked table le h = elim (claim-cases locked now d table) [
  | inl e ↦ subst (All (IsMarked done since)) (sym e) h
  | inr (row, e, f) ↦ subst (All (IsMarked done since)) (sym f) (
      update-IsMarked done since _ (claimed now d) table
        (λ r run. inl (now + d, refl, omega (arith, le))) h)
]

new_row-IsMarked :
    (done : Bool) (since id now : ℕ) (run : NewRun) → IsMarked done since (new_row id now run)
unfolding new_row
new_row-IsMarked done since id now run e = absurd (ground (arith, e))

Step-IsMarked :
    {quotas : List UserQuotaRow} {s t : System} (done : Bool) (since : ℕ) (step : Step quotas s t)
    → NotBefore since step
    → All (IsMarked done since) s.table
    → All (IsMarked done since) t.table
unfolding complete fail heartbeat reclaim_expired fail_exhausted enqueue
Step-IsMarked done since (begins run) n h = h
Step-IsMarked done since (locks before after run user e f g) n h = h
Step-IsMarked done since (checks before after run user e f g) n h = h
Step-IsMarked done since (skips_quota before after run e f) n h = h
Step-IsMarked done since (rolls_back before after t e) n h = h
Step-IsMarked {s = s} done since (commits before after run id now e f) n h =
    All-append (IsMarked done since) s.table (new_row id now run ∷ []) h
      (new_row-IsMarked done since id now run, tt)
Step-IsMarked {s = s} done since (claims locked now) n h =
    claim-IsMarked done since now lease_duration_secs locked s.table n h
Step-IsMarked {s = s} done since (completes now id output) n h =
    update-IsMarked done since _ _ s.table (λ r run. absurd (ground (arith, run))) h
Step-IsMarked {s = s} done since (fails now id error stderr) n h =
    update-IsMarked done since _ _ s.table (λ r run. absurd (ground (arith, run))) h
Step-IsMarked {s = s} done since (beats now id) n h =
    update-IsMarked done since _ _ s.table
      (λ r run. inl (now + lease_duration_secs, refl, omega (arith, n))) h
Step-IsMarked {s = s} done since (reclaims now) n h =
    update-IsMarked done since _ _ s.table (λ r run. absurd (ground (arith, run))) h
Step-IsMarked {s = s} done since (exhausts now) n h =
    update-IsMarked done since _ _ s.table (λ r run. absurd (ground (arith, run))) h

Later-IsMarked :
    {quotas : List UserQuotaRow} {since : ℕ} {s t : System} (done : Bool)
    → Later quotas since s t
    → All (IsMarked done since) s.table
    → All (IsMarked done since) t.table
Later-IsMarked done stays h = h
Later-IsMarked {since = since} done (goes_on l step n) h =
    Step-IsMarked done since step n (Later-IsMarked done l h)

-- A run that the second statement leaves.
left_over :
    (reclaimed : Bool) (now fail_at : ℕ) (r : ToolRunRow)
    → now ≤ fail_at
    → (is_running r.status && expired fail_at r.lease_expires && leb max_attempts r.attempt) ≡ false
    → IsMarked reclaimed now r
    → IsSettled reclaimed true now r
left_over reclaimed now fail_at r le c h run = elim (h run) [
  | inl live ↦ inl live
  | inr (inl early) ↦ inr (inl early)
  | inr (inr (spent, lease)) ↦
      let (until, e, k) = lasting fail_at r.lease_expires lease (ground (arith, c, run, spent)) in
      inl (until, e, omega (arith, k, le))
]

reap_exhausted-IsSettled :
    (reclaimed done : Bool) (now fail_at : ℕ) (table : Table)
    → now ≤ fail_at
    → All (IsMarked reclaimed now) table
    → All (IsSettled reclaimed done now) (reap_exhausted done fail_at table)
unfolding reap_exhausted fail_exhausted
reap_exhausted-IsSettled reclaimed false now fail_at table le h =
    All-weaken (IsMarked reclaimed now) (IsSettled reclaimed false now) table
      (λ r k run. elim (k run) [
        | inl live ↦ inl live
        | inr (inl early) ↦ inr (inl early)
        | inr (inr (spent, lease)) ↦ inr (inr (spent, refl))
      ])
      h
reap_exhausted-IsSettled reclaimed true now fail_at table le h =
    All-updated (IsMarked reclaimed now) (IsSettled reclaimed true now) _ _ table
      (λ r c k run. absurd (ground (arith, run)))
      (λ r c k. left_over reclaimed now fail_at r le c k) h

-- After a tick of the reaper, in every state that the queue reaches and whatever others do between
-- its two statements, a run that still runs has a lease that had not expired when the tick began,
-- unless the statement that its case was due to has failed: the first one with fewer than three
-- attempts, the second one with three or more. No lease between them is given at a time before the tick, and
-- the second statement reads the clock no earlier than the first. Where nobody comes between them,
-- a tick queues the running runs whose lease has run out again, without a lease, while they have
-- fewer than three attempts, and fails the others of them, each unless its statement failed; every
-- other row stays as it is.
pub Tick-IsSettled :
    (quotas : List UserQuotaRow) (reclaimed given_up : Bool) (reclaim_at fail_at : ℕ) (s t : System)
    → Reachable quotas s
    → reclaim_at ≤ fail_at
    → Tick quotas reclaimed given_up reclaim_at fail_at s t
    → All (IsSettled reclaimed given_up reclaim_at) t.table
      × (reap_exhausted given_up fail_at (reap_expired reclaimed reclaim_at s.table)
          ≡ map (reaped reclaimed given_up reclaim_at fail_at) s.table)
Tick-IsSettled quotas reclaimed given_up a b s _ r le (ticks between l) = (
  reap_exhausted-IsSettled reclaimed given_up a b between.table le (
      Later-IsMarked reclaimed l
        (reap_expired-IsMarked reclaimed a s.table (Reachable-IsValid quotas s r).1)),
  reap-map reclaimed given_up a b s.table,
)

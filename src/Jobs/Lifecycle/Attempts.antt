-- ===== src/Jobs/Lifecycle/Attempts.antt =====
-- How often a run is claimed, and the lease of one that runs.
use arbeiterfarm.Base.{
  ℕ, ◌≤◌, ◌<◌, ◌≡◌, refl, sym, ap, subst, ◌∙◌, ◌⊎◌, inl, inr, Bool, true, false, ◌&&◌, not, Option,
  none, some, List, [], ◌∷◌, ◌++◌, arith, leb, ◌==◌, ==_iff, Bool-cases, and-true, is_some,
  if_of_true, if_of_false, some_injective, All, any-append, All-append, All-weaken,
}
use arbeiterfarm.Jobs.ToolRuns.{
  is_queued, is_running, ToolRunRow, Table, update, NewRun, new_row, enqueue, older, oldest_queued,
  claimed, claim, complete, fail, heartbeat, reclaim_expired, fail_exhausted,
}
use arbeiterfarm.Jobs.ToolRuns.Statements.{any-update, All-update, All-every, claim-cases}
use arbeiterfarm.Jobs.Quotas.{UserQuotaRow}
use arbeiterfarm.Jobs.Lifecycle.{
  max_attempts, has_id, lease_duration_secs, System, Step, Reachable, begins, locks, checks,
  skips_quota, rolls_back, commits, claims, completes, fails, beats, reclaims, exhausts, start,
  next,
}

-- No two rows have an id in common.
abbrev pub IsKeyed : Table → Type 0
IsKeyed [] = Unit
IsKeyed (row ∷ rest) = (has_id row.id rest ≡ false) × IsKeyed rest

-- A row within its attempts, which has one left if it is queued and a lease if it runs.
abbrev pub IsSound : ToolRunRow → Type 0
IsSound r =
    (r.attempt ≤ max_attempts)
    × (is_queued r.status ≡ true → r.attempt < max_attempts)
    × (is_running r.status ≡ true → is_some r.lease_expires ≡ true)

pub IsKeyed-update :
    (chosen : ToolRunRow → Bool) (set : ToolRunRow → ToolRunRow) (table : Table)
    → ((r : ToolRunRow) → (set r).id ≡ r.id)
    → IsKeyed table
    → IsKeyed (update chosen set table)
unfolding update
IsKeyed-update chosen set [] h k = tt
IsKeyed-update chosen set (row ∷ rest) h k = (
  subst (λ n. has_id n (update chosen set rest) ≡ false)
      (elim (Bool-cases (chosen row)) [
        | inl e ↦ sym (ap (λ r. r.id) (if_of_true (chosen row) (set row) row e) ∙ h row)
        | inr e ↦ sym (ap (λ r. r.id) (if_of_false (chosen row) (set row) row e))
      ])
      (any-update (λ r. r.id == row.id) chosen set rest (λ r. ap (λ n. n == row.id) (h r)) ∙ k.0),
  IsKeyed-update chosen set rest h k.1,
)

IsKeyed-append :
    (table : Table) (row : ToolRunRow)
    → has_id row.id table ≡ false
    → IsKeyed table
    → IsKeyed (table ++ row ∷ [])
IsKeyed-append [] row h k = (refl, tt)
IsKeyed-append (r ∷ rest) row h k = (
  any-append (λ x. x.id == r.id) rest (row ∷ []) ∙ ground (arith, h, k.0),
  IsKeyed-append rest row (ground (arith, h)) k.1,
)

-- No row has an id that is not in the table.
others_differ :
    (n : ℕ) (table : Table)
    → has_id n table ≡ false
    → All (λ r. (r.id == n) ≡ true → is_queued r.status ≡ true) table
others_differ n [] h = tt
others_differ n (r ∷ rest) h =
    (λ e. absurd (ground (arith, h, e)), others_differ n rest (ground (arith, h)))

key_clash :
    (n m : ℕ) (table : Table) → has_id n table ≡ false → (n == m) ≡ true → has_id m table ≡ true → ⊥
key_clash n m table h e k =
    absurd (ground (arith, h, subst (λ i. has_id i table ≡ true) (sym ((==_iff n m).0 e)) k))

older-cases :
    (r row : ToolRunRow) (o : Option ToolRunRow) → older r o ≡ some row → (r ≡ row) ⊎ (o ≡ some row)
older-cases r row none h = inl (some_injective r row h)
older-cases r row (some other) h = elim (Bool-cases (leb r.created_at other.created_at)) [
  | inl e ↦ inl (some_injective r row (sym (if_of_true _ (some r) (some other) e) ∙ h))
  | inr e ↦ inr (sym (if_of_false _ (some r) (some other) e) ∙ h)
]

-- The row is the first, which is queued, or it is picked from the others.
oldest_queued-cases :
    (locked : ℕ → Bool) (r row : ToolRunRow) (rest : Table)
    → oldest_queued locked (r ∷ rest) ≡ some row
    → (r ≡ row) × (is_queued r.status ≡ true) ⊎ (oldest_queued locked rest ≡ some row)
unfolding oldest_queued
oldest_queued-cases locked r row rest h =
    elim (Bool-cases (is_queued r.status && not (locked r.id))) [
      | inr e ↦ inr (sym (if_of_false _ (older r (oldest_queued locked rest)) _ e) ∙ h)
      | inl e ↦
          elim (older-cases r row (oldest_queued locked rest)
            (sym (if_of_true _ (older r _) _ e) ∙ h)) [
              | inl f ↦ inl (f, (and-true _ _ e).0)
              | inr f ↦ inr f
            ]
    ]

-- Under the id of the row that `claim` picks there is only that row, which is queued.
pub oldest_queued-ids :
    (locked : ℕ → Bool) (table : Table) (row : ToolRunRow)
    → IsKeyed table
    → oldest_queued locked table ≡ some row
    → (has_id row.id table ≡ true)
      × All (λ r. (r.id == row.id) ≡ true → is_queued r.status ≡ true) table
unfolding oldest_queued
oldest_queued-ids locked [] row k h = absurd (ground (arith, h))
oldest_queued-ids locked (r ∷ rest) row k h = elim (oldest_queued-cases locked r row rest h) [
  | inl (e, q) ↦ (
    ground (arith, ap (λ x. x.id) e),
    (λ _. q, others_differ row.id rest (subst (λ n. has_id n rest ≡ false) (ap (λ x. x.id) e) k.0)),
  )
  | inr e ↦ (
    ground (arith, (oldest_queued-ids locked rest row k.1 e).0),
    (
      λ f. absurd (key_clash r.id row.id rest k.0 f (oldest_queued-ids locked rest row k.1 e).0),
      (oldest_queued-ids locked rest row k.1 e).1,
    ),
  )
]

-- What holds of every table that the steps reach.
abbrev pub IsValid : Table → Type 0
IsValid table = IsKeyed table × All IsSound table

-- A statement that keeps the ids and the soundness of the rows that it changes.
update-IsValid :
    (chosen : ToolRunRow → Bool) (set : ToolRunRow → ToolRunRow) (table : Table)
    → ((r : ToolRunRow) → (set r).id ≡ r.id)
    → All (λ r. chosen r ≡ true → IsSound r → IsSound (set r)) table
    → IsValid table
    → IsValid (update chosen set table)
update-IsValid chosen set table h k v =
    (IsKeyed-update chosen set table h v.0, All-update IsSound chosen set table v.1 k)

new_row-IsSound : (id now : ℕ) (run : NewRun) → IsSound (new_row id now run)
unfolding new_row
new_row-IsSound id now run = (omega arith, λ _. omega arith, λ h. absurd (ground (arith, h)))

new_row-id :
    (id now : ℕ) (run : NewRun) (table : Table)
    → has_id id table ≡ false
    → has_id (new_row id now run).id table ≡ false
unfolding new_row
new_row-id id now run table h = h

claimed-id : (now d : ℕ) (r : ToolRunRow) → (claimed now d r).id ≡ r.id
unfolding claimed
claimed-id now d r = refl

claimed-IsSound :
    (now d : ℕ) (r : ToolRunRow) → is_queued r.status ≡ true → IsSound r → IsSound (claimed now d r)
unfolding claimed
claimed-IsSound now d r q s = (omega (arith, s.1 q), λ h. absurd (ground (arith, h)), λ _. refl)

claim-IsValid :
    (locked : ℕ → Bool) (now d : ℕ) (table : Table)
    → IsValid table
    → IsValid (claim locked now d table).1
claim-IsValid locked now d table v = elim (claim-cases locked now d table) [
  | inl e ↦ subst IsValid (sym e) v
  | inr (row, e, f) ↦ subst IsValid (sym f) (
      update-IsValid (λ r. r.id == row.id) (claimed now d) table (claimed-id now d)
        (All-weaken (λ r. (r.id == row.id) ≡ true → is_queued r.status ≡ true)
          (λ r. (r.id == row.id) ≡ true → IsSound r → IsSound (claimed now d r)) table
          (λ r h g s. claimed-IsSound now d r (h g) s) (oldest_queued-ids locked table row v.0 e).1)
        v)
]

-- A statement that changes rows, chosen by any test, each on its own.
every-IsValid :
    (chosen : ToolRunRow → Bool) (set : ToolRunRow → ToolRunRow) (table : Table)
    → ((r : ToolRunRow) → (set r).id ≡ r.id)
    → ((r : ToolRunRow) → chosen r ≡ true → IsSound r → IsSound (set r))
    → IsValid table
    → IsValid (update chosen set table)
every-IsValid chosen set table h k v =
    update-IsValid chosen set table h
      (All-every (λ r. chosen r ≡ true → IsSound r → IsSound (set r)) table k) v

reclaim_expired-IsValid :
    (now : ℕ) (table : Table) → IsValid table → IsValid (reclaim_expired now max_attempts table)
unfolding reclaim_expired
reclaim_expired-IsValid now table v =
    every-IsValid _ _ table (λ r. refl)
      (λ r c s. (s.0, λ _. ground (arith, c), λ h. absurd (ground (arith, h)))) v

Step-IsValid :
    {quotas : List UserQuotaRow} {s t : System}
    → Step quotas s t
    → IsValid s.table
    → IsValid t.table
unfolding complete fail heartbeat fail_exhausted enqueue
Step-IsValid (begins run) v = v
Step-IsValid (locks before after run user e f g) v = v
Step-IsValid (checks before after run user e f g) v = v
Step-IsValid (skips_quota before after run e f) v = v
Step-IsValid (rolls_back before after t e) v = v
Step-IsValid {s = s} (commits before after run id now e f) v = (
  IsKeyed-append s.table (new_row id now run) (new_row-id id now run s.table f) v.0,
  All-append IsSound s.table (new_row id now run ∷ []) v.1 (new_row-IsSound id now run, tt),
)
Step-IsValid {s = s} (claims locked now) v = claim-IsValid locked now lease_duration_secs s.table v
Step-IsValid {s = s} (completes now id output) v =
    every-IsValid _ _ s.table (λ r. refl)
      (λ r c h. (h.0, λ e. absurd (ground (arith, e)), λ e. absurd (ground (arith, e)))) v
Step-IsValid {s = s} (fails now id error stderr) v =
    every-IsValid _ _ s.table (λ r. refl)
      (λ r c h. (h.0, λ e. absurd (ground (arith, e)), λ e. absurd (ground (arith, e)))) v
Step-IsValid {s = s} (beats now id) v =
    every-IsValid _ _ s.table (λ r. refl) (λ r c h. (h.0, h.1, λ _. refl)) v
Step-IsValid {s = s} (reclaims now) v = reclaim_expired-IsValid now s.table v
Step-IsValid {s = s} (exhausts now) v =
    every-IsValid _ _ s.table (λ r. refl)
      (λ r c h. (h.0, λ e. absurd (ground (arith, e)), λ e. absurd (ground (arith, e)))) v

-- In every state that the queue reaches, whatever the order of the statements of its transactions,
-- workers and reapers, no two runs share an id, no run has been claimed more than three times, a
-- queued run has a claim left, and a running run has a lease.
pub Reachable-IsValid :
    (quotas : List UserQuotaRow) (s : System) → Reachable quotas s → IsValid s.table
Reachable-IsValid quotas _ start = (tt, tt)
Reachable-IsValid quotas _ (next r st) = Step-IsValid st (Reachable-IsValid quotas _ r)

-- ===== src/Jobs/Lifecycle/Weights.antt =====
-- The transactions of a user weighed: locks held, and runs that are about to be inserted.
use arbeiterfarm.Base.{
  ℕ, ◌+◌, ◌≤◌, ◌<◌, ◌≡◌, refl, sym, ap, subst, ◌∙◌, ◌⊎◌, inl, inr, Bool, true, false, ◌&&◌, Option,
  some, List, [], ◌∷◌, ◌++◌, arith, ◌==◌, if◌then◌else◌, ==_iff, Bool-cases, length, keep,
  length-append, All, keep-append, All-weaken,
}
use arbeiterfarm.Jobs.ToolRuns.{
  is_queued, ToolRunRow, Table, update, NewRun, new_row, enqueue, claimed, claim,
}
use arbeiterfarm.Jobs.ToolRuns.Statements.{length-keep-update, claim-cases}
use arbeiterfarm.Jobs.Quotas.{
  UserQuotaRow, get_quota, belongs_to, is_active, count_active_runs, over_quota,
}
use arbeiterfarm.Jobs.Lifecycle.{Transaction, System, sum_of, is_admitted, holds, waiting, holding}
use arbeiterfarm.Jobs.Lifecycle.Attempts.{IsKeyed, oldest_queued-ids}

-- 1 for a transaction of the user that has passed the quota and has not committed.
abbrev pub admits : ℕ → Transaction → ℕ
admits user t = if is_admitted t.phase && belongs_to user t.run.actor_user_id then 1 else 0

pub sum_of-split :
    (weight : Transaction → ℕ) (before after : List Transaction) (t : Transaction)
    → sum_of weight (before ++ t ∷ after) ≡ weight t + sum_of weight (before ++ after)
sum_of-split weight [] after t = refl
sum_of-split weight (x ∷ before) after t = omega (arith, sum_of-split weight before after t)

admits-le-holds : (user : ℕ) (t : Transaction) → admits user t ≤ holds user t
admits-le-holds user t = ground arith

pub sum_of-le :
    (user : ℕ) (open_ones : List Transaction)
    → sum_of (admits user) open_ones ≤ sum_of (holds user) open_ones
sum_of-le user [] = omega arith
sum_of-le user (t ∷ rest) = omega (arith, admits-le-holds user t, sum_of-le user rest)

-- One lock at most, and room for every run that is about to be inserted.
abbrev pub IsWithin : ℕ → List UserQuotaRow → System → Type 0
IsWithin user quotas s =
    (sum_of (holds user) s.transactions ≤ 1)
    × ((q : UserQuotaRow)
        → get_quota user quotas ≡ some q
        → count_active_runs user s.table + sum_of (admits user) s.transactions
          ≤ q.max_concurrent_runs)

-- Transactions that weigh no more than before, over a table with no more runs of the user.
pub IsWithin-lighter :
    (user : ℕ) (quotas : List UserQuotaRow) (s t : System)
    → sum_of (holds user) t.transactions ≤ sum_of (holds user) s.transactions
    → count_active_runs user t.table + sum_of (admits user) t.transactions
      ≤ count_active_runs user s.table + sum_of (admits user) s.transactions
    → IsWithin user quotas s
    → IsWithin user quotas t
IsWithin-lighter user quotas s t h k w = (omega (arith, h, w.0), λ q e. omega (arith, k, w.1 q e))

-- A statement that makes no row active.
pub update-count :
    (user : ℕ) (chosen : ToolRunRow → Bool) (set : ToolRunRow → ToolRunRow) (table : Table)
    → All (λ r. chosen r ≡ true → is_active user (set r) ≡ true → is_active user r ≡ true) table
    → count_active_runs user (update chosen set table) ≤ count_active_runs user table
unfolding count_active_runs
update-count user chosen set table h = length-keep-update (is_active user) chosen set table h

pub claim-count :
    (user : ℕ) (locked : ℕ → Bool) (now d : ℕ) (table : Table)
    → IsKeyed table
    → count_active_runs user (claim locked now d table).1 ≤ count_active_runs user table
unfolding claimed
claim-count user locked now d table v = elim (claim-cases locked now d table) [
  | inl e ↦
      subst (λ u. count_active_runs user u ≤ count_active_runs user table) (sym e) (omega arith)
  | inr (row, e, f) ↦
      subst (λ u. count_active_runs user u ≤ count_active_runs user table) (sym f)
        (update-count user _ _ table (
          All-weaken (λ r. (r.id == row.id) ≡ true → is_queued r.status ≡ true)
            (λ r.
              (r.id == row.id) ≡ true
              → is_active user (claimed now d r) ≡ true
              → is_active user r ≡ true)
            table (λ r h g a. ground (arith, h g, a)) (oldest_queued-ids locked table row v e).1))
]

pub enqueue-count :
    (user id now : ℕ) (run : NewRun) (table : Table)
    → count_active_runs user (enqueue id now run table).1
      ≡ count_active_runs user table + (if belongs_to user run.actor_user_id then 1 else 0)
unfolding enqueue count_active_runs new_row
enqueue-count user id now run table =
    ap length (keep-append (is_active user) table (new_row id now run ∷ []))
    ∙ (length-append (keep (is_active user) table) _ ∙ ground arith)

pub under_quota :
    (count : ℕ) (q : UserQuotaRow) (o : Option UserQuotaRow)
    → o ≡ some q
    → over_quota count o ≡ false
    → count < q.max_concurrent_runs
unfolding over_quota
under_quota count q o e h = ground (arith, e, h)

-- A transaction replaced, where the table stays.
pub IsWithin-replaced :
    (user : ℕ) (quotas : List UserQuotaRow) (s : System) (before after : List Transaction)
    (old new : Transaction)
    → s.transactions ≡ before ++ old ∷ after
    → IsWithin user quotas s
    → holds user new + sum_of (holds user) (before ++ after) ≤ 1
    → ((q : UserQuotaRow)
        → get_quota user quotas ≡ some q
        → admits user new ≤ admits user old
          ⊎ ((admits user new ≤ 1)
              × (sum_of (admits user) (before ++ after) ≡ 0)
              × (count_active_runs user s.table < q.max_concurrent_runs)))
    → IsWithin user quotas (record s { transactions = before ++ new ∷ after })
IsWithin-replaced user quotas s before after old new e w h k = (
  omega (arith, sum_of-split (holds user) before after new, h),
  λ q g. elim (k q g) [
    | inl l ↦ omega (
      arith,
      l,
      w.1 q g,
      ap (sum_of (admits user)) e,
      sum_of-split (admits user) before after new,
      sum_of-split (admits user) before after old,
    )
    | inr (l, z, c) ↦ omega (arith, l, z, c, sum_of-split (admits user) before after new)
  ],
)

-- What the others hold, from what all hold.
pub others_hold :
    (user : ℕ) (s : System) (before after : List Transaction) (old : Transaction)
    → s.transactions ≡ before ++ old ∷ after
    → sum_of (holds user) s.transactions ≡ holds user old + sum_of (holds user) (before ++ after)
others_hold user s before after old e =
    ap (sum_of (holds user)) e ∙ sum_of-split (holds user) before after old

pub locks-IsWithin :
    (user : ℕ) (quotas : List UserQuotaRow) (s : System) (before after : List Transaction)
    (run : NewRun) (owner : ℕ)
    → s.transactions ≡ before ++ record { run = run; phase = waiting } ∷ after
    → run.actor_user_id ≡ some owner
    → sum_of (holds owner) (before ++ after) ≡ 0
    → IsWithin user quotas s
    → IsWithin user quotas
        (record s { transactions = before ++ record { run = run; phase = holding } ∷ after })
locks-IsWithin user quotas s before after run owner e f g w =
    IsWithin-replaced user quotas s before after (record { run = run; phase = waiting })
      (record { run = run; phase = holding }) e w
      (elim (Bool-cases (owner == user)) [
        | inl h ↦ ground (
          arith,
          f,
          subst (λ u. sum_of (holds u) (before ++ after) ≡ 0) ((==_iff owner user).0 h) g,
        )
        | inr h ↦ ground (
          arith,
          f,
          h,
          others_hold user s before after (record { run = run; phase = waiting }) e,
          w.0,
        )
      ])
      (λ q _. inl (omega arith))

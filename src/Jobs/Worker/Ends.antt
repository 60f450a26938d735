-- ===== src/Jobs/Worker/Ends.antt =====
-- How a round of a worker ends.
use arbeiterfarm.Base.{
  ℕ, ◌≡◌, refl, sym, subst, ◌⊎◌, inl, inr, Bool, true, false, ◌&&◌, ◌||◌, Option, none, some, List,
  [], ◌∷◌, arith, ◌==◌, Bool-cases, Option-cases, if_of_true, if_of_false, any, All, Checked, guard,
  Result-cases,
}
use arbeiterfarm.Base.Text.{Text, lit}
use arbeiterfarm.Base.Json.{Json}
use arbeiterfarm.Jobs.ToolRuns.{
  is_queued, is_running, ToolRunRow, Table, update, Output, complete, fail, oldest_queued, claimed,
  claim,
}
use arbeiterfarm.Jobs.Lifecycle.{lease_duration_secs}
use arbeiterfarm.Jobs.Worker.{
  WorkerStatement, Tools, WorkerError, ToolResult, Store, validation_json, unless, audit, is_scoped,
  scoped_fail, unscoped_complete, scoped_complete, store_result, fail_and_audit, execute_claimed,
  db, validation_error, finished, tool_error, write_end, commit_end, link_output, try_execute_one,
  claim_run, check_run,
}

-- Every run with an id has ended.
abbrev pub IsEnded : ℕ → Table → Type 0
IsEnded id =
    All (λ r. (r.id == id) ≡ true → (is_queued r.status ≡ false) × (is_running r.status ≡ false))

-- A statement on the rows with an id that ends them, and changes no id.
update-IsEnded :
    (id : ℕ) (set : ToolRunRow → ToolRunRow) (table : Table)
    → ((r : ToolRunRow) → (is_queued (set r).status ≡ false) × (is_running (set r).status ≡ false))
    → IsEnded id (update (λ r. r.id == id) set table)
unfolding update
update-IsEnded id set [] h = tt
update-IsEnded id set (row ∷ rest) h = (
  elim (Bool-cases (row.id == id)) [
    | inl e ↦
        subst
          (λ (r : ToolRunRow).
            (r.id == id) ≡ true → (is_queued r.status ≡ false) × (is_running r.status ≡ false))
          (sym (if_of_true _ (set row) row e)) (λ _. h row)
    | inr e ↦
        subst
          (λ (r : ToolRunRow).
            (r.id == id) ≡ true → (is_queued r.status ≡ false) × (is_running r.status ≡ false))
          (sym (if_of_false _ (set row) row e)) (λ f. absurd (ground (arith, e, f)))
  ],
  update-IsEnded id set rest h,
)

fail-IsEnded :
    (now id : ℕ) (error : Json) (stderr : Option Text) (table : Table)
    → IsEnded id (fail now id error stderr table)
unfolding fail
fail-IsEnded now id error stderr table = update-IsEnded id _ table (λ r. (refl, refl))

complete-IsEnded :
    (now id : ℕ) (output : Output) (table : Table) → IsEnded id (complete now id output table)
unfolding complete
complete-IsEnded now id output table = update-IsEnded id _ table (λ r. (refl, refl))

-- A database that refuses nothing.
abbrev pub Answers : Tools → Type 0
Answers tools = (s : WorkerStatement) → tools.refuses s ≡ false

-- A round that has ended a run.
abbrev HasEnded : ℕ → (WorkerError ⊎ Bool) × Store → Type 0
HasEnded id m = (m.0 ≡ inr true) × IsEnded id m.1.tool_runs

fail_and_audit-HasEnded :
    (tools : Tools) (now : ℕ) (run : ToolRunRow) (err_json : Json) (status : Text) (s : Store)
    → Answers tools
    → HasEnded run.id (fail_and_audit tools now run err_json status s)
unfolding scoped_fail audit
fail_and_audit-HasEnded tools now run err_json status s h =
    subst
      (λ b.
        let left : Store = record s {
          tool_runs = unless b (fail now run.id err_json none) s.tool_runs;
        } in
        let written : Checked WorkerError = guard b db in
        let m : (WorkerError ⊎ Bool) × Store = elim written [
          | inl e ↦ (inl e, left)
          | inr _ ↦ (inr true, audit tools run.id status left)
        ] in
        HasEnded run.id m)
      (sym (
        none_refused (tools.refuses write_end) (is_scoped tools run.actor_user_id)
          (tools.refuses commit_end) (h write_end) (h commit_end)))
      (refl, fail-IsEnded now run.id err_json none s.tool_runs)
  where
    none_refused : (a b c : Bool) → a ≡ false → c ≡ false → (a || (b && c)) ≡ false
    none_refused a b c e f = ground (arith, e, f)

store_result-IsEnded :
    (tools : Tools) (now : ℕ) (actor : Option ℕ) (id : ℕ) (result : ToolResult) (s : Store)
    → Answers tools
    → IsEnded id (store_result tools now actor id result s).tool_runs
unfolding store_result scoped_complete unscoped_complete
store_result-IsEnded tools now actor id result s h = elim (Bool-cases (is_scoped tools actor)) [
  | inl e ↦
      subst (λ x. IsEnded id x.tool_runs)
        (sym (
          if_of_true _ (scoped_complete tools now id result s)
            (unscoped_complete tools now id result s) e))
        (subst (IsEnded id)
          (sym (
            if_of_false _ s.tool_runs (complete now id result.output s.tool_runs)
              (links_written result.produced_artifacts)))
          (complete-IsEnded now id result.output s.tool_runs))
  | inr e ↦
      subst (λ x. IsEnded id x.tool_runs)
        (sym (
          if_of_false _ (scoped_complete tools now id result s)
            (unscoped_complete tools now id result s) e))
        (subst (IsEnded id)
          (sym
            (if_of_false _ s.tool_runs (complete now id result.output s.tool_runs) (h write_end)))
          (complete-IsEnded now id result.output s.tool_runs))
]
  where
    links_written :
        (ids : List ℕ)
        → (any (λ a. tools.refuses (link_output a)) ids
            || (tools.refuses write_end || tools.refuses commit_end))
          ≡ false
    links_written [] = ground (arith, h write_end, h commit_end)
    links_written (a ∷ ids) = ground (arith, h (link_output a), links_written ids)

execute_claimed-HasEnded :
    (tools : Tools) (now : ℕ) (run : ToolRunRow) (s : Store)
    → Answers tools
    → HasEnded run.id (execute_claimed tools now run s)
unfolding execute_claimed audit
execute_claimed-HasEnded tools now run s h =
    elim (tools.execute run)
      as (λ x. HasEnded run.id (elim x [
        | validation_error msg ↦
            fail_and_audit tools now run (validation_json msg) (lit "validation_failed") s
        | finished result ↦ (
          inr true,
          audit tools run.id (lit "completed")
              (store_result tools now run.actor_user_id run.id result s),
        )
        | tool_error err_json ↦ fail_and_audit tools now run err_json (lit "failed") s
      ])) [
        | validation_error msg ↦
            fail_and_audit-HasEnded tools now run (validation_json msg) (lit "validation_failed") s
              h
        | finished result ↦
            (refl, store_result-IsEnded tools now run.actor_user_id run.id result s h)
        | tool_error err_json ↦ fail_and_audit-HasEnded tools now run err_json (lit "failed") s h
      ]

-- How a round can end over a store: with nothing to do, with the oldest run ended, or with an error
-- behind the claim of that run.
abbrev pub IsOutcome : Tools → ℕ → Store → (WorkerError ⊎ Bool) × Store → Type 0
IsOutcome tools claim_at s m =
    ((m.0 ≡ inr false) × (m.1 ≡ s) × (oldest_queued tools.locked s.tool_runs ≡ none))
    ⊎ ((row : ToolRunRow) × (oldest_queued tools.locked s.tool_runs ≡ some row)
        × (HasEnded row.id m
            ⊎ ((e : WorkerError) × (m.0 ≡ inl e)
                × (m.1.tool_runs
                    ≡ update (λ r. r.id == row.id) (claimed claim_at lease_duration_secs)
                        s.tool_runs))))

claimed_id : (now d : ℕ) (r : ToolRunRow) → (claimed now d r).id ≡ r.id
unfolding claimed
claimed_id now d r = refl

claimed-HasEnded :
    (tools : Tools) (claim_at end_at : ℕ) (row : ToolRunRow) (s : Store)
    → Answers tools
    → HasEnded row.id (execute_claimed tools end_at (claimed claim_at lease_duration_secs row) s)
claimed-HasEnded tools claim_at end_at row s h =
    let run : ToolRunRow = claimed claim_at lease_duration_secs row in
    subst (λ n. HasEnded n (execute_claimed tools end_at run s))
      (claimed_id claim_at lease_duration_secs row) (execute_claimed-HasEnded tools end_at run s h)

-- Where the database refuses nothing, a round of a worker either finds no queued run that it may
-- lock and changes nothing; or it takes the oldest one, and that run has ended when it answers
-- true, whatever others did to the runs while the tool worked; or it answers an error, with which
-- the run stays under way, with the lease of its claim.
pub try_execute_one-IsOutcome :
    (tools : Tools) (claim_at end_at : ℕ) (s : Store)
    → Answers tools
    → IsOutcome tools claim_at s (try_execute_one tools claim_at end_at s)
unfolding try_execute_one claim
try_execute_one-IsOutcome tools claim_at end_at s h =
    elim (Option-cases (oldest_queued tools.locked s.tool_runs)) [
      | inl e ↦ rw (h claim_run, e, try_execute_one, claim) (inl (refl, refl, refl))
      | inr (row, e) ↦
          elim (Result-cases (check_run tools (claimed claim_at lease_duration_secs row))) [
            | inl (er, f) ↦
                rw (h claim_run, e, f, try_execute_one, claim)
                  (inr (row, refl, inr (er, refl, rw (e, claim) refl)))
            | inr (_, f) ↦
                rw (h claim_run, e, f, try_execute_one, claim)
                  (inr (
                    row,
                    refl,
                    inl (
                        claimed-HasEnded tools claim_at end_at row
                          (record s {
                            tool_runs =
                                tools.meanwhile
                                  (claim tools.locked claim_at lease_duration_secs s.tool_runs).1;
                          })
                          h),
                  ))
          ]
    ]

-- ===== src/Agents/Workflow/Counting.antt =====
-- How many steps of one agent the plan holds after signals.
use arbeiterfarm.Base.{
  ℕ, suc, ◌+◌, ◌^◌, ◌≤◌, ◌<◌, ◌≡◌, refl, sym, ap, inl, inr, true, false, some, List, [], ◌∷◌, ◌++◌,
  arith, ◌==◌, if◌then◌else◌, Option-cases, any,
}
use arbeiterfarm.Base.Text.{Text, text_eq, eq_of_text_eq, text_eq_trans, text_eq_left}
use arbeiterfarm.Agents.Signals.{SignalKind, AgentSignal, request, skip, priority}
use arbeiterfarm.Agents.Workflow.{
  WorkflowStep, Groups, push_step, has_agent, already_planned, without_agent, keep_group,
  remove_agent, find_step, find_later, remove_from, next_group, requested_step, hastened_step,
  apply_request, apply_skip, apply_priority, apply_signal, apply_each, apply_signals,
}
use arbeiterfarm.Agents.Workflow.Plan.{IsPlan, apply_signal-IsPlan, next_group-le}
use arbeiterfarm.Agents.Workflow.Planned.{find_later-agent}

abbrev pub count_steps : Text → List WorkflowStep → ℕ
count_steps a [] = 0
count_steps a (s ∷ rest) = (if has_agent a s then 1 else 0) + count_steps a rest

abbrev pub count_plan : Text → Groups → ℕ
count_plan a [] = 0
count_plan a ((g, steps) ∷ gs) = count_steps a steps + count_plan a gs

abbrev pub group_at : ℕ → Groups → List WorkflowStep
group_at n [] = []
group_at n ((g, steps) ∷ gs) = if g == n then steps else group_at n gs

-- No agent has two steps in the plan.
abbrev pub OncePlanned : Groups → Type 0
OncePlanned gs = (a : Text) → count_plan a gs ≤ 1

count_steps-append :
    (a : Text) (xs ys : List WorkflowStep)
    → count_steps a (xs ++ ys) ≡ count_steps a xs + count_steps a ys
count_steps-append a [] ys = omega arith
count_steps-append a (x ∷ xs) ys = omega (arith, count_steps-append a xs ys)

count_steps-without :
    (a t : Text) (steps : List WorkflowStep)
    → count_steps a (without_agent t steps) ≡ (if text_eq t a then 0 else count_steps a steps)
count_steps-without a t [] = ground arith
count_steps-without a t (s ∷ steps) =
    ground
      (arith, count_steps-without a t steps, text_eq_left s.agent t a, text_eq_trans s.agent t a)

count-keep_group :
    (a : Text) (g : ℕ) (steps : List WorkflowStep) (gs : Groups)
    → count_plan a (keep_group g steps gs) ≡ count_steps a steps + count_plan a gs
count-keep_group a g [] gs = omega arith
count-keep_group a g (s ∷ steps) gs = refl

count-push_step :
    (a : Text) (n : ℕ) (step : WorkflowStep) (gs : Groups)
    → count_plan a (push_step n step gs) ≡ (if has_agent a step then 1 else 0) + count_plan a gs
unfolding push_step
count-push_step a n step [] = ground arith
count-push_step a n step ((g, steps) ∷ gs) =
    ground (arith, count-push_step a n step gs, count_steps-append a steps (step ∷ []))

count-remove_agent :
    (a t : Text) (gs : Groups)
    → count_plan a (remove_agent t gs) ≡ (if text_eq t a then 0 else count_plan a gs)
unfolding remove_agent
count-remove_agent a t [] = ground arith
count-remove_agent a t ((g, steps) ∷ gs) = ground (
  arith,
  count-keep_group a g (without_agent t steps) (remove_agent t gs),
  count_steps-without a t steps,
  count-remove_agent a t gs,
)

count-remove_from :
    (a t : Text) (from : ℕ) (gs : Groups)
    → count_plan a (remove_from t from gs)
        + (if text_eq t a then count_steps a (group_at from gs) else 0)
      ≡ count_plan a gs
unfolding remove_from
count-remove_from a t from [] = ground arith
count-remove_from a t from ((g, steps) ∷ gs) = ground (
  arith,
  count-keep_group a g (without_agent t steps) gs,
  count_steps-without a t steps,
  count-remove_from a t from gs,
)

found-count_steps :
    (t : Text) (steps : List WorkflowStep) (s : WorkflowStep)
    → find_step t steps ≡ some s
    → 1 ≤ count_steps t steps
unfolding find_step
found-count_steps t [] s h = absurd (ground arith)
found-count_steps t (x ∷ steps) s h = ground (arith, found-count_steps t steps s)

-- The step that the priority branch finds stands in the group of its key.
found-in_group :
    (low : ℕ) (t : Text) (next from : ℕ) (s : WorkflowStep) (gs : Groups)
    → IsPlan low gs
    → find_later t next gs ≡ some (from, s)
    → (low ≤ from) × (1 ≤ count_steps t (group_at from gs))
unfolding find_later
found-in_group low t next from s [] p h = absurd (ground arith)
found-in_group low t next from s ((g, steps) ∷ gs) p h =
    ground (arith, found-count_steps t steps s, found-in_group (suc g) t next from s gs p.2)

not_planned-count : (a : Text) (gs : Groups) → already_planned a gs ≡ false → count_plan a gs ≡ 0
unfolding already_planned
not_planned-count a [] h = refl
not_planned-count a ((g, steps) ∷ gs) h = ground (arith, none_steps steps, not_planned-count a gs)
  where
    none_steps : (l : List WorkflowStep) → any (has_agent a) l ≡ false → count_steps a l ≡ 0
    none_steps [] e = refl
    none_steps (s ∷ rest) e = ground (arith, none_steps rest)

count_steps_same :
    (a t : Text) (l : List WorkflowStep) → text_eq t a ≡ true → count_steps a l ≡ count_steps t l
count_steps_same a t l h = ap (λ u. count_steps u l) (sym (eq_of_text_eq t a h))

count_plan_same :
    (a t : Text) (gs : Groups) → text_eq t a ≡ true → count_plan a gs ≡ count_plan t gs
count_plan_same a t gs h = ap (λ u. count_plan u gs) (sym (eq_of_text_eq t a h))

-- When the priority branch finds a step of its target in the group `from`, all steps of the target
-- in that group are removed and one is put into the next group; other agents keep their steps.
pub count-priority :
    (next from : ℕ) (s : AgentSignal) (step : WorkflowStep) (a : Text) (gs : Groups)
    → find_later s.target_agent next gs ≡ some (from, step)
    → count_plan a (apply_priority next s gs).0
        + (if text_eq s.target_agent a then count_steps a (group_at from gs) else 0)
      ≡ count_plan a gs + (if text_eq s.target_agent a then 1 else 0)
unfolding apply_priority hastened_step
count-priority next from s step a gs e =
    rw (e, apply_priority)
      (ground (
        arith,
        (find_later-agent s.target_agent next from step gs e).0,
        count-push_step a next (hastened_step next s step) (remove_from s.target_agent from gs),
        count-remove_from a s.target_agent from gs,
        text_eq_left step.agent s.target_agent a,
      ))

count-priority-le :
    (low next : ℕ) (s : AgentSignal) (a : Text) (gs : Groups)
    → IsPlan low gs
    → count_plan a (apply_priority next s gs).0 ≤ count_plan a gs
count-priority-le low next s a gs p = elim (Option-cases (find_later s.target_agent next gs)) [
  | inl e ↦ unfold apply_priority in rw (e, apply_priority) (omega arith)
  | inr ((from, step), e) ↦ ground (
    arith,
    count-priority next from s step a gs e,
    (found-in_group low s.target_agent next from step gs p e).1,
    count_steps_same a s.target_agent (group_at from gs),
  )
]

count-apply_signal :
    (k : SignalKind) (low next : ℕ) (known : List Text) (s : AgentSignal) (gs : Groups)
    → IsPlan low gs
    → OncePlanned gs
    → OncePlanned (apply_signal k next known s gs).0
unfolding apply_signal apply_request apply_skip requested_step
count-apply_signal request low next known s gs p once a = ground (
  arith,
  once a,
  count-push_step a next (requested_step next s) gs,
  not_planned-count s.target_agent gs,
  count_plan_same a s.target_agent gs,
)
count-apply_signal skip low next known s gs p once a =
    ground (arith, once a, count-remove_agent a s.target_agent gs)
count-apply_signal priority low next known s gs p once a =
    omega (arith, once a, count-priority-le low next s a gs p)

apply_each-once :
    (low next : ℕ) (known : List Text) (signals : List AgentSignal) (gs : Groups)
    → low ≤ next
    → IsPlan low gs
    → OncePlanned gs
    → OncePlanned (apply_each next known signals gs).0
unfolding apply_each
apply_each-once low next known [] gs h p once = once
apply_each-once low next known (s ∷ rest) gs h p once =
    apply_each-once low next known rest (apply_signal s.kind next known s gs).0 h
      (apply_signal-IsPlan s.kind low next known s gs h p)
      (count-apply_signal s.kind low next known s gs p once)

-- If only groups after `current` remain, none of them empty, and no agent has two steps in them,
-- then signals, whatever they ask for, plan no agent twice.
pub apply_signals-OncePlanned :
    (signals : List AgentSignal) (current : ℕ) (known : List Text) (gs : Groups)
    → current + 1 < 2 ^ 32
    → IsPlan (suc current) gs
    → OncePlanned gs
    → OncePlanned (apply_signals signals current known gs).0
unfolding apply_signals
apply_signals-OncePlanned signals current known gs h p once =
    apply_each-once (suc current) (next_group current gs) known signals gs
      (next_group-le current gs h p) p once

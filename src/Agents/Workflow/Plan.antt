-- ===== src/Agents/Workflow/Plan.antt =====
-- The plan stays a sorted map of groups that are not empty, and nothing is scheduled before the
-- next group.
use arbeiterfarm.Base.{
  ℕ, suc, ◌+◌, ◌^◌, ◌≤◌, ◌<◌, ◌≡◌, refl, inl, inr, false, List, [], ◌∷◌, arith, Option-cases,
  is_empty,
}
use arbeiterfarm.Base.Text.{Text}
use arbeiterfarm.Agents.Signals.{SignalKind, AgentSignal, request, skip, priority}
use arbeiterfarm.Agents.Workflow.{
  WorkflowStep, Groups, push_step, group_steps, next_group, without_agent, keep_group, remove_agent,
  find_later, remove_from, requested_step, hastened_step, apply_request, apply_skip, apply_priority,
  apply_signal, apply_each, apply_signals,
}

-- The keys rise from `low` on, and no group is empty.
abbrev pub IsPlan : ℕ → Groups → Type 0
IsPlan low [] = Unit {0}
IsPlan low ((g, steps) ∷ gs) = (low ≤ g) × (is_empty steps ≡ false) × IsPlan (suc g) gs

IsPlan-mono : (low low' : ℕ) (gs : Groups) → low' ≤ low → IsPlan low gs → IsPlan low' gs
IsPlan-mono low low' [] h p = tt
IsPlan-mono low low' ((g, steps) ∷ gs) h p = (omega arith, p.1, p.2)

pub push_step-IsPlan :
    (low n : ℕ) (step : WorkflowStep) (gs : Groups)
    → low ≤ n
    → IsPlan low gs
    → IsPlan low (push_step n step gs)
unfolding push_step
push_step-IsPlan low n step [] h p = ground arith
push_step-IsPlan low n step ((g, []) ∷ gs) h p = ground arith
push_step-IsPlan low n step ((g, s ∷ steps) ∷ gs) h p =
    ground (arith, push_step-IsPlan (suc g) n step gs)

keep_group-IsPlan :
    (low g : ℕ) (steps : List WorkflowStep) (gs : Groups)
    → low ≤ g
    → IsPlan (suc g) gs
    → IsPlan low (keep_group g steps gs)
keep_group-IsPlan low g [] gs h p = IsPlan-mono (suc g) low gs (omega arith) p
keep_group-IsPlan low g (s ∷ steps) gs h p = (h, refl, p)

remove_agent-IsPlan :
    (low : ℕ) (target : Text) (gs : Groups) → IsPlan low gs → IsPlan low (remove_agent target gs)
unfolding remove_agent
remove_agent-IsPlan low target [] p = tt
remove_agent-IsPlan low target ((g, steps) ∷ gs) p =
    keep_group-IsPlan low g (without_agent target steps) (remove_agent target gs) p.0
      (remove_agent-IsPlan (suc g) target gs p.2)

pub remove_from-IsPlan :
    (low : ℕ) (target : Text) (from : ℕ) (gs : Groups)
    → IsPlan low gs
    → IsPlan low (remove_from target from gs)
unfolding remove_from
remove_from-IsPlan low target from [] p = tt
remove_from-IsPlan low target from ((g, steps) ∷ gs) p = ground (
  arith,
  keep_group-IsPlan low g (without_agent target steps) gs p.0 p.2,
  remove_from-IsPlan (suc g) target from gs p.2,
)

pub apply_signal-IsPlan :
    (k : SignalKind) (low next : ℕ) (known : List Text) (s : AgentSignal) (gs : Groups)
    → low ≤ next
    → IsPlan low gs
    → IsPlan low (apply_signal k next known s gs).0
unfolding apply_signal apply_request apply_skip apply_priority
apply_signal-IsPlan request low next known s gs h p =
    ground (arith, push_step-IsPlan low next (requested_step next s) gs h p)
apply_signal-IsPlan skip low next known s gs h p = remove_agent-IsPlan low s.target_agent gs p
apply_signal-IsPlan priority low next known s gs h p =
    elim (Option-cases (find_later s.target_agent next gs)) [
      | inl e ↦ rw (e, apply_priority) p
      | inr ((from, step), e) ↦
          rw (e, apply_priority)
            (push_step-IsPlan low next (hastened_step next s step)
              (remove_from s.target_agent from gs) h
              (remove_from-IsPlan low s.target_agent from gs p))
    ]

apply_each-IsPlan :
    (low next : ℕ) (known : List Text) (signals : List AgentSignal) (gs : Groups)
    → low ≤ next
    → IsPlan low gs
    → IsPlan low (apply_each next known signals gs).0
unfolding apply_each
apply_each-IsPlan low next known [] gs h p = p
apply_each-IsPlan low next known (s ∷ rest) gs h p =
    apply_each-IsPlan low next known rest (apply_signal s.kind next known s gs).0 h
      (apply_signal-IsPlan s.kind low next known s gs h p)

pub next_group-le :
    (current : ℕ) (gs : Groups)
    → current + 1 < 2 ^ 32
    → IsPlan (suc current) gs
    → current < next_group current gs
unfolding next_group
next_group-le current [] h p = omega arith
next_group-le current ((g, steps) ∷ gs) h p = omega arith

-- When the group `current` has run and only later groups remain, none of them empty, this stays so
-- through any list of signals: they neither reopen a group that has run nor leave an empty one.
pub apply_signals-IsPlan :
    (signals : List AgentSignal) (current : ℕ) (known : List Text) (gs : Groups)
    → current + 1 < 2 ^ 32
    → IsPlan (suc current) gs
    → IsPlan (suc current) (apply_signals signals current known gs).0
unfolding apply_signals
apply_signals-IsPlan signals current known gs h p =
    apply_each-IsPlan (suc current) (next_group current gs) known signals gs
      (next_group-le current gs h p) p

-- The steps of a workflow, put one by one into a plan whose group numbers rise and whose groups are
-- not empty, leave such a plan; `execute_workflow` starts from the plan without groups.
pub group_steps-IsPlan :
    (gs : Groups) (steps : List WorkflowStep) → IsPlan 0 gs → IsPlan 0 (group_steps gs steps)
unfolding group_steps
group_steps-IsPlan gs [] p = p
group_steps-IsPlan gs (step ∷ rest) p =
    group_steps-IsPlan (push_step step.group step gs) rest
      (push_step-IsPlan 0 step.group step gs (omega arith) p)

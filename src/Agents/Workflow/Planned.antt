-- ===== src/Agents/Workflow/Planned.antt =====
-- Which agents the plan holds after signals.
use arbeiterfarm.Base.{
  ℕ, ◌≡◌, refl, sym, ap, ◌∙◌, inl, inr, Bool, true, false, ◌&&◌, ◌||◌, not, some, List, [], ◌∷◌,
  arith, Option-cases, any, any-append,
}
use arbeiterfarm.Base.Text.{Text, text_eq, eq_of_text_eq, mem_text, text_eq_trans, text_eq_left}
use arbeiterfarm.Agents.Signals.{
  SignalKind, AgentSignal, has_key, requested, resolve_conflicts, request, skip, priority,
}
use arbeiterfarm.Agents.Signals.Conflicts.{any-resolve}
use arbeiterfarm.Agents.Workflow.{
  WorkflowStep, Groups, push_step, next_group, has_agent, already_planned, without_agent,
  keep_group, remove_agent, find_step, find_later, remove_from, requested_step, hastened_step,
  apply_request, apply_skip, apply_priority, apply_signal, apply_each, apply_signals,
}

any-without :
    (a t : Text) (steps : List WorkflowStep)
    → any (has_agent a) (without_agent t steps) ≡ (any (has_agent a) steps && not (text_eq t a))
any-without a t [] = refl
any-without a t (s ∷ steps) =
    ground (arith, any-without a t steps, text_eq_left s.agent t a, text_eq_trans s.agent t a)

planned-keep_group :
    (a : Text) (g : ℕ) (steps : List WorkflowStep) (gs : Groups)
    → already_planned a (keep_group g steps gs) ≡ (any (has_agent a) steps || already_planned a gs)
unfolding already_planned
planned-keep_group a g [] gs = refl
planned-keep_group a g (s ∷ steps) gs = refl

pub planned-push_step :
    (a : Text) (n : ℕ) (step : WorkflowStep) (gs : Groups)
    → already_planned a (push_step n step gs) ≡ (has_agent a step || already_planned a gs)
unfolding already_planned push_step
planned-push_step a n step [] = ground arith
planned-push_step a n step ((g, steps) ∷ gs) =
    ground (arith, planned-push_step a n step gs, any-append (has_agent a) steps (step ∷ []))

planned-remove_agent :
    (a t : Text) (gs : Groups)
    → already_planned a (remove_agent t gs) ≡ (already_planned a gs && not (text_eq t a))
unfolding already_planned remove_agent
planned-remove_agent a t [] = refl
planned-remove_agent a t ((g, steps) ∷ gs) = ground (
  arith,
  planned-keep_group a g (without_agent t steps) (remove_agent t gs),
  any-without a t steps,
  planned-remove_agent a t gs,
)

-- Removing `t` from one group changes nothing for the other agents.
planned-remove_from :
    (a t : Text) (from : ℕ) (gs : Groups)
    → (text_eq t a || already_planned a (remove_from t from gs))
      ≡ (text_eq t a || already_planned a gs)
unfolding already_planned remove_from
planned-remove_from a t from [] = refl
planned-remove_from a t from ((g, steps) ∷ gs) = ground (
  arith,
  planned-keep_group a g (without_agent t steps) gs,
  any-without a t steps,
  planned-remove_from a t from gs,
)

find_step-agent :
    (t : Text) (steps : List WorkflowStep) (s : WorkflowStep)
    → find_step t steps ≡ some s
    → (has_agent t s ≡ true) × (any (has_agent t) steps ≡ true)
unfolding find_step
find_step-agent t [] s h = absurd (ground arith)
find_step-agent t (x ∷ steps) s h = ground (arith, find_step-agent t steps s)

pub find_later-agent :
    (t : Text) (next from : ℕ) (s : WorkflowStep) (gs : Groups)
    → find_later t next gs ≡ some (from, s)
    → (has_agent t s ≡ true) × (already_planned t gs ≡ true)
unfolding find_later already_planned
find_later-agent t next from s [] h = absurd (ground arith)
find_later-agent t next from s ((g, steps) ∷ gs) h =
    ground (arith, find_step-agent t steps s, find_later-agent t next from s gs)

planned_same :
    (a t : Text) (gs : Groups) → text_eq t a ≡ true → already_planned a gs ≡ already_planned t gs
planned_same a t gs h = ap (λ u. already_planned u gs) (sym (eq_of_text_eq t a h))

-- Whether `a` is planned after a signal for `t`, from whether it was planned before.
abbrev pub planned_after : SignalKind → List Text → Text → Text → Bool → Bool
planned_after request known t a before = before || (text_eq t a && mem_text t known)
planned_after skip known t a before = before && not (text_eq t a)
planned_after priority known t a before = before

priority-planned :
    (next : ℕ) (known : List Text) (s : AgentSignal) (a : Text) (gs : Groups) (from : ℕ)
    (step : WorkflowStep)
    → find_later s.target_agent next gs ≡ some (from, step)
    → already_planned a
        (push_step next (hastened_step next s step) (remove_from s.target_agent from gs))
      ≡ already_planned a gs
unfolding hastened_step
priority-planned next known s a gs from step e =
    let f = find_later-agent s.target_agent next from step gs e in
    ground (
      arith,
      f.0,
      f.1,
      planned-push_step a next (hastened_step next s step) (remove_from s.target_agent from gs),
      planned-remove_from a s.target_agent from gs,
      text_eq_left step.agent s.target_agent a,
      planned_same a s.target_agent gs,
    )

-- A request plans its target if the agent is known, a skip removes it from every remaining group,
-- and a priority keeps the set of planned agents; no other agent is touched.
pub planned-apply_signal :
    (k : SignalKind) (next : ℕ) (known : List Text) (s : AgentSignal) (a : Text) (gs : Groups)
    → already_planned a (apply_signal k next known s gs).0
      ≡ planned_after k known s.target_agent a (already_planned a gs)
unfolding apply_signal apply_request apply_skip apply_priority requested_step
planned-apply_signal request next known s a gs =
    ground
      (arith, planned-push_step a next (requested_step next s) gs, planned_same a s.target_agent gs)
planned-apply_signal skip next known s a gs = planned-remove_agent a s.target_agent gs
planned-apply_signal priority next known s a gs =
    elim (Option-cases (find_later s.target_agent next gs)) [
      | inl e ↦ rw (e, apply_priority) refl
      | inr ((from, step), e) ↦
          rw (e, apply_priority) (priority-planned next known s a gs from step e)
    ]

abbrev planned_through : List Text → Text → List AgentSignal → Bool → Bool
planned_through known a [] before = before
planned_through known a (s ∷ rest) before =
    planned_through known a rest (planned_after s.kind known s.target_agent a before)

planned-apply_each :
    (next : ℕ) (known : List Text) (a : Text) (signals : List AgentSignal) (gs : Groups)
    → already_planned a (apply_each next known signals gs).0
      ≡ planned_through known a signals (already_planned a gs)
unfolding apply_each
planned-apply_each next known a [] gs = refl
planned-apply_each next known a (s ∷ rest) gs =
    planned-apply_each next known a rest (apply_signal s.kind next known s gs).0
    ∙ ap (planned_through known a rest) (planned-apply_signal s.kind next known s a gs)

mem_text_same :
    (t a : Text) (known : List Text) → text_eq t a ≡ true → mem_text t known ≡ mem_text a known
mem_text_same t a known h = ap (λ u. mem_text u known) (eq_of_text_eq t a h)

-- Signals that never skip `a`.
through-requests :
    (known : List Text) (a : Text) (l : List AgentSignal) (before : Bool)
    → any (has_key a skip) l ≡ false
    → planned_through known a l before ≡ (before || (mem_text a known && any (has_key a request) l))
unfolding has_key
through-requests known a [] before h = ground arith
through-requests known a (s ∷ rest) before h = ground (
  arith,
  mem_text_same s.target_agent a known,
  through-requests known a rest (planned_after s.kind known s.target_agent a before),
)

-- Signals that never request `a`.
through-skips :
    (known : List Text) (a : Text) (l : List AgentSignal) (before : Bool)
    → any (has_key a request) l ≡ false
    → planned_through known a l before ≡ (before && not (any (has_key a skip) l))
unfolding has_key
through-skips known a [] before h = ground arith
through-skips known a (s ∷ rest) before h =
    ground (arith, through-skips known a rest (planned_after s.kind known s.target_agent a before))

-- The step from the signals of a finished group to the plan, whatever their order: an agent is
-- planned afterwards exactly if some signal requests it and it is known, or it was planned and is
-- not skipped, where a request for it, known or not, overrules every skip.
pub planned-resolved :
    (signals : List AgentSignal) (current : ℕ) (known : List Text) (a : Text) (gs : Groups)
    → already_planned a (apply_signals (resolve_conflicts signals) current known gs).0 ≡ (
        (mem_text a known && requested a signals)
        || (already_planned a gs && (requested a signals || not (any (has_key a skip) signals))))
unfolding apply_signals requested
planned-resolved signals current known a gs = ground (
  arith,
  planned-apply_each (next_group current gs) known a (resolve_conflicts signals) gs,
  through-requests known a (resolve_conflicts signals) (already_planned a gs),
  through-skips known a (resolve_conflicts signals) (already_planned a gs),
  any-resolve a skip signals,
  any-resolve a request signals,
)

-- ===== src/Agents/Workflow.antt =====
-- af/crates/af-agents/src/orchestrator.rs: the plan of a workflow, which is what remains of its
-- groups of steps, and how signals and replacement artifacts change it between two groups.
-- `BTreeMap<u32, Vec<WorkflowStep>>` is the list of its entries in the order of the keys.
pub mod Plan
pub mod Planned
pub mod Counting
pub mod Moving
pub mod Retarget
pub mod Prompts
pub mod Retargeted
pub mod Fanout
pub mod Spawned
pub mod Lineage
pub mod Examples
use arbeiterfarm.Base.{
  ℕ, ◌+◌, ◌%◌, ◌^◌, Bool, true, false, ◌||◌, not, Option, none, some, List, [], ◌∷◌, ◌++◌, ltb,
  ◌==◌, if◌then◌else◌, length, any, keep,
}
use arbeiterfarm.Base.Text.{Text, lit, text_eq, mem_text}
use arbeiterfarm.Agents.Signals.{SignalKind, AgentSignal, display, request, skip, priority}

-- af/crates/af-db/src/workflows.rs
pub record WorkflowStep : Type 0 where
  pub agent : Text
  pub group : ℕ
  pub prompt : Text
  pub can_repivot : Bool
  pub timeout_secs : Option ℕ
  pub parallel : Bool

abbrev pub Groups : Type 0
Groups = List (ℕ × List WorkflowStep)

-- `OrchestratorEvent::SignalApplied`
pub record SignalApplied : Type 0 where
  pub kind : Text
  pub target_agent : Text
  pub reason : Text
  pub source_agent : Text

abbrev pub applied : AgentSignal → SignalApplied
applied s = record {
  kind = display s.kind;
  target_agent = s.target_agent;
  reason = s.reason;
  source_agent = s.source_agent;
}

-- `groups.entry(n).or_default().push(step)`
unfoldable pub push_step : ℕ → WorkflowStep → Groups → Groups
push_step n step [] = (n, step ∷ []) ∷ []
push_step n step ((g, steps) ∷ gs) =
    if ltb n g
    then (n, step ∷ []) ∷ (g, steps) ∷ gs
    else if n == g
    then (g, steps ++ step ∷ []) ∷ gs
    else (g, steps) ∷ push_step n step gs

-- The loop that fills `groups` at the start of `execute_workflow`.
unfoldable pub group_steps : Groups → List WorkflowStep → Groups
group_steps gs [] = gs
group_steps gs (step ∷ rest) = group_steps (push_step step.group step gs) rest

-- `groups.keys().next().copied().unwrap_or(current_group_num + 1)`, on u32.
unfoldable pub next_group : ℕ → Groups → ℕ
next_group current [] = (current + 1) % 2 ^ 32
next_group current ((g, steps) ∷ gs) = g

abbrev pub has_agent : Text → WorkflowStep → Bool
has_agent target s = text_eq s.agent target

unfoldable pub already_planned : Text → Groups → Bool
already_planned agent [] = false
already_planned agent ((g, steps) ∷ gs) = any (has_agent agent) steps || already_planned agent gs

-- `steps.retain(|s| s.agent != *target)`
abbrev pub without_agent : Text → List WorkflowStep → List WorkflowStep
without_agent target = keep (λ s. not (has_agent target s))

-- A group goes with its last step.
abbrev pub keep_group : ℕ → List WorkflowStep → Groups → Groups
keep_group g [] gs = gs
keep_group g (s ∷ steps) gs = (g, s ∷ steps) ∷ gs

-- The two loops of the skip branch.
unfoldable pub remove_agent : Text → Groups → Groups
remove_agent target [] = []
remove_agent target ((g, steps) ∷ gs) =
    keep_group g (without_agent target steps) (remove_agent target gs)

-- The flag `removed` of the skip branch.
unfoldable pub some_removed : Text → Groups → Bool
some_removed target [] = false
some_removed target ((g, steps) ∷ gs) =
    ltb (length (without_agent target steps)) (length steps) || some_removed target gs

-- `steps.iter().position(..)`, with the step at that position.
unfoldable pub find_step : Text → List WorkflowStep → Option WorkflowStep
find_step target [] = none
find_step target (s ∷ rest) = if has_agent target s then some s else find_step target rest

-- The search of the priority branch: nothing if the agent stands in the next group already.
unfoldable pub find_later : Text → ℕ → Groups → Option (ℕ × WorkflowStep)
find_later target next [] = none
find_later target next ((g, steps) ∷ gs) =
    let later = find_later target next gs in
    if g == next
    then (if any (has_agent target) steps then none else later)
    else elim (find_step target steps) [ some s ↦ some (g, s) | none ↦ later ]

-- `if let Some(steps) = groups.get_mut(&from_group) { .. }`
unfoldable pub remove_from : Text → ℕ → Groups → Groups
remove_from target from [] = []
remove_from target from ((g, steps) ∷ gs) =
    if g == from
    then keep_group g (without_agent target steps) gs
    else (g, steps) ∷ remove_from target from gs

unfoldable pub requested_step : ℕ → AgentSignal → WorkflowStep
requested_step next s = record {
  agent = s.target_agent;
  group = next;
  prompt = s.reason;
  can_repivot = true;
  timeout_secs = none;
  parallel = false;
}

unfoldable pub hastened_step : ℕ → AgentSignal → WorkflowStep → WorkflowStep
hastened_step next s step = record step {
  group = next;
  prompt = step.prompt ++ (lit " [PRIORITY: " ++ (s.reason ++ lit "]"));
}

unfoldable pub apply_request : ℕ → List Text → AgentSignal → Groups → Groups × List SignalApplied
apply_request next known s gs =
    if not (mem_text s.target_agent known)
    then (gs, [])
    else if already_planned s.target_agent gs
    then (gs, [])
    else (push_step next (requested_step next s) gs, applied s ∷ [])

unfoldable pub apply_skip : AgentSignal → Groups → Groups × List SignalApplied
apply_skip s gs = (
  remove_agent s.target_agent gs,
  (if some_removed s.target_agent gs then applied s ∷ [] else []),
)

unfoldable pub apply_priority : ℕ → AgentSignal → Groups → Groups × List SignalApplied
apply_priority next s gs = elim (find_later s.target_agent next gs) [
  | none ↦ (gs, [])
  | some (from, step) ↦ (
    push_step next (hastened_step next s step) (remove_from s.target_agent from gs),
    applied s ∷ [],
  )
]

-- The body of the loop of `apply_signals`.
unfoldable pub apply_signal :
    SignalKind → ℕ → List Text → AgentSignal → Groups → Groups × List SignalApplied
apply_signal request next known s gs = apply_request next known s gs
apply_signal skip next known s gs = apply_skip s gs
apply_signal priority next known s gs = apply_priority next s gs

unfoldable pub apply_each : ℕ → List Text → List AgentSignal → Groups → Groups × List SignalApplied
apply_each next known [] gs = (gs, [])
apply_each next known (s ∷ rest) gs =
    let (gs', events) = apply_signal s.kind next known s gs in
    let (gs'', more) = apply_each next known rest gs' in (gs'', events ++ more)

unfoldable pub apply_signals :
    List AgentSignal → ℕ → List Text → Groups → Groups × List SignalApplied
apply_signals signals current known gs = apply_each (next_group current gs) known signals gs

-- ===== src/Agents/Workflow/Examples.antt =====
-- Tests of the plan's operations, and the theorems at a small workflow.
use arbeiterfarm.Base.{
  ℕ, ◌+◌, ◌≤◌, ◌≡◌, refl, ap, inr, true, false, ◌&&◌, ◌||◌, none, some, List, [], ◌∷◌, arith,
  length, get_elem?,
}
use arbeiterfarm.Base.Text.{Text, lit, text_eq, starts_with, contains_text, mem_text}
use arbeiterfarm.Agents.Signals.{
  SignalKind, AgentSignal, has_key, requested, resolve_conflicts, request, skip, priority,
}
use arbeiterfarm.Agents.Workflow.{
  WorkflowStep, Groups, push_step, next_group, already_planned, find_step, find_later, remove_from,
  hastened_step, apply_priority, apply_signal, apply_each, apply_signals,
}
use arbeiterfarm.Agents.Workflow.Plan.{IsPlan, apply_signals-IsPlan}
use arbeiterfarm.Agents.Workflow.Retarget.{
  ArtifactRow, retarget_suffix, can_repivot_of, annotate, repivot, detect_repivot,
}
use arbeiterfarm.Agents.Workflow.Prompts.{AllSteps, IsRetargeted}
use arbeiterfarm.Agents.Workflow.Retargeted.{repivot-planned}
use arbeiterfarm.Agents.Workflow.Fanout.{
  max_fanout_depth, OrchestratorRuntime, push_child, by_parent, capped, child_visited, CreateThread,
  child_title, spawn_one, fan_out_parent, fan_out_each, fan_out, cycle, spawned,
}
use arbeiterfarm.Agents.Workflow.Lineage.{NoRepeat, Chain-bounded, ends, starts}
use arbeiterfarm.Agents.Workflow.Planned.{planned-resolved}
use arbeiterfarm.Agents.Workflow.Counting.{OncePlanned, group_at, apply_signals-OncePlanned}
use arbeiterfarm.Agents.Workflow.Moving.{group_at-priority}

abbrev step_of : Text → ℕ → WorkflowStep
step_of agent group = record {
  agent = agent;
  group = group;
  prompt = lit "look";
  can_repivot = true;
  timeout_secs = none;
  parallel = false;
}

-- Group 1 has run; intel is due in group 3, and the reporter in group 4.
abbrev remaining : Groups
remaining = (3, step_of (lit "intel") 3 ∷ []) ∷ (4, step_of (lit "reporter") 4 ∷ []) ∷ []

abbrev reporter_only : Groups
reporter_only = (4, step_of (lit "reporter") 4 ∷ []) ∷ []

-- Two steps of the reporter in one group.
abbrev reporter_twice : Groups
reporter_twice =
    (3, step_of (lit "intel") 3 ∷ [])
    ∷ (4, step_of (lit "reporter") 4 ∷ step_of (lit "reporter") 4 ∷ [])
    ∷ []

abbrev known_agents : List Text
known_agents = lit "intel" ∷ lit "reporter" ∷ lit "decompiler" ∷ []

abbrev signal_of : SignalKind → Text → AgentSignal
signal_of kind target = record {
  kind = kind;
  target_agent = target;
  reason = lit "why";
  source_agent = lit "surface";
}

hastened :
    (apply_signals (signal_of priority (lit "reporter") ∷ []) 1 known_agents remaining).0
    ≡ (
      3,
      step_of (lit "intel") 3
          ∷ record (step_of (lit "reporter") 3) { prompt = lit "look [PRIORITY: why]" }
          ∷ [],
    )
      ∷ []
unfolding apply_signals next_group apply_each apply_signal apply_priority find_later find_step
    remove_from push_step hastened_step text_eq
hastened = refl

apply_signals-IsPlan_example :
    IsPlan 2 (apply_signals (signal_of skip (lit "intel") ∷ []) 1 known_agents remaining).0
apply_signals-IsPlan_example =
    apply_signals-IsPlan (signal_of skip (lit "intel") ∷ []) 1 known_agents remaining (omega arith)
      (omega arith, refl, (omega arith, refl, tt))

abbrev contradicting : List AgentSignal
contradicting = signal_of skip (lit "decompiler") ∷ signal_of request (lit "decompiler") ∷ []

planned-resolved_example :
    already_planned
      (lit "decompiler")
      (apply_signals (resolve_conflicts contradicting) 1 known_agents remaining).0
    ≡ true
unfolding already_planned requested has_key text_eq
planned-resolved_example =
    planned-resolved contradicting 1 known_agents (lit "decompiler") remaining

-- Of two steps of the reporter one is left, in the group 3.
group_at-priority_example :
    group_at 3 (apply_priority 3 (signal_of priority (lit "reporter")) reporter_twice).0
    ≡ step_of (lit "intel") 3
      ∷ record (step_of (lit "reporter") 3) { prompt = lit "look [PRIORITY: why]" }
      ∷ []
group_at-priority_example =
    (group_at-priority 3 3 4 (signal_of priority (lit "reporter")) (step_of (lit "reporter") 4)
        reporter_twice (omega arith, refl, (omega arith, refl, tt))
        (unfold find_later find_step text_eq in refl)).2
      3

reporter_only-OncePlanned : OncePlanned reporter_only
reporter_only-OncePlanned a = ground arith

apply_signals-OncePlanned_example :
    OncePlanned (apply_signals contradicting 1 known_agents reporter_only).0
apply_signals-OncePlanned_example =
    apply_signals-OncePlanned contradicting 1 known_agents reporter_only (omega arith)
      (omega arith, refl, tt) reporter_only-OncePlanned

abbrev unpacked : ArtifactRow
unpacked = record {
  id = lit "2";
  sha256 = lit "bb";
  fan_out_from = none;
  filename = lit "unpacked.bin";
  repivot_from = some (lit "1");
}

repivot-planned_example :
    ((a : Text)
      → already_planned a
          (repivot (step_of (lit "surface") 1 ∷ []) (lit "surface" ∷ []) 1 unpacked remaining).0
        ≡ (already_planned a remaining
            || (mem_text a (lit "surface" ∷ [])
                && can_repivot_of (step_of (lit "surface") 1 ∷ []) a)))
    × AllSteps
        (IsRetargeted unpacked remaining)
        (repivot (step_of (lit "surface") 1 ∷ []) (lit "surface" ∷ []) 1 unpacked remaining).0
repivot-planned_example =
    repivot-planned (step_of (lit "surface") 1 ∷ []) (lit "surface" ∷ []) 1 unpacked remaining

-- A second replacement does not reach the steps that the first one has annotated.
annotated_once :
    annotate
      (record {
        id = lit "3";
        sha256 = lit "cc";
        fan_out_from = none;
        filename = lit "x";
        repivot_from = some (lit "2");
      })
      (annotate unpacked (step_of (lit "intel") 3))
    ≡ annotate unpacked (step_of (lit "intel") 3)
unfolding annotate contains_text starts_with retarget_suffix
annotated_once = refl

sixth_ignored :
    detect_repivot [] [] 1 (some (unpacked ∷ [])) (remaining, 5) ≡ ((remaining, 5), none)
unfolding detect_repivot
sixth_ignored = refl

abbrev root : OrchestratorRuntime
root = record { fanout_depth = 0; visited_sha256 = [] }

abbrev extracted : ArtifactRow
extracted = record {
  id = lit "4";
  sha256 = lit "aa";
  filename = lit "a.zip";
  repivot_from = none;
  fan_out_from = some (lit "1");
}

-- The archive holds itself: its workflow does not start another for it.
abbrev below : OrchestratorRuntime
below = record { fanout_depth = 1; visited_sha256 = lit "aa" ∷ [] }

abbrev always : CreateThread
always title = inr title

one_child :
    fan_out root (lit "w") always (extracted ∷ [])
    ≡ spawned extracted (lit "w-fanout: a.zip") below ∷ []
unfolding fan_out fan_out_each fan_out_parent by_parent push_child capped spawn_one child_visited
    child_title
one_child = refl

bomb_stopped : fan_out below (lit "w") always (extracted ∷ []) ≡ cycle (lit "a.zip") ∷ []
unfolding fan_out fan_out_each fan_out_parent by_parent push_child capped spawn_one text_eq
bomb_stopped = refl

Chain-bounded_example :
    NoRepeat [] (extracted ∷ []) × (length (extracted ∷ []) + 0 ≤ max_fanout_depth)
Chain-bounded_example = Chain-bounded root (extracted ∷ []) (omega arith) (
    starts root below (lit "w") always (extracted ∷ []) 0 extracted (lit "w-fanout: a.zip") []
      (ap (λ events. get_elem? events 0) one_child) (ends below))

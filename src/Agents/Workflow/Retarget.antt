-- ===== src/Agents/Workflow/Retarget.antt =====
-- The part of `execute_workflow` in af/crates/af-agents/src/orchestrator.rs that looks for replacement
-- artifacts after a group: agents that have completed run again on the replacement.
use arbeiterfarm.Base.{
  ℕ, ◌+◌, Bool, true, false, not, Option, none, some, List, [], ◌∷◌, ◌++◌, map, ltb, if◌then◌else◌,
}
use arbeiterfarm.Base.Text.{Text, lit, contains_text}
use arbeiterfarm.Agents.Workflow.{
  WorkflowStep, Groups, push_step, next_group, already_planned, find_step,
}

abbrev pub max_repivots : ℕ
max_repivots = 5

-- What the code reads of an `ArtifactRow`; `repivot_from` and `fan_out_from` are texts in the metadata.
pub record ArtifactRow : Type 0 where
  pub id : Text
  pub sha256 : Text
  pub filename : Text
  pub repivot_from : Option Text
  pub fan_out_from : Option Text

-- `OrchestratorEvent::RepivotApplied`
pub record RepivotApplied : Type 0 where
  pub original_artifact_id : Text
  pub new_artifact_id : Text
  pub new_filename : Text
  pub requeued_agents : List Text

abbrev pub original_id : ArtifactRow → Text
original_id artifact = elim artifact.repivot_from [ none ↦ [] | some id ↦ id ]

-- `[RETARGET: analyze new artifact ..]`, with the space before it.
unfoldable pub retarget_suffix : ArtifactRow → Text
retarget_suffix artifact =
    lit " [RETARGET: analyze new artifact "
    ++ (artifact.id
        ++ (lit " ("
            ++ (artifact.filename
                ++ (lit ") instead of original " ++ (original_id artifact ++ lit "]")))))

unfoldable pub can_repivot_of : List WorkflowStep → Text → Bool
can_repivot_of steps agent = elim (find_step agent steps) [ none ↦ true | some s ↦ s.can_repivot ]

-- `new_step`
unfoldable pub requeued_step : List WorkflowStep → ArtifactRow → ℕ → Text → WorkflowStep
requeued_step steps artifact next agent_name =
    let original = find_step agent_name steps in
    record {
      agent = agent_name;
      group = next;
      prompt = elim original [ none ↦ [] | some s ↦ s.prompt ] ++ retarget_suffix artifact;
      can_repivot = false;
      timeout_secs = elim original [ none ↦ none | some s ↦ s.timeout_secs ];
      parallel = elim original [ none ↦ false | some s ↦ s.parallel ];
    }

-- One turn of the loop over `completed_agents`, on the groups and the names that are requeued.
unfoldable pub requeue_one :
    List WorkflowStep → ArtifactRow → ℕ → Text → Groups × List Text → Groups × List Text
requeue_one steps artifact next agent_name (groups, requeued) =
    if already_planned agent_name groups
    then (groups, requeued)
    else if not (can_repivot_of steps agent_name)
    then (groups, requeued)
    else (
      push_step next (requeued_step steps artifact next agent_name) groups,
      requeued ++ agent_name ∷ [],
    )

unfoldable pub requeue_all :
    List WorkflowStep → ArtifactRow → ℕ → List Text → Groups × List Text → Groups × List Text
requeue_all steps artifact next [] state = state
requeue_all steps artifact next (agent_name ∷ rest) state =
    requeue_all steps artifact next rest (requeue_one steps artifact next agent_name state)

abbrev pub retarget_mark : Text
retarget_mark = lit "[RETARGET:"

-- A step that is annotated already stays as it is.
unfoldable pub annotate : ArtifactRow → WorkflowStep → WorkflowStep
annotate artifact step =
    if contains_text step.prompt retarget_mark
    then step
    else record step { prompt = step.prompt ++ retarget_suffix artifact }

unfoldable pub annotate_all : ArtifactRow → Groups → Groups
annotate_all artifact [] = []
annotate_all artifact ((g, steps) ∷ gs) =
    (g, map (annotate artifact) steps) ∷ annotate_all artifact gs

unfoldable pub repivot :
    List WorkflowStep → List Text → ℕ → ArtifactRow → Groups → Groups × RepivotApplied
repivot steps completed_agents current artifact groups =
    let (queued, requeued) =
      requeue_all steps artifact (next_group current groups) completed_agents (groups, []) in
    (
      annotate_all artifact queued,
      record {
        original_artifact_id = original_id artifact;
        new_artifact_id = artifact.id;
        new_filename = artifact.filename;
        requeued_agents = requeued;
      },
    )

-- The guard on the count, the query, which is none where it fails, and the loop, which ends after
-- the first artifact: the groups, the count and the event.
unfoldable pub detect_repivot :
    List WorkflowStep
    → List Text
    → ℕ
    → Option (List ArtifactRow)
    → Groups × ℕ
    → (Groups × ℕ) × Option RepivotApplied
detect_repivot steps completed_agents current found (groups, repivot_count) =
    if not (ltb repivot_count max_repivots) then ((groups, repivot_count), none) else elim found [
      | none ↦ ((groups, repivot_count), none)
      | some [] ↦ ((groups, repivot_count), none)
      | some (artifact ∷ rest) ↦
          let (changed, event) = repivot steps completed_agents current artifact groups in
          ((changed, repivot_count + 1), some event)
    ]

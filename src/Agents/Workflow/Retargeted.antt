-- ===== src/Agents/Workflow/Retargeted.antt =====
-- The plan after a replacement artifact.
use arbeiterfarm.Base.{
  ℕ, ◌≡◌, refl, ap, ◌∙◌, inl, inr, ◌&&◌, ◌||◌, List, [], ◌∷◌, ◌++◌, map, arith, Bool-cases,
  if_of_true, if_of_false, any,
}
use arbeiterfarm.Base.Text.{Text, text_eq, eq_of_text_eq, contains_text, mem_text}
use arbeiterfarm.Agents.Workflow.{WorkflowStep, Groups, next_group, has_agent, already_planned}
use arbeiterfarm.Agents.Workflow.Planned.{planned-push_step}
use arbeiterfarm.Agents.Workflow.Prompts.{AllSteps, IsRetargeted, repivot-IsRetargeted}
use arbeiterfarm.Agents.Workflow.Retarget.{
  ArtifactRow, retarget_suffix, can_repivot_of, requeue_one, requeue_all, retarget_mark, annotate,
  annotate_all, repivot, requeued_step,
}

annotate-agent :
    (artifact : ArtifactRow) (a : Text) (s : WorkflowStep)
    → has_agent a (annotate artifact s) ≡ has_agent a s
unfolding annotate
annotate-agent artifact a s = elim (Bool-cases (contains_text s.prompt retarget_mark)) [
  | inl e ↦ ap (has_agent a) (
      if_of_true (contains_text s.prompt retarget_mark) s
        (record s { prompt = s.prompt ++ retarget_suffix artifact }) e)
  | inr e ↦ ap (has_agent a) (
      if_of_false (contains_text s.prompt retarget_mark) s
        (record s { prompt = s.prompt ++ retarget_suffix artifact }) e)
]

any-annotated :
    (artifact : ArtifactRow) (a : Text) (steps : List WorkflowStep)
    → any (has_agent a) (map (annotate artifact) steps) ≡ any (has_agent a) steps
any-annotated artifact a [] = refl
any-annotated artifact a (s ∷ steps) =
    ground (arith, annotate-agent artifact a s, any-annotated artifact a steps)

planned-annotate_all :
    (artifact : ArtifactRow) (a : Text) (gs : Groups)
    → already_planned a (annotate_all artifact gs) ≡ already_planned a gs
unfolding already_planned annotate_all
planned-annotate_all artifact a [] = refl
planned-annotate_all artifact a ((g, steps) ∷ gs) =
    ground (arith, any-annotated artifact a steps, planned-annotate_all artifact a gs)

-- One agent requeued: it is planned if it may run again.
planned-requeue_one :
    (steps : List WorkflowStep) (artifact : ArtifactRow) (next : ℕ) (x a : Text)
    → (groups : Groups) (requeued : List Text)
    → already_planned a (requeue_one steps artifact next x (groups, requeued)).0
      ≡ (already_planned a groups || (text_eq x a && can_repivot_of steps a))
unfolding requeue_one
planned-requeue_one steps artifact next x a groups requeued =
    let new = requeued_step steps artifact next x in
    let pushed = planned-push_step a next new groups in
    let of : has_agent a new ≡ text_eq x a = unfold requeued_step in refl in
    elim (Bool-cases (text_eq x a)) [
      | inl e ↦
          let same = eq_of_text_eq x a e in
          ground (
            arith,
            e,
            of,
            pushed,
            ap (λ t. already_planned t groups) same,
            ap (can_repivot_of steps) same,
          )
      | inr e ↦ ground (arith, e, of, pushed)
    ]

planned-requeue_all :
    (steps : List WorkflowStep) (artifact : ArtifactRow) (next : ℕ) (completed : List Text)
    → (a : Text) (state : Groups × List Text)
    → already_planned a (requeue_all steps artifact next completed state).0
      ≡ (already_planned a state.0 || (mem_text a completed && can_repivot_of steps a))
unfolding requeue_all
planned-requeue_all steps artifact next [] a state = ground arith
planned-requeue_all steps artifact next (x ∷ rest) a (groups, requeued) = ground (
  arith,
  planned-requeue_all steps artifact next rest a
      (requeue_one steps artifact next x (groups, requeued)),
  planned-requeue_one steps artifact next x a groups requeued,
)

-- After a replacement artifact, exactly the agents that were planned before and the completed ones
-- whose step may run again are planned. The prompt of every step ends by naming the replacement and
-- the artifact that it replaces, unless it was in the plan before with a mark `[RETARGET:` in it.
pub repivot-planned :
    (steps : List WorkflowStep) (completed_agents : List Text) (current : ℕ)
    → (artifact : ArtifactRow) (groups : Groups)
    → ((a : Text)
        → already_planned a (repivot steps completed_agents current artifact groups).0
          ≡ (already_planned a groups || (mem_text a completed_agents && can_repivot_of steps a)))
      × AllSteps
          (IsRetargeted artifact groups)
          (repivot steps completed_agents current artifact groups).0
unfolding repivot
repivot-planned steps completed_agents current artifact groups =
    let queued =
      requeue_all steps artifact (next_group current groups) completed_agents (groups, []) in
    (
      λ a.
          planned-annotate_all artifact a queued.0
          ∙ planned-requeue_all steps artifact (next_group current groups) completed_agents a
              (groups, []),
      repivot-IsRetargeted steps completed_agents current artifact groups,
    )

-- ===== src/Agents/Workflow/Fanout.antt =====
-- The part of `execute_workflow` in af/crates/af-agents/src/orchestrator.rs that starts a workflow for
-- each artifact that a group has extracted. The order of a `HashMap` is not fixed; here it is that of
-- the first insertions. Creating a thread is a parameter: its error, or the thread's id.
use arbeiterfarm.Base.{
  ℕ, ◌+◌, ◌⊎◌, inl, inr, none, some, List, [], ◌∷◌, ◌++◌, map, ltb, if◌then◌else◌, length, take,
}
use arbeiterfarm.Base.Text.{Text, lit, text_eq, mem_text}
use arbeiterfarm.Agents.Workflow.Retarget.{ArtifactRow}

abbrev pub max_fanout_depth : ℕ
max_fanout_depth = 3

abbrev pub max_fanout_children : ℕ
max_fanout_children = 50

-- What the fan-out reads of an `OrchestratorRuntime`.
pub record OrchestratorRuntime : Type 0 where
  pub fanout_depth : ℕ
  pub visited_sha256 : List Text

abbrev pub parent_id : ArtifactRow → Text
parent_id artifact = elim artifact.fan_out_from [ none ↦ [] | some id ↦ id ]

-- `by_parent.entry(parent_id).or_default().push(artifact)`
unfoldable pub push_child :
    Text → ArtifactRow → List (Text × List ArtifactRow) → List (Text × List ArtifactRow)
push_child parent artifact [] = (parent, artifact ∷ []) ∷ []
push_child parent artifact ((p, children) ∷ rest) =
    if text_eq p parent
    then (p, children ++ artifact ∷ []) ∷ rest
    else (p, children) ∷ push_child parent artifact rest

unfoldable pub by_parent :
    List ArtifactRow → List (Text × List ArtifactRow) → List (Text × List ArtifactRow)
by_parent [] groups = groups
by_parent (artifact ∷ rest) groups =
    by_parent rest (push_child (parent_id artifact) artifact groups)

unfoldable pub capped : List ArtifactRow → List ArtifactRow
capped children =
    if ltb max_fanout_children (length children)
    then take max_fanout_children children
    else children

unfoldable pub child_visited : OrchestratorRuntime → List ArtifactRow → List Text
child_visited orch children = map (λ c. c.sha256) children ++ orch.visited_sha256

-- What happens to a child, in the order of the loop; the texts of the errors are what they name.
pub data FanoutEvent : Type 0 where
  too_many : Text → ℕ → FanoutEvent
  cycle : Text → FanoutEvent
  no_thread : Text → Text → FanoutEvent
  spawned : ArtifactRow → Text → OrchestratorRuntime → FanoutEvent

-- The thread's id where it is created, for a title.
abbrev pub CreateThread : Type 0
CreateThread = Text → Text ⊎ Text

unfoldable pub child_title : Text → ArtifactRow → Text
child_title workflow_name child = workflow_name ++ (lit "-fanout: " ++ child.filename)

unfoldable pub child_initial_msg : Text → Text → ArtifactRow → Text
child_initial_msg thread_id parent child =
    lit "[FAN-OUT] This thread was created from parent thread "
    ++ (thread_id
        ++ (lit " for child artifact "
            ++ (child.id
                ++ (lit " ("
                    ++ (child.filename
                        ++ (lit ", sha256:"
                            ++ (child.sha256
                                ++ (lit "). Parent artifact: "
                                    ++ (parent
                                        ++ (lit ".\n\nAnalyze artifact "
                                            ++ (child.id
                                                ++ (lit " ("
                                                    ++ (child.filename ++ lit ")")))))))))))))

unfoldable pub spawn_one :
    OrchestratorRuntime → Text → CreateThread → List ArtifactRow → ArtifactRow → FanoutEvent
spawn_one orch workflow_name create children child =
    if mem_text child.sha256 orch.visited_sha256
    then cycle child.filename
    else elim (create (child_title workflow_name child)) [
      | inl e ↦ no_thread child.filename e
      | inr thread ↦ spawned child thread (record {
        fanout_depth = orch.fanout_depth + 1;
        visited_sha256 = child_visited orch children;
      })
    ]

unfoldable pub fan_out_parent :
    OrchestratorRuntime → Text → CreateThread → Text × List ArtifactRow → List FanoutEvent
fan_out_parent orch workflow_name create (parent, children) =
    (if ltb max_fanout_children (length children)
      then too_many parent (length children) ∷ []
      else [])
    ++ map (spawn_one orch workflow_name create (capped children)) (capped children)

unfoldable pub fan_out_each :
    OrchestratorRuntime → Text → CreateThread → List (Text × List ArtifactRow) → List FanoutEvent
fan_out_each orch workflow_name create [] = []
fan_out_each orch workflow_name create (group ∷ rest) =
    fan_out_parent orch workflow_name create group ++ fan_out_each orch workflow_name create rest

unfoldable pub fan_out :
    OrchestratorRuntime → Text → CreateThread → List ArtifactRow → List FanoutEvent
fan_out orch workflow_name create artifacts =
    if ltb orch.fanout_depth max_fanout_depth
    then fan_out_each orch workflow_name create (by_parent artifacts [])
    else []

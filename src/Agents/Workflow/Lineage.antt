-- ===== src/Agents/Workflow/Lineage.antt =====
-- The chains of workflows that fan-outs start one in the other.
use arbeiterfarm.Base.{ℕ, ◌+◌, ◌≤◌, ◌≡◌, false, some, List, [], ◌∷◌, arith, length, get_elem?}
use arbeiterfarm.Base.Text.{Text, mem_text}
use arbeiterfarm.Agents.Workflow.Retarget.{ArtifactRow}
use arbeiterfarm.Agents.Workflow.Fanout.{
  max_fanout_depth, OrchestratorRuntime, CreateThread, fan_out, spawned,
}
use arbeiterfarm.Agents.Workflow.Spawned.{IsSound, All-get, fan_out-IsSound}

-- A chain of fan-outs: each child is started by the fan-out of the workflow before it.
pub data Chain : OrchestratorRuntime → List ArtifactRow → Type 0 where
  ends : (orch : OrchestratorRuntime) → Chain orch []
  starts :
      (orch next : OrchestratorRuntime) (workflow_name : Text) (create : CreateThread)
      → (artifacts : List ArtifactRow) (i : ℕ) (child : ArtifactRow) (thread : Text)
      → (later : List ArtifactRow)
      → get_elem? (fan_out orch workflow_name create artifacts) i ≡ some (spawned child thread next)
      → Chain next later
      → Chain orch (child ∷ later)

-- No artifact of a chain has a hash that was visited, or that an earlier one of the chain has.
abbrev pub NoRepeat : List Text → List ArtifactRow → Type 0
NoRepeat visited [] = Unit
NoRepeat visited (child ∷ later) =
    (mem_text child.sha256 visited ≡ false) × NoRepeat (child.sha256 ∷ visited) later

NoRepeat-weaken :
    (v w : List Text) (xs : List ArtifactRow)
    → ((s : Text) → mem_text s v ≡ false → mem_text s w ≡ false)
    → NoRepeat v xs
    → NoRepeat w xs
NoRepeat-weaken v w [] sub h = tt
NoRepeat-weaken v w (x ∷ xs) sub h = (
  sub x.sha256 h.0,
  NoRepeat-weaken (x.sha256 ∷ v) (x.sha256 ∷ w) xs
      (λ s e. let old : mem_text s v ≡ false = ground (arith, e) in ground (arith, e, sub s old))
      h.1,
)

-- A chain of fan-outs never comes to an artifact whose hash one of its workflows has visited or that
-- stood in the chain before, and it ends: a workflow at depth `d`, of at most 3, has at most `3 - d`
-- fan-outs below it.
pub Chain-bounded :
    (orch : OrchestratorRuntime) (artifacts : List ArtifactRow)
    → orch.fanout_depth ≤ max_fanout_depth
    → Chain orch artifacts
    → NoRepeat orch.visited_sha256 artifacts
      × (length artifacts + orch.fanout_depth ≤ max_fanout_depth)
Chain-bounded orch artifacts le (ends _) = (tt, omega (arith, le))
Chain-bounded orch artifacts le (starts _ next name create found i child thread later at chain) =
    let (shallow, deeper, fresh, covers) =
      All-get (IsSound orch) (fan_out orch name create found) i (spawned child thread next)
        (fan_out-IsSound orch name create found) at in
    let (distinct, bounded) = Chain-bounded next later (omega (arith, shallow, deeper)) chain in
    (
      (
        fresh,
        NoRepeat-weaken next.visited_sha256 (child.sha256 ∷ orch.visited_sha256) later
            (λ s e. ground (arith, covers s e)) distinct,
      ),
      omega (arith, bounded, deeper),
    )

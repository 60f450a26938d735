-- ===== src/Agents/Workflow/Spawned.antt =====
-- The workflows that one fan-out starts.
use arbeiterfarm.Base.{
  ℕ, zero, suc, ◌+◌, ◌<◌, ◌≡◌, refl, sym, ap, subst, ◌⊎◌, inl, inr, Bool, true, false, some, List,
  [], ◌∷◌, map, arith, ltb, if◌then◌else◌, Bool-cases, if_of_true, if_of_false, length, get_elem?,
  All, All-append,
}
use arbeiterfarm.Base.Text.{Text, text_eq, text_eq_refl, eq_of_text_eq, mem_text, mem_text-append}
use arbeiterfarm.Agents.Workflow.Retarget.{ArtifactRow}
use arbeiterfarm.Agents.Workflow.Fanout.{
  max_fanout_depth, max_fanout_children, OrchestratorRuntime, by_parent, capped, child_visited,
  FanoutEvent, CreateThread, child_title, spawn_one, fan_out_parent, fan_out_each, fan_out,
  too_many, cycle, no_thread, spawned,
}

-- What holds of a workflow that is started.
abbrev pub IsSound : OrchestratorRuntime → FanoutEvent → Type 0
IsSound orch (spawned child thread next) =
    (orch.fanout_depth < max_fanout_depth)
    × (next.fanout_depth ≡ orch.fanout_depth + 1)
    × (mem_text child.sha256 orch.visited_sha256 ≡ false)
    × ((s : Text)
        → mem_text s next.visited_sha256 ≡ false
        → (mem_text s orch.visited_sha256 ≡ false) × (text_eq child.sha256 s ≡ false))
IsSound orch (too_many parent n) = Unit
IsSound orch (cycle filename) = Unit
IsSound orch (no_thread filename e) = Unit

All-map {ℓ κ μ} :
    {A : Type ℓ} {B : Type κ} (P : B → Type μ) (f : A → B) (xs : List A)
    → All (λ x. P (f x)) xs
    → All P (map f xs)
All-map P f [] h = tt
All-map P f (x ∷ xs) h = (h.0, All-map P f xs h.1)

All-index {ℓ κ} :
    {A : Type ℓ} (P : A → Type κ) (xs : List A)
    → ((i : ℕ) (x : A) → get_elem? xs i ≡ some x → P x)
    → All P xs
All-index P [] h = tt
All-index P (x ∷ xs) h = (h 0 x refl, All-index P xs (λ i y e. h (suc i) y e))

pub All-get {ℓ κ} :
    {A : Type ℓ} (P : A → Type κ) (xs : List A) (i : ℕ) (x : A)
    → All P xs
    → get_elem? xs i ≡ some x
    → P x
All-get P [] i x h e = absurd (ground (arith, e))
All-get P (y ∷ xs) zero x h e = subst P (ground (arith, e)) h.0
All-get P (y ∷ xs) (suc i) x h e = All-get P xs i x h.1 e

-- The hash of a child is among those of the children.
hash_listed :
    (children : List ArtifactRow) (i : ℕ) (c : ArtifactRow)
    → get_elem? children i ≡ some c
    → mem_text c.sha256 (map (λ d. d.sha256) children) ≡ true
hash_listed [] i c e = absurd (ground (arith, e))
hash_listed (d ∷ children) zero c e =
    let same : d ≡ c = ground (arith, e) in
    ground (arith, ap (λ x. text_eq x.sha256 c.sha256) same, text_eq_refl c.sha256)
hash_listed (d ∷ children) (suc i) c e = ground (arith, hash_listed children i c e)

-- The hashes of the children of a fan-out cover those of the chain and the child's own.
child_visited-covers :
    (orch : OrchestratorRuntime) (children : List ArtifactRow) (i : ℕ) (c : ArtifactRow) (s : Text)
    → get_elem? children i ≡ some c
    → mem_text s (child_visited orch children) ≡ false
    → (mem_text s orch.visited_sha256 ≡ false) × (text_eq c.sha256 s ≡ false)
unfolding child_visited
child_visited-covers orch children i c s e h =
    let parts = mem_text-append s (map (λ d. d.sha256) children) orch.visited_sha256 in
    let old : mem_text s orch.visited_sha256 ≡ false = ground (arith, parts, h) in
    elim (Bool-cases (text_eq c.sha256 s)) [
      | inl same ↦
          let listed =
            ap (λ t. mem_text t (map (λ d. d.sha256) children)) (eq_of_text_eq c.sha256 s same) in
          absurd (ground (arith, parts, h, listed, hash_listed children i c e))
      | inr other ↦ (old, other)
    ]

created-IsSound :
    (orch : OrchestratorRuntime) (children : List ArtifactRow) (i : ℕ) (c : ArtifactRow)
    → (r : Text ⊎ Text) → orch.fanout_depth < max_fanout_depth
    → get_elem? children i ≡ some c
    → mem_text c.sha256 orch.visited_sha256 ≡ false
    → IsSound orch (elim r [
      | inl e ↦ no_thread c.filename e
      | inr thread ↦ spawned c thread (record {
        fanout_depth = orch.fanout_depth + 1;
        visited_sha256 = child_visited orch children;
      })
    ])
created-IsSound orch children i c (inl e) shallow at fresh = tt
created-IsSound orch children i c (inr thread) shallow at fresh =
    (shallow, refl, fresh, λ s h. child_visited-covers orch children i c s at h)

spawn_one-IsSound :
    (orch : OrchestratorRuntime) (workflow_name : Text) (create : CreateThread)
    → (children : List ArtifactRow) (i : ℕ) (c : ArtifactRow) → orch.fanout_depth < max_fanout_depth
    → get_elem? children i ≡ some c
    → IsSound orch (spawn_one orch workflow_name create children c)
unfolding spawn_one
spawn_one-IsSound orch workflow_name create children i c shallow at =
    elim (Bool-cases (mem_text c.sha256 orch.visited_sha256)) [
      | inl seen ↦
          subst (IsSound orch)
            (sym (if_of_true (mem_text c.sha256 orch.visited_sha256) (cycle c.filename) _ seen)) tt
      | inr fresh ↦
          subst (IsSound orch)
            (sym (if_of_false (mem_text c.sha256 orch.visited_sha256) (cycle c.filename) _ fresh))
            (created-IsSound orch children i c (create (child_title workflow_name c)) shallow at
              fresh)
    ]

fan_out_each-IsSound :
    (orch : OrchestratorRuntime) (workflow_name : Text) (create : CreateThread)
    → (groups : List (Text × List ArtifactRow)) → orch.fanout_depth < max_fanout_depth
    → All (IsSound orch) (fan_out_each orch workflow_name create groups)
unfolding fan_out_each
fan_out_each-IsSound orch workflow_name create [] shallow = tt
fan_out_each-IsSound orch workflow_name create ((parent, children) ∷ rest) shallow =
    All-append (IsSound orch) (fan_out_parent orch workflow_name create (parent, children))
      (fan_out_each orch workflow_name create rest)
      (unfold fan_out_parent in
        All-append (IsSound orch)
          (if ltb max_fanout_children (length children)
            then too_many parent (length children) ∷ []
            else [])
          _ (warned (ltb max_fanout_children (length children)))
          (All-map (IsSound orch) (spawn_one orch workflow_name create (capped children))
            (capped children)
            (All-index (λ c. IsSound orch (spawn_one orch workflow_name create (capped children) c))
              (capped children)
              (λ i c at.
                spawn_one-IsSound orch workflow_name create (capped children) i c shallow at))))
      (fan_out_each-IsSound orch workflow_name create rest shallow)
  where
    warned :
        (b : Bool) → All (IsSound orch) (if b then too_many parent (length children) ∷ [] else [])
    warned true = (tt, tt)
    warned false = tt

pub fan_out-IsSound :
    (orch : OrchestratorRuntime) (workflow_name : Text) (create : CreateThread)
    → (artifacts : List ArtifactRow)
    → All (IsSound orch) (fan_out orch workflow_name create artifacts)
unfolding fan_out
fan_out-IsSound orch workflow_name create artifacts =
    elim (Bool-cases (ltb orch.fanout_depth max_fanout_depth)) [
      | inl e ↦
          subst (All (IsSound orch))
            (sym (
              if_of_true (ltb orch.fanout_depth max_fanout_depth)
                (fan_out_each orch workflow_name create (by_parent artifacts [])) [] e))
            (fan_out_each-IsSound orch workflow_name create (by_parent artifacts [])
              (ground (arith, e)))
      | inr e ↦
          subst (All (IsSound orch))
            (sym (
              if_of_false (ltb orch.fanout_depth max_fanout_depth)
                (fan_out_each orch workflow_name create (by_parent artifacts [])) [] e))
            tt
    ]

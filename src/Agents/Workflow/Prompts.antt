-- ===== src/Agents/Workflow/Prompts.antt =====
-- The prompts of the plan after a replacement artifact.
use arbeiterfarm.Base.{
  ℕ, ◌≡◌, refl, sym, subst, ◌⊎◌, inl, inr, Bool, true, false, ◌&&◌, not, none, some, List, [], ◌∷◌,
  ◌++◌, map, arith, ltb, ◌==◌, if◌then◌else◌, Bool-cases, if_of_true, if_of_false, any, All,
  All-append, All-weaken,
}
use arbeiterfarm.Base.Text.{Text, lit, text_eq, text_eq_refl, contains_text}
use arbeiterfarm.Agents.Workflow.{WorkflowStep, Groups, push_step, next_group, already_planned}
use arbeiterfarm.Agents.Workflow.Retarget.{
  ArtifactRow, retarget_suffix, can_repivot_of, requeue_one, requeue_all, retarget_mark, annotate,
  annotate_all, repivot, requeued_step,
}

-- A prompt that ends by naming the replacement and the artifact that it replaces.
abbrev pub Names : ArtifactRow → Text → Type 0
Names artifact prompt =
    (before : Text) × (prompt
      ≡ before
        ++ (lit " [RETARGET: analyze new artifact "
            ++ (artifact.id
                ++ (lit " ("
                    ++ (artifact.filename
                        ++ (lit ") instead of original "
                            ++ (elim artifact.repivot_from [ none ↦ [] | some original ↦ original ]
                                ++ lit "]")))))))

-- Some step of the plan has this prompt.
abbrev pub has_prompt : Groups → Text → Bool
has_prompt gs prompt = any (λ g. any (λ s. text_eq s.prompt prompt) g.1) gs

-- Every step of a plan.
abbrev pub AllSteps {ℓ} : (WorkflowStep → Type ℓ) → Groups → Type ℓ
AllSteps P = All (λ g. All P g.1)

-- A step that names the replacement, or has a prompt of the plan before.
abbrev IsQueued : ArtifactRow → Groups → WorkflowStep → Type 0
IsQueued artifact old s = Names artifact s.prompt ⊎ (has_prompt old s.prompt ≡ true)

-- A step that names the replacement, or has a prompt of the plan before with an annotation in it.
abbrev pub IsRetargeted : ArtifactRow → Groups → WorkflowStep → Type 0
IsRetargeted artifact old s =
    Names artifact s.prompt
    ⊎ ((contains_text s.prompt (lit "[RETARGET:") && has_prompt old s.prompt) ≡ true)

if-keep {ℓ κ} :
    {A : Type ℓ} (P : A → Type κ) (b : Bool) (x y : A) → P x → P y → P (if b then x else y)
if-keep P true x y p q = p
if-keep P false x y p q = q

suffix-Names :
    (artifact : ArtifactRow) (prompt : Text) → Names artifact (prompt ++ retarget_suffix artifact)
unfolding retarget_suffix
suffix-Names artifact prompt = (prompt, refl)

annotate-IsRetargeted :
    (artifact : ArtifactRow) (old : Groups) (s : WorkflowStep)
    → IsQueued artifact old s
    → IsRetargeted artifact old (annotate artifact s)
unfolding annotate
annotate-IsRetargeted artifact old s h =
    let named = record s { prompt = s.prompt ++ retarget_suffix artifact } in
    elim (Bool-cases (contains_text s.prompt retarget_mark)) [
      | inl e ↦
          subst (IsRetargeted artifact old) (sym (if_of_true _ s named e))
            (elim h [ inl n ↦ inl n | inr k ↦ inr (ground (arith, e, k)) ])
      | inr e ↦
          subst (IsRetargeted artifact old) (sym (if_of_false _ s named e))
            (inl (suffix-Names artifact s.prompt))
    ]

All-annotated :
    (artifact : ArtifactRow) (old : Groups) (steps : List WorkflowStep)
    → All (IsQueued artifact old) steps
    → All (IsRetargeted artifact old) (map (annotate artifact) steps)
All-annotated artifact old [] h = tt
All-annotated artifact old (s ∷ steps) h =
    (annotate-IsRetargeted artifact old s h.0, All-annotated artifact old steps h.1)

annotate_all-IsRetargeted :
    (artifact : ArtifactRow) (old gs : Groups)
    → AllSteps (IsQueued artifact old) gs
    → AllSteps (IsRetargeted artifact old) (annotate_all artifact gs)
unfolding annotate_all
annotate_all-IsRetargeted artifact old [] h = tt
annotate_all-IsRetargeted artifact old ((g, steps) ∷ gs) h =
    (All-annotated artifact old steps h.0, annotate_all-IsRetargeted artifact old gs h.1)

AllSteps-push_step {ℓ} :
    (P : WorkflowStep → Type ℓ) (n : ℕ) (step : WorkflowStep) (gs : Groups)
    → P step
    → AllSteps P gs
    → AllSteps P (push_step n step gs)
unfolding push_step
AllSteps-push_step P n step [] p h = ((p, tt), tt)
AllSteps-push_step P n step ((g, steps) ∷ gs) p h =
    if-keep (AllSteps P) (ltb n g) _ _ ((p, tt), h)
      (if-keep (AllSteps P) (n == g) _ _ (All-append P steps (step ∷ []) h.0 (p, tt), h.1)
        (h.0, AllSteps-push_step P n step gs p h.1))

requeued_step-Names :
    (steps : List WorkflowStep) (artifact : ArtifactRow) (next : ℕ) (x : Text)
    → Names artifact (requeued_step steps artifact next x).prompt
unfolding requeued_step
requeued_step-Names steps artifact next x = suffix-Names artifact _

requeue_one-IsQueued :
    (steps : List WorkflowStep) (artifact : ArtifactRow) (next : ℕ) (x : Text) (old groups : Groups)
    (requeued : List Text)
    → AllSteps (IsQueued artifact old) groups
    → AllSteps (IsQueued artifact old) (requeue_one steps artifact next x (groups, requeued)).0
unfolding requeue_one
requeue_one-IsQueued steps artifact next x old groups requeued h =
    let P = λ (state : Groups × List Text). AllSteps (IsQueued artifact old) state.0 in
    if-keep P (already_planned x groups) _ _ h (
      if-keep P (not (can_repivot_of steps x)) _ _ h (
        AllSteps-push_step (IsQueued artifact old) next (requeued_step steps artifact next x) groups
          (inl (requeued_step-Names steps artifact next x)) h))

requeue_all-IsQueued :
    (steps : List WorkflowStep) (artifact : ArtifactRow) (next : ℕ) (completed : List Text)
    (old : Groups) (state : Groups × List Text)
    → AllSteps (IsQueued artifact old) state.0
    → AllSteps (IsQueued artifact old) (requeue_all steps artifact next completed state).0
unfolding requeue_all
requeue_all-IsQueued steps artifact next [] old state h = h
requeue_all-IsQueued steps artifact next (x ∷ rest) old (groups, requeued) h =
    requeue_all-IsQueued steps artifact next rest old
      (requeue_one steps artifact next x (groups, requeued))
      (requeue_one-IsQueued steps artifact next x old groups requeued h)

-- The steps of a plan have its prompts.
All-prompts :
    (steps : List WorkflowStep) (old : Groups)
    → ((p : Text) → any (λ s. text_eq s.prompt p) steps ≡ true → has_prompt old p ≡ true)
    → All (λ s. has_prompt old s.prompt ≡ true) steps
All-prompts [] old h = tt
All-prompts (s ∷ steps) old h = (
  h s.prompt (ground (arith, text_eq_refl s.prompt)),
  All-prompts steps old (λ p e. h p (ground (arith, e))),
)

AllSteps-prompts :
    (gs old : Groups)
    → ((p : Text) → has_prompt gs p ≡ true → has_prompt old p ≡ true)
    → AllSteps (λ s. has_prompt old s.prompt ≡ true) gs
AllSteps-prompts [] old h = tt
AllSteps-prompts ((g, steps) ∷ gs) old h = (
  All-prompts steps old (λ p e. h p (ground (arith, e))),
  AllSteps-prompts gs old (λ p e. h p (ground (arith, e))),
)

AllSteps-weaken {ℓ κ} :
    (P : WorkflowStep → Type ℓ) (Q : WorkflowStep → Type κ) (gs : Groups)
    → ((s : WorkflowStep) → P s → Q s)
    → AllSteps P gs
    → AllSteps Q gs
AllSteps-weaken P Q [] f h = tt
AllSteps-weaken P Q ((g, steps) ∷ gs) f h =
    (All-weaken P Q steps f h.0, AllSteps-weaken P Q gs f h.1)

pub repivot-IsRetargeted :
    (steps : List WorkflowStep) (completed_agents : List Text) (current : ℕ)
    → (artifact : ArtifactRow) (groups : Groups)
    → AllSteps
        (IsRetargeted artifact groups)
        (repivot steps completed_agents current artifact groups).0
unfolding repivot
repivot-IsRetargeted steps completed_agents current artifact groups =
    annotate_all-IsRetargeted artifact groups _ (
      requeue_all-IsQueued steps artifact (next_group current groups) completed_agents groups
        (groups, [])
        (AllSteps-weaken (λ s. has_prompt groups s.prompt ≡ true) (IsQueued artifact groups) groups
          (λ s k. inr k) (AllSteps-prompts groups groups (λ p e. e))))

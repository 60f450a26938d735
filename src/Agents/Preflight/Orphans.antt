-- ===== src/Agents/Preflight/Orphans.antt =====
-- Removing the orphaned tool results by their indices is filtering the body.
use mathlib.Core.List.{append_assoc}
use arbeiterfarm.Base.{
  ℕ, zero, suc, ◌≡◌, refl, sym, ap, ◌∙◌, inl, inr, Bool, true, false, List, [], ◌∷◌, ◌++◌, arith,
  if◌then◌else◌, Bool-cases, length, length-append,
}
use arbeiterfarm.Agents.Chat.{ChatMessage}
use arbeiterfarm.Agents.Compaction.{is_memory, detect_body_start}
use arbeiterfarm.Agents.Preflight.{
  group_after, is_orphan, orphans, remove_at, remove_all, remove_orphans,
}

-- Tool results are kept exactly in a group that an assistant message with tool calls opens.
unfoldable pub without_orphans : Bool → List ChatMessage → List ChatMessage
without_orphans in_tool_group [] = []
without_orphans in_tool_group (m ∷ rest) =
    let kept = without_orphans (group_after in_tool_group m) rest in
    if is_orphan in_tool_group m then kept else m ∷ kept

remove_at-append :
    (pre rest : List ChatMessage) (i : ℕ) (m : ChatMessage)
    → i ≡ length pre
    → remove_at i (pre ++ m ∷ rest) ≡ pre ++ rest
unfolding remove_at
remove_at-append [] rest i m h = rw h
remove_at-append (x ∷ pre) rest zero m h = absurd (omega arith)
remove_at-append (x ∷ pre) rest (suc i) m h =
    ap (λ r. x ∷ r) (remove_at-append pre rest i m (omega arith))

pub orphans-drop :
    (i : ℕ) (g : Bool) (m : ChatMessage) (rest : List ChatMessage)
    → is_orphan g m ≡ true
    → (orphans i g (m ∷ rest) ≡ i ∷ orphans (suc i) (group_after g m) rest)
      × (without_orphans g (m ∷ rest) ≡ without_orphans (group_after g m) rest)
unfolding orphans without_orphans
orphans-drop i g m rest o = (rw o refl, rw o refl)

pub orphans-keep :
    (i : ℕ) (g : Bool) (m : ChatMessage) (rest : List ChatMessage)
    → is_orphan g m ≡ false
    → (orphans i g (m ∷ rest) ≡ orphans (suc i) (group_after g m) rest)
      × (without_orphans g (m ∷ rest) ≡ m ∷ without_orphans (group_after g m) rest)
unfolding orphans without_orphans
orphans-keep i g m rest o = (rw o refl, rw o refl)

remove_all-cons :
    (i : ℕ) (is : List ℕ) (messages : List ChatMessage)
    → remove_all (i ∷ is) messages ≡ remove_at i (remove_all is messages)
unfolding remove_all
remove_all-cons i is messages = refl

remove_all-snoc :
    (pre rest : List ChatMessage) (m : ChatMessage) (is : List ℕ) (kept : List ChatMessage)
    → remove_all is ((pre ++ m ∷ []) ++ rest) ≡ (pre ++ m ∷ []) ++ kept
    → remove_all is (pre ++ m ∷ rest) ≡ pre ++ m ∷ kept
remove_all-snoc pre rest m is kept h =
    ap (remove_all is) (sym (append_assoc pre (m ∷ []) rest)) ∙ h ∙ append_assoc pre (m ∷ []) kept

remove_all-append :
    (pre rest : List ChatMessage) (i : ℕ) (g : Bool)
    → i ≡ length pre
    → remove_all (orphans i g rest) (pre ++ rest) ≡ pre ++ without_orphans g rest
remove_all-append pre [] i g h = unfold remove_all orphans without_orphans in refl
remove_all-append pre (m ∷ rest) i g h =
    let rec =
      remove_all-snoc pre rest m (orphans (suc i) (group_after g m) rest)
        (without_orphans (group_after g m) rest)
        (remove_all-append (pre ++ m ∷ []) rest (suc i) (group_after g m)
          (omega (arith, length-append pre (m ∷ [])))) in
    elim (Bool-cases (is_orphan g m)) [
      | inl o ↦
          let e = orphans-drop i g m rest o in
          rw (e.0, e.1)
            (remove_all-cons i (orphans (suc i) (group_after g m) rest) (pre ++ m ∷ rest)
              ∙ ap (remove_at i) rec
              ∙ remove_at-append pre (without_orphans (group_after g m) rest) i m h)
      | inr k ↦ let e = orphans-keep i g m rest k in rw (e.0, e.1) rec
    ]

pub memory-no_group :
    (m : ChatMessage)
    → is_memory m ≡ true
    → (group_after false m ≡ false) × (is_orphan false m ≡ false)
unfolding is_memory group_after is_orphan
memory-no_group m h = ground arith

-- Removing by indices is filtering, also behind a memory message.
pub remove_orphans-body :
    (m : ChatMessage) (body : List ChatMessage)
    → remove_orphans (m ∷ body) ≡ m ∷ without_orphans false body
remove_orphans-body m [] =
    unfold remove_orphans detect_body_start orphans remove_all without_orphans in refl
remove_orphans-body m (x ∷ rest) = elim (Bool-cases (is_memory x)) [
  | inl e ↦
      let f = memory-no_group x e in
      unfold remove_orphans detect_body_start in
      rw e (
        remove_all-append (m ∷ x ∷ []) rest 2 false (omega arith)
        ∙ ap (λ r. m ∷ r)
            (ap (λ g. x ∷ without_orphans g rest) (sym f.0)
              ∙ sym (orphans-keep 2 false x rest f.1).1))
  | inr e ↦
      unfold remove_orphans detect_body_start in
      rw e (remove_all-append (m ∷ []) (x ∷ rest) 1 false (omega arith))
]

-- ===== src/Agents/Preflight/Stability.antt =====
-- A second check of a conversation.
use arbeiterfarm.Base.{
  ◌≡◌, refl, sym, ap, ◌∙◌, inl, inr, Bool, true, false, List, [], ◌∷◌, arith, Bool-cases,
}
use arbeiterfarm.Base.Text.{Text}
use arbeiterfarm.Agents.Chat.{ChatMessage, plain, user}
use arbeiterfarm.Agents.Compaction.{is_memory}
use arbeiterfarm.Agents.ThreadMemory.{render_memory}
use arbeiterfarm.Agents.Preflight.{is_system, group_after, is_orphan, preflight_check, ok}
use arbeiterfarm.Agents.Preflight.Orphans.{
  without_orphans, orphans-drop, orphans-keep, memory-no_group,
}
use arbeiterfarm.Agents.Preflight.Repair.{with_memory, memory_message, preflight_check-filter}

orphan-group : (g : Bool) (m : ChatMessage) → is_orphan g m ≡ true → group_after g m ≡ g
unfolding is_orphan group_after
orphan-group g m h = ground arith

without_orphans-again :
    (g : Bool) (ms : List ChatMessage)
    → without_orphans g (without_orphans g ms) ≡ without_orphans g ms
without_orphans-again g [] = unfold without_orphans in refl
without_orphans-again g (m ∷ rest) = elim (Bool-cases (is_orphan g m)) [
  | inl o ↦
      let rec = without_orphans-again (group_after g m) rest in
      rw (orphans-drop 0 g m rest o).1 (
        ap (λ h. without_orphans h (without_orphans (group_after g m) rest))
          (sym (orphan-group g m o))
        ∙ rec)
  | inr k ↦ rw (orphans-keep 0 g m rest k).1 (
      (orphans-keep 0 g m (without_orphans (group_after g m) rest) k).1
      ∙ ap (λ r. m ∷ r) (without_orphans-again (group_after g m) rest))
]

with_memory-first :
    (m : ChatMessage) (rest : List ChatMessage) (pairs : List (Text × Text))
    → is_memory m ≡ true
    → with_memory pairs (m ∷ rest) ≡ m ∷ rest
unfolding with_memory
with_memory-first m rest [] h = refl
with_memory-first m rest (p ∷ pairs) h = rw h refl

keeps_memory :
    (m : ChatMessage) (rest : List ChatMessage) (pairs : List (Text × Text))
    → is_memory m ≡ true
    → with_memory pairs (without_orphans false (m ∷ rest)) ≡ without_orphans false (m ∷ rest)
keeps_memory m rest pairs h =
    rw (orphans-keep 0 false m rest (memory-no_group m h).1).1
      (with_memory-first m (without_orphans (group_after false m) rest) pairs h)

with_memory-again :
    (body : List ChatMessage) (pairs : List (Text × Text))
    → with_memory pairs (without_orphans false (with_memory pairs body))
      ≡ without_orphans false (with_memory pairs body)
unfolding with_memory
with_memory-again body [] = refl
with_memory-again [] (p ∷ pairs) =
    keeps_memory (plain user (render_memory (p ∷ pairs))) [] (p ∷ pairs) (memory_message p pairs).1
with_memory-again (x ∷ rest) (p ∷ pairs) = elim (Bool-cases (is_memory x)) [
  | inl e ↦ rw e (keeps_memory x rest (p ∷ pairs) e)
  | inr e ↦ rw e (
      keeps_memory (plain user (render_memory (p ∷ pairs))) (x ∷ rest) (p ∷ pairs)
        (memory_message p pairs).1)
]

passed :
    (m : ChatMessage) (body checked : List ChatMessage) (pairs : List (Text × Text))
    → preflight_check (m ∷ body) pairs ≡ ok checked
    → (is_system m ≡ true) × (checked ≡ m ∷ without_orphans false (with_memory pairs body))
passed m body checked pairs h = ground (arith, preflight_check-filter m body pairs)

body_again :
    (body : List ChatMessage) (pairs : List (Text × Text))
    → without_orphans false (with_memory pairs (without_orphans false (with_memory pairs body)))
      ≡ without_orphans false (with_memory pairs body)
body_again body pairs =
    ap (without_orphans false) (with_memory-again body pairs)
    ∙ without_orphans-again false (with_memory pairs body)

-- A conversation that has passed the check passes it again unchanged.
pub preflight_check-again :
    (messages checked : List ChatMessage) (pairs : List (Text × Text))
    → preflight_check messages pairs ≡ ok checked
    → preflight_check checked pairs ≡ ok checked
preflight_check-again [] checked pairs h = absurd (unfold preflight_check in ground arith)
preflight_check-again (m ∷ body) checked pairs h =
    let s = passed m body checked pairs h in
    rw s.1 (
      ground (
        arith,
        s.0,
        preflight_check-filter m (without_orphans false (with_memory pairs body)) pairs,
        body_again body pairs,
      ))

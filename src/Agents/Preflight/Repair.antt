-- ===== src/Agents/Preflight/Repair.antt =====
-- `preflight_check` without indices: it is a function of the system message and the body.
use mathlib.Core.List.{append-nil, append_assoc}
use arbeiterfarm.Base.{
  ◌+◌, ◌≡◌, refl, sym, ◌∙◌, ◌⊎◌, inl, inr, Bool, true, false, ◌&&◌, not, some, List, [], ◌∷◌, ◌++◌,
  arith, ltb, if◌then◌else◌, Bool-cases, is_empty,
}
use arbeiterfarm.Base.Text.{Text, lit, byte_len, starts_with}
use arbeiterfarm.Agents.Chat.{role_eq, ChatMessage, plain, system, user, assistant, tool, ChatRole}
use arbeiterfarm.Agents.Compaction.{is_memory}
use arbeiterfarm.Agents.ThreadMemory.{
  max_memory_size, sort_findings, findings_of, finding_line, push_findings, task_lines, memory_head,
  closing_lines, memory_findings, render_memory, build_memory_message,
}
use arbeiterfarm.Agents.Preflight.{
  is_system, has_memory, repair_memory, group_after, is_orphan, preflight_check, other, ok, err,
}
use arbeiterfarm.Agents.Preflight.Orphans.{without_orphans, remove_orphans-body}

-- The body with its memory message, where there is something to remember.
unfoldable pub with_memory : List (Text × Text) → List ChatMessage → List ChatMessage
with_memory [] body = body
with_memory (p ∷ pairs) [] = plain user (render_memory (p ∷ pairs)) ∷ []
with_memory (p ∷ pairs) (m ∷ rest) =
    if is_memory m then m ∷ rest else plain user (render_memory (p ∷ pairs)) ∷ m ∷ rest

push_findings-prefix :
    (result : Text) (findings : List (Text × Text))
    → (x : Text) × (push_findings result findings ≡ result ++ x)
unfolding push_findings
push_findings-prefix result [] = ([], sym (append-nil result))
push_findings-prefix result ((k, v) ∷ rest) =
    let (x, e) = push_findings-prefix (result ++ finding_line k v) rest in
    elim (Bool-cases (ltb max_memory_size (byte_len result + byte_len (finding_line k v)))) [
      | inl full ↦ ([], rw full (sym (append-nil result)))
      | inr fits ↦ (finding_line k v ++ x, rw fits (e ∙ append_assoc result (finding_line k v) x))
    ]

memory_findings-prefix :
    (result : Text) (findings : List (Text × Text))
    → (x : Text) × (memory_findings result findings ≡ result ++ x)
unfolding memory_findings
memory_findings-prefix result [] = ([], sym (append-nil result))
memory_findings-prefix result (f ∷ rest) =
    let (x, e) = push_findings-prefix (result ++ lit "\nFINDINGS:\n") (f ∷ rest) in
    (lit "\nFINDINGS:\n" ++ x, e ∙ append_assoc result (lit "\nFINDINGS:\n") x)

-- Rendered memory starts with its marker.
render_memory-prefix :
    (p : Text × Text) (pairs : List (Text × Text))
    → (x : Text) × (render_memory (p ∷ pairs) ≡ lit "[Thread Memory]\n" ++ x)
render_memory-prefix p pairs =
    let (x, e) =
      memory_findings-prefix (memory_head (p ∷ pairs)) (sort_findings (findings_of (p ∷ pairs))) in
    (
      (task_lines (p ∷ pairs) ++ x) ++ closing_lines (p ∷ pairs),
      unfold render_memory in rw e (unfold memory_head in refl),
    )

pub memory_message :
    (p : Text × Text) (pairs : List (Text × Text))
    → (build_memory_message (p ∷ pairs) ≡ some (plain user (render_memory (p ∷ pairs))))
      × (is_memory (plain user (render_memory (p ∷ pairs))) ≡ true)
memory_message p pairs =
    let (x, e) = render_memory-prefix p pairs in
    (unfold build_memory_message in rw e refl, unfold is_memory starts_with in rw e refl)

repair_memory-body :
    (m : ChatMessage) (body : List ChatMessage) (pairs : List (Text × Text))
    → repair_memory pairs (m ∷ body) ≡ m ∷ with_memory pairs body
unfolding repair_memory with_memory has_memory
repair_memory-body m body [] = refl
repair_memory-body m [] (p ∷ pairs) = rw (memory_message p pairs).0 refl
repair_memory-body m (x ∷ rest) (p ∷ pairs) = ground (arith, (memory_message p pairs).0)

pub preflight_check-filter :
    (m : ChatMessage) (body : List ChatMessage) (pairs : List (Text × Text))
    → preflight_check (m ∷ body) pairs ≡ (
        if is_system m
        then ok (m ∷ without_orphans false (with_memory pairs body))
        else err (other (lit "preflight: messages[0] must be System")))
unfolding preflight_check
preflight_check-filter m body pairs =
    ground (arith, repair_memory-body m body pairs, remove_orphans-body m (with_memory pairs body))

-- Going back over tool results, an assistant message with tool calls comes first.
unfoldable pub opens_group : List ChatMessage → Bool
opens_group [] = false
opens_group (m ∷ before) =
    if role_eq m.role tool
    then opens_group before
    else role_eq m.role assistant && not (is_empty m.tool_calls)

-- The messages without the tool results that no group is open for; `before` holds the messages
-- before them, the last one first.
unfoldable pub answered : List ChatMessage → List ChatMessage → List ChatMessage
answered before [] = []
answered before (m ∷ rest) =
    let later = answered (m ∷ before) rest in
    if role_eq m.role tool && not (opens_group before) then later else m ∷ later

role_cases : (r : ChatRole) → (r ≡ tool) ⊎ (role_eq r tool ≡ false)
role_cases system = inr refl
role_cases user = inr refl
role_cases assistant = inr refl
role_cases tool = inl refl

group_after-opens :
    (m : ChatMessage) (before : List ChatMessage)
    → group_after (opens_group before) m ≡ opens_group (m ∷ before)
unfolding group_after opens_group
group_after-opens m before = elim (role_cases m.role) [
  | inl e ↦ rw e refl
  | inr e ↦ ground (arith, e)
]

without_orphans-answered :
    (before ms : List ChatMessage) → without_orphans (opens_group before) ms ≡ answered before ms
unfolding without_orphans answered is_orphan
without_orphans-answered before [] = refl
without_orphans-answered before (m ∷ rest) =
    let rec = without_orphans-answered (m ∷ before) rest in
    rw (group_after-opens m before, rec) refl

-- The check refuses a conversation that is empty or does not start with a system message. Any other keeps its
-- system message, has the rendered memory next to it where there is something to remember and no
-- memory message stands there, and loses the tool results that no assistant message with tool calls
-- opened a group for.
pub preflight_check-body :
    (messages : List ChatMessage) (pairs : List (Text × Text))
    → preflight_check messages pairs ≡ elim messages [
      | [] ↦ err (other (lit "preflight: messages[0] must be System"))
      | m ∷ body ↦
          if is_system m
          then ok (m ∷ answered [] (with_memory pairs body))
          else err (other (lit "preflight: messages[0] must be System"))
    ]
unfolding opens_group preflight_check
preflight_check-body [] pairs = refl
preflight_check-body (m ∷ body) pairs =
    let kept : without_orphans false (with_memory pairs body)
        ≡ answered [] (with_memory pairs body) =
      without_orphans-answered [] (with_memory pairs body) in
    rw (sym kept) (preflight_check-filter m body pairs)

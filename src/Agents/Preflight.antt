-- ===== src/Agents/Preflight.antt =====
-- `preflight_check` of af/crates/af-agents/src/compaction.rs: the check and repair of the messages
-- before each request to a local model.
pub mod Orphans
pub mod Repair
pub mod Stability
pub mod Examples
use arbeiterfarm.Base.{
  ℕ, zero, suc, Bool, true, false, ◌&&◌, not, none, some, List, [], ◌∷◌, if◌then◌else◌, drop,
  is_empty,
}
use arbeiterfarm.Base.Text.{Text, lit}
use arbeiterfarm.Agents.Chat.{role_eq, ChatMessage, system, assistant, tool}
use arbeiterfarm.Agents.Compaction.{is_memory, detect_body_start}
use arbeiterfarm.Agents.ThreadMemory.{build_memory_message}

-- `AgentError`
pub data AgentError : Type 0 where
  other db llm : Text → AgentError

pub data Result {ℓ} (A : Type ℓ) : Type ℓ where
  ok : A → Result A
  err : AgentError → Result A

unfoldable pub is_system : ChatMessage → Bool
is_system m = role_eq m.role system

-- `messages.insert(1, mem_msg)`
abbrev pub insert_second : ChatMessage → List ChatMessage → List ChatMessage
insert_second new [] = new ∷ []
insert_second new (m ∷ rest) = m ∷ new ∷ rest

-- `has_memory`
unfoldable pub has_memory : List ChatMessage → Bool
has_memory (m ∷ m' ∷ rest) = is_memory m'
has_memory _ = false

unfoldable pub repair_memory : List (Text × Text) → List ChatMessage → List ChatMessage
repair_memory memory_pairs messages =
    if is_empty memory_pairs
    then messages
    else if has_memory messages
    then messages
    else elim (build_memory_message memory_pairs) [
      | none ↦ messages
      | some mem_msg ↦ insert_second mem_msg messages
    ]

-- The flag `in_tool_group` after a message.
unfoldable pub group_after : Bool → ChatMessage → Bool
group_after in_tool_group m =
    if role_eq m.role assistant && not (is_empty m.tool_calls)
    then true
    else if role_eq m.role tool
    then in_tool_group
    else false

unfoldable pub is_orphan : Bool → ChatMessage → Bool
is_orphan in_tool_group m = role_eq m.role tool && not in_tool_group

-- The indices that the loop collects, from index `i` on.
unfoldable pub orphans : ℕ → Bool → List ChatMessage → List ℕ
orphans i in_tool_group [] = []
orphans i in_tool_group (m ∷ rest) =
    let more = orphans (suc i) (group_after in_tool_group m) rest in
    if is_orphan in_tool_group m then i ∷ more else more

-- `messages.remove(idx)`
unfoldable pub remove_at : ℕ → List ChatMessage → List ChatMessage
remove_at i [] = []
remove_at zero (m ∷ rest) = rest
remove_at (suc i) (m ∷ rest) = m ∷ remove_at i rest

-- `for &idx in orphans.iter().rev()`
unfoldable pub remove_all : List ℕ → List ChatMessage → List ChatMessage
remove_all [] messages = messages
remove_all (i ∷ more) messages = remove_at i (remove_all more messages)

unfoldable pub remove_orphans : List ChatMessage → List ChatMessage
remove_orphans messages =
    let body_start = detect_body_start messages in
    remove_all (orphans body_start false (drop body_start messages)) messages

unfoldable pub preflight_check : List ChatMessage → List (Text × Text) → Result (List ChatMessage)
preflight_check [] memory_pairs = err (other (lit "preflight: messages[0] must be System"))
preflight_check (m ∷ rest) memory_pairs =
    if is_system m
    then ok (remove_orphans (repair_memory memory_pairs (m ∷ rest)))
    else err (other (lit "preflight: messages[0] must be System"))

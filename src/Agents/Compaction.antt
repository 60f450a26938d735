-- ===== src/Agents/Compaction.antt =====
-- af/crates/af-agents/src/compaction.rs: when the context of a conversation is trimmed, which
-- messages go, and the check before each request.
pub mod Turns
pub mod Runs
pub mod Selection
pub mod Examples
use arbeiterfarm.Base.{
  ℕ, zero, suc, ◌+◌, ◌-◌, Bool, true, false, ◌&&◌, ◌||◌, not, Option, none, some, List, [], ◌∷◌,
  map, ltb, leb, if◌then◌else◌, ◌>>=◌, length, get_elem?, take, drop, is_empty,
}
use arbeiterfarm.Base.Text.{Text, lit, starts_with, trim}
use arbeiterfarm.Agents.Chat.{
  ChatRole, role_eq, ChatMessage, add32, sum32, estimate_content_tokens, user, assistant, tool,
}

unfoldable pub is_nudge_or_reinforcement : Text → Bool
is_nudge_or_reinforcement content =
    starts_with content (lit "[Thread Memory")
    || starts_with content (lit "[SYSTEM REMINDER]")
    || starts_with content (lit "[Context Summary")
    || starts_with content (lit "[Sliding window trim")
    || starts_with content (lit "[Context reset")
    || starts_with content (lit "---\nContinue your analysis")

unfoldable pub is_memory : ChatMessage → Bool
is_memory m = role_eq m.role user && starts_with m.content (lit "[Thread Memory")

unfoldable pub detect_body_start : List ChatMessage → ℕ
detect_body_start [] = 1
detect_body_start (m ∷ []) = 1
detect_body_start (m ∷ m' ∷ rest) = if is_memory m' then 2 else 1

-- A user message that is not a nudge.
unfoldable pub is_real_user : ChatMessage → Bool
is_real_user m = role_eq m.role user && not (is_nudge_or_reinforcement m.content)

pub record Turn : Type 0 where
  pub start : ℕ
  pub end : ℕ
  pub tokens : ℕ
  pub has_user_request : Bool

-- `&messages[start..end]`
abbrev pub slice : ℕ → ℕ → List ChatMessage → List ChatMessage
slice start end messages = take (end - start) (drop start messages)

unfoldable pub slice_tokens : List ChatMessage → ℕ
slice_tokens ms = sum32 (map (λ m. add32 (estimate_content_tokens m) 4) ms)

unfoldable pub close_turn : List ChatMessage → ℕ → ℕ → Bool → Turn
close_turn messages start end has_user = record {
  start = start;
  end = end;
  tokens = slice_tokens (slice start end messages);
  has_user_request = has_user;
}

-- The loop of `parse_turns` from index `i` on, where `todo` is left of the messages, and the turn
-- that it closes at the end.
unfoldable pub turns_loop : List ChatMessage → ℕ → ℕ → Bool → List ChatMessage → List Turn
turns_loop messages i current_start current_has_user [] =
    if ltb current_start (length messages)
    then close_turn messages current_start (length messages) current_has_user ∷ []
    else []
turns_loop messages i current_start current_has_user (m ∷ todo) =
    let closes = is_real_user m && ltb current_start i in
    let rest =
      turns_loop messages (i + 1) (if closes then i else current_start)
        (is_real_user m || current_has_user) todo in
    if closes then close_turn messages current_start i current_has_user ∷ rest else rest

unfoldable pub parse_turns : List ChatMessage → ℕ → List Turn
parse_turns messages body_start =
    turns_loop messages body_start body_start false (drop body_start messages)

pub record CompactionPlan : Type 0 where
  pub compact_start : ℕ
  pub compact_end : ℕ
  pub message_count : ℕ

-- `iter().rposition(|m| m.role == User)`
unfoldable pub last_user : List ChatMessage → Option ℕ
last_user [] = none
last_user (m ∷ rest) = elim (last_user rest) [
  | some i ↦ some (suc i)
  | none ↦ if role_eq m.role user then some 0 else none
]

-- The conditions of the loop of `select_messages_for_compaction` on `messages[boundary - 1]` and,
-- where `boundary - 1 > 1`, on the message before it.
abbrev pub role_at : List ChatMessage → ℕ → ChatRole → Bool
role_at messages i role = elim (get_elem? messages i) [
  | none ↦ false
  | some m ↦ role_eq m.role role
]

unfoldable pub calls_tools : List ChatMessage → ℕ → Bool
calls_tools messages i = elim (get_elem? messages i) [
  | none ↦ false
  | some m ↦ role_eq m.role assistant && not (is_empty m.tool_calls)
]

unfoldable pub belongs_to_group : List ChatMessage → ℕ → Bool
belongs_to_group messages prev =
    role_at messages prev tool
    || calls_tools messages prev
    || (role_at messages prev user && ltb 1 prev && role_at messages (prev - 1) tool)

-- `while boundary > 1`, counted down; the boundary falls by one in each round.
unfoldable pub walk_back : List ChatMessage → ℕ → ℕ
walk_back messages zero = zero
walk_back messages (suc prev) = elim (ltb 0 prev && belongs_to_group messages prev) [
  | true ↦ walk_back messages prev
  | false ↦ suc prev
]

unfoldable pub select_messages_for_compaction : List ChatMessage → Option CompactionPlan
select_messages_for_compaction messages = if ltb (length messages) 4 then none else do
  last ← last_user messages
  let boundary = walk_back messages last
  if leb boundary 1
      then none
      else some (record { compact_start = 1; compact_end = boundary; message_count = boundary - 1 })

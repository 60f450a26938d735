-- ===== src/Agents/Trimming.antt =====
-- af/crates/af-agents/src/compaction.rs: how a conversation that is too long gets shorter, in memory
-- and in the rows of its thread. The arithmetic of `f32` is a parameter. The queries run one
-- after the other, outside of a transaction, and each may fail.
pub mod Passes
pub mod Tail
pub mod Marks
pub mod Kept
pub mod Window
pub mod Messages
pub mod Rows
pub mod Failures
pub mod Sample
pub mod Examples
use arbeiterfarm.Base.{
  ℕ, ◌+◌, ◌-◌, Bool, false, ◌&&◌, ◌||◌, not, Option, none, some, List, [], ◌∷◌, ◌++◌, map, ltb, leb,
  if◌then◌else◌, length, get_elem?, take, drop, is_empty,
}
use arbeiterfarm.Base.Text.{Text, lit}
use arbeiterfarm.Base.Text.Decimal.{join}
use arbeiterfarm.Agents.Chat.{ChatMessage, add32}
use arbeiterfarm.Agents.Compaction.{Turn}
use arbeiterfarm.Agents.ThreadMemory.{build_memory_message}
use arbeiterfarm.Agents.MessageStore.{
  MessageRow, Store, mark_messages_compacted, insert_compaction_summary,
}
use arbeiterfarm.Agents.Preflight.{Result, db, ok, err}

-- `(n as f32 * x) as u32`, and the constant 0.50.
pub record Float : Type 1 where
  pub F : Type 0
  pub scale : ℕ → F → ℕ
  pub half : F

-- What the queries answer: the message of an error, where there is one.
pub record Faults : Type 0 where
  pub mark : Option Text
  pub insert : Option Text
  pub read_memory : Option Text

abbrev pub sliding_window_tail_tokens : ℕ
sliding_window_tail_tokens = 6000

abbrev pub sliding_window_min_turns : ℕ
sliding_window_min_turns = 2

pub data TrimReason : Type 0 where
  sliding_window threshold_reset threshold_llm : TrimReason

pub record TrimMetadata : Type 0 where
  pub reason : TrimReason
  pub pre_tokens : ℕ
  pub post_tokens : ℕ
  pub memory_keys : List Text
  pub turns_trimmed : ℕ
  pub turns_kept : ℕ

pub record Trimmed : Type 0 where
  pub messages : List ChatMessage
  pub count : ℕ
  pub metadata : TrimMetadata

-- `AgentEvent::ContextCompacted`
pub record ContextCompacted : Type 0 where
  pub estimated_tokens : ℕ
  pub messages_compacted : ℕ
  pub context_window : ℕ

unfoldable pub reason_text : TrimReason → Text
reason_text sliding_window = lit "sliding_window"
reason_text threshold_reset = lit "threshold_reset"
reason_text threshold_llm = lit "threshold_llm"

-- `history[i].seq`
abbrev pub seq_at : List MessageRow → ℕ → Option ℕ
seq_at history i = elim (get_elem? history i) [ none ↦ none | some row ↦ some row.seq ]

-- The row before `exclusive_end`, and the last row where that is out of bounds.
unfoldable pub map_index_to_seq : ℕ → List MessageRow → Option ℕ
map_index_to_seq exclusive_end history =
    if leb 2 exclusive_end && ltb (exclusive_end - 2) (length history)
    then seq_at history (exclusive_end - 2)
    else if not (is_empty history)
    then seq_at history (length history - 1)
    else none

-- The three conditions under which the tail is long enough.
unfoldable pub is_enough : ℕ → ℕ → Bool → Bool
is_enough tokens turns has_user_request =
    leb sliding_window_tail_tokens tokens && leb sliding_window_min_turns turns && has_user_request

-- The variables of the walk over the turns, and whether its `break` was reached.
pub record TailWalk : Type 0 where
  pub tail_tokens : ℕ
  pub tail_turn_count : ℕ
  pub tail_has_user_request : Bool
  pub stopped : Bool

unfoldable pub take_turn : Turn → TailWalk → TailWalk
take_turn turn walk =
    let tokens = add32 walk.tail_tokens turn.tokens in
    let turns = walk.tail_turn_count + 1 in
    let request = turn.has_user_request || walk.tail_has_user_request in
    record {
      tail_tokens = tokens;
      tail_turn_count = turns;
      tail_has_user_request = request;
      stopped = is_enough tokens turns request;
    }

-- The walk goes from the last turn to the first: the first is taken if it has not stopped before.
unfoldable pub tail_walk : List Turn → TailWalk
tail_walk [] = record {
  tail_tokens = 0;
  tail_turn_count = 0;
  tail_has_user_request = false;
  stopped = false;
}
tail_walk (turn ∷ later) =
    let walk = tail_walk later in if walk.stopped then walk else take_turn turn walk

-- `tail_boundary_turn`: the index of the turn that was taken last.
unfoldable pub tail_boundary : List Turn → ℕ
tail_boundary turns = length turns - (tail_walk turns).tail_turn_count

-- Keys and the rendered memory, after a read that falls back on no memory.
unfoldable pub memory_or_default : Faults → Store → List (Text × Text)
memory_or_default faults store = elim faults.read_memory [ none ↦ store.memory | some e ↦ [] ]

unfoldable pub keys_of : List (Text × Text) → Text
keys_of pairs = join (lit ",") (map (λ p. p.0) pairs)

unfoldable pub memory_part : List (Text × Text) → List ChatMessage
memory_part pairs = elim (build_memory_message pairs) [ none ↦ [] | some m ↦ m ∷ [] ]

-- The system prompt, the memory and the tail.
unfoldable pub rebuilt : List ChatMessage → List (Text × Text) → ℕ → List ChatMessage
rebuilt messages pairs tail_start =
    take 1 messages ++ (memory_part pairs ++ drop tail_start messages)

-- Marking the rows, then inserting the text that stands for them; the labels of the two errors.
unfoldable pub mark_and_insert :
    Faults → Text × Text → Text → ℕ → ℕ → Option Text → Store → Result (Unit {0}) × Store
mark_and_insert faults labels summary compacted_count up_to_seq agent_name store =
    elim faults.mark [
      | some e ↦ (err (db (labels.0 ++ e)), store)
      | none ↦
          let marked = mark_messages_compacted up_to_seq store in
          elim faults.insert [
            | some e ↦ (err (db (labels.1 ++ e)), marked)
            | none ↦ (
              ok tt,
              insert_compaction_summary summary compacted_count up_to_seq agent_name marked,
            )
          ]
    ]

-- `result?` with the state, then the rest.
abbrev pub and_then {ℓ κ} :
    {A : Type ℓ} {B : Type κ} → Result A × Store → (A → B) → Result B × Store
and_then (err e, store) f = (err e, store)
and_then (ok a, store) f = (ok (f a), store)

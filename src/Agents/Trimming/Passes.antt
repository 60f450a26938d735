-- ===== src/Agents/Trimming/Passes.antt =====
-- `sliding_window_trim` and `local_context_reset`: the passes over a conversation of a local model.
use arbeiterfarm.Base.{
  ℕ, ◌-◌, Bool, Option, none, some, List, [], ◌++◌, map, ltb, leb, ◌==◌, if◌then◌else◌, length,
  get_elem?,
}
use arbeiterfarm.Base.Text.{Text, lit}
use arbeiterfarm.Base.Text.Decimal.{decimal}
use arbeiterfarm.Agents.Chat.{ChatMessage, ToolDescription, estimate_tokens}
use arbeiterfarm.Agents.Compaction.{
  detect_body_start, Turn, parse_turns, CompactionPlan, select_messages_for_compaction,
}
use arbeiterfarm.Agents.MessageStore.{MessageRow, Store}
use arbeiterfarm.Agents.Preflight.{Result, other, ok, err}
use arbeiterfarm.Agents.Trimming.{
  Float, Faults, Trimmed, ContextCompacted, map_index_to_seq, tail_boundary, memory_or_default,
  keys_of, rebuilt, mark_and_insert, and_then, sliding_window,
}

unfoldable pub window_marker : ℕ → ℕ → ℕ → List (Text × Text) → Text
window_marker estimated turns_trimmed turns_kept memory_pairs =
    lit "[Sliding window trim | reason=sliding_window | pre_tokens="
    ++ (decimal estimated
        ++ (lit " | turns_trimmed="
            ++ (decimal turns_trimmed
                ++ (lit " | turns_kept="
                    ++ (decimal turns_kept
                        ++ (lit " | memory_keys=" ++ (keys_of memory_pairs ++ lit "]")))))))

unfoldable pub reset_marker : ℕ → List (Text × Text) → Text
reset_marker estimated memory_pairs =
    lit "[Context reset | reason=threshold_reset | pre_tokens="
    ++ (decimal estimated ++ (lit " | memory_keys=" ++ (keys_of memory_pairs ++ lit "]")))

-- `turns[i].start`
unfoldable pub start_of : List Turn → ℕ → ℕ
start_of turns i = elim (get_elem? turns i) [ none ↦ 0 | some turn ↦ turn.start ]

-- What `sliding_window_trim` returns for the tail from `boundary` on.
unfoldable pub trim_report :
    List ToolDescription → List ChatMessage → List Turn → ℕ → List (Text × Text) → Trimmed
trim_report tools messages turns boundary pairs =
    let trim_end = start_of turns boundary in
    let shorter = rebuilt messages pairs trim_end in
    record {
      messages = shorter;
      count = trim_end - detect_body_start messages;
      metadata = record {
        reason = sliding_window;
        pre_tokens = estimate_tokens messages tools;
        post_tokens = estimate_tokens shorter tools;
        memory_keys = map (λ p. p.0) pairs;
        turns_trimmed = boundary;
        turns_kept = length turns - boundary;
      };
    }

-- `sliding_window_trim` once the boundary is known.
unfoldable pub trim_at :
    List ToolDescription
    → List ChatMessage
    → List MessageRow
    → Option Text
    → List Turn
    → ℕ
    → Faults
    → Store
    → Result (Option Trimmed) × Store
trim_at tools messages history agent_name turns boundary faults store =
    let pairs = memory_or_default faults store in
    let report = trim_report tools messages turns boundary pairs in
    let marker =
      window_marker report.metadata.pre_tokens boundary report.metadata.turns_kept pairs in
    if report.count == 0
    then (ok none, store)
    else elim (map_index_to_seq (start_of turns boundary) history) [
      | none ↦ (err (other (lit "no history rows for sliding window")), store)
      | some up_to_seq ↦
          and_then
            (mark_and_insert faults
              (lit "sliding window mark compacted: ", lit "sliding window insert summary: ") marker
              report.count up_to_seq agent_name store)
            (λ done. some report)
    ]

-- The step from a plan to the rows, in `try_compact` and `local_context_reset`.
unfoldable pub plan_seq : CompactionPlan → List MessageRow → Option ℕ
plan_seq plan history = map_index_to_seq plan.compact_end history

unfoldable pub local_context_reset :
    List ChatMessage
    → List MessageRow
    → Option Text
    → Faults
    → Store
    → Result (List ChatMessage × ContextCompacted) × Store
local_context_reset messages history agent_name faults store =
    let estimated = estimate_tokens messages [] in
    let pairs = memory_or_default faults store in
    elim (select_messages_for_compaction messages) [
      | none ↦ (err (other (lit "not enough messages to compact")), store)
      | some plan ↦ elim (plan_seq plan history) [
        | none ↦ (err (other (lit "no history rows for compaction")), store)
        | some up_to_seq ↦
            and_then
              (mark_and_insert faults (lit "mark compacted: ", lit "insert compaction summary: ")
                (reset_marker estimated pairs) plan.message_count up_to_seq agent_name store)
              (λ done. (
                rebuilt messages pairs plan.compact_end,
                record {
                  estimated_tokens = estimated;
                  messages_compacted = plan.message_count;
                  context_window = 0;
                },
              ))
      ]
    ]

module _ (float : Float) where
  open float use {F, scale, half}

  pub record CompactionContext : Type 0 where
    pub context_window : ℕ
    pub max_output_tokens : ℕ
    pub threshold : F

  unfoldable pub budget : CompactionContext → ℕ
  budget ctx = scale ctx.context_window ctx.threshold - ctx.max_output_tokens

  unfoldable pub should_compact : CompactionContext → ℕ → Bool
  should_compact ctx estimated_tokens = ltb (budget ctx) estimated_tokens

  unfoldable pub tokens_to_shed : CompactionContext → ℕ → ℕ
  tokens_to_shed ctx estimated_tokens = estimated_tokens - budget ctx

  unfoldable pub sliding_window_trim :
      List ChatMessage
      → List ToolDescription
      → List MessageRow
      → Option Text
      → CompactionContext
      → Faults
      → Store
      → Result (Option Trimmed) × Store
  sliding_window_trim messages tools history agent_name ctx faults store =
      let turns = parse_turns messages (detect_body_start messages) in
      let boundary = tail_boundary turns in
      if leb (estimate_tokens messages tools) (scale (budget ctx) half)
      then (ok none, store)
      else if ltb (length turns) 2
      then (ok none, store)
      else if boundary == 0
      then (ok none, store)
      else trim_at tools messages history agent_name turns boundary faults store

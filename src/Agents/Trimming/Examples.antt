-- ===== src/Agents/Trimming/Examples.antt =====
-- A conversation of three requests, of which a window keeps two; the theorems at it.
use arbeiterfarm.Base.{
  ℕ, ◌+◌, ◌-◌, ◌≤◌, ◌<◌, ◌≡◌, refl, true, Option, none, some, List, [], ◌∷◌, ◌++◌, arith, length,
  take, drop, keep,
}
use arbeiterfarm.Base.Text.{text_eq, byte_len, strip_prefix, starts_with}
use arbeiterfarm.Agents.Chat.{
  ChatMessage, part_tokens, sum32, estimate_content_tokens, message_tokens, estimate_tokens,
}
use arbeiterfarm.Agents.Compaction.{
  is_nudge_or_reinforcement, is_memory, detect_body_start, is_real_user, slice_tokens, close_turn,
  turns_loop, parse_turns, last_user, calls_tools, belongs_to_group, walk_back,
  select_messages_for_compaction,
}
use arbeiterfarm.Agents.MessageStore.{
  MessageRow, Store, is_marked, mark_messages_compacted, insert_compaction_summary,
  get_thread_messages_compacted,
}
use arbeiterfarm.Agents.Preflight.{Result, ok, err}
use arbeiterfarm.Agents.Trimming.{
  Trimmed, ContextCompacted, map_index_to_seq, is_enough, take_turn, tail_walk, tail_boundary,
  memory_or_default, memory_part, mark_and_insert,
}
use arbeiterfarm.Agents.Trimming.Passes.{
  window_marker, start_of, trim_report, trim_at, plan_seq, local_context_reset, budget,
  sliding_window_trim,
}
use arbeiterfarm.Agents.Trimming.Kept.{starts_request}
use arbeiterfarm.Agents.Trimming.Marks.{is_system_row}
use arbeiterfarm.Agents.Trimming.Tail.{}
use arbeiterfarm.Agents.Trimming.Messages.{sliding_window_trim-tail}
use arbeiterfarm.Agents.Trimming.Sample.{hundredths, talk, before, small, no_faults, rows_before}
use arbeiterfarm.Agents.Trimming.Rows.{sliding_window_trim-rows}

-- What the window returns.
abbrev shorter : Trimmed
shorter = trim_report [] talk (parse_turns talk 1) 1 before.memory

abbrev after : Store
after =
    insert_compaction_summary (window_marker (estimate_tokens talk []) 1 2 before.memory) 2 2 none
      (mark_messages_compacted 2 before)

run :
    sliding_window_trim hundredths talk [] rows_before none small no_faults before
    ≡ (ok (some shorter), after)
unfolding sliding_window_trim budget estimate_tokens sum32 message_tokens estimate_content_tokens
    byte_len part_tokens parse_turns turns_loop detect_body_start is_memory starts_with strip_prefix
    is_real_user is_nudge_or_reinforcement tail_boundary tail_walk take_turn is_enough close_turn
    slice_tokens trim_at trim_report start_of map_index_to_seq mark_and_insert
    get_thread_messages_compacted is_marked mark_messages_compacted text_eq memory_or_default
run = refl

sliding_window_trim-tail_example :
    (dropped tail : List ChatMessage) × (talk ≡ dropped ++ tail)
    × (length dropped ≡ detect_body_start talk + shorter.count)
    × (0 < shorter.count)
    × (starts_request tail ≡ true)
    × (shorter.messages ≡ take 1 talk ++ (memory_part (memory_or_default no_faults before) ++ tail))
sliding_window_trim-tail_example =
    sliding_window_trim-tail hundredths talk [] rows_before none small no_faults before shorter
      after run

gone_le : shorter.count + detect_body_start talk - 1 ≤ length rows_before
unfolding trim_report start_of parse_turns turns_loop close_turn slice_tokens is_real_user
    is_nudge_or_reinforcement starts_with strip_prefix detect_body_start is_memory
    get_thread_messages_compacted
gone_le = omega arith

sliding_window_trim-rows_example :
    (up_to_seq : ℕ) × (summary : MessageRow) × (summary.summary_of
      ≡ some (shorter.count, up_to_seq))
    × (get_thread_messages_compacted after
        ≡ (keep is_system_row (take (shorter.count + detect_body_start talk - 1) rows_before)
            ++ drop (shorter.count + detect_body_start talk - 1) rows_before)
          ++ summary ∷ [])
sliding_window_trim-rows_example =
    sliding_window_trim-rows hundredths talk [] none small no_faults before shorter after
      (
        (omega arith, (omega arith, (omega arith, tt))),
        ((omega arith, (omega arith, tt)), ((omega arith, tt), (tt, tt))),
      )
      gone_le run

abbrev count_of : Result (List ChatMessage × ContextCompacted) → Option ℕ
count_of (ok (messages, event)) = some event.messages_compacted
count_of (err e) = none

reset_count : (count_of (local_context_reset talk rows_before none no_faults before).0) ≡ some 3
unfolding local_context_reset select_messages_for_compaction detect_body_start is_memory starts_with
    strip_prefix is_real_user is_nudge_or_reinforcement walk_back belongs_to_group calls_tools
    last_user plan_seq map_index_to_seq mark_and_insert get_thread_messages_compacted
reset_count = refl

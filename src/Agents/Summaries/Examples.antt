-- ===== src/Agents/Summaries/Examples.antt =====
-- Compactions of a sample conversation with a model that answers with what it was sent, cut short.
use arbeiterfarm.Base.{
  ◌≡◌, refl, true, false, none, some, List, [], ◌∷◌, ◌++◌, map, if◌then◌else◌, take, drop,
}
use arbeiterfarm.Base.Text.{Text, lit, text_eq, byte_len, starts_with, contains_text}
use arbeiterfarm.Agents.Chat.{
  ChatMessage, plain, part_tokens, sum32, estimate_content_tokens, message_tokens, estimate_tokens,
  tool,
}
use arbeiterfarm.Agents.Compaction.{
  CompactionPlan, last_user, calls_tools, belongs_to_group, walk_back,
  select_messages_for_compaction,
}
use arbeiterfarm.Agents.MessageStore.{
  Store, is_marked, mark_messages_compacted, insert_compaction_summary,
  get_thread_messages_compacted,
}
use arbeiterfarm.Agents.Preflight.{llm, ok, err}
use arbeiterfarm.Agents.Redaction.{RegexCrate, compiled, new_layer, redact, redact_json_values}
use arbeiterfarm.Base.Json.{Json, number, string, object, end, member}
use arbeiterfarm.Agents.Redaction.Leaves.{texts, blank, redact_json_values-leaves}
use arbeiterfarm.Agents.Trimming.{ContextCompacted, map_index_to_seq, mark_and_insert}
use arbeiterfarm.Agents.Trimming.Passes.{plan_seq}
use arbeiterfarm.Agents.Trimming.Sample.{hundredths, talk, before, small, no_faults, rows_before}
use arbeiterfarm.Agents.Summaries.{
  LlmBackend, role_label, shown_content, image_note, message_text, conversation_text,
  summary_message, compact_to, compact_messages, try_compact,
}

-- Every pattern matches a text with a key in it, as a whole.
abbrev keys : RegexCrate
keys = record {
  Regex = Text;
  new = λ pattern. some pattern;
  replace_all = λ r s replacement. if contains_text s (lit "sk-") then replacement else s;
}

abbrev prompt_of : List ChatMessage → Text
prompt_of [] = []
prompt_of (m ∷ []) = m.content
prompt_of (m ∷ m' ∷ rest) = drop 128 m'.content

abbrev cloud : LlmBackend
cloud = record { is_local = false; complete = λ request. ok (prompt_of request.messages) }

abbrev broken : LlmBackend
broken = record { is_local = true; complete = λ request. err (llm (lit "timeout")) }

abbrev first_key : List ChatMessage
first_key = plain tool (lit "sk-1") ∷ []

abbrev other_key : List ChatMessage
other_key = plain tool (lit "sk-2") ∷ []

same_redaction :
    redact keys (new_layer keys) (conversation_text first_key)
    ≡ redact keys (new_layer keys) (conversation_text other_key)
unfolding redact new_layer compiled conversation_text message_text shown_content role_label
    image_note contains_text starts_with byte_len
same_redaction = refl

abbrev report : Json
report = object (member (lit "key") (string (lit "sk-1")) (member (lit "n") (number (lit "1")) end))

redact_json_values-leaves_example :
    (texts (redact_json_values keys (new_layer keys) report)
      ≡ map (redact keys (new_layer keys)) (texts report))
    × (blank (redact_json_values keys (new_layer keys) report) ≡ blank report)
redact_json_values-leaves_example = redact_json_values-leaves keys report

abbrev plan : CompactionPlan
plan = record { compact_start = 1; compact_end = 4; message_count = 3 }

planned : select_messages_for_compaction talk ≡ some plan
unfolding select_messages_for_compaction last_user walk_back belongs_to_group calls_tools
planned = refl

abbrev answer : Text
answer = lit "A user asked."

abbrev local : LlmBackend
local = record { is_local = true; complete = λ request. ok answer }

abbrev compacted : Store
compacted = insert_compaction_summary answer 3 4 none (mark_messages_compacted 4 before)

abbrev compacted_talk : List ChatMessage
compacted_talk = take 1 talk ++ summary_message 3 answer ∷ drop 4 talk

abbrev event : ContextCompacted
event = record { estimated_tokens = 6212; messages_compacted = 3; context_window = 8000 }

run :
    try_compact keys hundredths talk [] small local none rows_before none no_faults before
    ≡ (ok (compacted_talk, event), compacted)
unfolding try_compact compact_to compact_messages plan_seq map_index_to_seq mark_and_insert
    select_messages_for_compaction last_user walk_back belongs_to_group calls_tools estimate_tokens
    sum32 message_tokens estimate_content_tokens byte_len part_tokens get_thread_messages_compacted
    is_marked mark_messages_compacted text_eq
run = refl

timeout :
    try_compact keys hundredths talk [] small broken none rows_before none no_faults before
    ≡ (err (llm (lit "timeout")), before)
unfolding try_compact compact_messages select_messages_for_compaction last_user walk_back
    belongs_to_group calls_tools
timeout = refl

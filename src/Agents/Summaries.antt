-- ===== src/Agents/Summaries.antt =====
-- `compact_messages` and `try_compact` of af/crates/af-agents/src/compaction.rs: the summary that a
-- model writes of the messages that are compacted. The model is a parameter.
pub mod Leaks
pub mod Outcome
pub mod Examples
use arbeiterfarm.Base.{
  ℕ, ◌-◌, ◌/◌, min, max, Bool, true, false, ◌&&◌, not, Option, none, some, List, [], ◌∷◌, ◌++◌, ltb,
  if◌then◌else◌, length, take, drop, keep,
}
use arbeiterfarm.Base.Text.{Text, lit, byte_len}
use arbeiterfarm.Base.Text.Decimal.{decimal}
use arbeiterfarm.Agents.Chat.{
  ChatRole, role_eq, ContentPart, ChatMessage, plain, ToolDescription, estimate_tokens, system,
  user, assistant, tool, text, image,
}
use arbeiterfarm.Agents.Compaction.{CompactionPlan, select_messages_for_compaction}
use arbeiterfarm.Agents.MessageStore.{MessageRow, Store}
use arbeiterfarm.Agents.Preflight.{Result, other, ok, err}
use arbeiterfarm.Agents.Redaction.{RegexCrate, new_layer, redact}
use arbeiterfarm.Agents.ThreadMemory.{floor_prefix}
use arbeiterfarm.Agents.Trimming.{Float, Faults, ContextCompacted, mark_and_insert, and_then}
use arbeiterfarm.Agents.Trimming.Passes.{plan_seq, CompactionContext, tokens_to_shed}

-- `CompletionRequest`; the temperature is in tenths.
pub record CompletionRequest : Type 0 where
  pub messages : List ChatMessage
  pub tools : List ToolDescription
  pub max_tokens : Option ℕ
  pub temperature : Option ℕ

-- What the code uses of an `LlmBackend`: `capabilities().is_local`, and the content that
-- `complete` answers or its error.
pub record LlmBackend : Type 0 where
  pub is_local : Bool
  pub complete : CompletionRequest → Result Text

unfoldable pub role_label : ChatRole → Text
role_label user = lit "User"
role_label assistant = lit "Assistant"
role_label tool = lit "Tool"
role_label system = lit "System"

-- Tool results are cut at 2 KB.
unfoldable pub shown_content : ChatMessage → Text
shown_content msg =
    if role_eq msg.role tool && ltb 2048 (byte_len msg.content)
    then floor_prefix 2048 msg.content ++ lit "... [truncated]"
    else msg.content

abbrev pub is_image : ContentPart → Bool
is_image (image data_ media) = true
is_image (text t) = false

unfoldable pub image_note : ChatMessage → Text
image_note msg = elim msg.content_parts [
  | none ↦ []
  | some parts ↦
      let image_count = length (keep is_image parts) in
      if ltb 0 image_count
      then lit "[" ++ (decimal image_count ++ lit " image(s) omitted from summary]\n\n")
      else []
]

unfoldable pub message_text : ChatMessage → Text
message_text msg =
    lit "["
    ++ (role_label msg.role ++ (lit "]: " ++ (shown_content msg ++ (lit "\n\n" ++ image_note msg))))

unfoldable pub conversation_text : List ChatMessage → Text
conversation_text [] = []
conversation_text (msg ∷ msgs) = message_text msg ++ conversation_text msgs

abbrev pub summarizer_prompt : Text
summarizer_prompt =
    lit "You are a conversation summarizer. Produce a concise summary of the conversation below. "
    ++ (lit "Preserve: key findings, artifact UUIDs (format: evidence:artifact:<uuid>), "
        ++ (lit "evidence references, tool call outcomes and important results. "
            ++ (lit "Omit: raw tool output data, verbose explanations, the system prompt content. "
                ++ lit "Write in factual, dense prose. Do not use bullet points.")))

unfoldable pub summary_request : ℕ → Text → CompletionRequest
summary_request max_summary_tokens conversation = record {
  messages =
      plain system summarizer_prompt
      ∷ plain user (
          lit "Summarize the following conversation in at most "
          ++ (decimal max_summary_tokens
              ++ (lit " tokens. Focus on preserving facts, findings, and references.\n\n---\n\n"
                  ++ conversation)))
      ∷ [];
  tools = [];
  max_tokens = some max_summary_tokens;
  temperature = some 2;
}

abbrev pub unwrap_or : Option LlmBackend → LlmBackend → LlmBackend
unwrap_or none backend = backend
unwrap_or (some b) backend = b

unfoldable pub summary_message : ℕ → Text → ChatMessage
summary_message message_count summary = plain user (
    lit "[Context Summary — "
    ++ (decimal message_count ++ (lit " earlier messages were summarized]\n\n" ++ summary)))

-- `(to_shed / 4).max(256).min(2048)`
unfoldable pub summary_tokens : ℕ → ℕ
summary_tokens to_shed = min (max (to_shed / 4) 256) 2048

unfoldable pub compacted_part : CompactionPlan → List ChatMessage → List ChatMessage
compacted_part plan messages =
    take (plan.compact_end - plan.compact_start) (drop plan.compact_start messages)

-- `try_compact` once a plan and a summary are there.
unfoldable pub compact_to :
    ℕ
    → ℕ
    → List ChatMessage
    → CompactionPlan
    → Text
    → List MessageRow
    → Option Text
    → Faults
    → Store
    → Result (List ChatMessage × ContextCompacted) × Store
compact_to estimated context_window messages plan summary history agent_name faults store =
    elim (plan_seq plan history) [
      | none ↦ (err (other (lit "no history rows for compaction")), store)
      | some up_to_seq ↦
          and_then
            (mark_and_insert faults (lit "mark compacted: ", lit "insert compaction summary: ")
              summary plan.message_count up_to_seq agent_name store)
            (λ done. (
              take 1 messages
                  ++ summary_message plan.message_count summary ∷ drop plan.compact_end messages,
              record {
                estimated_tokens = estimated;
                messages_compacted = plan.message_count;
                context_window = context_window;
              },
            ))
    ]

module _ (regex : RegexCrate) where
  -- The text that goes to the summarizer.
  unfoldable pub sent_text : LlmBackend → Text → Text
  sent_text summarizer conversation =
      if not summarizer.is_local then redact regex (new_layer regex) conversation else conversation

  unfoldable pub compact_messages :
      List ChatMessage → LlmBackend → Option LlmBackend → ℕ → Result Text
  compact_messages msgs backend summarization_backend max_summary_tokens =
      let summarizer = unwrap_or summarization_backend backend in
      summarizer.complete
        (summary_request max_summary_tokens (sent_text summarizer (conversation_text msgs)))

  unfoldable pub try_compact :
      (float : Float)
      → List ChatMessage
      → List ToolDescription
      → CompactionContext float
      → LlmBackend
      → Option LlmBackend
      → List MessageRow
      → Option Text
      → Faults
      → Store
      → Result (List ChatMessage × ContextCompacted) × Store
  try_compact float messages tools ctx backend summarization_backend history agent_name faults
        store =
      let estimated = estimate_tokens messages tools in
      elim (select_messages_for_compaction messages) [
        | none ↦ (err (other (lit "not enough messages to compact")), store)
        | some plan ↦
            elim (compact_messages (compacted_part plan messages) backend summarization_backend
              (summary_tokens (tokens_to_shed float ctx estimated))) [
                | err e ↦ (err e, store)
                | ok summary ↦
                    compact_to estimated ctx.context_window messages plan summary history agent_name
                      faults store
              ]
      ]

-- ===== src/Agents/Summaries/Leaks.antt =====
-- What a summarizer in the cloud gets to see.
use arbeiterfarm.Base.{ℕ, ◌≡◌, refl, ap, false, Option, List}
use arbeiterfarm.Agents.Chat.{ChatMessage}
use arbeiterfarm.Agents.Redaction.{RegexCrate, new_layer, redact}
use arbeiterfarm.Agents.Summaries.{
  LlmBackend, conversation_text, summary_request, unwrap_or, sent_text, compact_messages,
}

-- A summarizer that is not local sees redacted text alone: two conversations whose texts redact to
-- the same get the same answer from it.
pub compact_messages-cloud :
    (regex : RegexCrate) (msgs msgs' : List ChatMessage)
    → (backend : LlmBackend) (summarization_backend : Option LlmBackend) (n : ℕ)
    → (unwrap_or summarization_backend backend).is_local ≡ false
    → redact regex (new_layer regex) (conversation_text msgs)
      ≡ redact regex (new_layer regex) (conversation_text msgs')
    → compact_messages regex msgs backend summarization_backend n
      ≡ compact_messages regex msgs' backend summarization_backend n
unfolding compact_messages sent_text
compact_messages-cloud regex msgs msgs' backend summarization_backend n cloud same =
    let summarizer = unwrap_or summarization_backend backend in
    let sent : sent_text regex summarizer (conversation_text msgs)
        ≡ sent_text regex summarizer (conversation_text msgs') =
      unfold sent_text in rw (cloud, same) refl in
    ap (λ s. summarizer.complete (summary_request n s)) sent

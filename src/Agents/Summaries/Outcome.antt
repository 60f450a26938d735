-- ===== src/Agents/Summaries/Outcome.antt =====
-- What `try_compact` does to a conversation and to its rows.
use arbeiterfarm.Base.{
  ℕ, ◌-◌, ◌≤◌, ◌≡◌, refl, sym, ap, ◌⊎◌, inl, inr, Option, some, List, [], ◌∷◌, ◌++◌, Option-cases,
  take, drop, keep,
}
use arbeiterfarm.Base.Text.{Text, lit}
use arbeiterfarm.Agents.Chat.{ChatMessage, ToolDescription, estimate_tokens}
use arbeiterfarm.Agents.Compaction.{CompactionPlan, select_messages_for_compaction}
use arbeiterfarm.Agents.Compaction.Selection.{IsCut}
use arbeiterfarm.Agents.MessageStore.{MessageRow, Store, get_thread_messages_compacted}
use arbeiterfarm.Agents.Preflight.{AgentError, Result, ok, err}
use arbeiterfarm.Agents.Redaction.{RegexCrate}
use arbeiterfarm.Agents.Trimming.{Float, Faults}
use arbeiterfarm.Agents.Trimming.Passes.{plan_seq, CompactionContext, tokens_to_shed}
use arbeiterfarm.Agents.Trimming.Marks.{is_system_row}
use arbeiterfarm.Agents.Trimming.Rows.{IsFailed, mark_and_insert-IsFailed}
use arbeiterfarm.Agents.Summaries.{
  LlmBackend, summary_message, summary_tokens, compacted_part, compact_messages, compact_to,
  try_compact,
}

Result-cases {ℓ} :
    {A : Type ℓ} (r : Result A) → ((e : AgentError) × (r ≡ err e)) ⊎ ((a : A) × (r ≡ ok a))
Result-cases (err e) = inl (e, refl)
Result-cases (ok a) = inr (a, refl)

-- The messages up to the end of a plan replaced by a summary, in memory and in the rows.
pub record IsReplaced (messages : List ChatMessage) (plan : CompactionPlan) (summary : Text)
    (store store' : Store) (shorter : List ChatMessage) : Type 0 where
  pub rebuilt_as :
      shorter
      ≡ take 1 messages
        ++ summary_message plan.message_count summary ∷ drop plan.compact_end messages
  pub up_to_seq : ℕ
  pub row : MessageRow
  pub row_role : row.role ≡ lit "system"
  pub row_content : row.content ≡ some summary
  pub row_of : row.summary_of ≡ some (plan.message_count, up_to_seq)
  pub rows :
      get_thread_messages_compacted store'
      ≡ (keep is_system_row (take (plan.compact_end - 1) (get_thread_messages_compacted store))
          ++ drop (plan.compact_end - 1) (get_thread_messages_compacted store))
        ++ row ∷ []

-- A compaction that succeeds with a summary.
pub record IsCompacted (regex : RegexCrate) (messages : List ChatMessage) (backend : LlmBackend)
    (summarization_backend : Option LlmBackend) (store store' : Store) (shorter : List ChatMessage)
    : Type 0 where
  pub plan : CompactionPlan
  pub cut : IsCut messages plan
  pub max_tokens : ℕ
  pub summary : Text
  pub bounded : (256 ≤ max_tokens) × (max_tokens ≤ 2048)
  pub answered :
      compact_messages regex (compacted_part plan messages) backend summarization_backend max_tokens
      ≡ ok summary
  pub replaced : IsReplaced messages plan summary store store' shorter

compact_to-IsFailed :
    (estimated window : ℕ) (messages : List ChatMessage) (plan : CompactionPlan)
    → (summary : Text) (history : List MessageRow) (agent_name : Option Text) (faults : Faults)
    → (store store' : Store) (e : AgentError)
    → compact_to estimated window messages plan summary history agent_name faults store
      ≡ (err e, store')
    → IsFailed faults store store'
unfolding compact_to
compact_to-IsFailed estimated window messages plan summary history agent_name faults store store' e
      h =
    elim (Option-cases (plan_seq plan history)) [
      | inl q ↦ inl (sym (ap (λ x. x.1) (rw (q, compact_to) at h)))
      | inr (q, f) ↦
          mark_and_insert-IsFailed faults _ summary plan.message_count q agent_name _ store store' e
            (rw (f, compact_to) at h)
    ]

-- A compaction that fails leaves the rows as they were, or has marked rows and then failed to
-- insert their summary; where the model fails, it leaves them as they were.
pub try_compact-fails :
    (regex : RegexCrate) (float : Float) (messages : List ChatMessage)
    → (tools : List ToolDescription) (ctx : CompactionContext float) (backend : LlmBackend)
    → (summarization_backend : Option LlmBackend) (history : List MessageRow)
    → (agent_name : Option Text) (faults : Faults) (store store' : Store) (e : AgentError)
    → try_compact regex float messages tools ctx backend summarization_backend history agent_name
        faults store
      ≡ (err e, store')
    → IsFailed faults store store'
unfolding try_compact
try_compact-fails regex float messages tools ctx backend summarization_backend history agent_name
      faults store store' e h =
    elim (Option-cases (select_messages_for_compaction messages)) [
      | inl s ↦ inl (sym (ap (λ x. x.1) (rw (s, try_compact) at h)))
      | inr (plan, s) ↦
          elim (Result-cases (
            compact_messages regex (compacted_part plan messages) backend summarization_backend
              (summary_tokens (tokens_to_shed float ctx (estimate_tokens messages tools))))) [
                | inl (e', c) ↦ inl (sym (ap (λ x. x.1) (rw (s, c, try_compact) at h)))
                | inr (summary, c) ↦
                    compact_to-IsFailed (estimate_tokens messages tools) ctx.context_window messages
                      plan summary history agent_name faults store store' e
                      (rw (s, c, try_compact) at h)
              ]
    ]

-- ===== src/Agents/Trimming/Rows.antt =====
-- The rows that a sliding window leaves, and the ways in which marking and inserting fail.
use arbeiterfarm.Base.{
  ℕ, suc, ◌+◌, ◌-◌, ◌≤◌, ◌<◌, ◌≡◌, refl, sym, ap, ◌∙◌, ◌⊎◌, inl, inr, not, Option, some, List, [],
  ◌∷◌, ◌++◌, arith, Option-cases, length, take, drop, keep, keep-append,
}
use arbeiterfarm.Base.Text.{Text, lit}
use arbeiterfarm.Agents.Chat.{ChatMessage, ToolDescription}
use arbeiterfarm.Agents.Compaction.{detect_body_start, parse_turns}
use arbeiterfarm.Agents.MessageStore.{
  MessageRow, Store, mark_messages_compacted, insert_compaction_summary,
  get_thread_messages_compacted,
}
use arbeiterfarm.Agents.Preflight.{AgentError, Result, ok, err}
use arbeiterfarm.Agents.Trimming.{
  Float, Faults, Trimmed, seq_at, map_index_to_seq, tail_boundary, memory_or_default,
  mark_and_insert, and_then,
}
use arbeiterfarm.Agents.Trimming.Passes.{start_of, CompactionContext, sliding_window_trim}
use arbeiterfarm.Agents.Trimming.Marks.{Ascending, is_system_row, compacted-marks}
use arbeiterfarm.Agents.Trimming.Window.{trim_at-IsTrim, sliding-trim_at, report-count}

summary-row :
    (summary : Text) (count q : ℕ) (agent : Option Text) (store : Store)
    → (row : MessageRow) × (get_thread_messages_compacted
          (insert_compaction_summary summary count q agent store)
        ≡ get_thread_messages_compacted store ++ row ∷ [])
      × (row.role ≡ lit "system")
      × (row.content ≡ some summary)
      × (row.summary_of ≡ some (count, q))
unfolding get_thread_messages_compacted insert_compaction_summary
summary-row summary count q agent store =
    (_, keep-append (λ r. not r.compacted) store.rows _, refl, refl, refl)

pub body_start-pos : (messages : List ChatMessage) → 0 < detect_body_start messages
unfolding detect_body_start
body_start-pos [] = omega arith
body_start-pos (m ∷ []) = omega arith
body_start-pos (m ∷ m' ∷ rest) = ground arith

pub index_in_range :
    (e : ℕ) (history : List MessageRow)
    → 2 ≤ e
    → e - 2 < length history
    → map_index_to_seq e history ≡ seq_at history (e - 2)
unfolding map_index_to_seq
index_in_range e history two lt = ground (arith, two, lt)

-- The live rows once those up to the row before `e` are marked and the summary is inserted.
pub live_rows :
    (e q : ℕ) (marker : Text) (count : ℕ) (agent : Option Text) (store : Store)
    → let history = get_thread_messages_compacted store in
      Ascending store.rows
      → 2 ≤ e
      → e - 2 < length history
      → map_index_to_seq e history ≡ some q
      → (summary : MessageRow) × (summary.role ≡ lit "system")
        × (summary.content ≡ some marker)
        × (summary.summary_of ≡ some (count, q))
        × (get_thread_messages_compacted
              (insert_compaction_summary marker count q agent (mark_messages_compacted q store))
            ≡ (keep is_system_row (take (e - 1) history) ++ drop (e - 1) history) ++ summary ∷ [])
live_rows e q marker count agent store up two lt found =
    let history = get_thread_messages_compacted store in
    let row : seq_at history (e - 2) ≡ some q = sym (index_in_range e history two lt) ∙ found in
    let next : suc (e - 2) ≡ e - 1 = omega (arith, two) in
    let (summary, live, role, text, of) =
      summary-row marker count q agent (mark_messages_compacted q store) in
    (
      summary,
      role,
      text,
      of,
      live
          ∙ ap (λ rows. rows ++ summary ∷ [])
              (compacted-marks (e - 2) q store up row
                ∙ ap (λ n. keep is_system_row (take n history) ++ drop n history) next),
    )

-- After a window that trims `count` messages, where the context is the whole of the live rows of a
-- thread and sequence numbers rise: with `b` for 1, or 2 where a memory message stands in the
-- conversation, the first `count + b - 1` live rows are gone but for the system rows among them,
-- if there are so many; the rows behind stay, and the summary stands at the end. With a memory
-- message, one row more is gone than messages are trimmed.
pub sliding_window_trim-rows :
    (float : Float) (messages : List ChatMessage) (tools : List ToolDescription)
    → (agent_name : Option Text) (ctx : CompactionContext float)
    → (faults : Faults) (store : Store) (t : Trimmed) (store' : Store)
    → let history = get_thread_messages_compacted store in
      let gone = t.count + detect_body_start messages - 1 in
      Ascending store.rows
      → gone ≤ length history
      → sliding_window_trim float messages tools history agent_name ctx faults store
        ≡ (ok (some t), store')
      → (up_to_seq : ℕ) × (summary : MessageRow) × (summary.summary_of ≡ some (t.count, up_to_seq))
        × (get_thread_messages_compacted store'
            ≡ (keep is_system_row (take gone history) ++ drop gone history) ++ summary ∷ [])
sliding_window_trim-rows float messages tools agent_name ctx faults store t store' up le h =
    let turns = parse_turns messages (detect_body_start messages) in
    let k = tail_boundary turns in
    let history = get_thread_messages_compacted store in
    let gone = t.count + detect_body_start messages - 1 in
    let (pos, at) =
      sliding-trim_at float messages tools history agent_name ctx faults store t store' h in
    let i = trim_at-IsTrim tools messages history agent_name turns k faults store t store' at in
    let count = report-count tools messages turns k (memory_or_default faults store) t i.report in
    let some_trimmed : 0 < t.count = ground (arith, i.nonempty) in
    let end : start_of turns k - 1 ≡ gone =
      omega (arith, count, some_trimmed, body_start-pos messages) in
    let (summary, role, text, of, live) =
      live_rows (start_of turns k) i.up_to_seq i.marker t.count agent_name store up
        (omega (arith, count, some_trimmed, body_start-pos messages))
        (omega (arith, count, some_trimmed, le, body_start-pos messages)) i.row_found in
    (
      i.up_to_seq,
      summary,
      of,
      ap get_thread_messages_compacted i.stored
          ∙ live
          ∙ ap (λ n. (keep is_system_row (take n history) ++ drop n history) ++ summary ∷ []) end,
    )

mark_and_insert-err :
    (faults : Faults) (labels : Text × Text) (summary : Text) (count q : ℕ) (agent : Option Text)
    → (store store' : Store) (e : AgentError)
    → mark_and_insert faults labels summary count q agent store ≡ (err e, store')
    → (store' ≡ store)
      ⊎ ((m : Text) × (faults.insert ≡ some m) × (store' ≡ mark_messages_compacted q store))
unfolding mark_and_insert
mark_and_insert-err faults labels summary count q agent store store' e h =
    elim (Option-cases faults.mark) [
      | inr (m, f) ↦ inl (ground (arith, h, f))
      | inl f ↦ elim (Option-cases faults.insert) [
        | inr (m, i) ↦ inr (m, i, ground (arith, h, f, i))
        | inl i ↦ absurd (ground (arith, h, f, i))
      ]
    ]

err_injective {ℓ} : {A : Type ℓ} (e e' : AgentError) → ◌≡◌ {A = Result A} (err e) (err e') → e ≡ e'
err_injective e e' h = cc

pub and_then-err {ℓ κ} :
    {A : Type ℓ} {B : Type κ} (r : Result A × Store) (f : A → B) (e : AgentError) (store' : Store)
    → and_then r f ≡ (err e, store')
    → r ≡ (err e, store')
and_then-err (err e', s) f e store' h =
    ap (λ x. (err x, s)) (err_injective e' e (ap (λ x. x.0) h))
    ∙ ap (λ s'. (err e, s')) (ap (λ x. x.1) h)
and_then-err (ok a, s) f e store' h = absurd (ground (arith, ap (λ x. x.0) h))

-- The ways in which a pass over a thread leaves its store when it fails.
abbrev pub IsFailed : Faults → Store → Store → Type 0
IsFailed faults store store' =
    (store' ≡ store)
    ⊎ ((m : Text) × (q : ℕ) × (faults.insert ≡ some m) × (store' ≡ mark_messages_compacted q store))

pub mark_and_insert-IsFailed :
    {A : Type 0} (faults : Faults) (labels : Text × Text) (summary : Text) (count q : ℕ)
    → (agent : Option Text) (f : Unit {0} → A) (store store' : Store) (e : AgentError)
    → and_then (mark_and_insert faults labels summary count q agent store) f ≡ (err e, store')
    → IsFailed faults store store'
mark_and_insert-IsFailed faults labels summary count q agent f store store' e h =
    elim (mark_and_insert-err faults labels summary count q agent store store' e
      (and_then-err _ f e store' h)) [ inl same ↦ inl same | inr (m, i, s) ↦ inr (m, q, i, s) ]

-- ===== src/Agents/Trimming/Window.antt =====
-- What a sliding window that trims has done.
use arbeiterfarm.Base.{
  ℕ, ◌-◌, ◌<◌, ◌≡◌, sym, ap, subst, ◌≢◌, inl, inr, Option, some, List, arith, ltb, leb, ◌==◌,
  Bool-cases, Option-cases, some_injective, length,
}
use arbeiterfarm.Base.Text.{Text, lit}
use arbeiterfarm.Agents.Chat.{ChatMessage, ToolDescription, estimate_tokens}
use arbeiterfarm.Agents.Compaction.{detect_body_start, Turn, parse_turns}
use arbeiterfarm.Agents.MessageStore.{
  MessageRow, Store, mark_messages_compacted, insert_compaction_summary,
}
use arbeiterfarm.Agents.Preflight.{Result, ok, err}
use arbeiterfarm.Agents.Trimming.{
  Float, Faults, Trimmed, map_index_to_seq, tail_boundary, memory_or_default, mark_and_insert,
  and_then,
}
use arbeiterfarm.Agents.Trimming.Passes.{
  window_marker, start_of, trim_report, trim_at, CompactionContext, budget, sliding_window_trim,
}

-- A trim that succeeds at the turn `boundary`.
pub record IsTrim (tools : List ToolDescription) (messages : List ChatMessage)
    (history : List MessageRow) (agent_name : Option Text) (turns : List Turn) (boundary : ℕ)
    (faults : Faults) (store : Store) (t : Trimmed) (store' : Store) : Type 0 where
  pub up_to_seq : ℕ
  pub marker : Text
  pub nonempty : t.count ≢ 0
  pub report : trim_report tools messages turns boundary (memory_or_default faults store) ≡ t
  pub row_found : map_index_to_seq (start_of turns boundary) history ≡ some up_to_seq
  pub stored :
      store'
      ≡ insert_compaction_summary marker t.count up_to_seq agent_name
          (mark_messages_compacted up_to_seq store)

pub mark_and_insert-ok :
    (faults : Faults) (labels : Text × Text) (summary : Text) (count q : ℕ) (agent : Option Text)
    → (store store' : Store) (u : Unit {0})
    → mark_and_insert faults labels summary count q agent store ≡ (ok u, store')
    → store' ≡ insert_compaction_summary summary count q agent (mark_messages_compacted q store)
unfolding mark_and_insert
mark_and_insert-ok faults labels summary count q agent store store' u h =
    elim (Option-cases faults.mark) [
      | inr (e, m) ↦ absurd (ground (arith, h, m))
      | inl m ↦ elim (Option-cases faults.insert) [
        | inr (e, i) ↦ absurd (ground (arith, h, m, i))
        | inl i ↦ ground (arith, h, m, i)
      ]
    ]

ok_injective {ℓ} : {A : Type ℓ} (a b : A) → ok a ≡ ok b → a ≡ b
ok_injective a b h = cc

pub and_then-ok {ℓ κ} :
    {A : Type ℓ} {B : Type κ} (r : Result A × Store) (f : A → B) (b : B) (store' : Store)
    → and_then r f ≡ (ok b, store')
    → (a : A) × (r ≡ (ok a, store')) × (f a ≡ b)
and_then-ok (err e, s) f b store' h = absurd (ground (arith, ap (λ x. x.0) h))
and_then-ok (ok a, s) f b store' h =
    (a, ap (λ s'. (ok a, s')) (ap (λ x. x.1) h), ok_injective (f a) b (ap (λ x. x.0) h))

pub trim_at-IsTrim :
    (tools : List ToolDescription) (messages : List ChatMessage) (history : List MessageRow)
    → (agent_name : Option Text) (turns : List Turn) (boundary : ℕ) (faults : Faults)
    → (store : Store) (t : Trimmed) (store' : Store)
    → trim_at tools messages history agent_name turns boundary faults store ≡ (ok (some t), store')
    → IsTrim tools messages history agent_name turns boundary faults store t store'
unfolding trim_at
trim_at-IsTrim tools messages history agent_name turns boundary faults store t store' h =
    let pairs = memory_or_default faults store in
    let report = trim_report tools messages turns boundary pairs in
    elim (Bool-cases (report.count == 0)) [
      | inl z ↦ absurd (ground (arith, ap (λ x. x.0) (rw (z, trim_at) at h)))
      | inr z ↦ elim (Option-cases (map_index_to_seq (start_of turns boundary) history)) [
        | inl m ↦ absurd (ground (arith, ap (λ x. x.0) (rw (z, m, trim_at) at h)))
        | inr (q, m) ↦
            let (u, done, same) =
              and_then-ok _ (λ done. some report) (some t) store' (rw (z, m, trim_at) at h) in
            let marker =
              window_marker report.metadata.pre_tokens boundary report.metadata.turns_kept pairs in
            let labels : Text × Text =
              (lit "sliding window mark compacted: ", lit "sliding window insert summary: ") in
            let is_t : report ≡ t = some_injective report t same in
            record {
              up_to_seq = q;
              marker = marker;
              nonempty = λ e. ground (arith, z, e, ap (λ r. r.count) is_t);
              report = is_t;
              row_found = m;
              stored =
                  subst
                    (λ r.
                      store'
                      ≡ insert_compaction_summary marker r.count q agent_name
                          (mark_messages_compacted q store))
                    is_t
                    (mark_and_insert-ok faults labels marker report.count q agent_name store store'
                      u done);
            }
      ]
    ]

-- The sliding window trims only behind its three tests.
pub sliding-trim_at :
    (float : Float) (messages : List ChatMessage) (tools : List ToolDescription)
    → (history : List MessageRow) (agent_name : Option Text) (ctx : CompactionContext float)
    → (faults : Faults) (store : Store) (t : Trimmed) (store' : Store)
    → sliding_window_trim float messages tools history agent_name ctx faults store
      ≡ (ok (some t), store')
    → let turns = parse_turns messages (detect_body_start messages) in
      (0 < tail_boundary turns)
      × (trim_at tools messages history agent_name turns (tail_boundary turns) faults store
          ≡ (ok (some t), store'))
unfolding sliding_window_trim
sliding-trim_at float messages tools history agent_name ctx faults store t store' h =
    let turns = parse_turns messages (detect_body_start messages) in
    elim (Bool-cases
      (leb (estimate_tokens messages tools) (float.scale (budget float ctx) float.half))) [
        | inl a ↦ absurd (ground (arith, ap (λ x. x.0) (rw (a, sliding_window_trim) at h)))
        | inr a ↦ elim (Bool-cases (ltb (length turns) 2)) [
          | inl b ↦ absurd (ground (arith, ap (λ x. x.0) (rw (a, b, sliding_window_trim) at h)))
          | inr b ↦ elim (Bool-cases (tail_boundary turns == 0)) [
            | inl c ↦
                absurd (ground (arith, ap (λ x. x.0) (rw (a, b, c, sliding_window_trim) at h)))
            | inr c ↦ (ground (arith, c), rw (a, b, c, sliding_window_trim) at h)
          ]
        ]
      ]

pub report-count :
    (tools : List ToolDescription) (messages : List ChatMessage) (turns : List Turn) (k : ℕ)
    → (pairs : List (Text × Text)) (t : Trimmed) → trim_report tools messages turns k pairs ≡ t
    → t.count ≡ start_of turns k - detect_body_start messages
unfolding trim_report
report-count tools messages turns k pairs t e = sym (ap (λ r. r.count) e)

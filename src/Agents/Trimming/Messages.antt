-- ===== src/Agents/Trimming/Messages.antt =====
-- The conversation that a sliding window leaves.
use mathlib.Core.List.{append_assoc}
use arbeiterfarm.Base.{
  ℕ, ◌+◌, ◌<◌, ◌≡◌, refl, sym, ap, ap₂, ◌∙◌, inl, inr, true, Option, some, List, [], ◌∷◌, ◌++◌,
  arith, Bool-cases, length, take, drop, length-append,
}
use arbeiterfarm.Base.Text.{Text}
use arbeiterfarm.Agents.Chat.{ChatMessage, ToolDescription}
use arbeiterfarm.Agents.Compaction.{is_memory, detect_body_start, Turn, turns_loop, parse_turns}
use arbeiterfarm.Agents.MessageStore.{MessageRow, Store}
use arbeiterfarm.Agents.Preflight.{ok}
use arbeiterfarm.Agents.Trimming.{
  Float, Faults, Trimmed, tail_walk, tail_boundary, memory_or_default, memory_part, rebuilt,
}
use arbeiterfarm.Agents.Trimming.Passes.{
  start_of, trim_report, CompactionContext, sliding_window_trim,
}
use arbeiterfarm.Agents.Trimming.Kept.{starts_request, tail_boundary-lt, parse_turns-tail}
use arbeiterfarm.Agents.Trimming.Tail.{}
use arbeiterfarm.Agents.Trimming.Marks.{}
use arbeiterfarm.Agents.Trimming.Window.{trim_at-IsTrim, sliding-trim_at, report-count}

head-length :
    (m : ChatMessage) (rest : List ChatMessage)
    → (head body : List ChatMessage) × (m ∷ rest ≡ head ++ body)
      × (detect_body_start (m ∷ rest) ≡ length head)
      × (0 < length head)
unfolding detect_body_start
head-length m [] = (m ∷ [], [], refl, refl, omega arith)
head-length m (m' ∷ rest) = elim (Bool-cases (is_memory m')) [
  | inl e ↦ (m ∷ m' ∷ [], rest, refl, rw e refl, omega arith)
  | inr e ↦ (m ∷ [], m' ∷ rest, refl, rw e refl, omega arith)
]

drop-length : (xs ys : List ChatMessage) → drop (length xs) (xs ++ ys) ≡ ys
drop-length [] ys = refl
drop-length (x ∷ xs) ys = drop-length xs ys

no_boundary : tail_boundary (parse_turns [] (detect_body_start [])) ≡ 0
unfolding tail_boundary tail_walk parse_turns turns_loop detect_body_start
no_boundary = refl

report-messages :
    (tools : List ToolDescription) (messages : List ChatMessage) (turns : List Turn) (k : ℕ)
    → (pairs : List (Text × Text)) (t : Trimmed) (tail : List ChatMessage)
    → trim_report tools messages turns k pairs ≡ t
    → drop (start_of turns k) messages ≡ tail
    → t.messages ≡ take 1 messages ++ (memory_part pairs ++ tail)
unfolding trim_report rebuilt
report-messages tools messages turns k pairs t tail e b =
    sym (ap (λ r. r.messages) e) ∙ ap (λ s. take 1 messages ++ (memory_part pairs ++ s)) b

-- Where the window trims, it drops messages behind the system prompt and the memory message, at
-- least one, and keeps a tail that starts with a real user message. The new conversation is the
-- first message, the rendered memory and that tail.
pub sliding_window_trim-tail :
    (float : Float) (messages : List ChatMessage) (tools : List ToolDescription)
    → (history : List MessageRow) (agent_name : Option Text) (ctx : CompactionContext float)
    → (faults : Faults) (store : Store) (t : Trimmed) (store' : Store)
    → sliding_window_trim float messages tools history agent_name ctx faults store
      ≡ (ok (some t), store')
    → (dropped tail : List ChatMessage) × (messages ≡ dropped ++ tail)
      × (length dropped ≡ detect_body_start messages + t.count)
      × (0 < t.count)
      × (starts_request tail ≡ true)
      × (t.messages ≡ take 1 messages ++ (memory_part (memory_or_default faults store) ++ tail))
sliding_window_trim-tail float [] tools history agent_name ctx faults store t store' h = absurd (
    omega (
      arith,
      (sliding-trim_at float [] tools history agent_name ctx faults store t store' h).0,
      no_boundary,
    ))
sliding_window_trim-tail float (m ∷ rest) tools history agent_name ctx faults store t store' h =
    let messages = m ∷ rest in
    let turns = parse_turns messages (detect_body_start messages) in
    let (pos, at) =
      sliding-trim_at float messages tools history agent_name ctx faults store t store' h in
    let i =
      trim_at-IsTrim tools messages history agent_name turns (tail_boundary turns) faults store t
        store' at in
    let (head, body, parts, starts, some_head) = head-length m rest in
    let k = tail_boundary turns in
    let same : turns ≡ parse_turns (head ++ body) (length head) = ap₂ parse_turns parts starts in
    let lt : k < length (parse_turns (head ++ body) (length head)) =
      omega (arith, tail_boundary-lt turns pos, ap length same) in
    let (pre, tail, cut, at_start, request) = parse_turns-tail head body k pos lt in
    let whole : messages ≡ (head ++ pre) ++ tail =
      parts ∙ ap (λ s. head ++ s) cut ∙ sym (append_assoc head pre tail) in
    let start : start_of turns k ≡ length (head ++ pre) =
      omega (arith, ap (λ ts. start_of ts k) same, at_start, length-append head pre) in
    let behind : drop (start_of turns k) messages ≡ tail =
      ap₂ drop start whole ∙ drop-length (head ++ pre) tail in
    let count = report-count tools messages turns k (memory_or_default faults store) t i.report in
    (
      head ++ pre,
      tail,
      whole,
      omega (arith, count, start, starts, length-append head pre),
      ground (arith, i.nonempty),
      request,
      report-messages tools messages turns k (memory_or_default faults store) t tail i.report
          behind,
    )

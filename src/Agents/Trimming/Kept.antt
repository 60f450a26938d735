-- ===== src/Agents/Trimming/Kept.antt =====
-- The messages from a turn on, and how they start.
use mathlib.Core.List.{flatten, append_assoc}
use arbeiterfarm.Base.{
  ℕ, zero, suc, ◌+◌, ◌<◌, ◌≡◌, refl, sym, ap, ◌∙◌, inl, inr, Bool, true, false, ◌&&◌, not, some,
  List, [], ◌∷◌, ◌++◌, arith, Bool-cases, Option-cases, length, take, drop, is_empty, length-append,
  All,
}
use arbeiterfarm.Agents.Chat.{ChatMessage}
use arbeiterfarm.Agents.Compaction.{is_real_user, Turn, parse_turns}
use arbeiterfarm.Agents.Compaction.Turns.{
  cut_turns, describe, cut_turns-cut, cut_turns-open, parse_turns-describe,
}
use arbeiterfarm.Agents.Compaction.Runs.{flatten-cut_turns}
use arbeiterfarm.Agents.Trimming.{tail_boundary}
use arbeiterfarm.Agents.Trimming.Passes.{start_of}
use arbeiterfarm.Agents.Trimming.Tail.{last_sufficient, index_or_zero, tail_boundary-last}

-- The messages start with a real user message.
abbrev pub starts_request : List ChatMessage → Bool
starts_request [] = false
starts_request (m ∷ rest) = is_real_user m

abbrev Headed : List (List ChatMessage) → Type 0
Headed = All (λ run. starts_request run ≡ true)

cut_turns-Headed :
    (c : ChatMessage) (cur todo : List ChatMessage)
    → is_real_user c ≡ true
    → Headed (cut_turns (c ∷ cur) todo)
cut_turns-Headed c cur [] h = unfold cut_turns in (h, tt)
cut_turns-Headed c cur (m ∷ todo) h = elim (Bool-cases (is_real_user m)) [
  | inl e ↦
      rw (cut_turns-cut (c ∷ cur) m todo (ground (arith, e))) (h, cut_turns-Headed m [] todo e)
  | inr e ↦
      rw (cut_turns-open (c ∷ cur) m todo (ground (arith, e)))
        (cut_turns-Headed c (cur ++ m ∷ []) todo h)
]

cut_turns-later : (cur todo : List ChatMessage) → Headed (drop 1 (cut_turns cur todo))
cut_turns-later [] [] = unfold cut_turns in tt
cut_turns-later (c ∷ cur) [] = unfold cut_turns in tt
cut_turns-later cur (m ∷ todo) = elim (Bool-cases (is_real_user m && not (is_empty cur))) [
  | inl e ↦ rw (cut_turns-cut cur m todo e) (cut_turns-Headed m [] todo (ground (arith, e)))
  | inr e ↦ rw (cut_turns-open cur m todo e) (cut_turns-later (cur ++ m ∷ []) todo)
]

Headed-drop :
    (k : ℕ) (runs : List (List ChatMessage)) → 0 < k → Headed (drop 1 runs) → Headed (drop k runs)
Headed-drop zero runs lt h = absurd (omega (arith, lt))
Headed-drop (suc k) [] lt h = tt
Headed-drop (suc k) (r ∷ runs) lt h = dropped k runs h
  where
    dropped : (k : ℕ) (runs : List (List ChatMessage)) → Headed runs → Headed (drop k runs)
    dropped zero runs h = h
    dropped (suc k) [] h = tt
    dropped (suc k) (r ∷ runs) h = dropped k runs h.1

flatten-starts :
    (k : ℕ) (runs : List (List ChatMessage))
    → k < length runs
    → Headed (drop k runs)
    → starts_request (flatten (drop k runs)) ≡ true
unfolding flatten
flatten-starts k [] lt h = absurd (omega (arith, lt))
flatten-starts zero ([] ∷ runs) lt h = absurd (ground (arith, h.0))
flatten-starts zero ((m ∷ r) ∷ runs) lt h = h.0
flatten-starts (suc k) (r ∷ runs) lt h = flatten-starts k runs (omega (arith, lt)) h

length-describe :
    (lo : ℕ) (runs : List (List ChatMessage)) → length (describe lo runs) ≡ length runs
unfolding describe
length-describe lo [] = refl
length-describe lo (r ∷ runs) = ap suc (length-describe (lo + length r) runs)

start_of-describe :
    (lo k : ℕ) (runs : List (List ChatMessage))
    → k < length runs
    → start_of (describe lo runs) k ≡ lo + length (flatten (take k runs))
unfolding describe start_of flatten
start_of-describe lo k [] lt = absurd (omega (arith, lt))
start_of-describe lo zero (r ∷ runs) lt = omega arith
start_of-describe lo (suc k) (r ∷ runs) lt =
    start_of-describe (lo + length r) k runs (omega (arith, lt))
    ∙ omega (arith, length-append r (flatten (take k runs)))

flatten-take-drop :
    (k : ℕ) (runs : List (List ChatMessage))
    → flatten runs ≡ flatten (take k runs) ++ flatten (drop k runs)
unfolding flatten
flatten-take-drop zero runs = refl
flatten-take-drop (suc k) [] = refl
flatten-take-drop (suc k) (r ∷ runs) =
    ap (λ s. r ++ s) (flatten-take-drop k runs)
    ∙ sym (append_assoc r (flatten (take k runs)) (flatten (drop k runs)))

last_sufficient-lt : (turns : List Turn) (k : ℕ) → last_sufficient turns ≡ some k → k < length turns
unfolding last_sufficient
last_sufficient-lt [] k h = absurd (ground (arith, h))
last_sufficient-lt (t ∷ later) k h = elim (Option-cases (last_sufficient later)) [
  | inl e ↦ ground (arith, e, h)
  | inr (j, e) ↦ ground (arith, e, h, last_sufficient-lt later j e)
]

pub tail_boundary-lt :
    (turns : List Turn) → 0 < tail_boundary turns → tail_boundary turns < length turns
tail_boundary-lt turns h = elim (Option-cases (last_sufficient turns)) [
  | inl e ↦ absurd (omega (arith, h, tail_boundary-last turns, ap index_or_zero e))
  | inr (k, e) ↦
      omega (arith, tail_boundary-last turns, ap index_or_zero e, last_sufficient-lt turns k e)
]

-- The messages behind a turn boundary that is not the first one.
pub parse_turns-tail :
    (head body : List ChatMessage) (k : ℕ)
    → 0 < k
    → k < length (parse_turns (head ++ body) (length head))
    → (pre tail : List ChatMessage) × (body ≡ pre ++ tail)
      × (start_of (parse_turns (head ++ body) (length head)) k ≡ length head + length pre)
      × (starts_request tail ≡ true)
parse_turns-tail head body k pos lt =
    let runs = cut_turns [] body in
    let same = parse_turns-describe head body in
    let small : k < length runs =
      omega (arith, lt, ap length same, length-describe (length head) runs) in
    (
      flatten (take k runs),
      flatten (drop k runs),
      sym (flatten-cut_turns [] body) ∙ flatten-take-drop k runs,
      ap (λ t. start_of t k) same ∙ start_of-describe (length head) k runs small,
      flatten-starts k runs small (Headed-drop k runs pos (cut_turns-later [] body)),
    )

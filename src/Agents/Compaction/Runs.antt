-- ===== src/Agents/Compaction/Runs.antt =====
-- The runs of messages that the turns of `parse_turns` stand for.
use mathlib.Core.List.{flatten}
use arbeiterfarm.Base.{
  ◌≡◌, refl, sym, ap, ◌∙◌, inl, inr, Bool, true, false, ◌&&◌, not, List, [], ◌∷◌, ◌++◌, arith,
  Bool-cases, length, any, is_empty, All, any-append,
}
use arbeiterfarm.Agents.Chat.{ChatMessage}
use arbeiterfarm.Agents.Compaction.{is_real_user, parse_turns}
use arbeiterfarm.Agents.Compaction.Turns.{
  cut_turns, describe, snoc_append, cut_turns-cut, cut_turns-open, parse_turns-describe,
}

-- No turn is empty.
abbrev pub NoneEmpty : List (List ChatMessage) → Type 0
NoneEmpty = All (λ run. is_empty run ≡ false)

-- Within a run, no real user message but at its start.
abbrev pub OneRequest : List ChatMessage → Type 0
OneRequest [] = Unit
OneRequest (m ∷ run) = any is_real_user run ≡ false

-- A run that a real user message starts.
abbrev pub opens_turn : List ChatMessage → Bool
opens_turn [] = false
opens_turn (m ∷ run) = is_real_user m

-- Every run but the first starts with a real user message.
abbrev pub LaterOpen : List (List ChatMessage) → Type 0
LaterOpen [] = Unit
LaterOpen (run ∷ runs) = All (λ r. opens_turn r ≡ true) runs

snoc_nonempty : (cur : List ChatMessage) (m : ChatMessage) → is_empty (cur ++ m ∷ []) ≡ false
snoc_nonempty [] m = refl
snoc_nonempty (c ∷ cur) m = refl

cut_turns-NoneEmpty : (cur todo : List ChatMessage) → NoneEmpty (cut_turns cur todo)
cut_turns-NoneEmpty [] [] = unfold cut_turns in tt
cut_turns-NoneEmpty (c ∷ cur) [] = unfold cut_turns in (refl, tt)
cut_turns-NoneEmpty cur (m ∷ todo) = elim (Bool-cases (is_real_user m && not (is_empty cur))) [
  | inl c ↦ rw (cut_turns-cut cur m todo c) (ground arith, cut_turns-NoneEmpty (m ∷ []) todo)
  | inr c ↦ rw (cut_turns-open cur m todo c) (cut_turns-NoneEmpty (cur ++ m ∷ []) todo)
]

OneRequest-snoc :
    (cur : List ChatMessage) (m : ChatMessage)
    → OneRequest cur
    → (is_real_user m && not (is_empty cur)) ≡ false
    → OneRequest (cur ++ m ∷ [])
OneRequest-snoc [] m o c = refl
OneRequest-snoc (x ∷ cur) m o c = ground (arith, any-append is_real_user cur (m ∷ []))

cut_turns-OneRequest :
    (cur todo : List ChatMessage) → OneRequest cur → All OneRequest (cut_turns cur todo)
cut_turns-OneRequest [] [] o = unfold cut_turns in tt
cut_turns-OneRequest (c ∷ cur) [] o = unfold cut_turns in (o, tt)
cut_turns-OneRequest cur (m ∷ todo) o = elim (Bool-cases (is_real_user m && not (is_empty cur))) [
  | inl c ↦ rw (cut_turns-cut cur m todo c) (o, cut_turns-OneRequest (m ∷ []) todo refl)
  | inr c ↦
      rw (cut_turns-open cur m todo c)
        (cut_turns-OneRequest (cur ++ m ∷ []) todo (OneRequest-snoc cur m o c))
]

opens_turn-snoc :
    (cur : List ChatMessage) (m : ChatMessage)
    → opens_turn cur ≡ true
    → opens_turn (cur ++ m ∷ []) ≡ true
opens_turn-snoc [] m o = absurd (ground (arith, o))
opens_turn-snoc (c ∷ cur) m o = o

cut_turns-open_all :
    (cur todo : List ChatMessage)
    → opens_turn cur ≡ true
    → All (λ r. opens_turn r ≡ true) (cut_turns cur todo)
cut_turns-open_all [] [] o = unfold cut_turns in tt
cut_turns-open_all (c ∷ cur) [] o = unfold cut_turns in (o, tt)
cut_turns-open_all cur (m ∷ todo) o = elim (Bool-cases (is_real_user m && not (is_empty cur))) [
  | inl c ↦
      rw (cut_turns-cut cur m todo c) (o, cut_turns-open_all (m ∷ []) todo (ground (arith, c)))
  | inr c ↦
      rw (cut_turns-open cur m todo c)
        (cut_turns-open_all (cur ++ m ∷ []) todo (opens_turn-snoc cur m o))
]

cut_turns-LaterOpen : (cur todo : List ChatMessage) → LaterOpen (cut_turns cur todo)
cut_turns-LaterOpen [] [] = unfold cut_turns in tt
cut_turns-LaterOpen (c ∷ cur) [] = unfold cut_turns in tt
cut_turns-LaterOpen cur (m ∷ todo) = elim (Bool-cases (is_real_user m && not (is_empty cur))) [
  | inl c ↦ rw (cut_turns-cut cur m todo c) (cut_turns-open_all (m ∷ []) todo (ground (arith, c)))
  | inr c ↦ rw (cut_turns-open cur m todo c) (cut_turns-LaterOpen (cur ++ m ∷ []) todo)
]

pub flatten-cut_turns : (cur todo : List ChatMessage) → flatten (cut_turns cur todo) ≡ cur ++ todo
unfolding flatten
flatten-cut_turns [] [] = unfold cut_turns in refl
flatten-cut_turns (c ∷ cur) [] = unfold cut_turns in refl
flatten-cut_turns cur (m ∷ todo) = elim (Bool-cases (is_real_user m && not (is_empty cur))) [
  | inl c ↦ rw (cut_turns-cut cur m todo c) (ap (λ r. cur ++ r) (flatten-cut_turns (m ∷ []) todo))
  | inr c ↦
      rw (cut_turns-open cur m todo c)
        (flatten-cut_turns (cur ++ m ∷ []) todo ∙ sym (snoc_append cur todo m))
]

-- `parse_turns` splits the body, from its start on, into runs of messages that follow one another
-- and together are the body. No run is empty, none has a real user message behind its first
-- message, and every run but the first starts with one. A turn gives the first and the exclusive last index of its run, the sum of the
-- estimates with four tokens for each message, and whether a real user message is in the run.
pub parse_turns_runs :
    (head body : List ChatMessage)
    → (runs : List (List ChatMessage)) × (flatten runs ≡ body)
      × NoneEmpty runs
      × All OneRequest runs
      × LaterOpen runs
      × (parse_turns (head ++ body) (length head) ≡ describe (length head) runs)
parse_turns_runs head body = (
  cut_turns [] body,
  flatten-cut_turns [] body,
  cut_turns-NoneEmpty [] body,
  cut_turns-OneRequest [] body tt,
  cut_turns-LaterOpen [] body,
  parse_turns-describe head body,
)

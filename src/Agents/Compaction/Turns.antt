-- ===== src/Agents/Compaction/Turns.antt =====
-- `parse_turns` against its description: the body cut before each real user message.
use mathlib.Core.List.{append_assoc}
use arbeiterfarm.Base.{
  ℕ, ◌+◌, ◌-◌, ◌≡◌, refl, sym, ap, ap₂, ◌∙◌, inl, inr, Bool, true, false, ◌&&◌, ◌||◌, not, List, [],
  ◌∷◌, ◌++◌, arith, ltb, if◌then◌else◌, Bool-cases, length, take, drop, any, is_empty,
  length-append, any-append,
}
use arbeiterfarm.Agents.Chat.{ChatMessage}
use arbeiterfarm.Agents.Compaction.{
  is_real_user, Turn, slice, slice_tokens, close_turn, turns_loop, parse_turns,
}

-- The body cut before each real user message that something precedes; `cur` is the open turn.
unfoldable pub cut_turns : List ChatMessage → List ChatMessage → List (List ChatMessage)
cut_turns cur [] = if is_empty cur then [] else cur ∷ []
cut_turns cur (m ∷ todo) = elim (is_real_user m && not (is_empty cur)) [
  | true ↦ cur ∷ cut_turns (m ∷ []) todo
  | false ↦ cut_turns (cur ++ m ∷ []) todo
]

-- The turns that stand for consecutive runs of messages from index `lo` on.
unfoldable pub describe : ℕ → List (List ChatMessage) → List Turn
describe lo [] = []
describe lo (run ∷ runs) =
    record {
      start = lo;
      end = lo + length run;
      tokens = slice_tokens run;
      has_user_request = any is_real_user run;
    }
    ∷ describe (lo + length run) runs

drop-append : (pre rest : List ChatMessage) → drop (length pre) (pre ++ rest) ≡ rest
drop-append [] rest = refl
drop-append (m ∷ pre) rest = drop-append pre rest

take-append : (cur rest : List ChatMessage) → take (length cur) (cur ++ rest) ≡ cur
take-append [] rest = refl
take-append (m ∷ cur) rest = ap (λ r. m ∷ r) (take-append cur rest)

slice_middle :
    (pre cur rest : List ChatMessage)
    → slice (length pre) (length pre + length cur) (pre ++ (cur ++ rest)) ≡ cur
slice_middle pre cur rest =
    let e : length pre + length cur - length pre ≡ length cur = omega arith in
    rw (e, drop-append pre (cur ++ rest)) (take-append cur rest)

pub snoc_append :
    (cur todo : List ChatMessage) (m : ChatMessage) → cur ++ m ∷ todo ≡ (cur ++ m ∷ []) ++ todo
snoc_append cur todo m = sym (append_assoc cur (m ∷ []) todo)

close_turn-middle :
    (messages pre cur rest : List ChatMessage) (start i : ℕ) (b : Bool)
    → messages ≡ pre ++ (cur ++ rest)
    → start ≡ length pre
    → i ≡ length pre + length cur
    → close_turn messages start i b ≡ record {
      start = start;
      end = start + length cur;
      tokens = slice_tokens cur;
      has_user_request = b;
    }
unfolding close_turn
close_turn-middle messages pre cur rest start i b e s h =
    rw (e, h, s) (rw (slice_middle pre cur rest))

length_whole :
    (messages pre cur : List ChatMessage)
    → messages ≡ pre ++ (cur ++ [])
    → length messages ≡ length pre + length cur
length_whole messages pre cur e =
    omega (arith, ap length e, length-append pre (cur ++ []), length-append cur [])

-- The turn that is open at the end: `cur` up to the end of the messages.
turns_loop-end :
    (messages pre cur : List ChatMessage) (start i : ℕ) (b : Bool)
    → messages ≡ pre ++ (cur ++ [])
    → start ≡ length pre
    → b ≡ any is_real_user cur
    → turns_loop messages i start b [] ≡ describe start (cut_turns cur [])
unfolding turns_loop cut_turns describe
turns_loop-end messages pre [] start i b e s k = ground (arith, length_whole messages pre [] e)
turns_loop-end messages pre (c ∷ cur) start i b e s k =
    let n = length_whole messages pre (c ∷ cur) e in
    ground (arith, n, close_turn-middle messages pre (c ∷ cur) [] start (length messages) b e s n)

turns_loop-cut :
    (messages : List ChatMessage) (i start : ℕ) (b : Bool) (m : ChatMessage)
    (todo : List ChatMessage)
    → (is_real_user m && ltb start i) ≡ true
    → turns_loop messages i start b (m ∷ todo)
      ≡ close_turn messages start i b ∷ turns_loop messages (i + 1) i true todo
unfolding turns_loop
turns_loop-cut messages i start b m todo c = ground arith

turns_loop-open :
    (messages : List ChatMessage) (i start : ℕ) (b : Bool) (m : ChatMessage)
    (todo : List ChatMessage)
    → (is_real_user m && ltb start i) ≡ false
    → turns_loop messages i start b (m ∷ todo)
      ≡ turns_loop messages (i + 1) start (is_real_user m || b) todo
unfolding turns_loop
turns_loop-open messages i start b m todo c = ground arith

pub cut_turns-cut :
    (cur : List ChatMessage) (m : ChatMessage) (todo : List ChatMessage)
    → (is_real_user m && not (is_empty cur)) ≡ true
    → cut_turns cur (m ∷ todo) ≡ cur ∷ cut_turns (m ∷ []) todo
unfolding cut_turns
cut_turns-cut cur m todo c = rw (c, cut_turns) refl

pub cut_turns-open :
    (cur : List ChatMessage) (m : ChatMessage) (todo : List ChatMessage)
    → (is_real_user m && not (is_empty cur)) ≡ false
    → cut_turns cur (m ∷ todo) ≡ cut_turns (cur ++ m ∷ []) todo
unfolding cut_turns
cut_turns-open cur m todo c = rw (c, cut_turns) refl

open_test :
    (cur : List ChatMessage) (start i : ℕ)
    → i ≡ start + length cur
    → ltb start i ≡ not (is_empty cur)
open_test [] start i h = ground arith
open_test (m ∷ cur) start i h = ground arith

any-snoc :
    (cur : List ChatMessage) (m : ChatMessage)
    → (is_real_user m || any is_real_user cur) ≡ any is_real_user (cur ++ m ∷ [])
any-snoc cur m = ground (arith, any-append is_real_user cur (m ∷ []))

describe-cut :
    (cur : List ChatMessage) (m : ChatMessage) (todo : List ChatMessage) (start i : ℕ) (b : Bool)
    → i ≡ start + length cur
    → b ≡ any is_real_user cur
    → (is_real_user m && not (is_empty cur)) ≡ true
    → record {
      start = start;
      end = start + length cur;
      tokens = slice_tokens cur;
      has_user_request = b;
    }
        ∷ describe i (cut_turns (m ∷ []) todo)
      ≡ describe start (cut_turns cur (m ∷ todo))
unfolding describe
describe-cut cur m todo start i b h k c = rw (cut_turns-cut cur m todo c) (rw (k, h) refl)

-- `pre` is before the open turn `cur`, `todo` after it.
turns_loop-describe :
    (messages pre cur todo : List ChatMessage) (start i : ℕ) (b : Bool)
    → messages ≡ pre ++ (cur ++ todo)
    → start ≡ length pre
    → i ≡ length pre + length cur
    → b ≡ any is_real_user cur
    → turns_loop messages i start b todo ≡ describe start (cut_turns cur todo)
turns_loop-describe messages pre cur [] start i b e s h k =
    turns_loop-end messages pre cur start i b e s k
turns_loop-describe messages pre cur (m ∷ todo) start i b e s h k =
    elim (Bool-cases (is_real_user m && ltb start i)) [
      | inl c ↦
          turns_loop-cut messages i start b m todo c
          ∙ ap₂ (λ t ts. t ∷ ts) (close_turn-middle messages pre cur (m ∷ todo) start i b e s h)
              (turns_loop-describe messages (pre ++ cur) (m ∷ []) todo i (i + 1) true
                (e ∙ sym (append_assoc pre cur (m ∷ todo))) (omega (arith, length-append pre cur))
                (omega (arith, length-append pre cur)) (ground arith))
          ∙ describe-cut cur m todo start i b (omega arith) k
              (ground (arith, open_test cur start i (omega arith)))
      | inr c ↦
          turns_loop-open messages i start b m todo c
          ∙ turns_loop-describe messages pre (cur ++ m ∷ []) todo start (i + 1)
              (is_real_user m || b) (e ∙ ap (λ r. pre ++ r) (snoc_append cur todo m)) s
              (omega (arith, length-append cur (m ∷ []))) (rw k (any-snoc cur m))
          ∙ ap (describe start) (
              sym (cut_turns-open cur m todo (ground (arith, open_test cur start i (omega arith)))))
    ]

-- The turns are the body, cut before each real user message that something
-- precedes in the body: each turn gives the first and the last index of its run of messages, the
-- sum of their estimates with four tokens for each, and whether a real user message is among them.
pub parse_turns-describe :
    (head body : List ChatMessage)
    → parse_turns (head ++ body) (length head) ≡ describe (length head) (cut_turns [] body)
unfolding parse_turns
parse_turns-describe head body = rw (drop-append head body) (
    turns_loop-describe (head ++ body) head [] body (length head) (length head) false refl refl
      (omega arith) refl)

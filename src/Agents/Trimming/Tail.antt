-- ===== src/Agents/Trimming/Tail.antt =====
-- Where the walk over the turns stops.
use arbeiterfarm.Base.{
  ℕ, suc, ◌+◌, ◌≡◌, refl, sym, ap, ◌∙◌, inl, inr, Bool, true, false, ◌||◌, Option, none, some, List,
  [], ◌∷◌, arith, if◌then◌else◌, Option-cases, is_some, if_of_true, if_of_false, length, any,
}
use arbeiterfarm.Agents.Chat.{add32}
use arbeiterfarm.Agents.Compaction.{Turn}
use arbeiterfarm.Agents.Trimming.{is_enough, take_turn, tail_walk, tail_boundary}

-- The tokens of turns, added on `u32` from the last one.
unfoldable pub tokens_of : List Turn → ℕ
tokens_of [] = 0
tokens_of (turn ∷ later) = add32 (tokens_of later) turn.tokens

-- Turns that are long enough to be kept alone.
unfoldable pub suffices : List Turn → Bool
suffices turns = is_enough (tokens_of turns) (length turns) (any (λ t. t.has_user_request) turns)

-- The last index from which on the turns suffice.
unfoldable pub last_sufficient : List Turn → Option ℕ
last_sufficient [] = none
last_sufficient (turn ∷ later) = elim (last_sufficient later) [
  | some k ↦ some (suc k)
  | none ↦ if suffices (turn ∷ later) then some 0 else none
]

abbrev pub index_or_zero : Option ℕ → ℕ
index_or_zero none = 0
index_or_zero (some k) = k

-- A walk that has not stopped has taken all turns.
record Describes (turns : List Turn) : Type 0 where
  count : (tail_walk turns).tail_turn_count + index_or_zero (last_sufficient turns) ≡ length turns
  stop : (tail_walk turns).stopped ≡ is_some (last_sufficient turns)
  tokens : (tail_walk turns).stopped ≡ false → (tail_walk turns).tail_tokens ≡ tokens_of turns
  request :
      (tail_walk turns).stopped ≡ false
      → (tail_walk turns).tail_has_user_request ≡ any (λ t. t.has_user_request) turns

tail_walk-skip :
    (turn : Turn) (later : List Turn)
    → (tail_walk later).stopped ≡ true
    → tail_walk (turn ∷ later) ≡ tail_walk later
unfolding tail_walk
tail_walk-skip turn later s =
    if_of_true (tail_walk later).stopped (tail_walk later) (take_turn turn (tail_walk later)) s

tail_walk-take :
    (turn : Turn) (later : List Turn)
    → (tail_walk later).stopped ≡ false
    → tail_walk (turn ∷ later) ≡ take_turn turn (tail_walk later)
unfolding tail_walk
tail_walk-take turn later s =
    if_of_false (tail_walk later).stopped (tail_walk later) (take_turn turn (tail_walk later)) s

taken_count :
    (turn : Turn) (later : List Turn)
    → (take_turn turn (tail_walk later)).tail_turn_count ≡ (tail_walk later).tail_turn_count + 1
unfolding take_turn
taken_count turn later = refl

tokens-take :
    (turn : Turn) (later : List Turn)
    → (tail_walk later).tail_tokens ≡ tokens_of later
    → (take_turn turn (tail_walk later)).tail_tokens ≡ tokens_of (turn ∷ later)
unfolding take_turn tokens_of
tokens-take turn later tokens = ap (λ n. add32 n turn.tokens) tokens

request-take :
    (turn : Turn) (later : List Turn)
    → (tail_walk later).tail_has_user_request ≡ any (λ t. t.has_user_request) later
    → (take_turn turn (tail_walk later)).tail_has_user_request
      ≡ any (λ t. t.has_user_request) (turn ∷ later)
unfolding take_turn
request-take turn later request = ap (λ b. turn.has_user_request || b) request

stopped-take :
    (turn : Turn) (later : List Turn)
    → (tail_walk later).tail_tokens ≡ tokens_of later
    → (tail_walk later).tail_turn_count ≡ length later
    → (tail_walk later).tail_has_user_request ≡ any (λ t. t.has_user_request) later
    → (take_turn turn (tail_walk later)).stopped ≡ suffices (turn ∷ later)
unfolding take_turn suffices tokens_of is_enough
stopped-take turn later tokens count request = ground (arith, tokens, count, request)

tail_walk-Describes : (turns : List Turn) → Describes turns
tail_walk-Describes [] =
    unfold tail_walk last_sufficient tokens_of in
    record { count = omega arith; stop = refl; tokens = λ h. refl; request = λ h. refl }
tail_walk-Describes (turn ∷ later) =
    let ih = tail_walk-Describes later in
    elim (Option-cases (last_sufficient later)) [
      | inr (k, e) ↦
          let skip = tail_walk-skip turn later (ih.stop ∙ ap is_some e) in
          let last : last_sufficient (turn ∷ later) ≡ some (suc k) =
            unfold last_sufficient in rw e refl in
          record {
            count = omega (
              arith,
              ih.count,
              ap (λ w. w.tail_turn_count) skip,
              ap index_or_zero e,
              ap index_or_zero last,
            );
            stop = ap (λ w. w.stopped) skip ∙ ih.stop ∙ ap is_some e ∙ sym (ap is_some last);
            tokens = λ h. ground (arith, ap (λ w. w.stopped) skip, h, ih.stop, e);
            request = λ h. ground (arith, ap (λ w. w.stopped) skip, h, ih.stop, e);
          }
      | inl e ↦
          let going = ih.stop ∙ ap is_some e in
          let taken = tail_walk-take turn later going in
          let tokens = ih.tokens going in
          let request = ih.request going in
          let last : last_sufficient (turn ∷ later)
              ≡ (if suffices (turn ∷ later) then some 0 else none) =
            unfold last_sufficient in rw e refl in
          let count : (tail_walk later).tail_turn_count ≡ length later =
            omega (arith, ih.count, ap index_or_zero e) in
          let enough : (tail_walk (turn ∷ later)).stopped ≡ suffices (turn ∷ later) =
            ap (λ w. w.stopped) taken ∙ stopped-take turn later tokens count request in
          record {
            count =
                ground
                  (arith, ap (λ w. w.tail_turn_count) taken, taken_count turn later, last, count);
            stop = ground (arith, enough, last);
            tokens = λ h. ap (λ w. w.tail_tokens) taken ∙ tokens-take turn later tokens;
            request =
                λ h. ap (λ w. w.tail_has_user_request) taken ∙ request-take turn later request;
          }
    ]

-- The tail starts at the last turn from which on the turns have at least 6000 tokens, are at least
-- two, and hold a real user message; it is all turns where no such turn exists.
pub tail_boundary-last :
    (turns : List Turn) → tail_boundary turns ≡ index_or_zero (last_sufficient turns)
unfolding tail_boundary
tail_boundary-last turns = omega (arith, (tail_walk-Describes turns).count)

-- ===== src/Agents/Signals/Lines.antt =====
-- Signals written one to a line, behind their marker, are read back by `parse_signals`.
use mathlib.Core.List.{append_assoc}
use arbeiterfarm.Base.{
  ℕ, ◌≡◌, refl, sym, ap, ap₂, ◌∙◌, inl, inr, Bool, true, false, ◌&&◌, ◌||◌, some, List, [], ◌∷◌,
  ◌++◌, map, arith, ◌==◌, Bool-cases, all, is_empty, All,
}
use arbeiterfarm.Base.Text.{
  Text, lit, strip_prefix, starts_with, trim_end_matches, contains_text, lines,
}
use arbeiterfarm.Agents.Signals.{
  AgentSignal, display, signal_at, scan_line, marker, is_trailing, scan_lines, parse_signals,
}
use arbeiterfarm.Agents.Signals.Parsing.{render, IsSignal, parse_one_signal-render}

-- A text that `trim_end_matches` leaves as it is, and not because it is empty.
abbrev EndsKept : (ℕ → Bool) → Text → Type 0
EndsKept p x = (trim_end_matches p x ≡ x) × (all p x ≡ false)

EndsKept-cons : (p : ℕ → Bool) (c : ℕ) (x : Text) → EndsKept p x → EndsKept p (c ∷ x)
unfolding trim_end_matches
EndsKept-cons p c x (e, f) = (ground (arith, e, f), ground (arith, f))

EndsKept-append : (p : ℕ → Bool) (a x : Text) → EndsKept p x → EndsKept p (a ++ x)
EndsKept-append p [] x k = k
EndsKept-append p (c ∷ a) x k = EndsKept-cons p c (a ++ x) (EndsKept-append p a x k)

EndsKept-nonempty :
    (p : ℕ → Bool) (x : Text) → is_empty x ≡ false → trim_end_matches p x ≡ x → EndsKept p x
unfolding trim_end_matches
EndsKept-nonempty p [] n e = absurd (ground (arith, n))
EndsKept-nonempty p (c ∷ x) n e = elim (Bool-cases (p c && all p x)) [
  | inl f ↦ absurd (ground (arith, e, f))
  | inr f ↦ (e, ground (arith, f))
]

trim_end-all : (p : ℕ → Bool) (t : Text) → all p t ≡ true → trim_end_matches p t ≡ []
unfolding trim_end_matches
trim_end-all p [] h = refl
trim_end-all p (c ∷ t) h = ground (arith, h)

all-append_true : (p : ℕ → Bool) (x t : Text) → all p t ≡ true → all p (x ++ t) ≡ all p x
all-append_true p [] t h = h
all-append_true p (c ∷ x) t h = ground (arith, all-append_true p x t h)

trim_end-append :
    (p : ℕ → Bool) (x t : Text)
    → all p t ≡ true
    → trim_end_matches p (x ++ t) ≡ trim_end_matches p x
unfolding trim_end_matches
trim_end-append p [] t h = trim_end-all p t h
trim_end-append p (c ∷ x) t h = ground (arith, all-append_true p x t h, trim_end-append p x t h)

strip_marker : (x : Text) → strip_prefix marker (marker ++ x) ≡ some x
unfolding strip_prefix
strip_marker x = refl

-- A backtick, a quote, a comma or a full stop.
abbrev pub is_closing : ℕ → Bool
is_closing c = (c == b'`') || (c == 0x27) || (c == b'"') || (c == b',') || (c == b'.')

-- A line that holds one signal, and closing punctuation behind it.
abbrev pub written : AgentSignal × Text → Text
written (s, closing) = lit "signal:" ++ (render s ++ closing)

-- A signal that a line can hold: its reason does not end in the punctuation that is cut off, and no
-- other marker follows.
pub record IsWritable (source : Text) (line : AgentSignal × Text) : Type 0 where
  pub signal : IsSignal source line.0
  pub kept : trim_end_matches is_closing line.0.reason ≡ line.0.reason
  pub closing : all is_closing line.1 ≡ true
  pub alone : contains_text (render line.0 ++ line.1) (lit "signal:") ≡ false

render-EndsKept :
    (s : AgentSignal)
    → is_empty s.reason ≡ false
    → trim_end_matches is_trailing s.reason ≡ s.reason
    → EndsKept is_trailing (marker ++ render s)
render-EndsKept s n e = EndsKept-append is_trailing marker (render s) (
    EndsKept-append is_trailing (display s.kind) (b':' ∷ (s.target_agent ++ b':' ∷ s.reason)) (
      EndsKept-cons is_trailing b':' (s.target_agent ++ b':' ∷ s.reason) (
        EndsKept-append is_trailing s.target_agent (b':' ∷ s.reason)
          (EndsKept-cons is_trailing b':' s.reason (EndsKept-nonempty is_trailing s.reason n e)))))

signal_at-written :
    (source : Text) (s : AgentSignal) (closing : Text)
    → IsWritable source (s, closing)
    → signal_at (written (s, closing)) source ≡ s ∷ []
unfolding signal_at
signal_at-written source s closing w =
    let cut : trim_end_matches is_trailing (written (s, closing)) ≡ marker ++ render s =
      ap (trim_end_matches is_trailing) (sym (append_assoc marker (render s) closing))
      ∙ trim_end-append is_trailing (marker ++ render s) closing w.closing
      ∙ (render-EndsKept s w.signal.reasoned w.kept).0 in
    rw (cut, signal_at)
      (rw (strip_marker (render s)) (rw (parse_one_signal-render source s w.signal) refl))

scan_line-alone : (source x : Text) → contains_text x marker ≡ false → scan_line 0 source x ≡ []
unfolding scan_line contains_text
scan_line-alone source [] h = refl
scan_line-alone source (c ∷ x) h = ground (arith, h, scan_line-alone source x)

scan_line-written :
    (source : Text) (s : AgentSignal) (closing : Text)
    → IsWritable source (s, closing)
    → scan_line 0 source (written (s, closing)) ≡ s ∷ []
unfolding scan_line starts_with
scan_line-written source s closing w =
    ap₂ (λ xs ys. xs ++ ys) (signal_at-written source s closing w)
      (scan_line-alone source (render s ++ closing) w.alone)

scan_lines-written :
    (source : Text) (signals : List (AgentSignal × Text))
    → All (IsWritable source) signals
    → scan_lines source (map written signals) ≡ map (λ p. p.0) signals
unfolding scan_lines
scan_lines-written source [] w = refl
scan_lines-written source ((s, closing) ∷ rest) w =
    ap₂ (λ xs ys. xs ++ ys) (scan_line-written source s closing w.0)
      (scan_lines-written source rest w.1)

-- Where each line of an output is `signal:<kind>:<agent>:<reason>`, with closing quotes or
-- punctuation at most, the agent's name is valid, the reason is trimmed, not empty and does not end
-- in such punctuation, and no line holds a second marker, the signals that are read from the output
-- are those that were written, in order.
pub parse_signals-written :
    (content source : Text) (signals : List (AgentSignal × Text))
    → lines content ≡ map written signals
    → All (IsWritable source) signals
    → parse_signals content source ≡ map (λ p. p.0) signals
unfolding parse_signals
parse_signals-written content source signals e w =
    ap (scan_lines source) e ∙ scan_lines-written source signals w

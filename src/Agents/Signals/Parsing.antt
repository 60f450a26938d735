-- ===== src/Agents/Signals/Parsing.antt =====
-- What `parse_one_signal` and `parse_signals` accept, and what the inner parser reads back.
use arbeiterfarm.Base.{
  ℕ, zero, suc, ◌≡◌, refl, inl, inr, Bool, true, false, not, some, List, [], ◌∷◌, ◌++◌, arith, ◌==◌,
  Bool-cases, Option-cases, all, is_empty, All, All-append,
}
use arbeiterfarm.Base.Text.{
  Text, text_eq, strip_prefix, starts_with, trim_end_matches, trim, is_ascii_alphanumeric, lines,
  split_once,
}
use arbeiterfarm.Base.Text.Trimming.{split_once-append, trim-trim}
use arbeiterfarm.Agents.Signals.{
  SignalKind, AgentSignal, display, kind_of, is_name_char, checked, parse_one_signal, signal_at,
  scan_line, request, skip, priority, or_empty, marker, is_trailing, scan_lines, parse_signals,
}

-- The format of a signal behind its marker: `<kind>:<agent>:<reason>`.
abbrev pub render : AgentSignal → Text
render s = display s.kind ++ b':' ∷ (s.target_agent ++ b':' ∷ s.reason)

-- A signal of `source`: its target is an agent name, its reason is trimmed and not empty.
pub record IsSignal (source : Text) (s : AgentSignal) : Type 0 where
  pub named : is_empty s.target_agent ≡ false
  pub name_chars : all is_name_char s.target_agent ≡ true
  pub reasoned : is_empty s.reason ≡ false
  pub trimmed : trim s.reason ≡ s.reason
  pub from_source : s.source_agent ≡ source

kind_of-display : (k : SignalKind) → kind_of (display k) ≡ some k
unfolding kind_of display text_eq
kind_of-display request = refl
kind_of-display skip = refl
kind_of-display priority = refl

abbrev no_colon : ℕ → Bool
no_colon c = not (c == b':')

display-no_colon : (k : SignalKind) → all no_colon (display k) ≡ true
unfolding display
display-no_colon request = refl
display-no_colon skip = refl
display-no_colon priority = refl

name_char-no_colon : (c : ℕ) → is_name_char c ≡ true → no_colon c ≡ true
unfolding is_name_char is_ascii_alphanumeric
name_char-no_colon c h = ground arith

name-no_colon : (s : Text) → all is_name_char s ≡ true → all no_colon s ≡ true
name-no_colon [] h = refl
name-no_colon (c ∷ s) h = ground (arith, name_char-no_colon c, name-no_colon s)

-- A signal with a valid agent name and a trimmed reason that is not empty, written in the format
-- behind its marker, is parsed back to itself by the inner parser.
pub parse_one_signal-render :
    (source : Text) (s : AgentSignal)
    → IsSignal source s
    → parse_one_signal (render s) source ≡ some s
unfolding parse_one_signal checked
parse_one_signal-render source s v = ground (
  arith,
  split_once-append b':' (display s.kind) (s.target_agent ++ b':' ∷ s.reason)
      (display-no_colon s.kind),
  split_once-append b':' s.target_agent s.reason (name-no_colon s.target_agent v.name_chars),
  kind_of-display s.kind,
)

checked-IsSignal :
    (k : SignalKind) (target reason source : Text) (s : AgentSignal)
    → trim reason ≡ reason
    → checked k target reason source ≡ some s
    → IsSignal source s
unfolding checked
checked-IsSignal k target reason source s t h = ground arith

-- Every signal that `parse_one_signal` accepts is well formed.
pub parse_one_signal-IsSignal :
    (rest source : Text) (s : AgentSignal)
    → parse_one_signal rest source ≡ some s
    → IsSignal source s
unfolding parse_one_signal
parse_one_signal-IsSignal rest source s h = elim (Option-cases (split_once b':' rest).1) [
  | inl e ↦ absurd (ground arith)
  | inr (tail, e) ↦ elim (Option-cases (kind_of (split_once b':' rest).0)) [
    | inl e' ↦ absurd (ground arith)
    | inr (k, e') ↦
        checked-IsSignal k (split_once b':' tail).0 (trim (or_empty (split_once b':' tail).1))
          source s (trim-trim (or_empty (split_once b':' tail).1)) (ground arith)
  ]
]

signal_at-IsSignal : (tail source : Text) → All (IsSignal source) (signal_at tail source)
unfolding signal_at
signal_at-IsSignal tail source =
    elim (Option-cases (strip_prefix marker (trim_end_matches is_trailing tail))) [
      | inl e ↦ rw (e, signal_at) tt
      | inr (rest, e) ↦ elim (Option-cases (parse_one_signal rest source)) [
        | inl e' ↦ rw (e, e', signal_at) tt
        | inr (s, e') ↦ rw (e, e', signal_at) (parse_one_signal-IsSignal rest source s e', tt)
      ]
    ]

scan_line-IsSignal :
    (jump : ℕ) (source line : Text) → All (IsSignal source) (scan_line jump source line)
unfolding scan_line
scan_line-IsSignal zero source [] = tt
scan_line-IsSignal (suc jump) source [] = tt
scan_line-IsSignal (suc jump) source (c ∷ s) = scan_line-IsSignal jump source s
scan_line-IsSignal zero source (c ∷ s) = elim (Bool-cases (starts_with (c ∷ s) marker)) [
  | inl e ↦
      rw (e, scan_line)
        (All-append (IsSignal source) (signal_at (c ∷ s) source) (scan_line 6 source s)
          (signal_at-IsSignal (c ∷ s) source) (scan_line-IsSignal 6 source s))
  | inr e ↦ rw (e, scan_line) (scan_line-IsSignal zero source s)
]

scan_lines-IsSignal :
    (source : Text) (ls : List Text) → All (IsSignal source) (scan_lines source ls)
unfolding scan_lines
scan_lines-IsSignal source [] = tt
scan_lines-IsSignal source (line ∷ rest) =
    All-append (IsSignal source) (scan_line 0 source line) (scan_lines source rest)
      (scan_line-IsSignal 0 source line) (scan_lines-IsSignal source rest)

-- Every signal read from an agent's output names its agent by a valid name, has a trimmed reason
-- that is not empty, and carries the agent that emitted it.
pub parse_signals-IsSignal :
    (content source : Text) → All (IsSignal source) (parse_signals content source)
unfolding parse_signals
parse_signals-IsSignal content source = scan_lines-IsSignal source (lines content)

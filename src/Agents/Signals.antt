-- ===== src/Agents/Signals.antt =====
-- af/crates/af-agents/src/signal_parser.rs: the markers by which an agent's output changes the
-- remaining workflow. The definitions; the proofs are in the children.
pub mod Conflicts
pub mod Parsing
pub mod Lines
pub mod Examples
use arbeiterfarm.Base.{
  ℕ, zero, suc, Bool, true, false, ◌&&◌, ◌||◌, not, Option, none, some, List, [], ◌∷◌, ◌++◌, ◌==◌,
  if◌then◌else◌, ◌>>=◌, any, all, keep, is_empty,
}
use arbeiterfarm.Base.Text.{
  Text, lit, text_eq, strip_prefix, starts_with, trim_end_matches, trim, is_ascii_alphanumeric,
  lines, split_once,
}

pub data SignalKind : Type 0 where
  request skip priority : SignalKind

pub record AgentSignal : Type 0 where
  pub kind : SignalKind
  pub target_agent : Text
  pub reason : Text
  pub source_agent : Text

-- `impl Display for SignalKind`
unfoldable pub display : SignalKind → Text
display request = lit "request"
display skip = lit "skip"
display priority = lit "priority"

-- The `match kind_str` of `parse_one_signal`.
unfoldable pub kind_of : Text → Option SignalKind
kind_of s =
    if text_eq s (lit "request")
    then some request
    else if text_eq s (lit "skip")
    then some skip
    else if text_eq s (lit "priority")
    then some priority
    else none

unfoldable pub is_name_char : ℕ → Bool
is_name_char c = is_ascii_alphanumeric c || (c == b'-') || (c == b'_')

-- The checks on the target and on the trimmed reason.
unfoldable pub checked : SignalKind → Text → Text → Text → Option AgentSignal
checked kind target reason source =
    if is_empty target
    then none
    else if not (all is_name_char target)
    then none
    else if is_empty reason
    then none
    else some
        (record { kind = kind; target_agent = target; reason = reason; source_agent = source })

-- `unwrap_or("")`
abbrev pub or_empty : Option Text → Text
or_empty none = []
or_empty (some s) = s

-- `splitn(3, ':')` yields the kind, the target and all that follows.
unfoldable pub parse_one_signal : Text → Text → Option AgentSignal
parse_one_signal rest source = do
  let (kind_str, after_kind) = split_once b':' rest
  tail ← after_kind
  let (target, after_target) = split_once b':' tail
  kind ← kind_of kind_str
  checked kind target (trim (or_empty after_target)) source

abbrev pub marker : Text
marker = lit "signal:"

-- The characters that are trimmed from the end of the line.
abbrev pub is_trailing : ℕ → Bool
is_trailing c = (c == 0x60) || (c == 0x27) || (c == 0x22) || (c == b',') || (c == b'.')

-- The signal of a line's tail that starts with the marker.
unfoldable pub signal_at : Text → Text → List AgentSignal
signal_at tail source = elim (strip_prefix marker (trim_end_matches is_trailing tail)) [
  | none ↦ []
  | some rest ↦ elim (parse_one_signal rest source) [ none ↦ [] | some sig ↦ sig ∷ [] ]
]

-- `while let Some(pos) = line[search_from..].find("signal:")`: the walk tries each position in
-- turn, and goes on `marker.len()` characters after a match, `jump` of which are left.
unfoldable pub scan_line : ℕ → Text → Text → List AgentSignal
scan_line jump source [] = []
scan_line (suc jump) source (c ∷ s) = scan_line jump source s
scan_line zero source (c ∷ s) = elim (starts_with (c ∷ s) marker) [
  | true ↦ signal_at (c ∷ s) source ++ scan_line 6 source s
  | false ↦ scan_line zero source s
]

unfoldable pub scan_lines : Text → List Text → List AgentSignal
scan_lines source [] = []
scan_lines source (line ∷ rest) = scan_line 0 source line ++ scan_lines source rest

unfoldable pub parse_signals : Text → Text → List AgentSignal
parse_signals content source = scan_lines source (lines content)

-- `#[derive(PartialEq)]`
abbrev pub kind_eq : SignalKind → SignalKind → Bool
kind_eq request request = true
kind_eq skip skip = true
kind_eq priority priority = true
kind_eq _ _ = false

-- The signal has the key `(target, kind)`.
unfoldable pub has_key : Text → SignalKind → AgentSignal → Bool
has_key target kind s = text_eq s.target_agent target && kind_eq s.kind kind

unfoldable pub seen_contains : Text → SignalKind → List (Text × SignalKind) → Bool
seen_contains target kind [] = false
seen_contains target kind ((t, k) ∷ seen) =
    (text_eq t target && kind_eq k kind) || seen_contains target kind seen

-- The first loop of `resolve_conflicts`.
unfoldable pub first_per_key : List (Text × SignalKind) → List AgentSignal → List AgentSignal
first_per_key seen [] = []
first_per_key seen (s ∷ rest) = elim (seen_contains s.target_agent s.kind seen) [
  | true ↦ first_per_key seen rest
  | false ↦ s ∷ first_per_key ((s.target_agent, s.kind) ∷ seen) rest
]

-- `request_targets.contains(target)`
unfoldable pub requested : Text → List AgentSignal → Bool
requested target = any (has_key target request)

unfoldable pub resolve_conflicts : List AgentSignal → List AgentSignal
resolve_conflicts signals =
    let result = first_per_key [] signals in
    keep (λ s. not (kind_eq s.kind skip && requested s.target_agent result)) result

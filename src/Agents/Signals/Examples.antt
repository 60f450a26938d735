-- ===== src/Agents/Signals/Examples.antt =====
-- Tests of the signal parser on outputs of its own unit tests, and its theorems at inputs.
use arbeiterfarm.Base.{◌≡◌, refl, none, List, [], ◌∷◌, map, All}
use arbeiterfarm.Base.Text.{
  Text, lit, text_eq, contains_text, strip_prefix, starts_with, is_whitespace, trim_start_matches,
  trim_end_matches, trim, is_ascii_alphanumeric, strip_cr, lines_from, lines, split_once,
}
use arbeiterfarm.Agents.Signals.{
  AgentSignal, display, kind_of, is_name_char, checked, parse_one_signal, signal_at, scan_line,
  scan_lines, parse_signals, has_key, requested, resolve_conflicts, request, skip,
}
use arbeiterfarm.Agents.Signals.Parsing.{IsSignal}
use arbeiterfarm.Agents.Signals.Lines.{written, IsWritable, parse_signals-written}
use arbeiterfarm.Agents.Signals.Conflicts.{find_key, find_key-resolve}

abbrev upx_request : AgentSignal
upx_request = record {
  kind = request;
  target_agent = lit "decompiler";
  reason = lit "UPX found";
  source_agent = lit "surface";
}

abbrev benign_skip : AgentSignal
benign_skip = record {
  kind = skip;
  target_agent = lit "reporter";
  reason = lit "benign";
  source_agent = lit "surface";
}

abbrev decompiler_skip : AgentSignal
decompiler_skip = record upx_request { kind = skip }

parse_two_signals :
    parse_signals
      (lit "signal:request:decompiler:UPX found\nOther `signal:skip:reporter:benign`.")
      (lit "surface")
    ≡ upx_request ∷ benign_skip ∷ []
unfolding parse_signals scan_lines scan_line lines lines_from strip_cr signal_at starts_with
    strip_prefix trim_end_matches trim trim_start_matches is_whitespace parse_one_signal split_once
    kind_of checked is_name_char is_ascii_alphanumeric text_eq
parse_two_signals = refl

reject_missing_reason : parse_signals (lit "signal:request:decompiler:") (lit "surface") ≡ []
unfolding parse_signals scan_lines scan_line lines lines_from strip_cr signal_at starts_with
    strip_prefix trim_end_matches trim trim_start_matches is_whitespace parse_one_signal split_once
    kind_of checked is_name_char is_ascii_alphanumeric text_eq
reject_missing_reason = refl

upx_request-IsSignal : IsSignal (lit "surface") upx_request
unfolding is_name_char is_ascii_alphanumeric trim trim_start_matches trim_end_matches is_whitespace
upx_request-IsSignal = record {
  named = refl;
  name_chars = refl;
  reasoned = refl;
  trimmed = refl;
  from_source = refl;
}

benign_skip-IsSignal : IsSignal (lit "surface") benign_skip
unfolding is_name_char is_ascii_alphanumeric trim trim_start_matches trim_end_matches is_whitespace
benign_skip-IsSignal = record {
  named = refl;
  name_chars = refl;
  reasoned = refl;
  trimmed = refl;
  from_source = refl;
}

abbrev two_lines : List (AgentSignal × Text)
two_lines = (upx_request, lit "`,") ∷ (benign_skip, []) ∷ []

two_lines-IsWritable : All (IsWritable (lit "surface")) two_lines
unfolding trim_end_matches contains_text starts_with display
two_lines-IsWritable = (
  record { signal = upx_request-IsSignal; kept = refl; closing = refl; alone = refl },
  (record { signal = benign_skip-IsSignal; kept = refl; closing = refl; alone = refl }, tt),
)

lines_of_two :
    lines (lit "signal:request:decompiler:UPX found`,\nsignal:skip:reporter:benign")
    ≡ map written two_lines
unfolding lines lines_from strip_cr display
lines_of_two = refl

parse_signals-written_example :
    parse_signals
      (lit "signal:request:decompiler:UPX found`,\nsignal:skip:reporter:benign")
      (lit "surface")
    ≡ upx_request ∷ benign_skip ∷ []
parse_signals-written_example =
    parse_signals-written (lit "signal:request:decompiler:UPX found`,\nsignal:skip:reporter:benign")
      (lit "surface") two_lines lines_of_two two_lines-IsWritable

find_key-resolve_example :
    find_key (lit "decompiler") skip (resolve_conflicts (decompiler_skip ∷ upx_request ∷ [])) ≡ none
unfolding requested has_key text_eq
find_key-resolve_example =
    (find_key-resolve (decompiler_skip ∷ upx_request ∷ [])).0 (lit "decompiler") skip

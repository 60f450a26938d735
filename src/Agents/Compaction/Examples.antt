-- ===== src/Agents/Compaction/Examples.antt =====
-- A conversation with two requests and a tool-call group: tests, and the theorems at it.
use arbeiterfarm.Base.{ℕ, ◌≡◌, refl, List, [], ◌∷◌, map}
use arbeiterfarm.Base.Text.{lit, byte_len, starts_with}
use arbeiterfarm.Agents.Chat.{
  ChatMessage, plain, sum32, estimate_content_tokens, system, user, assistant, tool,
}
use arbeiterfarm.Agents.Compaction.{
  is_nudge_or_reinforcement, is_real_user, slice_tokens, close_turn, turns_loop, parse_turns,
}
use arbeiterfarm.Agents.Compaction.Turns.{describe}
use arbeiterfarm.Agents.Compaction.Runs.{parse_turns_runs}

abbrev file_info : ChatMessage
file_info = record (plain assistant (lit "look")) {
  tool_calls = record { id = lit "1"; name = lit "file.info"; arguments = lit "{}" } ∷ [];
}

abbrev prompt : ChatMessage
prompt = plain system (lit "You are an analyst.")

abbrev talk : List ChatMessage
talk =
    plain user (lit "What is it?")
    ∷ plain assistant (lit "A file.")
    ∷ file_info
    ∷ plain tool (lit "PE32")
    ∷ plain user (lit "[SYSTEM REMINDER] go on")
    ∷ plain user (lit "And now?")
    ∷ []

turns_of_talk :
    map {B = ℕ × ℕ} (λ t. (t.start, t.end)) (parse_turns (prompt ∷ talk) 1) ≡ (1, 6) ∷ (6, 7) ∷ []
unfolding parse_turns turns_loop close_turn slice_tokens is_real_user is_nudge_or_reinforcement
    starts_with sum32 estimate_content_tokens byte_len
turns_of_talk = refl

parse_turns_runs_example :
    parse_turns (prompt ∷ talk) 1 ≡ describe 1 (parse_turns_runs (prompt ∷ []) talk).0
parse_turns_runs_example = (parse_turns_runs (prompt ∷ []) talk).5

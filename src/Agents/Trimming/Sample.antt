-- ===== src/Agents/Trimming/Sample.antt =====
-- A conversation of three requests and the rows of its thread, for the tests.
use arbeiterfarm.Base.{ℕ, zero, suc, ◌*◌, ◌/◌, false, none, some, List, [], ◌∷◌}
use arbeiterfarm.Base.Text.{Text, lit}
use arbeiterfarm.Agents.Chat.{ContentPart, ChatMessage, plain, system, user, assistant, image}
use arbeiterfarm.Agents.MessageStore.{MessageRow, Store, get_thread_messages_compacted}
use arbeiterfarm.Agents.Trimming.{Float, Faults}
use arbeiterfarm.Agents.Trimming.Passes.{CompactionContext}

-- Fractions in hundredths.
abbrev pub hundredths : Float
hundredths = record { F = ℕ; scale = λ n x. n * x / 100; half = 50 }

-- A tail of 12 images alone is longer than 6000 tokens.
abbrev pub pictures : ℕ → List ContentPart
pictures zero = []
pictures (suc n) = image (lit "") (lit "image/png") ∷ pictures n

abbrev pub talk : List ChatMessage
talk =
    plain system (lit "p")
    ∷ plain user (lit "a")
    ∷ plain assistant (lit "b")
    ∷ record (plain user (lit "c")) { content_parts = some (pictures 12) }
    ∷ plain user (lit "d")
    ∷ []

abbrev pub row_at : ℕ → Text → MessageRow
row_at seq role = record {
  role = role;
  content = none;
  agent_name = none;
  summary_of = none;
  seq = seq;
  compacted = false;
}

abbrev pub before : Store
before = record {
  rows =
      row_at 1 (lit "user")
      ∷ row_at 2 (lit "assistant")
      ∷ row_at 4 (lit "user")
      ∷ row_at 5 (lit "user")
      ∷ [];
  next_seq = 6;
  memory = (lit "goal", lit "triage") ∷ [];
}

abbrev pub small : CompactionContext hundredths
small = record { context_window = 8000; max_output_tokens = 1000; threshold = 80 }

abbrev pub no_faults : Faults
no_faults = record { mark = none; insert = none; read_memory = none }

abbrev pub full_disk : Faults
full_disk = record { mark = none; insert = some (lit "disk full"); read_memory = none }

abbrev pub rows_before : List MessageRow
rows_before = get_thread_messages_compacted before

-- ===== src/Agents/MessageStore.antt =====
-- af/crates/af-db/src/messages.rs and thread_memory.rs: the rows of one thread, in the order of
-- their sequence numbers, and what the queries do to them. Any query may fail.
use arbeiterfarm.Base.{
  ℕ, ◌+◌, Bool, true, false, ◌&&◌, not, Option, some, List, [], ◌∷◌, ◌++◌, map, leb, if◌then◌else◌,
  keep,
}
use arbeiterfarm.Base.Text.{Text, lit, text_eq}

-- What the code reads of a `MessageRow`, and the column `compacted`. The two numbers of a summary
-- stand for its `content_json`.
pub record MessageRow : Type 0 where
  pub role : Text
  pub content : Option Text
  pub agent_name : Option Text
  pub summary_of : Option (ℕ × ℕ)
  pub seq : ℕ
  pub compacted : Bool

-- The rows, the number that the next row gets, and the table `thread_memory` by key.
pub record Store : Type 0 where
  pub rows : List MessageRow
  pub next_seq : ℕ
  pub memory : List (Text × Text)

-- `role != 'system' AND NOT compacted AND seq <= up_to_seq`
unfoldable pub is_marked : ℕ → MessageRow → Bool
is_marked up_to_seq row =
    leb row.seq up_to_seq && not (text_eq row.role (lit "system")) && not row.compacted

abbrev pub compact_row : MessageRow → MessageRow
compact_row row = record row { compacted = true }

unfoldable pub mark_messages_compacted : ℕ → Store → Store
mark_messages_compacted up_to_seq store = record store {
  rows = map (λ row. if is_marked up_to_seq row then compact_row row else row) store.rows;
}

unfoldable pub insert_compaction_summary : Text → ℕ → ℕ → Option Text → Store → Store
insert_compaction_summary summary compacted_count up_to_seq agent_name store = record store {
  rows =
      store.rows
      ++ record {
        role = lit "system";
        content = some summary;
        agent_name = agent_name;
        summary_of = some (compacted_count, up_to_seq);
        seq = store.next_seq;
        compacted = false;
      }
        ∷ [];
  next_seq = store.next_seq + 1;
}

unfoldable pub get_thread_messages_compacted : Store → List MessageRow
get_thread_messages_compacted store = keep (λ row. not row.compacted) store.rows

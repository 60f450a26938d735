-- ===== src/Agents/Trimming/Failures.antt =====
-- The rows that a sliding window leaves when a query of it fails.
use arbeiterfarm.Base.{ℕ, ◌≡◌, ◌⊎◌, true, ◌++◌, take, drop, keep, is_some}
use arbeiterfarm.Base.Text.{Text}
use arbeiterfarm.Agents.MessageStore.{Store, get_thread_messages_compacted}
use arbeiterfarm.Agents.Trimming.{Faults}
use arbeiterfarm.Agents.Trimming.Marks.{is_system_row}

-- What a failure leaves of the rows: all of them, where they could not be marked; otherwise those
-- behind the first `gone` ones, and the system rows among these.
abbrev pub LeavesRows : Faults → Store → Store → ℕ → Type 0
LeavesRows faults store store' gone =
    ((store' ≡ store) × (is_some faults.mark ≡ true))
    ⊎ ((is_some faults.insert ≡ true)
        × (get_thread_messages_compacted store'
            ≡ keep is_system_row (take gone (get_thread_messages_compacted store))
              ++ drop gone (get_thread_messages_compacted store)))

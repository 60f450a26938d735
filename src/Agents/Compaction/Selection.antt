-- ===== src/Agents/Compaction/Selection.antt =====
-- Where `select_messages_for_compaction` cuts the conversation.
use arbeiterfarm.Base.{ℕ, ◌+◌, ◌-◌, ◌≤◌, ◌<◌, ◌≡◌, true, false, some, List}
use arbeiterfarm.Agents.Chat.{ChatMessage, tool}
use arbeiterfarm.Agents.Compaction.{
  belongs_to_group, CompactionPlan, last_user, role_at, calls_tools,
}

-- What a plan says of the conversation: from index 1 up to the cut, which is not past the last user
-- message; nothing before the cut belongs with it, and all from the cut to that message does.
pub record IsCut (messages : List ChatMessage) (plan : CompactionPlan) : Type 0 where
  pub starts : plan.compact_start ≡ 1
  pub counts : plan.message_count + 1 ≡ plan.compact_end
  pub compacts : 1 < plan.compact_end
  pub last : ℕ
  pub last_is : last_user messages ≡ some last
  pub keeps_last : plan.compact_end ≤ last
  pub not_a_result : role_at messages (plan.compact_end - 1) tool ≡ false
  pub not_a_call : calls_tools messages (plan.compact_end - 1) ≡ false
  pub group_kept : (j : ℕ) → plan.compact_end ≤ j → j < last → belongs_to_group messages j ≡ true

abbrev pub plan_of : ℕ → CompactionPlan
plan_of boundary = record {
  compact_start = 1;
  compact_end = boundary;
  message_count = boundary - 1;
}

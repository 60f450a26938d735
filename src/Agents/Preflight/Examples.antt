-- ===== src/Agents/Preflight/Examples.antt =====
-- A conversation with an orphaned tool result and no memory message.
use arbeiterfarm.Base.{◌≡◌, refl, List, [], ◌∷◌}
use arbeiterfarm.Base.Text.{Text, lit, text_eq, strip_prefix, starts_with}
use arbeiterfarm.Agents.Chat.{ChatMessage, plain, system, user, tool}
use arbeiterfarm.Agents.ThreadMemory.{
  lookup_text, sort_findings, findings_of, task_lines, memory_head, closing_lines, memory_findings,
  render_memory, build_memory_message,
}
use arbeiterfarm.Agents.Compaction.{is_memory, detect_body_start}
use arbeiterfarm.Agents.Preflight.{
  is_system, has_memory, repair_memory, group_after, is_orphan, orphans, remove_at, remove_all,
  remove_orphans, preflight_check, ok,
}
use arbeiterfarm.Agents.Preflight.Repair.{with_memory, answered, preflight_check-body}

abbrev prompt : ChatMessage
prompt = plain system (lit "You are an analyst.")

abbrev orphaned : List ChatMessage
orphaned = plain tool (lit "PE32") ∷ plain user (lit "And now?") ∷ []

abbrev goal : List (Text × Text)
goal = (lit "goal", lit "triage") ∷ []

abbrev goal_memory : ChatMessage
goal_memory =
    plain user
      (lit "[Thread Memory]\nTASK: triage\n\nUse these findings. Do not repeat completed work.")

repaired :
    preflight_check (prompt ∷ orphaned) goal
    ≡ ok (prompt ∷ goal_memory ∷ plain user (lit "And now?") ∷ [])
unfolding preflight_check is_system repair_memory has_memory is_memory starts_with
    build_memory_message render_memory memory_findings memory_head task_lines closing_lines
    lookup_text text_eq findings_of sort_findings strip_prefix remove_orphans detect_body_start
    orphans is_orphan group_after remove_all remove_at
repaired = refl

preflight_check-body_example :
    preflight_check (prompt ∷ orphaned) goal ≡ ok (prompt ∷ answered [] (with_memory goal orphaned))
unfolding is_system
preflight_check-body_example = preflight_check-body (prompt ∷ orphaned) goal

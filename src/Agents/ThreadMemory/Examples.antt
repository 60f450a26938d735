-- ===== src/Agents/ThreadMemory/Examples.antt =====
-- A memory that is longer than its limit, and the theorems on sizes at concrete entries.
use arbeiterfarm.Base.{◌+◌, ◌≤◌, ◌≡◌, refl, List, [], ◌∷◌, ◌++◌, arith, drop}
use arbeiterfarm.Base.Text.{Text, lit, text_eq, byte_len, strip_prefix}
use arbeiterfarm.Agents.ThreadMemory.{
  max_memory_size, truncate_value_with_cap, lookup_text, text_le, insert_finding, sort_findings,
  findings_of, finding_line, push_findings, task_lines, memory_head, closing_lines, memory_findings,
  render_memory,
}
use arbeiterfarm.Agents.ThreadMemory.Bounds.{truncate_value_with_cap-IsLongest}
use arbeiterfarm.Agents.ThreadMemory.Rendering.{render_memory-bound}

abbrev fifty : Text
fifty = lit "aaaaaaaaaaaaaaaaaaaaaaaaaaaaaaaaaaaaaaaaaaaaaaaaaa"

abbrev five_hundred : Text
five_hundred =
    fifty
    ++ (fifty ++ (fifty ++ (fifty ++ (fifty ++ (fifty ++ (fifty ++ (fifty ++ (fifty ++ fifty))))))))

abbrev long_conclusion : Text
long_conclusion = fifty ++ (fifty ++ (fifty ++ (fifty ++ fifty)))

-- Four findings that fit, and a conclusion behind them.
abbrev full_memory : List (Text × Text)
full_memory =
    (lit "finding:b", five_hundred)
    ∷ (lit "conclusion", long_conclusion)
    ∷ (lit "finding:a", five_hundred)
    ∷ (lit "finding:c", five_hundred)
    ∷ (lit "finding:d", drop 10 five_hundred)
    ∷ []

-- Beyond `max_memory_size`.
over_the_limit : byte_len (render_memory full_memory) ≡ 2355
unfolding render_memory memory_findings push_findings finding_line memory_head task_lines
    closing_lines sort_findings insert_finding findings_of strip_prefix text_le lookup_text text_eq
    byte_len
over_the_limit = refl

digest :
    render_memory (
      (lit "finding:strings", lit "2 hits")
      ∷ (lit "goal", lit "triage")
      ∷ (lit "finding:grep", lit "none")
      ∷ [])
    ≡ lit
        "[Thread Memory]\nTASK: triage\n\nFINDINGS:\n- grep: none\n- strings: 2 hits\n\nUse these findings. Do not repeat completed work."
unfolding render_memory memory_findings push_findings finding_line memory_head task_lines
    closing_lines sort_findings insert_finding findings_of strip_prefix text_le lookup_text text_eq
    byte_len
digest = refl

truncate_value_with_cap-IsLongest_example :
    byte_len (truncate_value_with_cap (lit " some text ") 5) ≤ 5 + 3
truncate_value_with_cap-IsLongest_example =
    (truncate_value_with_cap-IsLongest (lit " some text ") 5).1

render_memory-bound_example : byte_len (render_memory full_memory) ≤ max_memory_size + 500 + 64
unfolding byte_len
render_memory-bound_example =
    render_memory-bound 500 full_memory (omega arith)
      (omega arith, (omega arith, (omega arith, (omega arith, (omega arith, tt)))))

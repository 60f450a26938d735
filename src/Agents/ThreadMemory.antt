-- ===== src/Agents/ThreadMemory.antt =====
-- af/crates/af-agents/src/thread_memory.rs: the findings of a thread, kept as short texts and
-- rendered into one message; and `build_memory_message` of prompt_builder.rs.
pub mod Bounds
pub mod Rendering
pub mod Examples
use arbeiterfarm.Base.{
  ℕ, ◌+◌, ◌-◌, Bool, true, false, ◌&&◌, ◌||◌, not, Option, none, some, List, [], ◌∷◌, ◌++◌, map,
  ltb, leb, ◌==◌, if◌then◌else◌, is_empty,
}
use arbeiterfarm.Base.Text.{Text, lit, text_eq, utf8_width, byte_len, strip_prefix, trim, mem_text}
use arbeiterfarm.Agents.Chat.{ChatMessage, plain, user, text}

abbrev pub max_entry_value_len : ℕ
max_entry_value_len = 256

abbrev pub max_high_value_entry_len : ℕ
max_high_value_entry_len = 512

abbrev pub max_memory_size : ℕ
max_memory_size = 2048

pub record MemoryEntry : Type 0 where
  pub key : Text
  pub value : Text

-- `&s[..s.floor_char_boundary(cap)]`: the longest prefix of at most `cap` bytes.
unfoldable pub floor_prefix : ℕ → Text → Text
floor_prefix cap [] = []
floor_prefix cap (c ∷ s) =
    let rest = floor_prefix (cap - utf8_width c) s in
    if leb (utf8_width c) cap then c ∷ rest else []

unfoldable pub truncate_value_with_cap : Text → ℕ → Text
truncate_value_with_cap s cap =
    if leb (byte_len (trim s)) cap then trim s else floor_prefix cap (trim s) ++ lit "..."

unfoldable pub truncate_value : Text → Text
truncate_value s = truncate_value_with_cap s max_entry_value_len

abbrev pub high_value_tools : List Text
high_value_tools =
    lit "ghidra.decompile" ∷ lit "sandbox.trace" ∷ lit "sandbox.hook" ∷ lit "yara.generate" ∷ []

-- The tools with a curated key.
abbrev pub curated_keys : List (Text × Text)
curated_keys =
    (lit "rizin.bininfo", lit "finding:rizin_bininfo")
    ∷ (lit "file.info", lit "finding:file_info")
    ∷ (lit "ghidra.analyze", lit "finding:ghidra_analyze")
    ∷ (lit "ghidra.decompile", lit "finding:ghidra_decompile")
    ∷ (lit "strings.extract", lit "finding:strings")
    ∷ (lit "file.strings", lit "finding:strings")
    ∷ (lit "sandbox.trace", lit "finding:sandbox_trace")
    ∷ (lit "sandbox.hook", lit "finding:sandbox_hook")
    ∷ (lit "vt.file_report", lit "finding:vtotal")
    ∷ (lit "file.grep", lit "finding:grep")
    ∷ (lit "rizin.disasm", lit "finding:rizin_disasm")
    ∷ (lit "rizin.xrefs", lit "finding:rizin_xrefs")
    ∷ (lit "file.hexdump", lit "finding:hexdump")
    ∷ (lit "yara.scan", lit "finding:yara_scan")
    ∷ (lit "yara.test", lit "finding:yara_test")
    ∷ (lit "yara.generate", lit "finding:yara_generate")
    ∷ []

-- The tools whose results are not remembered.
abbrev pub navigational_tools : List Text
navigational_tools =
    lit "file.read_range"
    ∷ lit "embed.search"
    ∷ lit "embed.text"
    ∷ lit "embed.list"
    ∷ lit "meta.read_thread"
    ∷ lit "meta.list_agents"
    ∷ lit "meta.list_artifacts"
    ∷ lit "meta.read_artifact"
    ∷ lit "dedup.prior_analysis"
    ∷ []

unfoldable pub lookup_text : Text → List (Text × Text) → Option Text
lookup_text k [] = none
lookup_text k ((j, v) ∷ rest) = if text_eq j k then some v else lookup_text k rest

-- `tool_name.replace('.', "_")`
unfoldable pub safe_name : Text → Text
safe_name name = map (λ c. if c == b'.' then b'_' else c) name

-- `if value.is_empty() { return vec![] }`
unfoldable pub entry_of : Text → Text → List MemoryEntry
entry_of key value = if is_empty value then [] else record { key = key; value = value } ∷ []

unfoldable pub extract_from_tool_result : Text → Text → List MemoryEntry
extract_from_tool_result tool_name result = elim (lookup_text tool_name curated_keys) [
  | some key ↦
      let cap : ℕ =
        if mem_text tool_name high_value_tools
        then max_high_value_entry_len
        else max_entry_value_len in
      entry_of key (truncate_value_with_cap result cap)
  | none ↦
      if mem_text tool_name navigational_tools
      then []
      else entry_of (lit "finding:" ++ safe_name tool_name)
          (truncate_value_with_cap result max_entry_value_len)
]

unfoldable pub extract_goal : Text → Option MemoryEntry
extract_goal first_user_message =
    let value = truncate_value first_user_message in
    if is_empty value then none else some (record { key = lit "goal"; value = value })

unfoldable pub extract_latest_request : Text → Option MemoryEntry
extract_latest_request user_message =
    let value = truncate_value user_message in
    if is_empty value then none else some (record { key = lit "latest_request"; value = value })

unfoldable pub extract_conclusion : Text → MemoryEntry
extract_conclusion final_text = record { key = lit "conclusion"; value = truncate_value final_text }

-- The order of `str`: that of the bytes, which for UTF-8 is that of the scalar values.
unfoldable pub text_le : Text → Text → Bool
text_le [] t = true
text_le (a ∷ s) [] = false
text_le (a ∷ s) (b ∷ t) = ltb a b || (a == b && text_le s t)

-- `sort_by` is stable.
unfoldable pub insert_finding : Text × Text → List (Text × Text) → List (Text × Text)
insert_finding (k, v) [] = (k, v) ∷ []
insert_finding (k, v) ((j, w) ∷ rest) =
    if text_le k j then (k, v) ∷ (j, w) ∷ rest else (j, w) ∷ insert_finding (k, v) rest

unfoldable pub sort_findings : List (Text × Text) → List (Text × Text)
sort_findings [] = []
sort_findings (f ∷ rest) = insert_finding f (sort_findings rest)

abbrev pub finding_prefix : Text
finding_prefix = lit "finding:"

-- The `filter` and the `map` that collect the findings.
unfoldable pub findings_of : List (Text × Text) → List (Text × Text)
findings_of [] = []
findings_of ((k, v) ∷ rest) = elim (strip_prefix finding_prefix k) [
  | none ↦ findings_of rest
  | some name ↦ (name, v) ∷ findings_of rest
]

unfoldable pub finding_line : Text → Text → Text
finding_line k v = lit "- " ++ (k ++ (lit ": " ++ (v ++ lit "\n")))

-- `for (k, v) in &findings`, up to the first line that does not fit.
unfoldable pub push_findings : Text → List (Text × Text) → Text
push_findings result [] = result
push_findings result ((k, v) ∷ rest) =
    let more = push_findings (result ++ finding_line k v) rest in
    if ltb max_memory_size (byte_len result + byte_len (finding_line k v)) then result else more

abbrev pub optional_line : Text → Text → Option Text → Text → Text
optional_line before label none after = []
optional_line before label (some v) after = before ++ (label ++ (v ++ after))

unfoldable pub task_lines : List (Text × Text) → Text
task_lines entries =
    optional_line [] (lit "TASK: ") (lookup_text (lit "goal") entries) (lit "\n")
    ++ optional_line [] (lit "CURRENT: ") (lookup_text (lit "latest_request") entries) (lit "\n")

unfoldable pub memory_head : List (Text × Text) → Text
memory_head entries = lit "[Thread Memory]\n" ++ task_lines entries

unfoldable pub closing_lines : List (Text × Text) → Text
closing_lines entries =
    optional_line (lit "\n") (lit "CONCLUSION: ") (lookup_text (lit "conclusion") entries)
      (lit "\n")
    ++ lit "\nUse these findings. Do not repeat completed work."

unfoldable pub memory_findings : Text → List (Text × Text) → Text
memory_findings result findings =
    if is_empty findings then result else push_findings (result ++ lit "\nFINDINGS:\n") findings

unfoldable pub render_memory : List (Text × Text) → Text
render_memory entries =
    if is_empty entries
    then []
    else memory_findings (memory_head entries) (sort_findings (findings_of entries))
      ++ closing_lines entries

unfoldable pub build_memory_message : List (Text × Text) → Option ChatMessage
build_memory_message memory_entries =
    if is_empty memory_entries
    then none
    else if is_empty (render_memory memory_entries)
    then none
    else some (plain user (render_memory memory_entries))

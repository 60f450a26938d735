-- ===== src/Agents/ThreadMemory/Rendering.antt =====
-- The size of the rendered memory, in bytes.
use arbeiterfarm.Base.{
  ℕ, ◌+◌, ◌≤◌, ◌≡◌, subst, inl, inr, some, List, [], ◌∷◌, ◌++◌, arith, ltb, Bool-cases,
  Option-cases, All,
}
use arbeiterfarm.Base.Text.{Text, lit, text_eq, byte_len, byte_len-append}
use arbeiterfarm.Agents.ThreadMemory.{
  max_memory_size, lookup_text, sort_findings, findings_of, finding_line, push_findings,
  optional_line, task_lines, memory_head, closing_lines, memory_findings, render_memory,
}

push_findings-bound :
    (result : Text) (findings : List (Text × Text))
    → byte_len result ≤ max_memory_size
    → byte_len (push_findings result findings) ≤ max_memory_size
unfolding push_findings
push_findings-bound result [] h = h
push_findings-bound result ((k, v) ∷ rest) h =
    elim (Bool-cases (ltb max_memory_size (byte_len result + byte_len (finding_line k v)))) [
      | inl e ↦ rw e h
      | inr e ↦ rw e (
          push_findings-bound (result ++ finding_line k v) rest
            (rw (byte_len-append result (finding_line k v)) (ground arith)))
    ]

-- Every value has at most `n` bytes.
abbrev pub Bounded : ℕ → List (Text × Text) → Type 0
Bounded n entries = All (λ e. byte_len e.1 ≤ n) entries

lookup_text-bound :
    (n : ℕ) (k v : Text) (entries : List (Text × Text))
    → Bounded n entries
    → lookup_text k entries ≡ some v
    → byte_len v ≤ n
unfolding lookup_text
lookup_text-bound n k v [] b h = absurd (ground arith)
lookup_text-bound n k v ((j, w) ∷ rest) b h = elim (Bool-cases (text_eq j k)) [
  | inl e ↦ subst (λ u. byte_len u ≤ n) (ground arith) b.0
  | inr e ↦ lookup_text-bound n k v rest b.1 (ground arith)
]

optional_line-bound :
    (n : ℕ) (before label k after : Text) (entries : List (Text × Text))
    → Bounded n entries
    → byte_len (optional_line before label (lookup_text k entries) after)
      ≤ byte_len before + byte_len label + byte_len after + n
optional_line-bound n before label k after entries b = elim (Option-cases (lookup_text k entries)) [
  | inl e ↦ rw e (unfold byte_len in omega arith)
  | inr (v, e) ↦
      rw
        (
          e,
          byte_len-append before (label ++ (v ++ after)),
          byte_len-append label (v ++ after),
          byte_len-append v after,
        )
        (ground (arith, lookup_text-bound n k v entries b e))
]

memory_head-bound :
    (n : ℕ) (entries : List (Text × Text))
    → Bounded n entries
    → byte_len (memory_head entries) ≤ 33 + n + n
unfolding memory_head task_lines
memory_head-bound n entries b =
    let task = optional_line [] (lit "TASK: ") (lookup_text (lit "goal") entries) (lit "\n") in
    let current =
      optional_line [] (lit "CURRENT: ") (lookup_text (lit "latest_request") entries) (lit "\n") in
    rw (byte_len-append (lit "[Thread Memory]\n") (task ++ current), byte_len-append task current)
      (unfold byte_len in
        omega (
          arith,
          optional_line-bound n [] (lit "TASK: ") (lit "goal") (lit "\n") entries b,
          optional_line-bound n [] (lit "CURRENT: ") (lit "latest_request") (lit "\n") entries b,
        ))

closing_lines-bound :
    (n : ℕ) (entries : List (Text × Text))
    → Bounded n entries
    → byte_len (closing_lines entries) ≤ 64 + n
unfolding closing_lines
closing_lines-bound n entries b =
    rw
      (byte_len-append
        (optional_line (lit "\n") (lit "CONCLUSION: ") (lookup_text (lit "conclusion") entries)
          (lit "\n"))
        (lit "\nUse these findings. Do not repeat completed work."))
      (unfold byte_len in
        omega (
          arith,
          optional_line-bound n (lit "\n") (lit "CONCLUSION: ") (lit "conclusion") (lit "\n")
              entries b,
        ))

memory_findings-bound :
    (result : Text) (findings : List (Text × Text))
    → byte_len result + 11 ≤ max_memory_size
    → byte_len (memory_findings result findings) ≤ max_memory_size
unfolding memory_findings byte_len
memory_findings-bound result [] h = omega arith
memory_findings-bound result (f ∷ rest) h =
    push_findings-bound (result ++ lit "\nFINDINGS:\n") (f ∷ rest)
      (rw (byte_len-append result (lit "\nFINDINGS:\n")) h)

-- Where every value has at most `n` bytes, and `n` is at most 1000, the rendered memory has at most
-- `max_memory_size + n + 64` bytes: the limit of the findings and a conclusion behind them.
pub render_memory-bound :
    (n : ℕ) (entries : List (Text × Text))
    → n ≤ 1000
    → Bounded n entries
    → byte_len (render_memory entries) ≤ max_memory_size + n + 64
unfolding render_memory
render_memory-bound n [] le b = unfold byte_len in omega arith
render_memory-bound n (e ∷ rest) le b =
    let findings = sort_findings (findings_of (e ∷ rest)) in
    let head = memory_head-bound n (e ∷ rest) b in
    rw
      (byte_len-append (memory_findings (memory_head (e ∷ rest)) findings)
        (closing_lines (e ∷ rest)))
      (ground (
        arith,
        memory_findings-bound (memory_head (e ∷ rest)) findings (omega arith),
        closing_lines-bound n (e ∷ rest) b,
      ))

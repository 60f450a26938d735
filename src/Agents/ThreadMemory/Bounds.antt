-- ===== src/Agents/ThreadMemory/Bounds.antt =====
-- The sizes of the values, in bytes.
use arbeiterfarm.Base.{
  ℕ, ◌+◌, ◌-◌, ◌≤◌, ◌<◌, ◌≡◌, refl, ap, ◌⊎◌, inl, inr, [], ◌∷◌, ◌++◌, arith, leb, if◌then◌else◌,
  Bool-cases, Option-cases, All,
}
use arbeiterfarm.Base.Text.{Text, lit, utf8_width, byte_len, byte_len-append, trim, mem_text}
use arbeiterfarm.Agents.ThreadMemory.{
  floor_prefix, truncate_value_with_cap, entry_of, extract_from_tool_result, max_entry_value_len,
  max_high_value_entry_len, high_value_tools, curated_keys, navigational_tools, lookup_text,
}

utf8_width-bound : (c : ℕ) → utf8_width c ≤ 4
utf8_width-bound c = ground arith

-- `p` is the longest prefix of `s` that has at most `cap` bytes.
pub record IsLongest (cap : ℕ) (p s : Text) : Type 0 where
  pub rest : Text
  pub splits : p ++ rest ≡ s
  pub fits : byte_len p ≤ cap
  -- The next character does not fit.
  pub full : (c : ℕ) (tail : Text) → rest ≡ c ∷ tail → cap < byte_len p + utf8_width c

floor_prefix-IsLongest : (cap : ℕ) (s : Text) → IsLongest cap (floor_prefix cap s) s
unfolding floor_prefix byte_len
floor_prefix-IsLongest cap [] = record {
  rest = [];
  splits = refl;
  fits = omega arith;
  full = λ c tail e. absurd (ground arith);
}
floor_prefix-IsLongest cap (c ∷ s) =
    let h = floor_prefix-IsLongest (cap - utf8_width c) s in
    elim (Bool-cases (leb (utf8_width c) cap)) [
      | inl e ↦ rw e (record {
        rest = h.rest;
        splits = ap (λ t. c ∷ t) h.splits;
        fits = ground (arith, h.fits);
        full = λ d tail q. ground (arith, h.full d tail q);
      })
      | inr e ↦ rw e (record {
        rest = c ∷ s;
        splits = refl;
        fits = omega arith;
        full = λ d tail q. ground arith;
      })
    ]

-- A truncated value is the trimmed text where that has at most `cap` bytes; otherwise it is the
-- longest prefix of the trimmed text that has, with three dots behind it. It never has more than
-- `cap + 3` bytes.
pub truncate_value_with_cap-IsLongest :
    (s : Text) (cap : ℕ)
    → (((byte_len (trim s) ≤ cap) × (truncate_value_with_cap s cap ≡ trim s))
        ⊎ ((cap < byte_len (trim s))
            × (p : Text) × (IsLongest cap p (trim s)
                × (truncate_value_with_cap s cap ≡ p ++ lit "..."))))
      × (byte_len (truncate_value_with_cap s cap) ≤ cap + 3)
unfolding truncate_value_with_cap byte_len
truncate_value_with_cap-IsLongest s cap =
    let p = floor_prefix cap (trim s) in
    let h = floor_prefix-IsLongest cap (trim s) in
    elim (Bool-cases (leb (byte_len (trim s)) cap)) [
      | inl e ↦ rw e (inl (ground arith, refl), ground arith)
      | inr e ↦
          rw e (
            inr (ground arith, p, (h, refl)),
            ground (arith, byte_len-append p (lit "..."), h.fits),
          )
    ]

truncated-bound : (s : Text) (cap : ℕ) → cap ≤ 512 → byte_len (truncate_value_with_cap s cap) ≤ 515
truncated-bound s cap h = ground (arith, (truncate_value_with_cap-IsLongest s cap).1)

entry_of-bound :
    (key value : Text)
    → byte_len value ≤ 515
    → All (λ e. byte_len e.value ≤ 515) (entry_of key value)
unfolding entry_of
entry_of-bound key [] h = tt
entry_of-bound key (c ∷ value) h = (h, tt)

-- The entries of a tool result have at most 515 bytes each.
extract_from_tool_result-bound :
    (tool_name result : Text)
    → All (λ e. byte_len e.value ≤ 515) (extract_from_tool_result tool_name result)
unfolding extract_from_tool_result
extract_from_tool_result-bound tool_name result =
    elim (Option-cases (lookup_text tool_name curated_keys)) [
      | inl e ↦ elim (Bool-cases (mem_text tool_name navigational_tools)) [
        | inl n ↦ rw (e, n, extract_from_tool_result) tt
        | inr n ↦
            rw (e, n, extract_from_tool_result)
              (entry_of-bound _ _ (truncated-bound result 256 (omega arith)))
      ]
      | inr (key, e) ↦
          rw (e, extract_from_tool_result)
            (entry_of-bound key _ (
              truncated-bound result
                (if mem_text tool_name high_value_tools
                  then max_high_value_entry_len
                  else max_entry_value_len)
                (ground arith)))
    ]

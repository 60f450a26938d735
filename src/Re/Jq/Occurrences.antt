-- ===== src/Re/Jq/Occurrences.antt =====
-- `indices` of a string: where it answers every occurrence, and where it panics.
use mathlib.Core.List.{append_assoc}
use arbeiterfarm.Base.{
  ℕ, zero, suc, ◌+◌, ◌≤◌, ◌<◌, ◌≡◌, refl, sym, ap, ap₂, ◌∙◌, inl, inr, none, some, [], ◌∷◌, ◌++◌,
  arith, ◌==◌, if◌then◌else◌, ==_iff, Bool-cases, Option-cases, length, length-append,
}
use arbeiterfarm.Base.Text.{Text, utf8_width, byte_len, byte_len-append, starts_with, contains_text}
use arbeiterfarm.Re.Jq.Strings.{
  slice_from, find, found_too, scan_text, text_indices, panicked, found,
}
use arbeiterfarm.Re.Jq.Slices.{
  utf8_width-pos, length-byte_len, slice_from-append, slice_from-inside, slice_from-le,
  byte_len-single,
}
use arbeiterfarm.Re.Jq.Searches.{occurrences, find-cases}

-- One turn of the loop.
scan_text-absent :
    (fuel start : ℕ) (haystack needle rest : Text)
    → slice_from start haystack ≡ some rest
    → find rest needle ≡ none
    → scan_text (suc fuel) start haystack needle ≡ found []
unfolding scan_text
scan_text-absent fuel start haystack needle rest e h = rw (e, h, scan_text) refl

scan_text-found :
    (fuel start i : ℕ) (haystack needle rest : Text)
    → slice_from start haystack ≡ some rest
    → find rest needle ≡ some i
    → scan_text (suc fuel) start haystack needle
      ≡ found_too (start + i) (scan_text fuel (start + i + 1) haystack needle)
unfolding scan_text
scan_text-found fuel start i haystack needle rest e h = rw (e, h, scan_text) refl

scan_text-past :
    (fuel start : ℕ) (haystack needle : Text)
    → slice_from start haystack ≡ none
    → scan_text (suc fuel) start haystack needle ≡ panicked
unfolding scan_text
scan_text-past fuel start haystack needle h = rw (h, scan_text) refl

after : (a i j : ℕ) → utf8_width a ≡ 1 → i + 1 ≡ j → j ≡ i + utf8_width a
after a i j one e = omega (arith, one, e)

-- A needle whose first character is one byte long.
narrow :
    (a : ℕ) (d : Text)
    → utf8_width a ≡ 1
    → (fuel : ℕ) (pre s : Text) → length s < fuel
    → scan_text fuel (byte_len pre) (pre ++ s) (a ∷ d)
      ≡ found (occurrences (byte_len pre) s (a ∷ d))
narrow a d one zero pre s lt = absurd (omega (arith, lt))
narrow a d one (suc fuel) pre s lt = elim (find-cases s a d) [
  | inl n ↦
      scan_text-absent fuel (byte_len pre) (pre ++ s) (a ∷ d) s (slice_from-append pre s)
        n.not_found
      ∙ ap found (sym (n.nowhere (byte_len pre)))
  | inr f ↦
      let next = pre ++ (f.before ++ a ∷ []) in
      let whole : pre ++ s ≡ next ++ f.behind =
        ap (λ t. pre ++ t) (f.splits ∙ sym (append_assoc f.before (a ∷ []) f.behind))
        ∙ sym (append_assoc pre (f.before ++ a ∷ []) f.behind) in
      let at : byte_len pre + byte_len f.before + 1 ≡ byte_len next = omega (
        arith,
        byte_len-append pre (f.before ++ a ∷ []),
        byte_len-append f.before (a ∷ []),
        byte_len-single a,
        one,
      ) in
      let shorter : length f.behind < fuel =
        omega (arith, lt, ap length f.splits, length-append f.before (a ∷ f.behind)) in
      scan_text-found fuel (byte_len pre) (byte_len f.before) (pre ++ s) (a ∷ d) s
        (slice_from-append pre s) f.found_at
      ∙ ap (found_too (byte_len pre + byte_len f.before)) (
          ap₂ (λ i t. scan_text fuel i t (a ∷ d)) at whole
          ∙ narrow a d one fuel next f.behind shorter)
      ∙ ap found (
          ap (λ i. (byte_len pre + byte_len f.before) ∷ occurrences i f.behind (a ∷ d))
            (after a (byte_len pre + byte_len f.before) (byte_len next) one at)
          ∙ sym (f.all_from (byte_len pre)))
]

-- A needle whose first character is longer.
wide :
    (a : ℕ) (d : Text)
    → 1 < utf8_width a
    → (fuel : ℕ) (s : Text)
    → scan_text (suc (suc fuel)) 0 s (a ∷ d)
      ≡ (if contains_text s (a ∷ d) then panicked else found [])
wide a d long fuel s = elim (find-cases s a d) [
  | inl n ↦
      rw n.outside
        (scan_text-absent (suc fuel) 0 s (a ∷ d) s (unfold slice_from in refl) n.not_found)
  | inr f ↦
      let cut : slice_from (byte_len f.before + 1) s ≡ none =
        ap (slice_from (byte_len f.before + 1)) f.splits
        ∙ slice_from-inside f.before f.behind a long in
      rw f.inside (
        (scan_text-found (suc fuel) 0 (byte_len f.before) s (a ∷ d) s (unfold slice_from in refl)
            f.found_at
          ∙ ap (found_too (0 + byte_len f.before)) (
              ap (λ i. scan_text (suc fuel) i s (a ∷ d)) (omega arith)
              ∙ scan_text-past fuel (byte_len f.before + 1) s (a ∷ d) cut)))
]

find-empty : (s : Text) → find s [] ≡ some 0
unfolding find starts_with
find-empty [] = refl
find-empty (c ∷ s) = refl

-- The empty needle is found everywhere, and at last past the end.
empty :
    (fuel start : ℕ) (s : Text)
    → start ≤ byte_len s + 1
    → byte_len s + 1 < fuel + start
    → scan_text fuel start s [] ≡ panicked
unfolding scan_text
empty zero start s le lt = absurd (omega (arith, le, lt))
empty (suc fuel) start s le lt = elim (Option-cases (slice_from start s)) [
  | inl e ↦ scan_text-past fuel start s [] e
  | inr (rest, e) ↦
      let further =
        empty fuel (start + 0 + 1) s (omega (arith, slice_from-le start s rest e))
          (omega (arith, lt)) in
      scan_text-found fuel start 0 s [] rest e (find-empty rest)
      ∙ ap (found_too (start + 0)) further
]

-- How `indices` of a text ends, for every needle: it panics on the empty needle, and on a needle
-- that starts with a character of more than one byte where that needle occurs; otherwise it
-- answers the offset of each occurrence, in order, overlapping ones included.
pub text_indices_lem :
    (haystack needle : Text)
    → text_indices haystack needle ≡ elim needle [
      | [] ↦ panicked
      | a ∷ d ↦
          if utf8_width a == 1
          then found (occurrences 0 haystack (a ∷ d))
          else if contains_text haystack (a ∷ d)
          then panicked
          else found []
    ]
text_indices_lem haystack [] = empty (byte_len haystack + 2) 0 haystack (omega arith) (omega arith)
text_indices_lem haystack (a ∷ d) = elim (Bool-cases (utf8_width a == 1)) [
  | inl e ↦ rw e (
      unfold byte_len in
      narrow a d ((==_iff (utf8_width a) 1).0 e) (byte_len haystack + 2) [] haystack
        (omega (arith, length-byte_len haystack)))
  | inr e ↦ rw e (
      ap (λ n. scan_text n 0 haystack (a ∷ d)) (omega arith)
      ∙ wide a d (ground (arith, e, utf8_width-pos a)) (byte_len haystack) haystack)
]

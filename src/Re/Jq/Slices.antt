-- ===== src/Re/Jq/Slices.antt =====
-- Slices of a text at byte offsets.
use arbeiterfarm.Base.{
  ℕ, zero, suc, ◌+◌, ◌-◌, ◌≤◌, ◌<◌, ◌≡◌, refl, sym, ap, ◌∙◌, inl, inr, none, some, [], ◌∷◌, ◌++◌,
  arith, leb, Bool-cases, if_of_true, if_of_false, length,
}
use arbeiterfarm.Base.Text.{Text, utf8_width, byte_len}
use arbeiterfarm.Re.Jq.Strings.{slice_from}

pub utf8_width-pos : (c : ℕ) → 1 ≤ utf8_width c
utf8_width-pos c = ground arith

pub length-byte_len : (s : Text) → length s ≤ byte_len s
unfolding byte_len
length-byte_len [] = omega arith
length-byte_len (c ∷ s) = omega (arith, length-byte_len s, utf8_width-pos c)

slice_from-past :
    (m c n : ℕ) (s : Text) → m ≡ utf8_width c + n → slice_from m (c ∷ s) ≡ slice_from n s
unfolding slice_from
slice_from-past zero c n s e = absurd (omega (arith, e, utf8_width-pos c))
slice_from-past (suc k) c n s e =
    if_of_true (leb (utf8_width c) (suc k)) (slice_from (suc k - utf8_width c) s) none
      (ground (arith, e))
    ∙ ap (λ i. slice_from i s) (omega (arith, e))

pub slice_from-append : (s t : Text) → slice_from (byte_len s) (s ++ t) ≡ some t
unfolding byte_len slice_from
slice_from-append [] t = refl
slice_from-append (c ∷ s) t =
    slice_from-past (utf8_width c + byte_len s) c (byte_len s) (s ++ t) refl ∙ slice_from-append s t

-- No character of more than one byte is cut.
pub slice_from-inside :
    (s t : Text) (a : ℕ) → 1 < utf8_width a → slice_from (byte_len s + 1) (s ++ a ∷ t) ≡ none
unfolding byte_len slice_from
slice_from-inside [] t a wide = ground (arith, wide)
slice_from-inside (c ∷ s) t a wide =
    slice_from-past (utf8_width c + byte_len s + 1) c (byte_len s + 1) (s ++ a ∷ t) (omega arith)
    ∙ slice_from-inside s t a wide

pub slice_from-le : (n : ℕ) (s t : Text) → slice_from n s ≡ some t → n ≤ byte_len s
unfolding byte_len slice_from
slice_from-le zero s t h = omega arith
slice_from-le (suc n) [] t h = absurd (ground (arith, h))
slice_from-le (suc n) (c ∷ s) t h = elim (Bool-cases (leb (utf8_width c) (suc n))) [
  | inl e ↦ omega (
    arith,
    slice_from-le (suc n - utf8_width c) s t (
        sym (if_of_true (leb (utf8_width c) (suc n)) (slice_from (suc n - utf8_width c) s) none e)
        ∙ h),
  )
  | inr e ↦ absurd (
      ground (
        arith,
        sym (if_of_false (leb (utf8_width c) (suc n)) (slice_from (suc n - utf8_width c) s) none e)
            ∙ h,
      ))
]

pub byte_len-single : (a : ℕ) → byte_len (a ∷ []) ≡ utf8_width a
unfolding byte_len
byte_len-single a = omega arith

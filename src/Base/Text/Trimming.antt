-- ===== src/Base/Text/Trimming.antt =====
-- Laws of splitting and trimming.
use arbeiterfarm.Base.Tests.{◌==◌}
use arbeiterfarm.Base.Lists.{all}
use arbeiterfarm.Base.{
  ℕ, ◌≡◌, refl, ap, ◌∙◌, Bool, true, not, some, [], ◌∷◌, ◌++◌, arith, ◌==◌, all,
}
use arbeiterfarm.Base.Text.{
  Text, is_whitespace, trim_start_matches, trim_end_matches, trim, split_once,
}

-- The first separator splits the text.
pub split_once-append :
    (sep : ℕ) (s r : Text)
    → all (λ c. not (c == sep)) s ≡ true
    → split_once sep (s ++ sep ∷ r) ≡ (s, some r)
unfolding split_once
split_once-append sep [] r h = ground arith
split_once-append sep (c ∷ s) r h = ground (arith, split_once-append sep s r)

all-trim_end : (p : ℕ → Bool) (s : Text) → all p (trim_end_matches p s) ≡ all p s
unfolding trim_end_matches
all-trim_end p [] = refl
all-trim_end p (c ∷ s) = ground (arith, all-trim_end p s)

trim_end-trim_end :
    (p : ℕ → Bool) (s : Text) → trim_end_matches p (trim_end_matches p s) ≡ trim_end_matches p s
unfolding trim_end_matches
trim_end-trim_end p [] = refl
trim_end-trim_end p (c ∷ s) = ground (arith, all-trim_end p s, trim_end-trim_end p s)

-- Whether the text starts with a character outside `p`, if it starts at all.
abbrev head_outside : (ℕ → Bool) → Text → Bool
head_outside p [] = true
head_outside p (c ∷ s) = not (p c)

head_outside-trim_start : (p : ℕ → Bool) (s : Text) → head_outside p (trim_start_matches p s) ≡ true
unfolding trim_start_matches
head_outside-trim_start p [] = refl
head_outside-trim_start p (c ∷ s) = ground (arith, head_outside-trim_start p s)

trim_start-trim_end :
    (p : ℕ → Bool) (s : Text)
    → head_outside p s ≡ true
    → trim_start_matches p (trim_end_matches p s) ≡ trim_end_matches p s
unfolding trim_start_matches trim_end_matches
trim_start-trim_end p [] h = refl
trim_start-trim_end p (c ∷ s) h = ground arith

-- Trimming twice is trimming once.
pub trim-trim : (s : Text) → trim (trim s) ≡ trim s
unfolding trim
trim-trim s =
    let e =
      trim_start-trim_end is_whitespace (trim_start_matches is_whitespace s)
        (head_outside-trim_start is_whitespace s) in
    ap (trim_end_matches is_whitespace) e
    ∙ trim_end-trim_end is_whitespace (trim_start_matches is_whitespace s)

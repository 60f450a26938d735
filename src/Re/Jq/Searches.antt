-- ===== src/Re/Jq/Searches.antt =====
-- The first occurrence of a text in another, and all of them.
use arbeiterfarm.Base.{
  ℕ, ◌+◌, ◌≡◌, refl, ap, ap₂, ◌∙◌, ◌⊎◌, inl, inr, true, false, none, some, List, [], ◌∷◌, ◌++◌,
  arith, if◌then◌else◌, Bool-cases, if_of_true, if_of_false,
}
use arbeiterfarm.Base.Text.{Text, utf8_width, byte_len, starts_with, contains_text}
use arbeiterfarm.Re.Jq.Strings.{find}

-- The offsets, in bytes and from `o` on, at which a needle that is not empty starts.
unfoldable pub occurrences : ℕ → Text → Text → List ℕ
occurrences o [] needle = []
occurrences o (c ∷ s) needle =
    let rest = occurrences (o + utf8_width c) s needle in
    if starts_with (c ∷ s) needle then o ∷ rest else rest

occurrences-here :
    (o c : ℕ) (s needle : Text)
    → starts_with (c ∷ s) needle ≡ true
    → occurrences o (c ∷ s) needle ≡ o ∷ occurrences (o + utf8_width c) s needle
unfolding occurrences
occurrences-here o c s needle e =
    if_of_true (starts_with (c ∷ s) needle) (o ∷ occurrences (o + utf8_width c) s needle)
      (occurrences (o + utf8_width c) s needle) e

occurrences-there :
    (o c : ℕ) (s needle : Text)
    → starts_with (c ∷ s) needle ≡ false
    → occurrences o (c ∷ s) needle ≡ occurrences (o + utf8_width c) s needle
unfolding occurrences
occurrences-there o c s needle e =
    if_of_false (starts_with (c ∷ s) needle) (o ∷ occurrences (o + utf8_width c) s needle)
      (occurrences (o + utf8_width c) s needle) e

-- The first occurrence of a needle that starts with `a`.
pub record IsFirst (s : Text) (a : ℕ) (d : Text) : Type 0 where
  pub before : Text
  pub behind : Text
  pub splits : s ≡ before ++ a ∷ behind
  pub found_at : find s (a ∷ d) ≡ some (byte_len before)
  pub all_from :
      (o : ℕ)
      → occurrences o s (a ∷ d)
        ≡ (o + byte_len before) ∷ occurrences (o + byte_len before + utf8_width a) behind (a ∷ d)
  pub inside : contains_text s (a ∷ d) ≡ true

pub record IsAbsent (s needle : Text) : Type 0 where
  pub not_found : find s needle ≡ none
  pub nowhere : (o : ℕ) → occurrences o s needle ≡ []
  pub outside : contains_text s needle ≡ false

pub find-cases : (s : Text) (a : ℕ) (d : Text) → IsAbsent s (a ∷ d) ⊎ IsFirst s a d
unfolding find occurrences contains_text starts_with byte_len
find-cases [] a d = inl (record { not_found = refl; nowhere = λ o. refl; outside = refl })
find-cases (c ∷ s) a d = elim (Bool-cases (starts_with (c ∷ s) (a ∷ d))) [
  | inl e ↦
      let same : c ≡ a = ground (arith, e) in
      inr (record {
        before = [];
        behind = s;
        splits = ap (λ x. x ∷ s) same;
        found_at = rw e refl;
        all_from = λ o.
            occurrences-here o c s (a ∷ d) e
            ∙ ap₂ (λ i j. i ∷ occurrences j s (a ∷ d)) (omega arith)
                (omega (arith, ap utf8_width same));
        inside = rw e refl;
      })
  | inr e ↦ elim (find-cases s a d) [
    | inl n ↦ inl (record {
      not_found = rw (e, n.not_found) refl;
      nowhere = λ o. rw (e, n.nowhere (o + utf8_width c)) refl;
      outside = rw (e, n.outside) refl;
    })
    | inr f ↦ inr (record {
      before = c ∷ f.before;
      behind = f.behind;
      splits = ap (λ t. c ∷ t) f.splits;
      found_at = rw (e, f.found_at) refl;
      all_from = λ o.
          occurrences-there o c s (a ∷ d) e
          ∙ f.all_from (o + utf8_width c)
          ∙ ap₂ (λ i j. i ∷ occurrences j f.behind (a ∷ d)) (omega arith) (omega arith);
      inside = rw (e, f.inside) refl;
    })
  ]
]

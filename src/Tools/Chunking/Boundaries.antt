-- ===== src/Tools/Chunking/Boundaries.antt =====
-- Character boundaries, and where `find_boundary` cuts.
use arbeiterfarm.Base.{
  ℕ, zero, suc, ◌+◌, ◌-◌, ◌≤◌, ◌<◌, ◌≡◌, sym, inl, inr, true, Option, none, some, List, [], ◌∷◌,
  arith, ◌==◌, if◌then◌else◌, ==_iff, Bool-cases, Option-cases, length, drop, length-take, All,
}
use arbeiterfarm.Base.Text.{lit}
use arbeiterfarm.Tools.Chunking.{
  Bytes, is_char_boundary, walk_down, floor_char_boundary, slice, has_prefix, rfind, behind_last,
  first_boundary, find_boundary,
}

pub walk_down-bound : (text : Bytes) (p : ℕ) → walk_down text p ≤ p
unfolding walk_down
walk_down-bound text zero = omega arith
walk_down-bound text (suc p) = ground (arith, walk_down-bound text p)

walk_down-step :
    (text : Bytes) (p : ℕ)
    → walk_down text (suc p) ≡ (if is_char_boundary text (suc p) then suc p else walk_down text p)
unfolding walk_down
walk_down-step text p = ground arith

-- No boundary lies between the result and the position.
pub walk_down-last :
    (text : Bytes) (p q : ℕ) → is_char_boundary text q ≡ true → q ≤ p → q ≤ walk_down text p
walk_down-last text zero q h le = unfold walk_down in le
walk_down-last text (suc p) q h le = elim (Bool-cases (q == suc p)) [
  | inl s ↦ rw (walk_down-step text p, sym ((==_iff q (suc p)).0 s), h) (omega arith)
  | inr d ↦ ground (arith, walk_down-step text p, walk_down-last text p q h, d)
]

pub floor-bound : (text : Bytes) (p : ℕ) → floor_char_boundary text p ≤ p
unfolding floor_char_boundary
floor-bound text p = ground (arith, walk_down-bound text p)

pub floor-length : (text : Bytes) (p : ℕ) → floor_char_boundary text p ≤ length text
unfolding floor_char_boundary
floor-length text p = ground (arith, walk_down-bound text p)

has_prefix-length : (text pat : Bytes) → has_prefix text pat ≡ true → length pat ≤ length text
unfolding has_prefix
has_prefix-length text [] h = omega arith
has_prefix-length [] (p ∷ pat) h = absurd (ground arith)
has_prefix-length (b ∷ text) (p ∷ pat) h = ground (arith, has_prefix-length text pat)

-- An occurrence lies in the text.
rfind-bound :
    (pat text : Bytes) (pos : ℕ) → rfind pat text ≡ some pos → pos + length pat ≤ length text
unfolding rfind
rfind-bound pat [] pos h = ground (arith, has_prefix-length [] pat)
rfind-bound pat (b ∷ text) pos h = elim (Option-cases (rfind pat text)) [
  | inl e ↦ ground (arith, e, has_prefix-length (b ∷ text) pat)
  | inr (q, e) ↦ ground (arith, e, rfind-bound pat text q e)
]

length-slice : (text : Bytes) (start end : ℕ) → length (slice text start end) ≤ end - start
length-slice text start end = ground (arith, length-take (end - start) (drop start text))

behind_last-bound :
    (separator text : Bytes) (start end boundary : ℕ)
    → start ≤ end
    → behind_last separator text start end ≡ some boundary
    → (start < boundary) × (boundary ≤ end)
unfolding behind_last
behind_last-bound separator text start end boundary le h =
    elim (Option-cases (rfind separator (slice text start end))) [
      | inl e ↦ absurd (ground (arith, e))
      | inr (pos, e) ↦ ground (
        arith,
        e,
        rfind-bound separator (slice text start end) pos e,
        length-slice text start end,
      )
    ]

-- Each candidate lies behind `start` and not behind `end`.
abbrev Between : ℕ → ℕ → Option ℕ → Type 0
Between start end none = Unit
Between start end (some b) = (start < b) × (b ≤ end)

behind_last-Between :
    (separator text : Bytes) (start end : ℕ)
    → start ≤ end
    → Between start end (behind_last separator text start end)
behind_last-Between separator text start end le =
    elim (Option-cases (behind_last separator text start end)) [
      | inl e ↦ rw e tt
      | inr (b, e) ↦ rw e (behind_last-bound separator text start end b le e)
    ]

first_boundary-Between :
    (start end : ℕ) (candidates : List (Option ℕ))
    → start < end
    → All (Between start end) candidates
    → (start < first_boundary candidates end) × (first_boundary candidates end ≤ end)
unfolding first_boundary
first_boundary-Between start end [] lt h = (lt, omega arith)
first_boundary-Between start end (none ∷ rest) lt h = first_boundary-Between start end rest lt h.1
first_boundary-Between start end (some b ∷ rest) lt h = h.0

pub find_boundary-bound :
    (text : Bytes) (start end : ℕ)
    → start < end
    → (start < find_boundary text start end) × (find_boundary text start end ≤ end)
unfolding find_boundary
find_boundary-bound text start end lt =
    let b : (s : Bytes) → Between start end (behind_last s text start end) =
      λ s. behind_last-Between s text start end (omega (arith, lt)) in
    first_boundary-Between start end _ lt
      (b (lit "\n\n"), (b (lit "\n"), (b (lit ". "), (b (lit " "), tt))))

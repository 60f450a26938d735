-- ===== src/Tools/Chunking/Progress.antt =====
-- Each round of the loop moves forward.
use arbeiterfarm.Base.{
  ℕ, zero, suc, ◌+◌, ◌%◌, ◌^◌, ◌≤◌, ◌<◌, min, ◌≡◌, refl, subst, inl, inr, Bool, true, false, ◌&&◌,
  ◌||◌, not, none, some, [], ◌∷◌, arith, leb, ◌==◌, Bool-cases, length, get_elem?,
}
use arbeiterfarm.Tools.Chunking.{
  Bytes, continues, is_char_boundary, floor_char_boundary, next_start, walk_down,
}
use arbeiterfarm.Tools.Chunking.Boundaries.{walk_down-last}

-- No four bytes in a row continue a character, as in every UTF-8 text.
unfoldable pub short_chars : Bytes → Bool
short_chars (a ∷ b ∷ c ∷ d ∷ rest) =
    not (continues a && continues b && continues c && continues d) && short_chars (b ∷ c ∷ d ∷ rest)
short_chars _ = true

abbrev starts_char : Bytes → ℕ → Bool
starts_char text p = elim (get_elem? text p) [ none ↦ false | some b ↦ not (continues b) ]

short-tail : (b : ℕ) (text : Bytes) → short_chars (b ∷ text) ≡ true → short_chars text ≡ true
unfolding short_chars
short-tail a [] h = refl
short-tail a (b ∷ []) h = refl
short-tail a (b ∷ c ∷ []) h = refl
short-tail a (b ∷ c ∷ d ∷ rest) h = ground (arith, h)

window :
    (text : Bytes) (p : ℕ)
    → short_chars text ≡ true
    → suc (suc (suc p)) < length text
    → (starts_char text p
        || (starts_char text (suc p)
            || (starts_char text (suc (suc p)) || starts_char text (suc (suc (suc p))))))
      ≡ true
window [] p h lt = absurd (omega (arith, lt))
window (a ∷ text) (suc p) h lt = window text p (short-tail a text h) (omega (arith, lt))
window (a ∷ []) zero h lt = absurd (omega (arith, lt))
window (a ∷ b ∷ []) zero h lt = absurd (omega (arith, lt))
window (a ∷ b ∷ c ∷ []) zero h lt = absurd (omega (arith, lt))
window (a ∷ b ∷ c ∷ d ∷ rest) zero h lt = unfold short_chars in ground (arith, h)

boundary_of_start :
    (text : Bytes) (p : ℕ) → starts_char text (suc p) ≡ true → is_char_boundary text (suc p) ≡ true
unfolding is_char_boundary
boundary_of_start text p h = ground (arith, h)

get-none : (text : Bytes) → get_elem? text (length text) ≡ none
get-none [] = refl
get-none (b ∷ text) = get-none text

length-boundary :
    (text : Bytes) (p : ℕ) → length text ≡ suc p → is_char_boundary text (suc p) ≡ true
unfolding is_char_boundary
length-boundary text p h =
    let e : get_elem? text (suc p) ≡ none =
      subst (λ n. get_elem? text n ≡ none) h (get-none text) in
    ground (arith, e, h)

-- A character has at most four bytes.
near_boundary :
    (text : Bytes) (start : ℕ)
    → short_chars text ≡ true
    → start + 4 ≤ length text
    → (q : ℕ) × (is_char_boundary text q ≡ true) × (start < q) × (q ≤ start + 4)
near_boundary text start h le = elim (Bool-cases (length text == start + 4)) [
  | inl e ↦
      let end : length text ≡ suc (suc (suc (suc start))) = ground (arith, e) in
      (
        suc (suc (suc (suc start))),
        length-boundary text (suc (suc (suc start))) end,
        omega arith,
        omega arith,
      )
  | inr e ↦
      let w = window text (suc start) h (ground (arith, le, e)) in
      let at : (k : ℕ)
          → starts_char text (suc k) ≡ true
          → start ≤ k
          → k < start + 4
          → (q : ℕ) × (is_char_boundary text q ≡ true) × (start < q) × (q ≤ start + 4) =
        λ k t ge lt. (suc k, boundary_of_start text k t, omega (arith, ge), omega (arith, lt)) in
      elim (Bool-cases (starts_char text (suc start))) [
        | inl t ↦ at start t (omega arith) (omega arith)
        | inr t1 ↦ elim (Bool-cases (starts_char text (suc (suc start)))) [
          | inl t ↦ at (suc start) t (omega arith) (omega arith)
          | inr t2 ↦ elim (Bool-cases (starts_char text (suc (suc (suc start))))) [
            | inl t ↦ at (suc (suc start)) t (omega arith) (omega arith)
            | inr t3 ↦
                at (suc (suc (suc start))) (ground (arith, w, t1, t2, t3)) (omega arith)
                  (omega arith)
          ]
        ]
      ]
]

floor-end : (text : Bytes) (p : ℕ) → length text ≤ p → floor_char_boundary text p ≡ length text
unfolding floor_char_boundary
floor-end text p h = ground (arith, h)

floor-inside :
    (text : Bytes) (p : ℕ)
    → leb (length text) p ≡ false
    → floor_char_boundary text p ≡ walk_down text p
unfolding floor_char_boundary
floor-inside text p h = rw h refl

pub floor-progress :
    (text : Bytes) (chunk_size start : ℕ)
    → short_chars text ≡ true
    → 4 ≤ chunk_size
    → start + chunk_size < 2 ^ 64
    → start < length text
    → start < floor_char_boundary text (min ((start + chunk_size) % 2 ^ 64) (length text))
floor-progress text chunk_size start h four small lt =
    elim (Bool-cases (leb (length text) (start + chunk_size))) [
      | inl e ↦
          rw
            (floor-end text (min ((start + chunk_size) % 2 ^ 64) (length text))
              (ground (arith, small, e)))
            lt
      | inr e ↦
          let (q, at, before, near) = near_boundary text start h (ground (arith, four, e)) in
          let stays : min ((start + chunk_size) % 2 ^ 64) (length text) ≡ start + chunk_size =
            ground (arith, small, e) in
          rw (stays, floor-inside text (start + chunk_size) e)
            (omega (
              arith,
              walk_down-last text (start + chunk_size) q at (omega (arith, near, four)),
              before,
            ))
    ]

pub next_start-progress :
    (text : Bytes) (overlap start boundary : ℕ)
    → start < boundary
    → start < next_start text overlap start boundary
unfolding next_start
next_start-progress text overlap start boundary lt = ground (arith, lt)

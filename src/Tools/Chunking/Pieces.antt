-- ===== src/Tools/Chunking/Pieces.antt =====
-- The loop returns, and its chunks are pieces of the text.
use arbeiterfarm.Base.{
  ℕ, zero, suc, ◌+◌, ◌-◌, ◌%◌, ◌^◌, ◌≤◌, ◌<◌, min, ◌≡◌, refl, ap, ◌∙◌, inl, inr, true, false, ◌&&◌,
  ◌||◌, Option, none, some, List, [], ◌++◌, arith, ltb, leb, ◌==◌, if◌then◌else◌, Bool-cases,
  length, All, All-append,
}
use arbeiterfarm.Base.Text.{Text}
use arbeiterfarm.Tools.Chunking.{
  max_chunks, Bytes, Chunk, slice, is_blank, find_boundary, chunk_of, next_start, chunk_end,
  chunk_loop, chunk_text, chunk_size_of, chunk_overlap_of, doc_chunks,
}
use arbeiterfarm.Tools.Chunking.Boundaries.{floor-bound, floor-length, find_boundary-bound}
use arbeiterfarm.Tools.Chunking.Progress.{short_chars, floor-progress, next_start-progress}

-- A piece of the text that is not blank and has at most `chunk_size` bytes.
pub record IsPiece (text : Bytes) (chunk_size : ℕ) (c : Chunk) : Type 0 where
  pub inside : c.offset + c.length_ ≤ length text
  pub bounded : c.length_ ≤ chunk_size
  pub content : c.text ≡ slice text c.offset (c.offset + c.length_)
  pub not_blank : is_blank c.text ≡ false

chunk_of-IsPiece :
    (text : Bytes) (chunk_size : ℕ) (prefix : Text) (count start end : ℕ)
    → start ≤ end
    → end ≤ length text
    → end ≤ start + chunk_size
    → All (IsPiece text chunk_size) (chunk_of text prefix count start end)
chunk_of-IsPiece text chunk_size prefix count start end le inside bound =
    elim (Bool-cases (is_blank (slice text start end))) [
      | inl e ↦ unfold chunk_of in rw e tt
      | inr e ↦
          unfold chunk_of in
          rw e (
            record {
              inside = omega (arith, le, inside);
              bounded = omega (arith, bound);
              content = ap (slice text start) (omega (arith, le));
              not_blank = e;
            },
            tt,
          )
    ]

abbrev pub cut_of : Bytes → ℕ → ℕ → ℕ
cut_of text chunk_size start = find_boundary text start (chunk_end text chunk_size start)

-- One round of the loop.
pub chunk_loop-step :
    (fuel : ℕ) (text : Bytes) (chunk_size overlap : ℕ) (prefix : Text) (start count : ℕ)
    → chunk_loop (suc fuel) text chunk_size overlap prefix start count ≡ (
        if ltb start (length text) && ltb count max_chunks
        then (if leb (length text) (chunk_end text chunk_size start)
            then some (chunk_of text prefix count start (length text))
            else elim (chunk_loop fuel text chunk_size overlap prefix
                (next_start text overlap start (cut_of text chunk_size start))
                (count
                  + length (chunk_of text prefix count start (cut_of text chunk_size start)))) [
                    | none ↦ none
                    | some rest ↦
                        some
                          (chunk_of text prefix count start (cut_of text chunk_size start) ++ rest)
                  ])
        else some [])
unfolding chunk_loop
chunk_loop-step fuel text chunk_size overlap prefix start count = refl

-- The result of the loop, with what holds of it.
abbrev pub Pieces : Bytes → ℕ → Option (List Chunk) → Type 0
Pieces text chunk_size result =
    (chunks : List Chunk) × (result ≡ some chunks) × All (IsPiece text chunk_size) chunks

chunk_loop-Pieces :
    (fuel : ℕ) (text : Bytes) (chunk_size overlap : ℕ) (prefix : Text) (start count : ℕ)
    → short_chars text ≡ true
    → 4 ≤ chunk_size
    → length text + chunk_size < 2 ^ 64
    → length text - start < fuel
    → Pieces text chunk_size (chunk_loop fuel text chunk_size overlap prefix start count)
chunk_loop-Pieces zero text chunk_size overlap prefix start count h four small lt =
    absurd (omega (arith, lt))
chunk_loop-Pieces (suc fuel) text chunk_size overlap prefix start count h four small lt =
    let end = chunk_end text chunk_size start in
    let boundary = cut_of text chunk_size start in
    let step = chunk_loop-step fuel text chunk_size overlap prefix start count in
    elim (Bool-cases (ltb start (length text) && ltb count max_chunks)) [
      | inr stop ↦ ([], step ∙ rw stop refl, tt)
      | inl go ↦
          let inside : start < length text = ground (arith, go) in
          let forward : start < end =
            floor-progress text chunk_size start h four (omega (arith, small, inside)) inside in
          let near : end ≤ start + chunk_size = omega (
            arith,
            floor-bound text (min ((start + chunk_size) % 2 ^ 64) (length text)),
            inside,
            small,
          ) in
          let cut = find_boundary-bound text start end forward in
          elim (Bool-cases (leb (length text) end)) [
            | inl last ↦ (
              chunk_of text prefix count start (length text),
              step ∙ rw (go, last) refl,
              chunk_of-IsPiece text chunk_size prefix count start (length text)
                  (omega (arith, inside)) (omega arith) (ground (arith, last, near)),
            )
            | inr more ↦
                let moved = next_start-progress text overlap start boundary cut.0 in
                let chunk = chunk_of text prefix count start boundary in
                let (rest, e, pieces) =
                  chunk_loop-Pieces fuel text chunk_size overlap prefix
                    (next_start text overlap start boundary) (count + length chunk) h four small
                    (omega (arith, moved, inside, lt)) in
                (
                  chunk ++ rest,
                  step ∙ rw (go, more, e) refl,
                  All-append (IsPiece text chunk_size) chunk rest
                      (chunk_of-IsPiece text chunk_size prefix count start boundary
                        (omega (arith, cut.0))
                        (omega (
                          arith,
                          cut.1,
                          floor-length text (min ((start + chunk_size) % 2 ^ 64) (length text)),
                        ))
                        (omega (arith, cut.1, near)))
                      pieces,
                )
          ]
    ]

-- For UTF-8 texts and chunk sizes of at least four bytes, `chunk_text` returns: one more round than
-- the text has bytes is enough. Its chunks are pieces of the text of at most `chunk_size` bytes,
-- none of them blank.
pub chunk_text-Pieces :
    (text : Bytes) (chunk_size overlap : ℕ) (prefix : Text)
    → short_chars text ≡ true
    → 4 ≤ chunk_size
    → length text + chunk_size < 2 ^ 64
    → Pieces text chunk_size (chunk_text (suc (length text)) text chunk_size overlap prefix)
unfolding chunk_text
chunk_text-Pieces text chunk_size overlap prefix h four small =
    elim (Bool-cases (length text == 0 || chunk_size == 0)) [
      | inl e ↦ ([], unfold chunk_text in rw e refl, tt)
      | inr e ↦
          let (chunks, done, pieces) =
            chunk_loop-Pieces (suc (length text)) text chunk_size overlap prefix 0 0 h four small
              (omega arith) in
          (chunks, rw (e, chunk_text) done, pieces)
    ]

-- Whatever sizes the input of the tool asks for, chunking a UTF-8 document returns, and its chunks
-- are pieces of the document of at most the size that the tool settles on, none of them blank.
pub doc_chunks-Pieces :
    (text : Bytes) (chunk_size overlap : Option ℕ) (prefix : Text)
    → short_chars text ≡ true
    → length text + 10000 < 2 ^ 64
    → Pieces text
        (chunk_size_of chunk_size)
        (doc_chunks (suc (length text)) text chunk_size overlap prefix)
unfolding doc_chunks
doc_chunks-Pieces text chunk_size overlap prefix h small = elim (Bool-cases (length text == 0)) [
  | inl e ↦ ([], unfold doc_chunks in rw e refl, tt)
  | inr e ↦
      let size = chunk_size_of chunk_size in
      let clamped : (100 ≤ size) × (size ≤ 10000) = unfold chunk_size_of in ground arith in
      let (chunks, done, pieces) =
        chunk_loop-Pieces (suc (length text)) text size (chunk_overlap_of overlap size) prefix 0 0 h
          (omega (arith, clamped.0)) (omega (arith, clamped.1, small)) (omega arith) in
      (chunks, rw (e, doc_chunks) done, pieces)
]

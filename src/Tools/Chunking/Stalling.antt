-- ===== src/Tools/Chunking/Stalling.antt =====
-- Where a character has more bytes than a chunk.
use arbeiterfarm.Base.{
  ℕ, zero, suc, ◌+◌, ◌-◌, ◌<◌, ◌≡◌, refl, ap, ◌∙◌, true, false, ◌&&◌, none, [], ◌∷◌, arith, ltb,
  leb, length, take, drop,
}
use arbeiterfarm.Base.Text.{Text}
use arbeiterfarm.Tools.Chunking.{
  max_chunks, Bytes, slice, has_prefix, rfind, blank_from, is_blank, behind_last, first_boundary,
  find_boundary, chunk_of, next_start, chunk_end, chunk_loop,
}
use arbeiterfarm.Tools.Chunking.Pieces.{chunk_loop-step}
use arbeiterfarm.Tools.Chunking.Boundaries.{floor-bound}

slice-none : (text : Bytes) (start : ℕ) → slice text start start ≡ []
slice-none text start = ap (λ n. take n (drop start text)) {y = 0} (omega arith)

behind_last-none :
    (p : ℕ) (pat text : Bytes) (start : ℕ) → behind_last (p ∷ pat) text start start ≡ none
unfolding behind_last rfind has_prefix
behind_last-none p pat text start = rw (slice-none text start, behind_last) refl

find_boundary-none : (text : Bytes) (start : ℕ) → find_boundary text start start ≡ start
unfolding find_boundary
find_boundary-none text start =
    rw
      (
        behind_last-none 10 (10 ∷ []) text start,
        behind_last-none 10 [] text start,
        behind_last-none 46 (32 ∷ []) text start,
        behind_last-none 32 [] text start,
      )
      (unfold first_boundary in refl)

chunk_of-none :
    (text : Bytes) (prefix : Text) (count start : ℕ) → chunk_of text prefix count start start ≡ []
unfolding chunk_of is_blank blank_from
chunk_of-none text prefix count start = rw (slice-none text start) refl

next_start-none : (text : Bytes) (overlap start : ℕ) → next_start text overlap start start ≡ start
unfolding next_start
next_start-none text overlap start = ground (arith, floor-bound text (start - overlap))

-- Where the chunk that starts at `start` cannot hold the character there, the loop does not leave
-- `start`: no number of rounds is enough.
pub chunk_loop-stalls :
    (fuel : ℕ) (text : Bytes) (chunk_size overlap : ℕ) (prefix : Text) (start count : ℕ)
    → start < length text
    → count < max_chunks
    → chunk_end text chunk_size start ≡ start
    → chunk_loop fuel text chunk_size overlap prefix start count ≡ none
chunk_loop-stalls zero text chunk_size overlap prefix start count inside few e =
    unfold chunk_loop in refl
chunk_loop-stalls (suc fuel) text chunk_size overlap prefix start count inside few e =
    let rec = chunk_loop-stalls fuel text chunk_size overlap prefix start count inside few e in
    let go : (ltb start (length text) && ltb count max_chunks) ≡ true =
      ground (arith, inside, few) in
    let more : leb (length text) (chunk_end text chunk_size start) ≡ false =
      ground (arith, e, inside) in
    let same : count + 0 ≡ count = omega arith in
    chunk_loop-step fuel text chunk_size overlap prefix start count
    ∙ rw
        (
          go,
          more,
          e,
          find_boundary-none text start,
          chunk_of-none text prefix count start,
          next_start-none text overlap start,
          same,
          rec,
        )
        refl

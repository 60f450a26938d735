-- ===== src/Tools/Chunking/Examples.antt =====
-- Texts of the unit tests, and the theorems at concrete texts.
use arbeiterfarm.Base.{ℕ, ◌≡◌, refl, Option, none, some, List, [], ◌∷◌, map, arith}
use arbeiterfarm.Base.Text.Decimal.{decimal_digits}
use arbeiterfarm.Base.Text.{lit}
use arbeiterfarm.Tools.Chunking.{
  Bytes, Chunk, is_char_boundary, walk_down, floor_char_boundary, has_prefix, rfind, space_width,
  blank_from, is_blank, behind_last, first_boundary, find_boundary, chunk_of, next_start,
  chunk_loop, chunk_text, chunk_size_of, doc_chunks,
}
use arbeiterfarm.Tools.Chunking.Progress.{short_chars}
use arbeiterfarm.Tools.Chunking.Pieces.{Pieces, doc_chunks-Pieces}
use arbeiterfarm.Tools.Chunking.Stalling.{chunk_loop-stalls}

abbrev words : Bytes
words = lit "One two. Three four.\n\nFive"

-- The offsets and lengths of the chunks.
abbrev extents : Option (List Chunk) → List (ℕ × ℕ)
extents none = []
extents (some chunks) = map (λ c. (c.offset, c.length_)) chunks

cut_at_sentence : extents (chunk_text 30 words 12 0 (lit "doc")) ≡ (0, 9) ∷ (9, 12) ∷ (21, 5) ∷ []
unfolding chunk_text chunk_loop find_boundary first_boundary behind_last rfind has_prefix chunk_of
    is_blank blank_from space_width next_start floor_char_boundary walk_down is_char_boundary
    decimal_digits
cut_at_sentence = refl

doc_chunks-Pieces_example : Pieces words 100 (doc_chunks 27 words (some 5) none (lit "doc"))
unfolding chunk_size_of
doc_chunks-Pieces_example =
    doc_chunks-Pieces words (some 5) none (lit "doc") (unfold short_chars in refl) (omega arith)

-- The two bytes of a letter, and chunks of one byte.
chunk_loop-stalls_example : chunk_loop 1000 (0xc3 ∷ 0xa9 ∷ []) 1 0 (lit "doc") 0 0 ≡ none
chunk_loop-stalls_example =
    chunk_loop-stalls 1000 (0xc3 ∷ 0xa9 ∷ []) 1 0 (lit "doc") 0 0 (omega arith) (omega arith)
      (unfold floor_char_boundary walk_down is_char_boundary in refl)

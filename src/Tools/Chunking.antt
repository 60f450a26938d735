-- ===== src/Tools/Chunking.antt =====
-- af/crates/af-builtin-tools/src/chunking.rs: a text cut into overlapping chunks for embedding; and the
-- copy in arbeiterfarm/crates/af-re-tools/src/doc_chunk.rs, with the bounds on its parameters. A
-- string is the list of its UTF-8 bytes here, since the code computes with byte offsets.
pub mod Boundaries
pub mod Progress
pub mod Pieces
pub mod Stalling
pub mod Examples
use arbeiterfarm.Base.{
  ℕ, zero, suc, ◌+◌, ◌-◌, ◌/◌, ◌%◌, ◌^◌, min, max, Bool, true, false, ◌&&◌, ◌||◌, not, Option, none,
  some, List, [], ◌∷◌, ◌++◌, ltb, leb, ◌==◌, if◌then◌else◌, length, get_elem?, take, drop,
}
use arbeiterfarm.Base.Text.Decimal.{decimal}
use arbeiterfarm.Base.Text.{Text, lit}

abbrev pub max_chunks : ℕ
max_chunks = 10000

abbrev pub Bytes : Type 0
Bytes = List ℕ

pub record Chunk : Type 0 where
  pub index : ℕ
  pub offset : ℕ
  pub length_ : ℕ
  pub text : Bytes
  pub label : Text

-- A byte that continues a character.
abbrev pub continues : ℕ → Bool
continues b = leb 0x80 b && ltb b 0xc0

-- `is_char_boundary`
unfoldable pub is_char_boundary : Bytes → ℕ → Bool
is_char_boundary text zero = true
is_char_boundary text (suc p) = elim (get_elem? text (suc p)) [
  | some b ↦ not (continues b)
  | none ↦ suc p == length text
]

-- `while pos > 0 && !text.is_char_boundary(pos) { pos -= 1; }`
unfoldable pub walk_down : Bytes → ℕ → ℕ
walk_down text zero = zero
walk_down text (suc p) = elim (is_char_boundary text (suc p)) [
  | true ↦ suc p
  | false ↦ walk_down text p
]

unfoldable pub floor_char_boundary : Bytes → ℕ → ℕ
floor_char_boundary text pos = if leb (length text) pos then length text else walk_down text pos

-- `&text[start..end]`
abbrev pub slice : Bytes → ℕ → ℕ → Bytes
slice text start end = take (end - start) (drop start text)

unfoldable pub has_prefix : Bytes → Bytes → Bool
has_prefix text [] = true
has_prefix [] (p ∷ pat) = false
has_prefix (b ∷ text) (p ∷ pat) = b == p && has_prefix text pat

-- `rfind`
unfoldable pub rfind : Bytes → Bytes → Option ℕ
rfind pat [] = if has_prefix [] pat then some 0 else none
rfind pat (b ∷ text) = elim (rfind pat text) [
  | some pos ↦ some (suc pos)
  | none ↦ if has_prefix (b ∷ text) pat then some 0 else none
]

-- The white space of Unicode at the start of the bytes: how many bytes it has, 0 if it is none.
unfoldable pub space_width : Bytes → ℕ
space_width (b ∷ []) = if (leb 9 b && leb b 13) || b == 0x20 then 1 else 0
space_width (b ∷ c ∷ []) =
    if (leb 9 b && leb b 13) || b == 0x20
    then 1
    else if b == 0xc2 && (c == 0x85 || c == 0xa0)
    then 2
    else 0
space_width (b ∷ c ∷ d ∷ rest) =
    if (leb 9 b && leb b 13) || b == 0x20
    then 1
    else if b == 0xc2 && (c == 0x85 || c == 0xa0)
    then 2
    else if b == 0xe1 && c == 0x9a && d == 0x80
    then 3
    else if b == 0xe2
        && c == 0x80
        && ((leb 0x80 d && leb d 0x8a) || d == 0xa8 || d == 0xa9 || d == 0xaf)
    then 3
    else if b == 0xe2 && c == 0x81 && d == 0x9f
    then 3
    else if b == 0xe3 && c == 0x80 && d == 0x80
    then 3
    else 0
space_width [] = 0

-- White space only, after `skip` bytes of a character.
unfoldable pub blank_from : ℕ → Bytes → Bool
blank_from skip [] = true
blank_from (suc skip) (b ∷ text) = blank_from skip text
blank_from zero (b ∷ text) = elim (space_width (b ∷ text)) [
  | zero ↦ false
  | suc more ↦ blank_from more text
]

-- `text.trim().is_empty()`
unfoldable pub is_blank : Bytes → Bool
is_blank text = blank_from 0 text

-- Behind the last occurrence of the separator, `if boundary > start`.
unfoldable pub behind_last : Bytes → Bytes → ℕ → ℕ → Option ℕ
behind_last separator text start end = elim (rfind separator (slice text start end)) [
  | none ↦ none
  | some pos ↦
      if ltb start (start + pos + length separator)
      then some (start + pos + length separator)
      else none
]

-- The first of the boundaries that there is.
unfoldable pub first_boundary : List (Option ℕ) → ℕ → ℕ
first_boundary [] end = end
first_boundary (none ∷ rest) end = first_boundary rest end
first_boundary (some boundary ∷ rest) end = boundary

unfoldable pub find_boundary : Bytes → ℕ → ℕ → ℕ
find_boundary text start end =
    first_boundary
      (behind_last (lit "\n\n") text start end
        ∷ behind_last (lit "\n") text start end
        ∷ behind_last (lit ". ") text start end
        ∷ behind_last (lit " ") text start end
        ∷ [])
      end

-- `if !chunk_text.trim().is_empty() { chunks.push(..) }`, where `count` chunks are there.
unfoldable pub chunk_of : Bytes → Text → ℕ → ℕ → ℕ → List Chunk
chunk_of text prefix count start end =
    if is_blank (slice text start end)
    then []
    else record {
      index = count;
      offset = start;
      length_ = end - start;
      text = slice text start end;
      label = prefix ++ (lit "_chunk_" ++ decimal count);
    }
      ∷ []

-- Where the next chunk starts.
unfoldable pub next_start : Bytes → ℕ → ℕ → ℕ → ℕ
next_start text overlap start boundary =
    let next : ℕ =
      if ltb 0 overlap && ltb overlap boundary
      then floor_char_boundary text (boundary - overlap)
      else boundary in
    if leb next start then boundary else next

-- `end`; `usize` wraps around.
abbrev pub chunk_end : Bytes → ℕ → ℕ → ℕ
chunk_end text chunk_size start =
    floor_char_boundary text (min ((start + chunk_size) % 2 ^ 64) (length text))

-- The loop, which runs out of fuel where the code would not end.
unfoldable pub chunk_loop : ℕ → Bytes → ℕ → ℕ → Text → ℕ → ℕ → Option (List Chunk)
chunk_loop zero text chunk_size overlap prefix start count = none
chunk_loop (suc fuel) text chunk_size overlap prefix start count =
    let end = chunk_end text chunk_size start in
    let boundary = find_boundary text start end in
    let chunk = chunk_of text prefix count start boundary in
    let later =
      chunk_loop fuel text chunk_size overlap prefix (next_start text overlap start boundary)
        (count + length chunk) in
    if ltb start (length text) && ltb count max_chunks
    then (if leb (length text) end
        then some (chunk_of text prefix count start (length text))
        else elim later [ none ↦ none | some rest ↦ some (chunk ++ rest) ])
    else some []

unfoldable pub chunk_text : ℕ → Bytes → ℕ → ℕ → Text → Option (List Chunk)
chunk_text fuel text chunk_size overlap prefix =
    if length text == 0 || chunk_size == 0
    then some []
    else chunk_loop fuel text chunk_size overlap prefix 0 0

abbrev pub unwrap_or : ℕ → Option ℕ → ℕ
unwrap_or default none = default
unwrap_or default (some n) = n

-- `execute` of doc_chunk.rs reads the two sizes from its input, where they may be missing.
unfoldable pub chunk_size_of : Option ℕ → ℕ
chunk_size_of input = min (max (unwrap_or 1000 input) 100) 10000

unfoldable pub chunk_overlap_of : Option ℕ → ℕ → ℕ
chunk_overlap_of input chunk_size = min (unwrap_or 200 input) (chunk_size / 2)

-- The copy in doc_chunk.rs, at the sizes that `execute` gives it.
unfoldable pub doc_chunks : ℕ → Bytes → Option ℕ → Option ℕ → Text → Option (List Chunk)
doc_chunks fuel text chunk_size overlap prefix =
    let size = chunk_size_of chunk_size in
    if length text == 0
    then some []
    else chunk_loop fuel text size (chunk_overlap_of overlap size) prefix 0 0

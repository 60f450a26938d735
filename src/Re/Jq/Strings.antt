-- ===== src/Re/Jq/Strings.antt =====
-- The builtins on strings, and `indices`, which steps through a string by bytes.
use arbeiterfarm.Base.{
  ℕ, zero, suc, ◌+◌, ◌-◌, ◌%◌, ◌^◌, Bool, ◌&&◌, ◌||◌, Option, none, some, List, [], ◌∷◌, ◌++◌, map,
  ltb, leb, if◌then◌else◌, ◌>>=◌, length, take,
}
use arbeiterfarm.Base.Text.{Text, utf8_width, byte_len, strip_prefix, starts_with, ends_with}
use arbeiterfarm.Base.Text.Decimal.{join}
use mathlib.Core.Option.{map as map_option}
use arbeiterfarm.Re.Jq.{
  ℤ, bits_of, Val, ValR, items_of, array, once_ok, once_err, map_results, pos, int, str, arr,
  str_kind, arr_kind, int_kind, type_error, ok, err, Jaq, null, bool, iter_kind,
}

-- `char::from_u32(n as u32)`
abbrev pub is_char : ℕ → Bool
is_char c = ltb c 0xd800 || (leb 0xe000 c && leb c 0x10ffff)

unfoldable pub from_u32 : ℕ → Option ℕ
from_u32 c = if is_char c then some c else none

abbrev pub as_u32 : ℤ → ℕ
as_u32 n = bits_of n % 2 ^ 32

-- `s.split(d)`: the pieces between the matches of a separator that is not empty, where `skip`
-- characters still belong to a match; an empty one matches around each character.
unfoldable pub pieces : Text → ℕ → Text → Text → List Text
pieces d skip piece [] = piece ∷ []
pieces d (suc skip) piece (c ∷ s) = pieces d skip piece s
pieces d zero piece (c ∷ s) =
    let behind = pieces d (length d - 1) [] s in
    let further = pieces d zero (piece ++ c ∷ []) s in
    if starts_with (c ∷ s) d then piece ∷ behind else further

unfoldable pub split_text : Text → Text → List Text
split_text [] s = [] ∷ (map (λ c. c ∷ []) s ++ [] ∷ [])
split_text (a ∷ d) s = pieces (a ∷ d) 0 [] s

unfoldable pub strip_suffix : Text → Text → Option Text
strip_suffix p s = if ends_with s p then some (take (length s - length p) s) else none

-- `&s[start..]`: none where that is past the end or inside a character, which panics.
unfoldable pub slice_from : ℕ → Text → Option Text
slice_from zero s = some s
slice_from (suc n) [] = none
slice_from (suc n) (c ∷ s) =
    let rest = slice_from (suc n - utf8_width c) s in
    if leb (utf8_width c) (suc n) then rest else none

-- `find`: the offset of the first match, in bytes.
unfoldable pub find : Text → Text → Option ℕ
find [] needle = if starts_with [] needle then some 0 else none
find (c ∷ s) needle =
    let rest = map_option (λ offset. utf8_width c + offset) (find s needle) in
    if starts_with (c ∷ s) needle then some 0 else rest

-- How the loop of `native_indices` ends.
pub data Scan : Type 0 where
  starved panicked : Scan
  found : List ℕ → Scan

abbrev pub found_too : ℕ → Scan → Scan
found_too i starved = starved
found_too i panicked = panicked
found_too i (found is) = found (i ∷ is)

-- `while let Some(pos) = haystack[start..].find(needle) { push(start + offset); start += pos + 1 }`,
-- on fuel.
unfoldable pub scan_text : ℕ → ℕ → Text → Text → Scan
scan_text zero start haystack needle = starved
scan_text (suc fuel) start haystack needle = elim (slice_from start haystack) [
  | none ↦ panicked
  | some rest ↦ elim (find rest needle) [
    | none ↦ found []
    | some offset ↦ found_too (start + offset) (scan_text fuel (start + offset + 1) haystack needle)
  ]
]

abbrev pub text_indices : Text → Text → Scan
text_indices haystack needle = scan_text (byte_len haystack + 2) 0 haystack needle

module _ {F : Type 0} where
  unfoldable pub native_explode : Val F → List (ValR F)
  native_explode (str s) = once_ok (array (map (λ c. int (pos c)) s))
  native_explode val = once_err (type_error val str_kind)

  -- The characters of a list of numbers; those that are no character are passed over.
  unfoldable pub implode : List (Val F) → Option Text
  implode [] = some []
  implode (int n ∷ vs) =
      map_option (λ s. elim (from_u32 (as_u32 n)) [ none ↦ s | some c ↦ c ∷ s ]) (implode vs)
  implode (v ∷ vs) = none

  unfoldable pub native_implode : Val F → List (ValR F)
  native_implode (arr a) = elim (implode (items_of a)) [
    | none ↦ once_err (type_error (arr a) int_kind)
    | some s ↦ once_ok (str s)
  ]
  native_implode val = once_err (type_error val arr_kind)

  abbrev split_by : Val F → Val F → ValR F
  split_by (str s) (str d) = ok (array (map str (split_text d s)))
  split_by val sep = err (type_error val str_kind)

  unfoldable pub native_split : Val F → List (ValR F) → List (ValR F)
  native_split val seps = map_results (split_by val) seps

  abbrev starts_by : Val F → Val F → ValR F
  starts_by (str a) (str b) = ok (bool (starts_with a b))
  starts_by val s = err (type_error val str_kind)

  unfoldable pub native_startswith : Val F → List (ValR F) → List (ValR F)
  native_startswith val args = map_results (starts_by val) args

  abbrev ends_by : Val F → Val F → ValR F
  ends_by (str a) (str b) = ok (bool (ends_with a b))
  ends_by val s = err (type_error val str_kind)

  unfoldable pub native_endswith : Val F → List (ValR F) → List (ValR F)
  native_endswith val args = map_results (ends_by val) args

  abbrev left_trimmed : Val F → Val F → ValR F
  left_trimmed (str a) (str b) = elim (strip_prefix b a) [
    | none ↦ ok (str a)
    | some rest ↦ ok (str rest)
  ]
  left_trimmed val s = ok val

  unfoldable pub native_ltrimstr : Val F → List (ValR F) → List (ValR F)
  native_ltrimstr val args = map_results (left_trimmed val) args

  abbrev right_trimmed : Val F → Val F → ValR F
  right_trimmed (str a) (str b) = elim (strip_suffix b a) [
    | none ↦ ok (str a)
    | some rest ↦ ok (str rest)
  ]
  right_trimmed val s = ok val

  unfoldable pub native_rtrimstr : Val F → List (ValR F) → List (ValR F)
  native_rtrimstr val args = map_results (right_trimmed val) args

module _ {F : Type 0} (jaq : Jaq F) where
  abbrev joined_part : Val F → Text
  joined_part (str s) = s
  joined_part null = []
  joined_part other = jaq.to_json other

  abbrev join_by : Val F → Val F → ValR F
  join_by (arr a) (str d) = ok (str (join d (map joined_part (items_of a))))
  join_by val sep = err (type_error val arr_kind)

  unfoldable pub native_join : Val F → List (ValR F) → List (ValR F)
  native_join val seps = map_results (join_by val) seps

  -- The positions, from `i` on, of the elements equal to the needle.
  unfoldable pub item_indices : ℕ → List (Val F) → Val F → List (Val F)
  item_indices i [] needle = []
  item_indices i (v ∷ vs) needle =
      let rest = item_indices (suc i) vs needle in
      if jaq.equal v needle then int (pos i) ∷ rest else rest

  -- None where the thread panics.
  abbrev indices_of : Val F → Val F → Option (ValR F)
  indices_of (str haystack) (str needle) = elim (text_indices haystack needle) [
    | found is ↦ some (ok (array (map (λ i. int (pos i)) is)))
    | panicked ↦ none
    | starved ↦ none
  ]
  indices_of (arr haystack) needle = some (ok (array (item_indices 0 (items_of haystack) needle)))
  indices_of val needle = some (err (type_error val iter_kind))

  unfoldable pub native_indices : Val F → List (ValR F) → Option (List (ValR F))
  native_indices val [] = some []
  native_indices val (err e ∷ needles) =
      map_option (λ rest. err e ∷ rest) (native_indices val needles)
  native_indices val (ok needle ∷ needles) = do
    r ← indices_of val needle
    rest ← native_indices val needles
    some (r ∷ rest)

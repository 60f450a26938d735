-- ===== src/Base/Text.antt =====
-- Rust's `String` and `&str`: the list of the text's Unicode scalar values, with the operations of
-- the standard library that the program calls.
pub mod Trimming
pub mod Decimal
use Prim.Native.Char.{code}
use Prim.Native.String.{String}
use arbeiterfarm.Base.Tests.{ltb, leb, ◌==◌, ==_iff, if◌then◌else◌, and-true}
use arbeiterfarm.Base.Lists.{all}
use Prim.Native.Nat.{ℕ, ◌+◌}
use mathlib.Core.Path.{◌≡◌, refl, sym, ap, ap₂, subst, ◌∙◌}
use mathlib.Core.Logic.{◌↔◌}
use mathlib.Core.Bool.{Bool, true, false, ◌&&◌, ◌||◌}
use mathlib.Core.Option.{Option, none, some}
use mathlib.Core.List.{List, [], ◌∷◌, ◌++◌}
use native.Mathlib.Omega.{arith}

abbrev pub Text : Type 0
Text = List ℕ

-- A literal of the source.
abbrev pub lit : String → Text
lit String.[] = []
lit (String.◌∷◌ c s) = code c ∷ lit s

unfoldable pub text_eq : Text → Text → Bool
text_eq [] [] = true
text_eq (a ∷ s) (b ∷ t) = (a == b) && text_eq s t
text_eq _ _ = false

pub text_eq_refl : (s : Text) → text_eq s s ≡ true
unfolding text_eq
text_eq_refl [] = refl
text_eq_refl (a ∷ s) = ground (arith, text_eq_refl s)

pub eq_of_text_eq : (s t : Text) → text_eq s t ≡ true → s ≡ t
unfolding text_eq
eq_of_text_eq [] [] h = refl
eq_of_text_eq [] (b ∷ t) h = cc
eq_of_text_eq (a ∷ s) [] h = cc
eq_of_text_eq (a ∷ s) (b ∷ t) h =
    let p = and-true (a == b) (text_eq s t) h in
    ap₂ (λ x y. x ∷ y) ((==_iff a b).0 p.0) (eq_of_text_eq s t p.1)

pub text_eq_iff : (s t : Text) → (text_eq s t ≡ true) ↔ (s ≡ t)
text_eq_iff s t = (eq_of_text_eq s t, λ e. subst (λ u. text_eq s u ≡ true) e (text_eq_refl s))

-- `str::len`: the number of bytes in UTF-8.
abbrev pub utf8_width : ℕ → ℕ
utf8_width c = if ltb c 0x80 then 1 else if ltb c 0x800 then 2 else if ltb c 0x10000 then 3 else 4

unfoldable pub byte_len : Text → ℕ
byte_len [] = 0
byte_len (c ∷ s) = utf8_width c + byte_len s

pub byte_len-append : (s t : Text) → byte_len (s ++ t) ≡ byte_len s + byte_len t
unfolding byte_len
byte_len-append [] t = omega arith
byte_len-append (c ∷ s) t = ground (arith, byte_len-append s t)

-- `strip_prefix`
unfoldable pub strip_prefix : Text → Text → Option Text
strip_prefix [] s = some s
strip_prefix (a ∷ p) [] = none
strip_prefix (a ∷ p) (c ∷ s) = if a == c then strip_prefix p s else none

-- `starts_with`
unfoldable pub starts_with : Text → Text → Bool
starts_with s [] = true
starts_with [] (a ∷ p) = false
starts_with (c ∷ s) (a ∷ p) = (a == c) && starts_with s p

-- `char::is_whitespace`: the Unicode property White_Space.
unfoldable pub is_whitespace : ℕ → Bool
is_whitespace c =
    (leb 9 c && leb c 13)
    || (c == 0x20)
    || (c == 0x85)
    || (c == 0xa0)
    || (c == 0x1680)
    || (leb 0x2000 c && leb c 0x200a)
    || (c == 0x2028)
    || (c == 0x2029)
    || (c == 0x202f)
    || (c == 0x205f)
    || (c == 0x3000)

-- `trim_start_matches(p)`
unfoldable pub trim_start_matches : (ℕ → Bool) → Text → Text
trim_start_matches p [] = []
trim_start_matches p (c ∷ s) = if p c then trim_start_matches p s else c ∷ s

-- `trim_end_matches(p)`
unfoldable pub trim_end_matches : (ℕ → Bool) → Text → Text
trim_end_matches p [] = []
trim_end_matches p (c ∷ s) = if p c && all p s then [] else c ∷ trim_end_matches p s

-- `trim`
unfoldable pub trim : Text → Text
unfolding trim_start_matches trim_end_matches is_whitespace
trim s = trim_end_matches is_whitespace (trim_start_matches is_whitespace s)

-- `char::is_ascii_alphanumeric`
unfoldable pub is_ascii_alphanumeric : ℕ → Bool
is_ascii_alphanumeric c =
    (leb 0x30 c && leb c 0x39) || (leb 0x41 c && leb c 0x5a) || (leb 0x61 c && leb c 0x7a)

-- `str::lines`: a line ends at a line feed, or a carriage return and a line feed; what follows the
-- last line feed is a line only if it is not empty.
unfoldable pub strip_cr : Text → Text
strip_cr [] = []
strip_cr (c ∷ []) = if c == 13 then [] else c ∷ []
strip_cr (c ∷ d ∷ s) = c ∷ strip_cr (d ∷ s)

unfoldable pub lines_from : Text → Text → List Text
unfolding strip_cr
lines_from acc [] = []
lines_from acc (c ∷ []) = if c == 10 then strip_cr acc ∷ [] else (acc ++ c ∷ []) ∷ []
lines_from acc (c ∷ d ∷ s) = elim (c == 10) [
  | true ↦ strip_cr acc ∷ lines_from [] (d ∷ s)
  | false ↦ lines_from (acc ++ c ∷ []) (d ∷ s)
]

unfoldable pub lines : Text → List Text
unfolding lines_from
lines s = lines_from [] s

-- The text up to the first `sep`, and what follows it.
unfoldable pub split_once : ℕ → Text → Text × Option Text
split_once sep [] = ([], none)
split_once sep (c ∷ s) =
    let (piece, rest) = split_once sep s in if c == sep then ([], some s) else (c ∷ piece, rest)

-- `split(sep).collect()`
unfoldable pub split : ℕ → Text → List Text
split sep [] = [] ∷ []
split sep (c ∷ s) = elim (split sep s) [
  | [] ↦ [] ∷ []
  | piece ∷ rest ↦ if c == sep then [] ∷ piece ∷ rest else (c ∷ piece) ∷ rest
]

-- `ends_with`
unfoldable pub ends_with : Text → Text → Bool
unfolding text_eq
ends_with [] p = text_eq [] p
ends_with (c ∷ s) p = text_eq (c ∷ s) p || ends_with s p

-- `str::contains`
unfoldable pub contains_text : Text → Text → Bool
contains_text [] p = starts_with [] p
contains_text (c ∷ s) p = starts_with (c ∷ s) p || contains_text s p

-- Membership in a `Vec<String>` or `HashSet<String>`.
abbrev pub mem_text : Text → List Text → Bool
mem_text t [] = false
mem_text t (s ∷ rest) = text_eq s t || mem_text t rest

pub mem_text-append :
    (s : Text) (xs ys : List Text) → mem_text s (xs ++ ys) ≡ (mem_text s xs || mem_text s ys)
mem_text-append s [] ys = refl
mem_text-append s (x ∷ xs) ys = ground (arith, mem_text-append s xs ys)

pub text_eq_trans : (x t a : Text) → text_eq x a ≡ true → text_eq t a ≡ true → text_eq x t ≡ true
text_eq_trans x t a h k = (text_eq_iff x t).1 (eq_of_text_eq x a h ∙ sym (eq_of_text_eq t a k))

pub text_eq_left : (x t a : Text) → text_eq x t ≡ true → text_eq x a ≡ text_eq t a
text_eq_left x t a h = ap (λ u. text_eq u a) (eq_of_text_eq x t h)

pub text_eq_comm : (s t : Text) → text_eq s t ≡ text_eq t s
unfolding text_eq
text_eq_comm [] [] = refl
text_eq_comm [] (b ∷ t) = refl
text_eq_comm (a ∷ s) [] = refl
text_eq_comm (a ∷ s) (b ∷ t) = ground (arith, text_eq_comm s t)

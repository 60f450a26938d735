-- ===== src/Re/Jq/Codepoints.antt =====
-- `explode` and `implode`.
use arbeiterfarm.Base.{
  ℕ, ◌≡◌, refl, ap, subst, ◌∙◌, true, none, some, List, [], ◌∷◌, map, arith, if_of_true, All,
}
use arbeiterfarm.Base.Text.{Text}
use arbeiterfarm.Re.Jq.{items_of-to_items, Val, once_ok, pos, int, str, array, ℤ}
use arbeiterfarm.Re.Jq.Strings.{is_char, from_u32, as_u32, native_explode, implode, native_implode}

from_u32-char : (c : ℕ) → is_char c ≡ true → from_u32 (as_u32 (pos c)) ≡ some c
unfolding from_u32
from_u32-char c h =
    let same : as_u32 (pos c) ≡ c = ground (arith, h) in
    ap from_u32 same ∙ if_of_true (is_char c) (some c) none h

implode-int :
    (F : Type 0) (n : ℤ) (c : ℕ) (vs : List (Val F)) (s : Text)
    → implode vs ≡ some s
    → from_u32 (as_u32 n) ≡ some c
    → implode (int n ∷ vs) ≡ some (c ∷ s)
unfolding implode
implode-int F n c vs s e h = rw (e, h) refl

implode-codes :
    (F : Type 0) (s : Text)
    → All (λ c. is_char c ≡ true) s
    → implode {F = F} (map (λ c. int (pos c)) s) ≡ some s
implode-codes F [] chars = unfold implode in refl
implode-codes F (c ∷ s) chars =
    implode-int F (pos c) c (map (λ d. int (pos d)) s) s (implode-codes F s chars.1)
      (from_u32-char c chars.0)

native_implode-array :
    (F : Type 0) (vs : List (Val F)) (s : Text)
    → implode vs ≡ some s
    → native_implode (array vs) ≡ once_ok (str s)
unfolding native_implode
native_implode-array F vs s e = rw (ap implode (items_of-to_items vs) ∙ e, native_implode) refl

single_ok : {F : Type 0} (a b : Val F) → once_ok a ≡ once_ok b → a ≡ b
single_ok a b h = cc

-- `implode` of what `explode` answers for a string is the string, where its characters are Unicode
-- scalar values.
pub native_implode-explode :
    {F : Type 0} (s : Text) (v : Val F)
    → All (λ c. is_char c ≡ true) s
    → native_explode (str s) ≡ once_ok v
    → native_implode v ≡ once_ok (str s)
unfolding native_explode
native_implode-explode {F} s v chars h =
    subst (λ w. native_implode w ≡ once_ok (str s)) (single_ok _ v h)
      (native_implode-array F (map (λ c. int (pos c)) s) s (implode-codes F s chars))

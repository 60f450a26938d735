-- ===== src/Re/Jq.antt =====
-- The builtins of arbeiterfarm/crates/af-re-tools/src/transform_jq.rs, which run a jq expression on a
-- JSON artifact. The interpreter, comparison and printing of its values, and `f64` are parameters.
pub mod Natives
pub mod Arrays
pub mod Strings
pub mod Paths
pub mod Descent
pub mod Slices
pub mod Searches
pub mod Occurrences
pub mod Codepoints
pub mod Output
pub mod Examples
use mathlib.Core.Ordering.{Ordering}
use arbeiterfarm.Base.{
  ℕ, zero, suc, ◌+◌, ◌-◌, ◌%◌, ◌^◌, ◌≡◌, refl, ap, ◌⊎◌, Bool, Option, none, some, List, [], ◌∷◌,
  ltb, leb, if◌then◌else◌,
}
use arbeiterfarm.Base.Text.{Text, text_eq}

-- `isize`.
pub data ℤ : Type 0 where
  pos negsuc : ℕ → ℤ

-- The 64 bits of a number, and the number that they stand for.
abbrev pub bits_of : ℤ → ℕ
bits_of (pos n) = n % 2 ^ 64
bits_of (negsuc n) = 2 ^ 64 - 1 - n % 2 ^ 64

abbrev pub of_bits : ℕ → ℤ
of_bits n = if ltb n (2 ^ 63) then pos n else negsuc (2 ^ 64 - 1 - n)

abbrev pub add_int : ℤ → ℤ → ℤ
add_int a b = of_bits ((bits_of a + bits_of b) % 2 ^ 64)

-- `n.unsigned_abs() as isize`
abbrev pub abs_int : ℤ → ℤ
abs_int (pos n) = pos n
abs_int (negsuc n) = of_bits (suc n)

-- `idx`: what is still negative is past every index as a `usize`.
unfoldable pub array_index : ℕ → ℤ → Option ℕ
array_index len (pos i) = some i
array_index len (negsuc i) = if leb (suc i) len then some (len - suc i) else none

-- `jaq_interpret::Val` over the type of `f64`.
mutual
  pub data Val (F : Type 0) : Type 0 where
    null : Val F
    bool : Bool → Val F
    int : ℤ → Val F
    float : F → Val F
    num : Text → Val F
    str : Text → Val F
    arr : Items F → Val F
    obj : Members F → Val F

  pub data Items (F : Type 0) : Type 0 where
    nil : Items F
    item : Val F → Items F → Items F

  pub data Members (F : Type 0) : Type 0 where
    end : Members F
    member : Text → Val F → Members F → Members F

-- `jaq_interpret::error::Type`
pub data Kind : Type 0 where
  iter_kind num_kind str_kind arr_kind int_kind : Kind

-- `jaq_interpret::Error`
pub data Error (F : Type 0) : Type 0 where
  type_error : Val F → Kind → Error F
  index_error : Val F → Val F → Error F
  val_error : Val F → Error F
  math_error : Val F → Val F → Error F

pub data ValR (F : Type 0) : Type 0 where
  ok : Val F → ValR F
  err : Error F → ValR F

-- What the code uses of the crates `jaq` and `serde_json`, and of `f64`.
pub record Jaq (F : Type 0) : Type 0 where
  pub partial_cmp : Val F → Val F → Option Ordering
  pub equal : Val F → Val F → Bool
  -- `serde_json::to_string(&Value::from(val)).unwrap_or_default()`
  pub to_json : Val F → Text
  -- `serde_json::from_str`, as a `Val`, or the text of its error.
  pub from_json : Text → Text ⊎ Val F
  pub parse_int : Text → Option ℤ
  pub parse_float : Text → Option F
  pub of_int : ℤ → F
  pub to_int : F → ℤ
  pub add_float : F → F → F
  pub abs_float : F → F
  pub floor : F → F
  pub ceil : F → F
  pub round : F → F
  pub sqrt : F → F
  pub nan : F
  pub infinity : F
  pub is_infinite : F → Bool
  pub is_nan : F → Bool
  pub is_normal : F → Bool

module _ {F : Type 0} where
  abbrev pub items_of : Items F → List (Val F)
  items_of nil = []
  items_of (item v items) = v ∷ items_of items

  -- `collect::<Val>()`
  abbrev pub to_items : List (Val F) → Items F
  to_items [] = nil
  to_items (v ∷ vs) = item v (to_items vs)

  abbrev pub array : List (Val F) → Val F
  array vs = arr (to_items vs)

  pub items_of-to_items : (vs : List (Val F)) → items_of (to_items vs) ≡ vs
  items_of-to_items [] = refl
  items_of-to_items (v ∷ vs) = ap (λ r. v ∷ r) (items_of-to_items vs)

  abbrev pub keys_of : Members F → List Text
  keys_of end = []
  keys_of (member k v members) = k ∷ keys_of members

  abbrev pub values_of : Members F → List (Val F)
  values_of end = []
  values_of (member k v members) = v ∷ values_of members

  -- `o.get(k)`
  unfoldable pub get_member : Text → Members F → Option (Val F)
  get_member key end = none
  get_member key (member k v members) = if text_eq k key then some v else get_member key members

  -- `a.get(i)`
  unfoldable pub get_item : ℕ → Items F → Option (Val F)
  get_item i nil = none
  get_item zero (item v items) = some v
  get_item (suc i) (item v items) = get_item i items

  -- `IndexMap::insert`
  unfoldable pub insert_member : Text → Val F → Members F → Members F
  insert_member key w end = member key w end
  insert_member key w (member k v members) =
      if text_eq k key then member k w members else member k v (insert_member key w members)

  abbrev pub once_ok : Val F → List (ValR F)
  once_ok v = ok v ∷ []

  abbrev pub once_err : Error F → List (ValR F)
  once_err e = err e ∷ []

  -- `arg_filter.run(...).map(|r| { let v = r?; ... })`
  unfoldable pub map_results : (Val F → ValR F) → List (ValR F) → List (ValR F)
  map_results f [] = []
  map_results f (ok v ∷ rest) = f v ∷ map_results f rest
  map_results f (err e ∷ rest) = err e ∷ map_results f rest

  unfoldable pub count_items : Items F → ℕ
  count_items nil = 0
  count_items (item v items) = suc (count_items items)

  unfoldable pub count_members : Members F → ℕ
  count_members end = 0
  count_members (member k v members) = suc (count_members members)

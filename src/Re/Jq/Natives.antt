-- ===== src/Re/Jq/Natives.antt =====
-- The builtins without an argument that look at one value: its length, keys and type, and numbers.
use mathlib.Core.Ordering.{lt, eq, gt}
use arbeiterfarm.Base.{
  ℕ, zero, suc, inl, inr, Bool, true, false, not, none, some, List, [], ◌∷◌, ◌++◌, map, ◌==◌,
  if◌then◌else◌, length,
}
use arbeiterfarm.Base.Text.{lit}
use arbeiterfarm.Re.Jq.{
  abs_int, Val, ValR, Jaq, array, keys_of, values_of, once_ok, once_err, count_items, count_members,
  pos, negsuc, null, bool, int, float, num, str, arr, obj, iter_kind, num_kind, str_kind,
  type_error, val_error,
}

-- `Vec::sort_by`, which is stable, with values that do not compare taken for equal.
module _ {F : Type 0} (jaq : Jaq F) where
  unfoldable pub comes_before : Val F → Val F → Bool
  comes_before a b = elim (jaq.partial_cmp a b) [
    | none ↦ false
    | some lt ↦ true
    | some eq ↦ false
    | some gt ↦ false
  ]

  unfoldable pub insert_sorted : {A : Type 0} → (A → Val F) → A → List A → List A
  insert_sorted key x [] = x ∷ []
  insert_sorted key x (y ∷ ys) =
      let rest = insert_sorted key x ys in
      if comes_before (key y) (key x) then y ∷ rest else x ∷ y ∷ ys

  unfoldable pub sort_by : {A : Type 0} → (A → Val F) → List A → List A
  sort_by key [] = []
  sort_by key (x ∷ xs) = insert_sorted key x (sort_by key xs)

-- `(0..n).map(|i| Val::Int(i as isize))`, from `i` on.
unfoldable pub int_range : {F : Type 0} → ℕ → ℕ → List (Val F)
int_range i zero = []
int_range i (suc n) = int (pos i) ∷ int_range (suc i) n

module _ {F : Type 0} (jaq : Jaq F) where
  unfoldable pub native_length : Val F → List (ValR F)
  native_length null = once_ok (int (pos 0))
  native_length (bool b) = once_err (type_error (bool b) iter_kind)
  native_length (int n) = once_ok (int (abs_int n))
  native_length (float x) = once_ok (float (jaq.abs_float x))
  native_length (num s) = elim (jaq.parse_float s) [
    | some x ↦ once_ok (float (jaq.abs_float x))
    | none ↦ once_err (type_error (num s) num_kind)
  ]
  native_length (str s) = once_ok (int (pos (length s)))
  native_length (arr a) = once_ok (int (pos (count_items a)))
  native_length (obj o) = once_ok (int (pos (count_members o)))

  unfoldable pub native_keys : Val F → List (ValR F)
  native_keys (obj o) = once_ok (array (sort_by jaq (λ v. v) (map str (keys_of o))))
  native_keys (arr a) = once_ok (array (int_range 0 (count_items a)))
  native_keys val = once_err (type_error val iter_kind)

  unfoldable pub native_keys_unsorted : Val F → List (ValR F)
  native_keys_unsorted (obj o) = once_ok (array (map str (keys_of o)))
  native_keys_unsorted (arr a) = once_ok (array (int_range 0 (count_items a)))
  native_keys_unsorted val = once_err (type_error val iter_kind)

  unfoldable pub native_values : Val F → List (ValR F)
  native_values (obj o) = once_ok (array (values_of o))
  native_values (arr a) = once_ok (arr a)
  native_values val = once_err (type_error val iter_kind)

  unfoldable pub native_type : Val F → List (ValR F)
  native_type null = once_ok (str (lit "null"))
  native_type (bool b) = once_ok (str (lit "boolean"))
  native_type (int n) = once_ok (str (lit "number"))
  native_type (float x) = once_ok (str (lit "number"))
  native_type (num s) = once_ok (str (lit "number"))
  native_type (str s) = once_ok (str (lit "string"))
  native_type (arr a) = once_ok (str (lit "array"))
  native_type (obj o) = once_ok (str (lit "object"))

  unfoldable pub native_empty : Val F → List (ValR F)
  native_empty val = []

  unfoldable pub native_error : Val F → List (ValR F)
  native_error val = once_err (val_error val)

  unfoldable pub native_not : Val F → List (ValR F)
  native_not null = once_ok (bool true)
  native_not (bool b) = once_ok (bool (not b))
  native_not val = once_ok (bool false)

  unfoldable pub native_null : Val F → List (ValR F)
  native_null val = once_ok null

  unfoldable pub native_tonumber : Val F → List (ValR F)
  native_tonumber (int n) = once_ok (int n)
  native_tonumber (float x) = once_ok (float x)
  native_tonumber (num s) = once_ok (num s)
  native_tonumber (str s) = elim (jaq.parse_int s) [
    | some n ↦ once_ok (int n)
    | none ↦ elim (jaq.parse_float s) [
      | some x ↦ once_ok (float x)
      | none ↦ once_err (type_error (str s) num_kind)
    ]
  ]
  native_tonumber val = once_err (type_error val num_kind)

  unfoldable pub native_tojson : Val F → List (ValR F)
  native_tojson val = once_ok (str (jaq.to_json val))

  unfoldable pub native_fromjson : Val F → List (ValR F)
  native_fromjson (str s) = elim (jaq.from_json s) [
    | inl e ↦ once_err (val_error (str (lit "fromjson: " ++ e)))
    | inr v ↦ once_ok v
  ]
  native_fromjson val = once_err (type_error val str_kind)

  -- `floor`, `ceil` and `round`.
  abbrev rounded : (F → F) → Val F → List (ValR F)
  rounded f (int n) = once_ok (int n)
  rounded f (float x) = once_ok (float (f x))
  rounded f val = once_err (type_error val num_kind)

  unfoldable pub native_floor : Val F → List (ValR F)
  native_floor val = rounded jaq.floor val

  unfoldable pub native_ceil : Val F → List (ValR F)
  native_ceil val = rounded jaq.ceil val

  unfoldable pub native_round : Val F → List (ValR F)
  native_round val = rounded jaq.round val

  unfoldable pub native_sqrt : Val F → List (ValR F)
  native_sqrt (int n) = once_ok (float (jaq.sqrt (jaq.of_int n)))
  native_sqrt (float x) = once_ok (float (jaq.sqrt x))
  native_sqrt val = once_err (type_error val num_kind)

  unfoldable pub native_fabs : Val F → List (ValR F)
  native_fabs (int n) = once_ok (int (abs_int n))
  native_fabs (float x) = once_ok (float (jaq.abs_float x))
  native_fabs val = once_err (type_error val num_kind)

  unfoldable pub native_nan : Val F → List (ValR F)
  native_nan val = once_ok (float jaq.nan)

  unfoldable pub native_infinite : Val F → List (ValR F)
  native_infinite val = once_ok (float jaq.infinity)

  unfoldable pub native_isinfinite : Val F → List (ValR F)
  native_isinfinite (float x) = once_ok (bool (jaq.is_infinite x))
  native_isinfinite (int n) = once_ok (bool false)
  native_isinfinite val = once_err (type_error val num_kind)

  unfoldable pub native_isnan : Val F → List (ValR F)
  native_isnan (float x) = once_ok (bool (jaq.is_nan x))
  native_isnan (int n) = once_ok (bool false)
  native_isnan val = once_err (type_error val num_kind)

  unfoldable pub native_isnormal : Val F → List (ValR F)
  native_isnormal (float x) = once_ok (bool (jaq.is_normal x))
  native_isnormal (int (pos n)) = once_ok (bool (not (n == 0)))
  native_isnormal (int (negsuc n)) = once_ok (bool true)
  native_isnormal val = once_err (type_error val num_kind)

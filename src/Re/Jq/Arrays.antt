-- ===== src/Re/Jq/Arrays.antt =====
-- The builtins on arrays: sorting, grouping, flattening, sums and extremes.
use mathlib.Core.Ordering.{lt, eq, gt}
use mathlib.Core.List.{reverse}
use arbeiterfarm.Base.{
  ◌⊎◌, inl, inr, Bool, true, false, none, some, List, [], ◌∷◌, ◌++◌, map, if◌then◌else◌,
}
use arbeiterfarm.Re.Jq.{
  add_int, Val, Items, Members, Error, ValR, Jaq, items_of, array, insert_member, once_ok, once_err,
  pos, negsuc, null, int, float, str, arr, obj, nil, item, end, member, arr_kind, int_kind,
  type_error, math_error, ok, err,
}
use arbeiterfarm.Re.Jq.Natives.{comes_before, sort_by, int_range}

module _ {F : Type 0} where
  unfoldable pub native_reverse : Val F → List (ValR F)
  native_reverse (arr a) = once_ok (array (reverse (items_of a)))
  native_reverse (str s) = once_ok (str (reverse s))
  native_reverse val = once_err (type_error val arr_kind)

  -- The elements of an element that is an array, and any other element.
  abbrev pub flat_item : Val F → List (Val F)
  flat_item (arr inner) = items_of inner
  flat_item v = v ∷ []

  unfoldable pub flat_items : Items F → List (Val F)
  flat_items nil = []
  flat_items (item v items) = flat_item v ++ flat_items items

  unfoldable pub native_flatten : Val F → List (ValR F)
  native_flatten (arr a) = once_ok (array (flat_items a))
  native_flatten val = once_err (type_error val arr_kind)

  unfoldable pub merge_members : Members F → Members F → Members F
  merge_members m end = m
  merge_members m (member k v members) = merge_members (insert_member k v m) members

module _ {F : Type 0} (jaq : Jaq F) where
  unfoldable pub native_sort : Val F → List (ValR F)
  native_sort (arr a) = once_ok (array (sort_by jaq (λ v. v) (items_of a)))
  native_sort val = once_err (type_error val arr_kind)

  -- `dedup` behind an element that is kept.
  unfoldable pub dedup_after : Val F → List (Val F) → List (Val F)
  dedup_after kept [] = []
  dedup_after kept (v ∷ vs) =
      let same = dedup_after kept vs in
      let other = dedup_after v vs in if jaq.equal v kept then same else v ∷ other

  unfoldable pub dedup : List (Val F) → List (Val F)
  dedup [] = []
  dedup (v ∷ vs) = v ∷ dedup_after v vs

  unfoldable pub native_unique : Val F → List (ValR F)
  native_unique (arr a) = once_ok (array (dedup (sort_by jaq (λ v. v) (items_of a))))
  native_unique val = once_err (type_error val arr_kind)

  -- One step of the sum in `native_add`.
  unfoldable pub add_step : Val F → Val F → ValR F
  add_step null v = ok v
  add_step (int a) (int b) = ok (int (add_int a b))
  add_step (float a) (float b) = ok (float (jaq.add_float a b))
  add_step (int a) (float b) = ok (float (jaq.add_float (jaq.of_int a) b))
  add_step (float a) (int b) = ok (float (jaq.add_float a (jaq.of_int b)))
  add_step (str a) (str b) = ok (str (a ++ b))
  add_step (arr a) (arr b) = ok (array (items_of a ++ items_of b))
  add_step (obj a) (obj b) = ok (obj (merge_members a b))
  add_step a b = err (math_error a b)

  unfoldable pub add_items : Val F → List (Val F) → ValR F
  add_items acc [] = ok acc
  add_items acc (v ∷ vs) = elim (add_step acc v) [ ok sum ↦ add_items sum vs | err e ↦ err e ]

  unfoldable pub native_add : Val F → List (ValR F)
  native_add (arr nil) = once_ok null
  native_add (arr (item v items)) = add_items v (items_of items) ∷ []
  native_add val = once_err (type_error val arr_kind)

  unfoldable pub is_greater : Val F → Val F → Bool
  is_greater a b = elim (jaq.partial_cmp a b) [
    | none ↦ false
    | some lt ↦ false
    | some eq ↦ false
    | some gt ↦ true
  ]

  -- The loop of `native_min` and `native_max`.
  unfoldable pub extreme : (Val F → Val F → Bool) → Val F → List (Val F) → Val F
  extreme better best [] = best
  extreme better best (v ∷ vs) = extreme better (if better v best then v else best) vs

  unfoldable pub native_min : Val F → List (ValR F)
  native_min (arr nil) = once_ok null
  native_min (arr (item v items)) = once_ok (extreme (comes_before jaq) v (items_of items))
  native_min val = once_err (type_error val arr_kind)

  unfoldable pub native_max : Val F → List (ValR F)
  native_max (arr nil) = once_ok null
  native_max (arr (item v items)) = once_ok (extreme is_greater v (items_of items))
  native_max val = once_err (type_error val arr_kind)

  -- Pairs of each element with its key: the filter's first output, or null.
  unfoldable pub keyed : (Val F → List (ValR F)) → List (Val F) → Error F ⊎ List (Val F × Val F)
  keyed f [] = inr []
  keyed f (v ∷ vs) =
      let rest = keyed f vs in
      elim (f v) [
        | [] ↦ elim rest [ inl e ↦ inl e | inr pairs ↦ inr ((null, v) ∷ pairs) ]
        | err e ∷ outputs ↦ inl e
        | ok k ∷ outputs ↦ elim rest [ inl e ↦ inl e | inr pairs ↦ inr ((k, v) ∷ pairs) ]
      ]

  unfoldable pub native_sort_by_key : (Val F → List (ValR F)) → Val F → List (ValR F)
  native_sort_by_key f (arr a) = elim (keyed f (items_of a)) [
    | inl e ↦ once_err e
    | inr pairs ↦ once_ok (array (map (λ p. p.1) (sort_by jaq (λ p. p.0) pairs)))
  ]
  native_sort_by_key f val = once_err (type_error val arr_kind)

  -- The loop over the elements, with the current group, whose first element is `first`.
  unfoldable pub group_loop : Val F → List (Val F) → List (Val F) → List (Val F)
  group_loop first current [] = array (first ∷ current) ∷ []
  group_loop first current (v ∷ vs) =
      let same = group_loop first (current ++ v ∷ []) vs in
      let other = group_loop v [] vs in
      if jaq.equal v first then same else array (first ∷ current) ∷ other

  unfoldable pub native_group_by_sorted : Val F → List (ValR F)
  native_group_by_sorted (arr nil) = once_ok (arr nil)
  native_group_by_sorted (arr (item v items)) = once_ok (array (group_loop v [] (items_of items)))
  native_group_by_sorted val = once_err (type_error val arr_kind)

  -- The outputs of `range` for one output of its argument.
  unfoldable pub range_of : ValR F → List (ValR F)
  range_of (ok (int (pos n))) = map ok (int_range 0 n)
  range_of (ok (int (negsuc n))) = []
  range_of (ok (float x)) = elim (jaq.to_int x) [ pos n ↦ map ok (int_range 0 n) | negsuc n ↦ [] ]
  range_of (ok other) = once_err (type_error other int_kind)
  range_of (err e) = once_err e

  unfoldable pub native_range1 : List (ValR F) → List (ValR F)
  native_range1 [] = []
  native_range1 (r ∷ rest) = range_of r ++ native_range1 rest

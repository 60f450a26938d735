-- ===== src/Re/Jq/Paths.antt =====
-- The builtins on paths and membership: `paths`, `getpath`, `has`, `contains` and `inside`.
use arbeiterfarm.Base.{
  ℕ, suc, Bool, true, false, ◌&&◌, Option, none, some, List, [], ◌∷◌, ◌++◌, map, ltb, is_some, any,
}
use arbeiterfarm.Base.Text.{contains_text}
use arbeiterfarm.Re.Jq.{
  array_index, Val, Items, Members, ValR, Jaq, items_of, array, get_member, get_item, map_results,
  count_items, pos, null, bool, int, float, num, str, arr, obj, nil, item, end, member, arr_kind,
  type_error, index_error, ok, err,
}

module _ {F : Type 0} where
  -- `collect_paths`, with the path to the value; `out` in the order of the pushes.
  unfoldable mutual
    pub collect_paths : Val F → List (Val F) → List (Val F)
    collect_paths (arr items) current = collect_items 0 items current
    collect_paths (obj members) current = collect_members members current
    collect_paths null current = []
    collect_paths (bool b) current = []
    collect_paths (int n) current = []
    collect_paths (float x) current = []
    collect_paths (num s) current = []
    collect_paths (str s) current = []

    pub collect_items : ℕ → Items F → List (Val F) → List (Val F)
    collect_items i nil current = []
    collect_items i (item v items) current =
        array (current ++ int (pos i) ∷ []) ∷ collect_paths v (current ++ int (pos i) ∷ [])
        ++ collect_items (suc i) items current

    pub collect_members : Members F → List (Val F) → List (Val F)
    collect_members end current = []
    collect_members (member k v members) current =
        array (current ++ str k ∷ []) ∷ collect_paths v (current ++ str k ∷ [])
        ++ collect_members members current

  unfoldable pub native_paths : Val F → List (ValR F)
  native_paths val = map ok (collect_paths val [])

  abbrev pub or_null : Option (Val F) → Val F
  or_null none = null
  or_null (some v) = v

  -- One step of `native_getpath`.
  unfoldable pub child : Val F → Val F → Val F
  child (obj o) (str k) = or_null (get_member k o)
  child (arr a) (int i) = elim (array_index (count_items a) i) [
    | none ↦ null
    | some idx ↦ or_null (get_item idx a)
  ]
  child val key = null

  unfoldable pub follow : Val F → List (Val F) → Val F
  follow current [] = current
  follow current (key ∷ keys) = follow (child current key) keys

  abbrev pub getpath_of : Val F → Val F → ValR F
  getpath_of val (arr keys) = ok (follow val (items_of keys))
  getpath_of val path = err (type_error path arr_kind)

  unfoldable pub native_getpath : Val F → List (ValR F) → List (ValR F)
  native_getpath val paths = map_results (getpath_of val) paths

  abbrev has_of : Val F → Val F → ValR F
  has_of (obj o) (str s) = ok (bool (is_some (get_member s o)))
  has_of (arr a) (int i) = elim (array_index (count_items a) i) [
    | none ↦ ok (bool false)
    | some idx ↦ ok (bool (ltb idx (count_items a)))
  ]
  has_of val k = err (index_error val k)

  unfoldable pub native_has : Val F → List (ValR F) → List (ValR F)
  native_has val keys = map_results (has_of val) keys

module _ {F : Type 0} (jaq : Jaq F) where
  -- `val_contains(a, b)`, by recursion on `b`.
  unfoldable mutual
    pub contained : Val F → Val F → Bool
    contained (str b) a = elim a [ str s ↦ contains_text s b | other ↦ jaq.equal other (str b) ]
    contained (arr bs) a = elim a [
      | arr items ↦ items_contained bs (items_of items)
      | other ↦ jaq.equal other (arr bs)
    ]
    contained (obj bs) a = elim a [
      | obj members ↦ members_contained bs members
      | other ↦ jaq.equal other (obj bs)
    ]
    contained null a = jaq.equal a null
    contained (bool b) a = jaq.equal a (bool b)
    contained (int n) a = jaq.equal a (int n)
    contained (float x) a = jaq.equal a (float x)
    contained (num s) a = jaq.equal a (num s)

    pub items_contained : Items F → List (Val F) → Bool
    items_contained nil items = true
    items_contained (item b bs) items = any (λ a. contained b a) items && items_contained bs items

    pub members_contained : Members F → Members F → Bool
    members_contained end members = true
    members_contained (member k b bs) members =
        elim (get_member k members) [ none ↦ false | some a ↦ contained b a ]
        && members_contained bs members

  unfoldable pub native_contains : Val F → List (ValR F) → List (ValR F)
  native_contains val args = map_results (λ b. ok (bool (contained b val))) args

  unfoldable pub native_inside : Val F → List (ValR F) → List (ValR F)
  native_inside val args = map_results (λ b. ok (bool (contained val b))) args

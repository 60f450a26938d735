-- ===== src/Re/Jq/Descent.antt =====
-- `getpath(paths)`: what the paths of a value lead to.
use mathlib.Core.List.{map-append}
use arbeiterfarm.Base.{
  ℕ, zero, suc, ◌+◌, ◌<◌, ◌≡◌, refl, sym, ap, ap₂, subst, ◌∙◌, inl, inr, none, some, List, [], ◌∷◌,
  ◌++◌, map, arith, Bool-cases,
}
use arbeiterfarm.Base.Text.{Text, text_eq, text_eq_refl, eq_of_text_eq}
use arbeiterfarm.Re.Jq.{
  items_of-to_items, array_index, Val, Items, Members, ValR, array, get_member, get_item,
  map_results, count_items, pos, null, bool, int, float, num, str, arr, obj, nil, item, end, member,
  ok,
}
use arbeiterfarm.Re.Jq.Paths.{
  collect_paths, collect_items, collect_members, native_paths, child, follow, getpath_of,
  native_getpath,
}

module _ {F : Type 0} where
  -- The values inside of a value at any depth, each before those inside of it.
  unfoldable mutual
    pub descendants : Val F → List (Val F)
    descendants (arr items) = item_descendants items
    descendants (obj members) = member_descendants members
    descendants null = []
    descendants (bool b) = []
    descendants (int n) = []
    descendants (float x) = []
    descendants (num s) = []
    descendants (str s) = []

    pub item_descendants : Items F → List (Val F)
    item_descendants nil = []
    item_descendants (item v items) = v ∷ descendants v ++ item_descendants items

    pub member_descendants : Members F → List (Val F)
    member_descendants end = []
    member_descendants (member k v members) = v ∷ descendants v ++ member_descendants members

  -- No object has a key twice, as in an `IndexMap`.
  unfoldable mutual
    pub IsMap : Val F → Type 0
    IsMap (arr items) = ItemsAreMaps items
    IsMap (obj members) = MembersAreMaps members
    IsMap null = Unit
    IsMap (bool b) = Unit
    IsMap (int n) = Unit
    IsMap (float x) = Unit
    IsMap (num s) = Unit
    IsMap (str s) = Unit

    pub ItemsAreMaps : Items F → Type 0
    ItemsAreMaps nil = Unit
    ItemsAreMaps (item v items) = IsMap v × ItemsAreMaps items

    pub MembersAreMaps : Members F → Type 0
    MembersAreMaps end = Unit
    MembersAreMaps (member k v members) =
        (get_member k members ≡ none) × (IsMap v × MembersAreMaps members)

  follow-append : (v : Val F) (xs ys : List (Val F)) → follow v (xs ++ ys) ≡ follow (follow v xs) ys
  unfolding follow
  follow-append v [] ys = refl
  follow-append v (x ∷ xs) ys = follow-append (child v x) xs ys

  follow-snoc :
      (root w : Val F) (current : List (Val F)) (key v : Val F)
      → follow root current ≡ w
      → child w key ≡ v
      → follow root (current ++ key ∷ []) ≡ v
  unfolding follow
  follow-snoc root w current key v at step =
      follow-append root current (key ∷ []) ∙ ap (λ u. child u key) at ∙ step

  -- One path, those below it, and those behind it.
  visit :
      (root v : Val F) (path : List (Val F)) (below behind us vs : List (Val F))
      → follow root path ≡ v
      → map (getpath_of root) below ≡ map ok us
      → map (getpath_of root) behind ≡ map ok vs
      → map (getpath_of root) (array path ∷ below ++ behind) ≡ map ok (v ∷ us ++ vs)
  visit root v path below behind us vs at e e' =
      ap₂ (λ a b. ok a ∷ b) (ap (follow root) (items_of-to_items path) ∙ at)
        (map-append (getpath_of root) below behind
          ∙ ap₂ (λ a b. a ++ b) e e'
          ∙ sym (map-append ok us vs))

  get_item-lt :
      (items : Items F) (i : ℕ) (v : Val F) → get_item i items ≡ some v → i < count_items items
  unfolding get_item count_items
  get_item-lt nil i v h = absurd (ground (arith, h))
  get_item-lt (item w items) zero v h = omega arith
  get_item-lt (item w items) (suc i) v h = omega (arith, get_item-lt items i v h)

  child_item :
      (whole : Items F) (i : ℕ) (v : Val F)
      → get_item i whole ≡ some v
      → child (arr whole) (int (pos i)) ≡ v
  unfolding child array_index
  child_item whole i v h = rw h refl

  child_member :
      (whole : Members F) (k : Text) (v : Val F)
      → get_member k whole ≡ some v
      → child (obj whole) (str k) ≡ v
  unfolding child
  child_member whole k v h = rw h refl

  get_member-first :
      (k : Text) (v : Val F) (members : Members F) → get_member k (member k v members) ≡ some v
  unfolding get_member
  get_member-first k v members = rw (text_eq_refl k) refl

  get_member-later :
      (k l : Text) (v u : Val F) (members : Members F)
      → get_member k members ≡ none
      → get_member l members ≡ some u
      → get_member l (member k v members) ≡ some u
  unfolding get_member
  get_member-later k l v u members fresh h = elim (Bool-cases (text_eq k l)) [
    | inl e ↦
        absurd (ground (arith, fresh, h, ap (λ t. get_member t members) (eq_of_text_eq k l e)))
    | inr e ↦ rw e h
  ]

  mutual
    unfolding collect_paths descendants get_item get_member IsMap

    paths_lead :
        (root w : Val F) (current : List (Val F))
        → IsMap w
        → follow root current ≡ w
        → map (getpath_of root) (collect_paths w current) ≡ map ok (descendants w)
    paths_lead root (arr items) current maps at =
        items_lead root items current 0 items maps at
          (λ j v h. subst (λ n. get_item n items ≡ some v) (omega arith) h)
    paths_lead root (obj members) current maps at =
        members_lead root members current members maps at (λ k v h. h)
    paths_lead root null current maps at = refl
    paths_lead root (bool b) current maps at = refl
    paths_lead root (int n) current maps at = refl
    paths_lead root (float x) current maps at = refl
    paths_lead root (num s) current maps at = refl
    paths_lead root (str s) current maps at = refl

    items_lead :
        (root : Val F) (whole : Items F) (current : List (Val F)) (i : ℕ) (items : Items F)
        → ItemsAreMaps items
        → follow root current ≡ arr whole
        → ((j : ℕ) (v : Val F) → get_item j items ≡ some v → get_item (i + j) whole ≡ some v)
        → map (getpath_of root) (collect_items i items current) ≡ map ok (item_descendants items)
    items_lead root whole current i nil maps at here = refl
    items_lead root whole current i (item v items) maps at here =
        let next = current ++ int (pos i) ∷ [] in
        let found : get_item i whole ≡ some v =
          subst (λ n. get_item n whole ≡ some v) (omega arith) (here 0 v refl) in
        let path =
          follow-snoc root (arr whole) current (int (pos i)) v at (child_item whole i v found) in
        visit root v next (collect_paths v next) (collect_items (suc i) items current)
          (descendants v) (item_descendants items) path (paths_lead root v next maps.0 path)
          (items_lead root whole current (suc i) items maps.1 at
            (λ j u h. subst (λ n. get_item n whole ≡ some u) (omega arith) (here (suc j) u h)))

    members_lead :
        (root : Val F) (whole : Members F) (current : List (Val F)) (members : Members F)
        → MembersAreMaps members
        → follow root current ≡ obj whole
        → ((k : Text) (v : Val F) → get_member k members ≡ some v → get_member k whole ≡ some v)
        → map (getpath_of root) (collect_members members current)
          ≡ map ok (member_descendants members)
    members_lead root whole current end maps at here = refl
    members_lead root whole current (member k v members) maps at here =
        let next = current ++ str k ∷ [] in
        let path =
          follow-snoc root (obj whole) current (str k) v at
            (child_member whole k v (here k v (get_member-first k v members))) in
        visit root v next (collect_paths v next) (collect_members members current) (descendants v)
          (member_descendants members) path (paths_lead root v next maps.1.0 path)
          (members_lead root whole current members maps.1.1 at
            (λ l u h. here l u (get_member-later k l v u members maps.0 h)))

  map_results-ok : (f : Val F → ValR F) (vs : List (Val F)) → map_results f (map ok vs) ≡ map f vs
  unfolding map_results
  map_results-ok f [] = refl
  map_results-ok f (v ∷ vs) = ap (λ r. f v ∷ r) (map_results-ok f vs)

-- In a value whose objects have no key twice, `getpath(paths)` answers the values inside of it at
-- any depth, each before those inside of it: every path leads to its value, and none is left out.
pub getpath-paths :
    {F : Type 0} (v : Val F) → IsMap v → native_getpath v (native_paths v) ≡ map ok (descendants v)
unfolding native_getpath native_paths
getpath-paths v maps =
    map_results-ok (getpath_of v) (collect_paths v [])
    ∙ paths_lead v v [] maps (unfold follow in refl)

-- ===== src/Jobs/Depth/Nesting.antt =====
-- What the loop computes.
use arbeiterfarm.Base.{
  ℕ, zero, suc, ◌+◌, ◌≤◌, ◌<◌, min, max, ◌≡◌, ap, ◌∙◌, inl, inr, some, [], ◌∷◌, arith, leb,
  Bool-cases, if_of_true, if_of_false, All,
}
use arbeiterfarm.Base.Json.{
  Json, JsonItems, JsonMembers, null, bool, number, string, array, object, nil, item, end, member,
}
use arbeiterfarm.Jobs.Depth.{
  Stack, push_items, push_members, depth_loop, size, items_size, members_size, json_depth_bounded,
}

-- How deeply arrays and objects are nested, by recursion.
unfoldable mutual
  pub nesting : Json → ℕ
  nesting null = 0
  nesting (bool b) = 0
  nesting (number n) = 0
  nesting (string s) = 0
  nesting (array items) = 1 + items_nesting items
  nesting (object members) = 1 + members_nesting members

  pub items_nesting : JsonItems → ℕ
  items_nesting nil = 0
  items_nesting (item v rest) = max (nesting v) (items_nesting rest)

  pub members_nesting : JsonMembers → ℕ
  members_nesting end = 0
  members_nesting (member k v rest) = max (nesting v) (members_nesting rest)

-- The deepest point under a stack, and the number of values there.
abbrev deepest : Stack → ℕ
deepest [] = 0
deepest ((v, d) ∷ stack) = max (d + nesting v) (deepest stack)

abbrev pending : Stack → ℕ
pending [] = 0
pending ((v, d) ∷ stack) = size v + pending stack

abbrev IsShallow : ℕ → Stack → Type 0
IsShallow bail_at = All (λ e. e.1 ≤ bail_at)

deepest-push_items :
    (items : JsonItems) (d : ℕ) (stack : Stack)
    → max d (deepest (push_items items d stack)) ≡ max (d + items_nesting items) (deepest stack)
unfolding push_items items_nesting
deepest-push_items nil d stack = omega arith
deepest-push_items (item v rest) d stack = omega (arith, deepest-push_items rest d ((v, d) ∷ stack))

deepest-push_members :
    (members : JsonMembers) (d : ℕ) (stack : Stack)
    → max d (deepest (push_members members d stack))
      ≡ max (d + members_nesting members) (deepest stack)
unfolding push_members members_nesting
deepest-push_members end d stack = omega arith
deepest-push_members (member k v rest) d stack =
    omega (arith, deepest-push_members rest d ((v, d) ∷ stack))

pending-push_items :
    (items : JsonItems) (d : ℕ) (stack : Stack)
    → pending (push_items items d stack) ≡ items_size items + pending stack
unfolding push_items items_size
pending-push_items nil d stack = omega arith
pending-push_items (item v rest) d stack = omega (arith, pending-push_items rest d ((v, d) ∷ stack))

pending-push_members :
    (members : JsonMembers) (d : ℕ) (stack : Stack)
    → pending (push_members members d stack) ≡ members_size members + pending stack
unfolding push_members members_size
pending-push_members end d stack = omega arith
pending-push_members (member k v rest) d stack =
    omega (arith, pending-push_members rest d ((v, d) ∷ stack))

push_items-IsShallow :
    (bail_at : ℕ) (items : JsonItems) (d : ℕ) (stack : Stack)
    → d ≤ bail_at
    → IsShallow bail_at stack
    → IsShallow bail_at (push_items items d stack)
unfolding push_items
push_items-IsShallow bail_at nil d stack h s = s
push_items-IsShallow bail_at (item v rest) d stack h s =
    push_items-IsShallow bail_at rest d ((v, d) ∷ stack) h (h, s)

push_members-IsShallow :
    (bail_at : ℕ) (members : JsonMembers) (d : ℕ) (stack : Stack)
    → d ≤ bail_at
    → IsShallow bail_at stack
    → IsShallow bail_at (push_members members d stack)
unfolding push_members
push_members-IsShallow bail_at end d stack h s = s
push_members-IsShallow bail_at (member k v rest) d stack h s =
    push_members-IsShallow bail_at rest d ((v, d) ∷ stack) h (h, s)

depth_loop_lem :
    (fuel bail_at : ℕ) (stack : Stack) (m : ℕ)
    → pending stack < fuel
    → m ≤ bail_at
    → IsShallow bail_at stack
    → depth_loop fuel bail_at stack m ≡ some (min bail_at (max m (deepest stack)))
unfolding depth_loop size nesting
depth_loop_lem zero bail_at stack m f h s = absurd (omega (arith, f))
depth_loop_lem (suc fuel) bail_at [] m f h s = ap some (omega (arith, h))
depth_loop_lem (suc fuel) bail_at ((null, d) ∷ stack) m f h s =
    depth_loop_lem fuel bail_at stack (max m d) (omega (arith, f)) (omega (arith, h, s.0)) s.1
    ∙ ap some (omega arith)
depth_loop_lem (suc fuel) bail_at ((bool b, d) ∷ stack) m f h s =
    depth_loop_lem fuel bail_at stack (max m d) (omega (arith, f)) (omega (arith, h, s.0)) s.1
    ∙ ap some (omega arith)
depth_loop_lem (suc fuel) bail_at ((number n, d) ∷ stack) m f h s =
    depth_loop_lem fuel bail_at stack (max m d) (omega (arith, f)) (omega (arith, h, s.0)) s.1
    ∙ ap some (omega arith)
depth_loop_lem (suc fuel) bail_at ((string t, d) ∷ stack) m f h s =
    depth_loop_lem fuel bail_at stack (max m d) (omega (arith, f)) (omega (arith, h, s.0)) s.1
    ∙ ap some (omega arith)
depth_loop_lem (suc fuel) bail_at ((array items, d) ∷ stack) m f h s =
    elim (Bool-cases (leb bail_at (d + 1))) [
      | inl e ↦ if_of_true _ (some bail_at) _ e ∙ ap some (ground (arith, e))
      | inr e ↦
          if_of_false _ (some bail_at) _ e
          ∙ (depth_loop_lem fuel bail_at (push_items items (d + 1) stack) (max m (d + 1))
                (omega (arith, f, pending-push_items items (d + 1) stack)) (ground (arith, e, h))
                (push_items-IsShallow bail_at items (d + 1) stack (ground (arith, e)) s.1)
              ∙ ap some (omega (arith, deepest-push_items items (d + 1) stack)))
    ]
depth_loop_lem (suc fuel) bail_at ((object members, d) ∷ stack) m f h s =
    elim (Bool-cases (leb bail_at (d + 1))) [
      | inl e ↦ if_of_true _ (some bail_at) _ e ∙ ap some (ground (arith, e))
      | inr e ↦
          if_of_false _ (some bail_at) _ e
          ∙ (depth_loop_lem fuel bail_at (push_members members (d + 1) stack) (max m (d + 1))
                (omega (arith, f, pending-push_members members (d + 1) stack))
                (ground (arith, e, h))
                (push_members-IsShallow bail_at members (d + 1) stack (ground (arith, e)) s.1)
              ∙ ap some (omega (arith, deepest-push_members members (d + 1) stack)))
    ]

-- The loop ends, and its result is the nesting depth of the value, cut off at the bound.
pub json_depth_bounded_lem :
    (val : Json) (bail_at : ℕ) → json_depth_bounded val bail_at ≡ some (min bail_at (nesting val))
unfolding json_depth_bounded
json_depth_bounded_lem val bail_at =
    depth_loop_lem (suc (size val)) bail_at ((val, 0) ∷ []) 0 (omega arith) (omega arith)
      (omega arith, tt)
    ∙ ap some (omega arith)

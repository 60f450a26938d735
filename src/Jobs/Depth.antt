-- ===== src/Jobs/Depth.antt =====
-- `json_depth_bounded` of af/crates/af-jobs/src/enqueue.rs: the nesting depth of a JSON value by an
-- explicit stack.
pub mod Nesting
pub mod Examples
use arbeiterfarm.Base.{
  ℕ, zero, suc, ◌+◌, max, Option, none, some, List, [], ◌∷◌, leb, if◌then◌else◌,
}
use arbeiterfarm.Base.Json.{
  Json, JsonItems, JsonMembers, null, bool, number, string, array, object, nil, item, end, member,
}

-- Values with their depths; the top is the head.
abbrev pub Stack : Type 0
Stack = List (Json × ℕ)

-- `for child in arr.iter() { stack.push((child, d)) }`
unfoldable pub push_items : JsonItems → ℕ → Stack → Stack
push_items nil d stack = stack
push_items (item v rest) d stack = push_items rest d ((v, d) ∷ stack)

-- `for child in map.values() { stack.push((child, d)) }`
unfoldable pub push_members : JsonMembers → ℕ → Stack → Stack
push_members end d stack = stack
push_members (member k v rest) d stack = push_members rest d ((v, d) ∷ stack)

-- The loop on fuel; `none` where that runs out.
unfoldable pub depth_loop : ℕ → ℕ → Stack → ℕ → Option ℕ
depth_loop zero bail_at stack max_depth = none
depth_loop (suc fuel) bail_at [] max_depth = some max_depth
depth_loop (suc fuel) bail_at ((object members, depth) ∷ stack) max_depth =
    let rest =
      depth_loop fuel bail_at (push_members members (depth + 1) stack)
        (max max_depth (depth + 1)) in
    if leb bail_at (depth + 1) then some bail_at else rest
depth_loop (suc fuel) bail_at ((array items, depth) ∷ stack) max_depth =
    let rest =
      depth_loop fuel bail_at (push_items items (depth + 1) stack) (max max_depth (depth + 1)) in
    if leb bail_at (depth + 1) then some bail_at else rest
depth_loop (suc fuel) bail_at ((null, depth) ∷ stack) max_depth =
    depth_loop fuel bail_at stack (max max_depth depth)
depth_loop (suc fuel) bail_at ((bool b, depth) ∷ stack) max_depth =
    depth_loop fuel bail_at stack (max max_depth depth)
depth_loop (suc fuel) bail_at ((number n, depth) ∷ stack) max_depth =
    depth_loop fuel bail_at stack (max max_depth depth)
depth_loop (suc fuel) bail_at ((string s, depth) ∷ stack) max_depth =
    depth_loop fuel bail_at stack (max max_depth depth)

-- The number of values in a value, itself included: each is popped once.
unfoldable mutual
  pub size : Json → ℕ
  size null = 1
  size (bool b) = 1
  size (number n) = 1
  size (string s) = 1
  size (array items) = 1 + items_size items
  size (object members) = 1 + members_size members

  pub items_size : JsonItems → ℕ
  items_size nil = 0
  items_size (item v rest) = size v + items_size rest

  pub members_size : JsonMembers → ℕ
  members_size end = 0
  members_size (member k v rest) = size v + members_size rest

unfoldable pub json_depth_bounded : Json → ℕ → Option ℕ
json_depth_bounded val bail_at = depth_loop (suc (size val)) bail_at ((val, 0) ∷ []) 0

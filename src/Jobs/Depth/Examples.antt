-- ===== src/Jobs/Depth/Examples.antt =====
-- A value of two levels.
use arbeiterfarm.Base.{min, ◌≡◌, refl, some}
use arbeiterfarm.Base.Json.{Json, null, array, nil, item}
use arbeiterfarm.Jobs.Depth.{push_items, depth_loop, size, json_depth_bounded}
use arbeiterfarm.Jobs.Depth.Nesting.{nesting, json_depth_bounded_lem}

abbrev two_levels : Json
two_levels = array (item (array (item null nil)) (item (array nil) nil))

depth_of_two :
    (json_depth_bounded two_levels 5 ≡ some 2) × (json_depth_bounded two_levels 1 ≡ some 1)
unfolding json_depth_bounded depth_loop size push_items
depth_of_two = (refl, refl)

json_depth_bounded_lem_example : json_depth_bounded two_levels 5 ≡ some (min 5 (nesting two_levels))
json_depth_bounded_lem_example = json_depth_bounded_lem two_levels 5

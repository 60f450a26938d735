-- ===== src/Re/Jq/Examples.antt =====
-- The builtins on a small value, and the theorems at concrete inputs.
use arbeiterfarm.Base.{ℕ, ◌≡◌, refl, true, [], ◌∷◌, map, length}
use arbeiterfarm.Base.Text.{lit, text_eq, byte_len, starts_with}
use arbeiterfarm.Re.Jq.{
  array_index, Val, array, get_member, once_ok, map_results, count_items, pos, negsuc, null, bool,
  int, str, arr, obj, nil, item, end, member, ok,
}
use arbeiterfarm.Re.Jq.Natives.{}
use arbeiterfarm.Re.Jq.Arrays.{}
use arbeiterfarm.Re.Jq.Strings.{
  pieces, split_text, slice_from, find, scan_text, text_indices, native_explode, native_implode,
  native_split, panicked, found,
}
use arbeiterfarm.Re.Jq.Paths.{collect_paths, native_paths, native_getpath, native_has}
use arbeiterfarm.Re.Jq.Descent.{descendants, IsMap, getpath-paths}
use arbeiterfarm.Re.Jq.Searches.{occurrences}
use arbeiterfarm.Re.Jq.Occurrences.{text_indices_lem}
use arbeiterfarm.Re.Jq.Codepoints.{native_implode-explode}

-- `{"a": [1, {"b": null}], "c": "x"}`
abbrev report : Val ℕ
report = obj (
    member (lit "a") (arr (item (int (pos 1)) (item (obj (member (lit "b") null end)) nil)))
      (member (lit "c") (str (lit "x")) end))

getpath-paths_example : native_getpath report (native_paths report) ≡ map ok (descendants report)
unfolding IsMap text_eq get_member
getpath-paths_example =
    getpath-paths report ((refl, ((tt, ((refl, (tt, tt)), tt)), (refl, (tt, tt)))))

five_paths : length (native_paths report) ≡ 5
unfolding native_paths collect_paths
five_paths = refl

text_indices_lem_example : text_indices (lit "a,b, cd") (lit ",") ≡ found (1 ∷ 3 ∷ [])
text_indices_lem_example =
    unfold occurrences starts_with in text_indices_lem (lit "a,b, cd") (lit ",")

-- A letter with an accent is two bytes long.
accent_panics : text_indices (99 ∷ 0xe9 ∷ []) (0xe9 ∷ []) ≡ panicked
unfolding scan_text slice_from find starts_with byte_len
accent_panics = refl

exploded :
    native_explode {F = ℕ} (str (65 ∷ 233 ∷ []))
    ≡ once_ok (array (int (pos 65) ∷ int (pos 233) ∷ []))
unfolding native_explode
exploded = refl

native_implode-explode_example :
    native_implode {F = ℕ} (array (int (pos 65) ∷ int (pos 233) ∷ []))
    ≡ once_ok (str (65 ∷ 233 ∷ []))
native_implode-explode_example =
    native_implode-explode (65 ∷ 233 ∷ []) (array (int (pos 65) ∷ int (pos 233) ∷ []))
      (refl, (refl, tt)) exploded

negative_index :
    native_has {F = ℕ} (arr (item null nil)) (ok (int (negsuc 0)) ∷ []) ≡ once_ok (bool true)
unfolding native_has map_results array_index count_items
negative_index = refl

pieces_of :
    native_split {F = ℕ} (str (lit "a, b")) (ok (str (lit ", ")) ∷ [])
    ≡ once_ok (array (str (lit "a") ∷ str (lit "b") ∷ []))
unfolding native_split map_results split_text pieces starts_with
pieces_of = refl

-- ===== src/Core/Resolver/Completeness.antt =====
-- Which references of a schema are followed in an input.
use arbeiterfarm.Base.{
  ℕ, ◌≤◌, ◌≡◌, sym, ap, subst, ◌∙◌, inl, inr, true, Option, some, List, [], ◌∷◌, ◌++◌, arith, ◌==◌,
  Bool-cases, Option-cases, ◌>>=◌, length, any, All, any-append, try_then, try_then-inr,
  inr_injective,
}
use arbeiterfarm.Base.Text.{Text, text_eq, eq_of_text_eq, mem_text}
use arbeiterfarm.Base.Json.{
  Json, JsonItems, get, null, bool, number, string, array, object, nil, item,
}
use arbeiterfarm.Core.Resolver.{
  walk_schema, resolve_schema_paths, parts, parse_uuid, extract_items, extract_target,
  extract_at_path, extract_artifact_ids,
}
use arbeiterfarm.Core.Resolver.Paths.{Refers, IsPlain, path_of, parts-path_of, mem_text-walk_schema}

-- The value behind a chain of keys.
abbrev pub value_at : List Text → Json → Option Json
value_at [] value = some value
value_at (key ∷ keys) value = get key value >>= value_at keys

abbrev item_texts : JsonItems → List Text
item_texts nil = []
item_texts (item (string s) rest) = s ∷ item_texts rest
item_texts (item null rest) = item_texts rest
item_texts (item (bool b) rest) = item_texts rest
item_texts (item (number n) rest) = item_texts rest
item_texts (item (array items) rest) = item_texts rest
item_texts (item (object members) rest) = item_texts rest

-- The artifacts that a value names: a text, or the texts of an array.
abbrev pub named_in : Json → List Text
named_in (string s) = s ∷ []
named_in (array items) = item_texts items
named_in null = []
named_in (bool b) = []
named_in (number n) = []
named_in (object members) = []

module _ (parse_str : Text → Option ℕ) where
  extracted :
      (input : Json) (p : Text) (paths : List Text) (ids : List ℕ)
      → extract_artifact_ids parse_str input (p ∷ paths) ≡ inr ids
      → (got more : List ℕ) × (extract_at_path parse_str input (parts p) ≡ inr got)
        × (extract_artifact_ids parse_str input paths ≡ inr more)
        × (got ++ more ≡ ids)
  unfolding extract_artifact_ids
  extracted input p paths ids e =
      let (got, h, k) =
        try_then-inr (extract_at_path parse_str input (parts p))
          (λ found.
            try_then (extract_artifact_ids parse_str input paths) (λ more. inr (found ++ more)))
          ids e in
      let (more, g, l) =
        try_then-inr (extract_artifact_ids parse_str input paths) (λ more. inr (got ++ more)) ids
          k in
      (got, more, h, g, inr_injective (got ++ more) ids l)

  -- A listed path is extracted from, and what it gives is in the result.
  extract_listed :
      (input : Json) (path : Text) (paths : List Text) (ids : List ℕ)
      → mem_text path paths ≡ true
      → extract_artifact_ids parse_str input paths ≡ inr ids
      → (got : List ℕ) × (extract_at_path parse_str input (parts path) ≡ inr got)
        × ((id : ℕ) → any (λ i. i == id) got ≡ true → any (λ i. i == id) ids ≡ true)
  unfolding extract_artifact_ids
  extract_listed input path [] ids m e = absurd (ground (arith, m))
  extract_listed input path (p ∷ paths) ids m e =
      let (got, more, h, g, same) = extracted input p paths ids e in
      elim (Bool-cases (text_eq p path)) [
        | inl t ↦ (
          got,
          subst (λ q. extract_at_path parse_str input (parts q) ≡ inr got) (eq_of_text_eq p path t)
              h,
          λ id a.
              subst (λ r. any (λ i. i == id) r ≡ true) same
                (any-append (λ i. i == id) got more ∙ ground (arith, a)),
        )
        | inr f ↦
            let (there, x, y) = extract_listed input path paths more (ground (arith, m, f)) g in
            (
              there,
              x,
              λ id a.
                  subst (λ r. any (λ i. i == id) r ≡ true) same
                    (any-append (λ i. i == id) got more ∙ ground (arith, y id a)),
            )
      ]

  parsed : (s : Text) (id : ℕ) → parse_uuid parse_str s ≡ inr id → parse_str s ≡ some id
  unfolding parse_uuid
  parsed s id h = elim (Option-cases (parse_str s)) [
    | inl n ↦ absurd (ground (arith, (rw (n, parse_uuid) at h)))
    | inr (i, e) ↦ e ∙ ap some (inr_injective i id (rw (e, parse_uuid) at h))
  ]

  -- A text that is named is parsed.
  items_parsed :
      (items : JsonItems) (s : Text) (got : List ℕ)
      → mem_text s (item_texts items) ≡ true
      → extract_items parse_str items ≡ inr got
      → (id : ℕ) × (parse_str s ≡ some id) × (any (λ i. i == id) got ≡ true)
  unfolding extract_items
  items_parsed nil s got m e = absurd (ground (arith, m))
  items_parsed (item null rest) s got m e = items_parsed rest s got m e
  items_parsed (item (bool b) rest) s got m e = items_parsed rest s got m e
  items_parsed (item (number n) rest) s got m e = items_parsed rest s got m e
  items_parsed (item (array items) rest) s got m e = items_parsed rest s got m e
  items_parsed (item (object members) rest) s got m e = items_parsed rest s got m e
  items_parsed (item (string t) rest) s got m e =
      let (id, h, k) =
        try_then-inr (parse_uuid parse_str t)
          (λ id. try_then (extract_items parse_str rest) (λ ids. inr (id ∷ ids))) got e in
      let (ids, g, l) = try_then-inr (extract_items parse_str rest) (λ ids. inr (id ∷ ids)) got k in
      let same = inr_injective (id ∷ ids) got l in
      elim (Bool-cases (text_eq t s)) [
        | inl f ↦ (
          id,
          subst (λ x. parse_str x ≡ some id) (eq_of_text_eq t s f) (parsed t id h),
          subst (λ r. any (λ i. i == id) r ≡ true) same (ground arith),
        )
        | inr f ↦
            let (n, x, y) = items_parsed rest s ids (ground (arith, m, f)) g in
            (n, x, subst (λ r. any (λ i. i == n) r ≡ true) same (ground (arith, y)))
      ]

  target_parsed :
      (value : Json) (s : Text) (got : List ℕ)
      → mem_text s (named_in value) ≡ true
      → extract_target parse_str value ≡ inr got
      → (id : ℕ) × (parse_str s ≡ some id) × (any (λ i. i == id) got ≡ true)
  unfolding extract_target
  target_parsed null s got m e = absurd (ground (arith, m))
  target_parsed (bool b) s got m e = absurd (ground (arith, m))
  target_parsed (number n) s got m e = absurd (ground (arith, m))
  target_parsed (object members) s got m e = absurd (ground (arith, m))
  target_parsed (array items) s got m e = items_parsed items s got m e
  target_parsed (string t) s got m e =
      let (id, h, k) = try_then-inr (parse_uuid parse_str t) (λ id. inr (id ∷ [])) got e in
      (
        id,
        subst (λ x. parse_str x ≡ some id) (eq_of_text_eq t s (ground (arith, m))) (parsed t id h),
        subst (λ r. any (λ i. i == id) r ≡ true) (inr_injective (id ∷ []) got k) (ground arith),
      )

  reached :
      (keys : List Text) (input value : Json)
      → value_at keys input ≡ some value
      → extract_at_path parse_str input keys ≡ extract_target parse_str value
  unfolding extract_at_path
  reached [] input value h = ap (extract_target parse_str) (ground (arith, h))
  reached (key ∷ keys) input value h = elim (Option-cases (get key input)) [
    | inl n ↦ absurd (ground (arith, rw (n) at h))
    | inr (child, e) ↦ rw (e, extract_at_path) (reached keys child value (rw (e) at h))
  ]

  -- Where a schema refers to an artifact behind a chain of at most sixteen properties, none of them
  -- empty or with a slash, and the artifacts of an input are extracted without an error, then each
  -- text that the input has there, alone or in an array, is a uuid that is among those extracted.
  pub extract_artifact_ids_complete :
      (schema input value : Json) (keys : List Text) (s : Text) (ids : List ℕ)
      → Refers schema keys
      → length keys ≤ 16
      → All IsPlain keys
      → value_at keys input ≡ some value
      → mem_text s (named_in value) ≡ true
      → extract_artifact_ids parse_str input (resolve_schema_paths schema) ≡ inr ids
      → (id : ℕ) × (parse_str s ≡ some id) × (any (λ i. i == id) ids ≡ true)
  unfolding resolve_schema_paths
  extract_artifact_ids_complete schema input value keys s ids r l p v m e =
      let (got, h, k) =
        extract_listed input (path_of keys) (walk_schema 17 schema []) ids
          (mem_text-walk_schema 17 schema keys [] r (omega (arith, l))) e in
      let (id, x, y) = target_parsed value s got m (
        sym (reached keys input value v)
        ∙ subst (λ q. extract_at_path parse_str input q ≡ inr got) (parts-path_of keys p) h) in
      (id, x, k id y)

-- ===== src/Core/Resolver/Paths.antt =====
-- Which paths a walk over a schema writes, and what they are read as.
use arbeiterfarm.Base.{
  ℕ, zero, suc, ◌<◌, ◌≡◌, refl, sym, ap, subst, ◌∙◌, inl, inr, true, false, not, some, List, [],
  ◌∷◌, ◌++◌, arith, ◌==◌, Bool-cases, ◌>>=◌, if_of_true, if_of_false, some_injective, length, any,
  keep, is_empty, All, append_nil, append_assoc,
}
use arbeiterfarm.Base.Text.{
  Text, lit, text_eq, eq_of_text_eq, text_eq_iff, split, mem_text, mem_text-append,
}
use arbeiterfarm.Base.Json.{Json, JsonMembers, member_of, get, as_object, end, member}
use arbeiterfarm.Core.Resolver.{
  is_artifact_ref, child_path, walk_members, walk_properties, walk_items, walk_schema, parts,
}

-- A schema refers to an artifact at the end of a chain of properties.
pub data Refers : Json → List Text → Type 0 where
  here : {schema : Json} → is_artifact_ref schema ≡ true → Refers schema []
  property :
      {schema sub : Json} {keys : List Text} (props : JsonMembers) (key : Text)
      → is_artifact_ref schema ≡ false
      → (get (lit "properties") schema >>= as_object) ≡ some props
      → member_of key props ≡ some sub
      → Refers sub keys
      → Refers schema (key ∷ keys)

-- A key that is not empty and has no slash.
abbrev pub IsPlain : Text → Type 0
IsPlain key = (is_empty key ≡ false) × (any (λ c. c == b'/') key ≡ false)

-- A path as the walk writes it.
abbrev pub path_of : List Text → Text
path_of [] = []
path_of (key ∷ keys) = b'/' ∷ (key ++ path_of keys)

child_path_lem : (path key : Text) → child_path path key ≡ path ++ b'/' ∷ key
unfolding child_path
child_path_lem [] key = refl
child_path_lem (c ∷ path) key = refl

-- A key without a slash in front of a separator or of the end.
split-key :
    (key s : Text) (pieces : List Text)
    → any (λ c. c == b'/') key ≡ false
    → split b'/' s ≡ [] ∷ pieces
    → split b'/' (key ++ s) ≡ key ∷ pieces
unfolding split
split-key [] s pieces h e = e
split-key (c ∷ key) s pieces h e =
    (rw (split-key key s pieces (ground (arith, h)) e) refl)
    ∙ if_of_false (c == b'/') ([] ∷ key ∷ pieces) ((c ∷ key) ∷ pieces) (ground (arith, h))

split-path_of : (keys : List Text) → All IsPlain keys → split b'/' (path_of keys) ≡ [] ∷ keys
unfolding split
split-path_of [] h = refl
split-path_of (key ∷ keys) h =
    rw (split, split-key key (path_of keys) keys h.0.1 (split-path_of keys h.1)) refl

keep-plain : (keys : List Text) → All IsPlain keys → keep (λ s. not (is_empty s)) keys ≡ keys
keep-plain [] h = refl
keep-plain (key ∷ keys) h = ground (arith, h.0.0, keep-plain keys h.1)

-- A path that the walk writes is taken apart into the keys that it stands for.
pub parts-path_of : (keys : List Text) → All IsPlain keys → parts (path_of keys) ≡ keys
unfolding parts
parts-path_of keys h = rw (split-path_of keys h) (keep-plain keys h)

-- What the walk of a property pushes is pushed by the loop.
mem_text-walk_members :
    (walk : Json → Text → List Text) (props : JsonMembers) (key path s : Text) (sub : Json)
    → member_of key props ≡ some sub
    → mem_text s (walk sub (child_path path key)) ≡ true
    → mem_text s (walk_members walk props path) ≡ true
unfolding walk_members
mem_text-walk_members walk end key path s sub e h = absurd (ground (arith, e))
mem_text-walk_members walk (member k v rest) key path s sub e h =
    mem_text-append s (walk v (child_path path k)) (walk_members walk rest path)
    ∙ elim (Bool-cases (text_eq k key)) [
      | inl f ↦ ground (
        arith,
        subst (λ x. mem_text s (walk x (child_path path k)) ≡ true)
            (some_injective sub v (sym e ∙ if_of_true _ (some v) _ f))
            (subst (λ x. mem_text s (walk sub (child_path path x)) ≡ true)
              (sym (eq_of_text_eq k key f)) h),
      )
      | inr f ↦ ground (
        arith,
        mem_text-walk_members walk rest key path s sub (sym (if_of_false _ (some v) _ f) ∙ e) h,
      )
    ]

-- The walk writes down every chain of properties that it has levels for.
pub mem_text-walk_schema :
    (levels : ℕ) (schema : Json) (keys : List Text) (path : Text)
    → Refers schema keys
    → length keys < levels
    → mem_text (path ++ path_of keys) (walk_schema levels schema path) ≡ true
unfolding walk_schema walk_properties
mem_text-walk_schema zero schema keys path r h = absurd (omega (arith, h))
mem_text-walk_schema (suc levels) schema _ path (here e) h =
    ap (mem_text (path ++ [])) (if_of_true _ (path ∷ []) _ e)
    ∙ ground (arith, (text_eq_iff path (path ++ [])).1 (sym (append_nil path)))
mem_text-walk_schema (suc levels) schema _ path
      (property {sub = sub} {keys = keys} props key e f g r) h =
    ap (mem_text (path ++ path_of (key ∷ keys))) (if_of_false _ (path ∷ []) _ e)
    ∙ subst
        (λ o.
          mem_text (path ++ path_of (key ∷ keys)) (
            walk_properties (walk_schema levels) o path
            ++ walk_items (walk_schema levels) (get (lit "items") schema) path)
          ≡ true)
        (sym f)
        (mem_text-append _ (walk_members (walk_schema levels) props path) _
          ∙ ground (
            arith,
            mem_text-walk_members (walk_schema levels) props key path (path ++ path_of (key ∷ keys))
                sub g
                (subst (λ t. mem_text t (walk_schema levels sub (child_path path key)) ≡ true)
                  (ap (λ t. t ++ path_of keys) (child_path_lem path key)
                    ∙ append_assoc path (b'/' ∷ key) (path_of keys))
                  (mem_text-walk_schema levels sub keys (child_path path key) r
                    (omega (arith, h)))),
          ))

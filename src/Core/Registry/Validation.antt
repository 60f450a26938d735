-- ===== src/Core/Registry/Validation.antt =====
-- What a validation without errors promises.
use arbeiterfarm.Base.{
  ℕ, ◌≡◌, refl, sym, ap, subst, ◌∙◌, inl, inr, true, false, ◌&&◌, some, List, [], ◌∷◌, ◌++◌, map,
  arith, ◌==◌, ==_iff, Bool-cases, Option-cases, is_some, any,
}
use arbeiterfarm.Base.Text.{Text, text_eq, eq_of_text_eq, mem_text}
use arbeiterfarm.Core.Registry.{
  ToolSpec, find_version, entry_versions, get, get_latest, names, versions, ToolSpecRegistry,
  ToolExecutorRegistry, versions_without_spec, executors_without_spec, is_exempt, missing_executor,
  specs_without_executor, validate_registries, spec_without_executor,
}

append_empty {ℓ} : {A : Type ℓ} (xs ys : List A) → xs ++ ys ≡ [] → (xs ≡ []) × (ys ≡ [])
append_empty [] ys h = (refl, h)
append_empty (x ∷ xs) ys h = absurd (ground arith)

entry-names {ℓ} :
    {A : Type ℓ} (n : Text) (entries : List (Text × List (ℕ × A)))
    → is_some (entry_versions n entries) ≡ mem_text n (names entries)
unfolding entry_versions names
entry-names n [] = refl
entry-names n ((m, vs) ∷ rest) = ground (arith, entry-names n rest)

find-versions {ℓ} :
    {A : Type ℓ} (v : ℕ) (vs : List (ℕ × A))
    → is_some (find_version v vs) ≡ any (λ w. v == w) (map (λ e. e.0) vs)
unfolding find_version
find-versions v [] = refl
find-versions v ((w, a) ∷ rest) = ground (arith, find-versions v rest)

get-listed {ℓ} :
    {A : Type ℓ} (n : Text) (v : ℕ) (entries : List (Text × List (ℕ × A)))
    → is_some (get n v entries)
      ≡ (mem_text n (names entries) && any (λ w. v == w) (versions n entries))
unfolding get versions
get-listed n v entries = elim (Option-cases (entry_versions n entries)) [
  | inl e ↦ rw (sym (entry-names n entries), e, get, versions) refl
  | inr (vs, e) ↦ rw (sym (entry-names n entries), e, get, versions) (find-versions v vs)
]

versions-spec :
    (specs : ToolSpecRegistry) (name : Text) (v : ℕ) (vs : List ℕ)
    → versions_without_spec specs name vs ≡ []
    → any (λ w. v == w) vs ≡ true
    → is_some (get name v specs) ≡ true
unfolding versions_without_spec
versions-spec specs name v [] h m = absurd (ground arith)
versions-spec specs name v (w ∷ vs) h m = elim (Bool-cases (v == w)) [
  | inl e ↦ rw ((==_iff v w).0 e) (ground (arith, h))
  | inr e ↦ versions-spec specs name v vs (ground (arith, h)) (ground (arith, m, e))
]

executors-spec :
    (specs : ToolSpecRegistry) (executors : ToolExecutorRegistry) (n : Text) (ns : List Text)
    → executors_without_spec specs executors ns ≡ []
    → mem_text n ns ≡ true
    → versions_without_spec specs n (versions n executors) ≡ []
unfolding executors_without_spec
executors-spec specs executors n [] h m = absurd (ground arith)
executors-spec specs executors n (k ∷ ns) h m =
    let s = append_empty _ _ h in
    elim (Bool-cases (text_eq k n)) [
      | inl e ↦
          subst (λ u. versions_without_spec specs u (versions u executors) ≡ [])
            (eq_of_text_eq k n e) s.0
      | inr e ↦ executors-spec specs executors n ns s.1 (ground (arith, m, e))
    ]

specs-executor :
    (specs : ToolSpecRegistry) (executors : ToolExecutorRegistry) (n : Text) (ns : List Text)
    → specs_without_executor specs executors ns ≡ []
    → mem_text n ns ≡ true
    → missing_executor specs executors n ≡ []
unfolding specs_without_executor
specs-executor specs executors n [] h m = absurd (ground arith)
specs-executor specs executors n (k ∷ ns) h m =
    let s = append_empty _ _ h in
    elim (Bool-cases (text_eq k n)) [
      | inl e ↦ subst (λ u. missing_executor specs executors u ≡ []) (eq_of_text_eq k n e) s.0
      | inr e ↦ specs-executor specs executors n ns s.1 (ground (arith, m, e))
    ]

latest-listed :
    (n : Text) (specs : ToolSpecRegistry) (spec : ToolSpec)
    → get_latest n specs ≡ some spec
    → is_some (entry_versions n specs) ≡ true
unfolding get_latest
latest-listed n specs spec h = ground (arith, h)

missing-none :
    (specs : ToolSpecRegistry) (executors : ToolExecutorRegistry) (n : Text) (spec : ToolSpec)
    → get_latest n specs ≡ some spec
    → is_exempt n ≡ false
    → missing_executor specs executors n ≡ []
    → is_some (get n spec.version executors) ≡ true
unfolding missing_executor
missing-none specs executors n spec g x h = elim (Option-cases (get n spec.version executors)) [
  | inl e ↦
      let reported : missing_executor specs executors n
          ≡ spec_without_executor n spec.version ∷ [] =
        rw (x, g, e, missing_executor) refl in
      absurd (ground (arith, sym reported ∙ h))
  | inr (a, e) ↦ ap is_some e
]

-- Where validation reports no error, a name and version with an executor has a specification.
pub validate_registries-spec :
    (specs : ToolSpecRegistry) (executors : ToolExecutorRegistry) (n : Text) (v : ℕ)
    → validate_registries specs executors ≡ []
    → is_some (get n v executors) ≡ true
    → is_some (get n v specs) ≡ true
unfolding validate_registries
validate_registries-spec specs executors n v h g =
    let s = append_empty _ _ h in
    let listed : (mem_text n (names executors) && any (λ w. v == w) (versions n executors)) ≡ true =
      sym (get-listed n v executors) ∙ g in
    versions-spec specs n v (versions n executors)
      (executors-spec specs executors n (names executors) s.0 (ground (arith, listed)))
      (ground (arith, listed))

-- Where validation reports no error, the latest specification of a name has an executor of the same
-- version, unless the tool is internal or `tools.discover`.
pub validate_registries-executor :
    (specs : ToolSpecRegistry) (executors : ToolExecutorRegistry) (n : Text) (spec : ToolSpec)
    → validate_registries specs executors ≡ []
    → get_latest n specs ≡ some spec
    → is_exempt n ≡ false
    → is_some (get n spec.version executors) ≡ true
unfolding validate_registries
validate_registries-executor specs executors n spec h g x =
    let s = append_empty _ _ h in
    let listed : mem_text n (names specs) ≡ true =
      sym (entry-names n specs) ∙ latest-listed n specs spec g in
    missing-none specs executors n spec g x
      (specs-executor specs executors n (names specs) s.1 listed)

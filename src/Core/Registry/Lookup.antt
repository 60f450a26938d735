-- ===== src/Core/Registry/Lookup.antt =====
-- What a registration does to later lookups.
use arbeiterfarm.Base.{
  ℕ, ◌≡◌, refl, sym, ap, ◌∙◌, inl, inr, ◌&&◌, not, none, some, List, [], ◌∷◌, arith, ◌==◌,
  if◌then◌else◌, Bool-cases, Option-cases, is_some,
}
use arbeiterfarm.Base.Text.{Text, text_eq, eq_of_text_eq, text_eq_trans, text_eq_left}
use arbeiterfarm.Core.Registry.{
  insert_version, find_version, update_entry, entry_versions, get, register_entry,
}

module _ {ℓ} {A : Type ℓ} where
  find-insert :
      (v w : ℕ) (a : A) (vs : List (ℕ × A))
      → find_version v vs ≡ none
      → find_version w (insert_version v a vs) ≡ (if w == v then some a else find_version w vs)
  unfolding find_version insert_version
  find-insert v w a [] h = ground arith
  find-insert v w a ((u, b) ∷ rest) h = ground (arith, find-insert v w a rest)

  -- The versions of a name, an absent name having none.
  abbrev pub versions_at : Text → List (Text × List (ℕ × A)) → List (ℕ × A)
  versions_at name entries = elim (entry_versions name entries) [ none ↦ [] | some vs ↦ vs ]

  pub get-versions_at :
      (name : Text) (v : ℕ) (entries : List (Text × List (ℕ × A)))
      → get name v entries ≡ find_version v (versions_at name entries)
  unfolding get find_version
  get-versions_at name v entries = ground arith

  versions_at-update :
      (name n : Text) (f : List (ℕ × A) → List (ℕ × A)) (entries : List (Text × List (ℕ × A)))
      → versions_at n (update_entry name f entries)
        ≡ (if text_eq name n then f (versions_at name entries) else versions_at n entries)
  unfolding entry_versions update_entry
  versions_at-update name n f [] = ground arith
  versions_at-update name n f ((m, vs) ∷ rest) = elim (Bool-cases (text_eq m name)) [
    | inl e ↦ ground (arith, e, text_eq_left m name n e)
    | inr e ↦ ground (arith, e, versions_at-update name n f rest, text_eq_trans m name n)
  ]

  -- A registration fails exactly if the name has the version already, and then changes nothing;
  -- otherwise the new entry is found under its name and version, and every other lookup is as before.
  pub register_entry-get :
      (name n : Text) (version v : ℕ) (a : A) (entries : List (Text × List (ℕ × A)))
      → (is_some (register_entry name version a entries).0 ≡ is_some (get name version entries))
        × (get n v (register_entry name version a entries).1 ≡ (
            if text_eq name n && v == version && not (is_some (get name version entries))
            then some a
            else get n v entries))
  unfolding register_entry
  register_entry-get name n version v a entries = elim (Option-cases (get name version entries)) [
    | inr (b, e) ↦ rw (e, register_entry) (refl, ground arith)
    | inl e ↦
        rw
          (
            e,
            register_entry,
            get-versions_at n v (update_entry name (insert_version version a) entries),
            versions_at-update name n (insert_version version a) entries,
          )
          (
            refl,
            elim (Bool-cases (text_eq name n)) [
              | inl t ↦
                  let same : get n v entries ≡ find_version v (versions_at name entries) =
                    get-versions_at n v entries
                    ∙ ap (λ m. find_version v (versions_at m entries))
                        (sym (eq_of_text_eq name n t)) in
                  rw (t, same)
                    (find-insert version v a (versions_at name entries)
                        (sym (get-versions_at name version entries) ∙ e)
                      ∙ ground arith)
              | inr t ↦ rw t (sym (get-versions_at n v entries))
            ],
          )
  ]

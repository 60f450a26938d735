-- ===== src/Re/Jq/Output.antt =====
-- `run_filter`: the outputs of the filter that are kept, and their text. Printing with indentation
-- is a parameter.
use mathlib.Core.List.{append-nil, append_assoc}
use arbeiterfarm.Base.{
  ℕ, ◌+◌, ◌*◌, ◌≤◌, ◌≡◌, refl, sym, ap, ◌∙◌, ◌⊎◌, inl, inr, Bool, true, false, List, [], ◌∷◌, ◌++◌,
  map, arith, ltb, if◌then◌else◌, Bool-cases, if_of_true, if_of_false,
}
use arbeiterfarm.Base.Text.{Text, lit, byte_len}
use arbeiterfarm.Base.Text.Decimal.{join}
use arbeiterfarm.Re.Jq.{Val, Error, ValR, Jaq, array, str, ok, err}

abbrev pub max_output_size : ℕ
max_output_size = 64 * 1024 * 1024

module _ {F : Type 0} (jaq : Jaq F) where
  -- The loop over the outputs, with the size and the results so far.
  unfoldable pub collect_outputs : ℕ → List (Val F) → List (ValR F) → Error F ⊎ List (Val F)
  collect_outputs total_size results [] = inr results
  collect_outputs total_size results (err e ∷ outputs) = inl e
  collect_outputs total_size results (ok v ∷ outputs) =
      let size = total_size + byte_len (jaq.to_json v) in
      let more = collect_outputs size (results ++ v ∷ []) outputs in
      if ltb max_output_size size then inr results else more

  abbrev raw_part : Val F → Text
  raw_part (str s) = s
  raw_part other = jaq.to_json other

  unfoldable pub output_text : (Val F → Text) → Bool → List (Val F) → Text
  output_text pretty true results = join (lit "\n") (map raw_part results)
  output_text pretty false (v ∷ []) = pretty v
  output_text pretty false results = pretty (array results)

  -- The bytes of values as JSON.
  unfoldable pub size_of : List (Val F) → ℕ
  size_of [] = 0
  size_of (v ∷ vs) = byte_len (jaq.to_json v) + size_of vs

  size_of-append : (us vs : List (Val F)) → size_of (us ++ vs) ≡ size_of us + size_of vs
  unfolding size_of
  size_of-append [] vs = omega arith
  size_of-append (u ∷ us) vs = omega (arith, size_of-append us vs)

  inr_injective :
      (us vs : List (Val F)) → ◌≡◌ {A = Error F ⊎ List (Val F)} (inr us) (inr vs) → us ≡ vs
  inr_injective us vs h = cc

  -- The loop has ended with the results so far.
  ended :
      (outputs : List (ValR F)) (results vs : List (Val F))
      → size_of results ≤ max_output_size
      → ◌≡◌ {A = Error F ⊎ List (Val F)} (inr results) (inr vs)
      → (kept : List (Val F)) × (rest : List (ValR F)) × (vs ≡ results ++ kept)
        × (outputs ≡ map ok kept ++ rest)
        × (size_of vs ≤ max_output_size)
  ended outputs results vs le h =
      let same = inr_injective results vs h in
      ([], outputs, sym same ∙ sym (append-nil results), refl, omega (arith, le, ap size_of same))

  collected_from :
      (outputs : List (ValR F)) (results vs : List (Val F))
      → size_of results ≤ max_output_size
      → collect_outputs (size_of results) results outputs ≡ inr vs
      → (kept : List (Val F)) × (rest : List (ValR F)) × (vs ≡ results ++ kept)
        × (outputs ≡ map ok kept ++ rest)
        × (size_of vs ≤ max_output_size)
  unfolding collect_outputs
  collected_from [] results vs le h = ended [] results vs le h
  collected_from (err e ∷ outputs) results vs le h = absurd (ground (arith, h))
  collected_from (ok v ∷ outputs) results vs le h =
      let size = size_of results + byte_len (jaq.to_json v) in
      let more = collect_outputs size (results ++ v ∷ []) outputs in
      elim (Bool-cases (ltb max_output_size size)) [
        | inl e ↦
            ended (ok v ∷ outputs) results vs le
              (sym (if_of_true (ltb max_output_size size) (inr results) more e) ∙ h)
        | inr e ↦
            let next : size ≡ size_of (results ++ v ∷ []) =
              unfold size_of in omega (arith, size_of-append results (v ∷ [])) in
            let going : collect_outputs (size_of (results ++ v ∷ [])) (results ++ v ∷ []) outputs
                ≡ inr vs =
              ap (λ n. collect_outputs n (results ++ v ∷ []) outputs) (sym next)
              ∙ sym (if_of_false (ltb max_output_size size) (inr results) more e)
              ∙ h in
            let (kept, rest, whole, cut, small) =
              collected_from outputs (results ++ v ∷ []) vs (ground (arith, e, next)) going in
            (
              v ∷ kept,
              rest,
              whole ∙ append_assoc results (v ∷ []) kept,
              ap (λ r. ok v ∷ r) cut,
              small,
            )
      ]

  -- Results that are answered without an error are the first outputs of the filter, and have
  -- at most 64 MB of JSON together; the outputs behind them are dropped.
  pub collect_outputs-bound :
      (outputs : List (ValR F)) (vs : List (Val F))
      → collect_outputs 0 [] outputs ≡ inr vs
      → (rest : List (ValR F)) × (outputs ≡ map ok vs ++ rest) × (size_of vs ≤ max_output_size)
  collect_outputs-bound outputs vs h =
      let (kept, rest, whole, cut, small) =
        collected_from outputs [] vs (unfold size_of in omega arith) (unfold size_of in h) in
      (rest, cut ∙ ap (λ us. map ok us ++ rest) (sym whole), small)

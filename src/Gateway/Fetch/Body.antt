-- ===== src/Gateway/Fetch/Body.antt =====
-- How much of a body is kept.
use arbeiterfarm.Base.{
  ℕ, zero, suc, ◌-◌, ◌≤◌, ◌<◌, min, ◌≡◌, refl, sym, ap, subst, ◌∙◌, inl, inr, Bool, true, false,
  Option, none, some, List, [], ◌∷◌, ◌++◌, arith, ltb, ◌==◌, Bool-cases, if_of_true, if_of_false,
  length, take, length-append, length-take, append_nil, append_assoc, inr_injective,
}
use arbeiterfarm.Gateway.Fetch.{read_body}

-- The bytes of a body, up to where reading fails.
abbrev pub joined : List (Option (List ℕ)) → List ℕ
joined [] = []
joined (none ∷ chunks) = []
joined (some chunk ∷ chunks) = chunk ++ joined chunks

take-whole : (n : ℕ) (xs : List ℕ) → length xs ≤ n → take n xs ≡ xs
take-whole zero [] h = refl
take-whole zero (x ∷ xs) h = absurd (omega (arith, h))
take-whole (suc n) [] h = refl
take-whole (suc n) (x ∷ xs) h = ap (λ r. x ∷ r) (take-whole n xs (omega (arith, h)))

take-append :
    (n : ℕ) (xs ys : List ℕ) → length xs ≤ n → take n (xs ++ ys) ≡ xs ++ take (n - length xs) ys
take-append n [] ys h = ap (λ k. take k ys) (omega arith)
take-append zero (x ∷ xs) ys h = absurd (omega (arith, h))
take-append (suc n) (x ∷ xs) ys h =
    ap (λ r. x ∷ r)
      (take-append n xs ys (omega (arith, h)) ∙ ap (λ k. xs ++ take k ys) (omega arith))

take_short : (n : ℕ) (xs ys : List ℕ) → n ≤ length xs → take n (xs ++ ys) ≡ take n xs
take_short zero xs ys h = refl
take_short (suc n) [] ys h = absurd (omega (arith, h))
take_short (suc n) (x ∷ xs) ys h = ap (λ r. x ∷ r) (take_short n xs ys (omega (arith, h)))

-- What a body and the mark of a cut are to the bytes that there are.
abbrev pub IsCapped : ℕ → List ℕ → List ℕ × Bool → Type 0
IsCapped n whole read =
    (read.0 ≡ take n whole)
    × (read.1 ≡ false → read.0 ≡ whole)
    × (read.1 ≡ true → length read.0 ≡ n)

full_body :
    (n : ℕ) (body more : List ℕ)
    → length body ≤ n
    → n ≤ length body
    → IsCapped n (body ++ more) (body, true)
full_body n body more h k = (
  sym (take_short n body more k ∙ take-whole n body h),
  λ x. absurd (ground (arith, x)),
  λ _. omega (arith, h, k),
)

cut_chunk :
    (n kept : ℕ) (body chunk more : List ℕ)
    → length body ≤ n
    → kept ≡ min (length chunk) (n - length body)
    → kept < length chunk
    → IsCapped n (body ++ (chunk ++ more)) (body ++ take kept chunk, true)
cut_chunk n kept body chunk more h k c = (
  sym (
      take-append n body (chunk ++ more) h
      ∙ ap (λ r. body ++ r)
          (take_short (n - length body) chunk more (omega (arith, k, c))
            ∙ ap (λ i. take i chunk) (omega (arith, k, c)))),
  λ x. absurd (ground (arith, x)),
  λ _. omega (arith, length-append body (take kept chunk), length-take kept chunk, h, k, c),
)

room :
    (n : ℕ) (body chunk : List ℕ)
    → ltb (min (length chunk) (n - length body)) (length chunk) ≡ false
    → length chunk ≤ n - length body
room n body chunk c = ground (arith, c)

read_body-go :
    (n : ℕ) (body : List ℕ) (chunks : List (Option (List ℕ))) (read : List ℕ × Bool)
    → length body ≤ n
    → read_body n body chunks ≡ inr read
    → IsCapped n (body ++ joined chunks) read
unfolding read_body
read_body-go n body [] read h e =
    subst (IsCapped n (body ++ [])) (inr_injective (body, false) read e) (
      sym (ap (take n) (append_nil body) ∙ take-whole n body h),
      λ _. sym (append_nil body),
      λ x. absurd (ground (arith, x)),
    )
read_body-go n body (none ∷ chunks) read h e = absurd (ground (arith, e))
read_body-go n body (some chunk ∷ chunks) read h e =
    let kept = min (length chunk) (n - length body) in
    let all_bytes = body ++ (chunk ++ joined chunks) in
    elim (Bool-cases (n - length body == 0)) [
      | inl z ↦
          subst (IsCapped n all_bytes)
            (inr_injective (body, true) read (sym (if_of_true _ _ _ z) ∙ e))
            (full_body n body (chunk ++ joined chunks) h (ground (arith, z)))
      | inr z ↦ elim (Bool-cases (ltb kept (length chunk))) [
        | inl c ↦
            subst (IsCapped n all_bytes)
              (inr_injective (body ++ take kept chunk, true) read
                (sym (if_of_false _ _ _ z ∙ if_of_true _ _ _ c) ∙ e))
              (cut_chunk n kept body chunk (joined chunks) h (omega arith) (ground (arith, c)))
        | inr c ↦
            subst (λ l. IsCapped n l read) (append_assoc body chunk (joined chunks))
              (read_body-go n (body ++ chunk) chunks read
                (omega (arith, length-append body chunk, room n body chunk c))
                (subst (λ l. read_body n (body ++ l) chunks ≡ inr read)
                  (take-whole kept chunk (ground (arith, c)))
                  (sym (if_of_false _ _ _ z ∙ if_of_false _ _ _ c) ∙ e)))
      ]
    ]

-- A body that is read without an error is the bytes that there are, up to the limit; where it is not
-- marked as cut off nothing is missing, and where it is, the limit is reached.
pub read_body-IsCapped :
    (max_response_bytes : ℕ) (chunks : List (Option (List ℕ))) (body : List ℕ) (truncated : Bool)
    → read_body max_response_bytes [] chunks ≡ inr (body, truncated)
    → IsCapped max_response_bytes (joined chunks) (body, truncated)
read_body-IsCapped n chunks body truncated h =
    read_body-go n [] chunks (body, truncated) (omega arith) h

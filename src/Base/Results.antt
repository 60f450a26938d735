-- ===== src/Base/Results.antt =====
-- Rust's `Result`: an error on the left, a value on the right.
use mathlib.Core.Path.{◌≡◌, refl, ap}
use mathlib.Core.Logic.{◌⊎◌, inl, inr}
use mathlib.Core.Bool.{Bool, true, false}
use mathlib.Core.Option.{Option, none, some}
use native.Mathlib.Omega.{arith}
use arbeiterfarm.Base.Tests.{if◌then◌else◌}

module _ {ℓ ℓ' κ} {E : Type ℓ} {A : Type ℓ'} {B : Type κ} where
  -- `?`
  abbrev pub try_then : E ⊎ A → (A → E ⊎ B) → E ⊎ B
  try_then (inl e) f = inl e
  try_then (inr a) f = f a

  -- What a chain of two fallible steps has gone through.
  pub try_then-inr :
      (o : E ⊎ A) (f : A → E ⊎ B) (b : B)
      → try_then o f ≡ inr b
      → (a : A) × (o ≡ inr a) × (f a ≡ inr b)
  try_then-inr (inl e) f b h = absurd (ground (arith, h))
  try_then-inr (inr a) f b h = (a, refl, h)

module _ {ℓ κ} {E : Type ℓ} {A : Type κ} where
  pub inr_injective : (a b : A) → ◌≡◌ {A = E ⊎ A} (inr a) (inr b) → a ≡ b
  inr_injective a b h = cc

module _ {ℓ κ} {E : Type ℓ} {A : Type κ} where
  abbrev pub ok_or : E → Option A → E ⊎ A
  ok_or error none = inl error
  ok_or error (some a) = inr a

  pub ok_or-inr : (error : E) (o : Option A) (a : A) → ok_or error o ≡ inr a → o ≡ some a
  ok_or-inr error none a h = absurd (ground (arith, h))
  ok_or-inr error (some b) a h = ground (arith, inr_injective b a h)

module _ {ℓ κ μ} {E : Type ℓ} {F : Type κ} {A : Type μ} where
  abbrev pub map_err : (E → F) → E ⊎ A → F ⊎ A
  map_err f (inl e) = inl (f e)
  map_err f (inr a) = inr a

  pub map_err-inr : (f : E → F) (o : E ⊎ A) (a : A) → map_err f o ≡ inr a → o ≡ inr a
  map_err-inr f (inl e) a h = absurd (ground (arith, h))
  map_err-inr f (inr b) a h = ap (λ x. inr x) (inr_injective b a h)

-- What a check returns.
abbrev pub Checked {ℓ} : Type ℓ → Type ℓ
Checked E = ◌⊎◌ {ℓ, 0} E Unit

module _ {ℓ} {E : Type ℓ} where
  -- A test that ends a call with an error.
  abbrev pub guard : Bool → E → Checked E
  guard failed error = if failed then inl error else inr tt

  pub guard-inr : (failed : Bool) (error : E) → guard failed error ≡ inr tt → failed ≡ false
  guard-inr true error h = absurd (ground (arith, h))
  guard-inr false error h = refl

-- A check that is passed.
pub guard-passed {ℓ κ} :
    {E : Type ℓ} {A : Type κ} (failed : Bool) (error : E) (f : Unit → E ⊎ A) (a : A)
    → try_then (guard failed error) f ≡ inr a
    → (failed ≡ false) × (f tt ≡ inr a)
guard-passed true error f a h = absurd (ground (arith, h))
guard-passed false error f a h = (refl, h)

pub Result-cases {ℓ κ} :
    {E : Type ℓ} {A : Type κ} (o : E ⊎ A) → ((e : E) × (o ≡ inl e)) ⊎ ((a : A) × (o ≡ inr a))
Result-cases (inl e) = inl (e, refl)
Result-cases (inr a) = inr (a, refl)

-- ===== src/Jobs/ToolRuns/Statements.antt =====
-- What the statements keep of a property of rows, of their number and of their keys.
use arbeiterfarm.Base.{
  ℕ, ◌≤◌, ◌≡◌, refl, sym, subst, ◌⊎◌, inl, inr, Bool, true, false, some, List, [], ◌∷◌, arith, ◌==◌,
  Bool-cases, Option-cases, if_of_true, if_of_false, length, any, keep, All,
}
use arbeiterfarm.Jobs.ToolRuns.{ToolRunRow, Table, update, oldest_queued, claimed, claim}

-- A property of rows that the chosen rows keep.
pub All-update {ℓ} :
    (P : ToolRunRow → Type ℓ) (chosen : ToolRunRow → Bool) (set : ToolRunRow → ToolRunRow)
    (table : Table)
    → All P table
    → All (λ r. chosen r ≡ true → P r → P (set r)) table
    → All P (update chosen set table)
unfolding update
All-update P chosen set [] h k = tt
All-update P chosen set (row ∷ rest) h k = elim (Bool-cases (chosen row)) [
  | inl e ↦ (
    subst P (sym (if_of_true (chosen row) (set row) row e)) (k.0 e h.0),
    All-update P chosen set rest h.1 k.1,
  )
  | inr e ↦ (
    subst P (sym (if_of_false (chosen row) (set row) row e)) h.0,
    All-update P chosen set rest h.1 k.1,
  )
]

-- A property that every row has after a statement, from one that every row has before.
pub All-updated {ℓ κ} :
    (P : ToolRunRow → Type ℓ) (Q : ToolRunRow → Type κ) (chosen : ToolRunRow → Bool)
    (set : ToolRunRow → ToolRunRow) (table : Table)
    → ((r : ToolRunRow) → chosen r ≡ true → P r → Q (set r))
    → ((r : ToolRunRow) → chosen r ≡ false → P r → Q r)
    → All P table
    → All Q (update chosen set table)
unfolding update
All-updated P Q chosen set [] f g h = tt
All-updated P Q chosen set (row ∷ rest) f g h = elim (Bool-cases (chosen row)) [
  | inl e ↦ (
    subst Q (sym (if_of_true (chosen row) (set row) row e)) (f row e h.0),
    All-updated P Q chosen set rest f g h.1,
  )
  | inr e ↦ (
    subst Q (sym (if_of_false (chosen row) (set row) row e)) (g row e h.0),
    All-updated P Q chosen set rest f g h.1,
  )
]

-- Rows that pass a test after a statement pass it before.
pub length-keep-update :
    (p chosen : ToolRunRow → Bool) (set : ToolRunRow → ToolRunRow) (table : Table)
    → All (λ r. chosen r ≡ true → p (set r) ≡ true → p r ≡ true) table
    → length (keep p (update chosen set table)) ≤ length (keep p table)
unfolding update
length-keep-update p chosen set [] h = omega arith
length-keep-update p chosen set (row ∷ rest) h = elim (Bool-cases (chosen row)) [
  | inl e ↦ elim (Bool-cases (p (set row))) [
    | inl f ↦ ground (arith, e, f, h.0 e f, length-keep-update p chosen set rest h.1)
    | inr f ↦ ground (arith, e, f, length-keep-update p chosen set rest h.1)
  ]
  | inr e ↦ ground (arith, e, length-keep-update p chosen set rest h.1)
]

pub any-update :
    (p chosen : ToolRunRow → Bool) (set : ToolRunRow → ToolRunRow) (table : Table)
    → ((r : ToolRunRow) → p (set r) ≡ p r)
    → any p (update chosen set table) ≡ any p table
unfolding update
any-update p chosen set [] h = refl
any-update p chosen set (row ∷ rest) h = elim (Bool-cases (chosen row)) [
  | inl e ↦ ground (arith, e, h row, any-update p chosen set rest h)
  | inr e ↦ ground (arith, e, any-update p chosen set rest h)
]

-- What holds of every row.
pub All-every {ℓ κ} : {A : Type ℓ} (P : A → Type κ) (xs : List A) → ((x : A) → P x) → All P xs
All-every P [] h = tt
All-every P (x ∷ xs) h = (h x, All-every P xs h)

-- What `claim` leaves: the table, or the table with the row it picked under way.
pub claim-cases :
    (locked : ℕ → Bool) (now d : ℕ) (table : Table)
    → ((claim locked now d table).1 ≡ table)
      ⊎ ((row : ToolRunRow) × (oldest_queued locked table ≡ some row)
          × ((claim locked now d table).1 ≡ update (λ r. r.id == row.id) (claimed now d) table))
unfolding claim
claim-cases locked now d table = elim (Option-cases (oldest_queued locked table)) [
  | inl e ↦ inl (rw (e, claim) refl)
  | inr (row, e) ↦ inr (row, e, rw (e, claim) refl)
]

-- ===== src/Agents/Trimming/Marks.antt =====
-- Which rows of a thread are left when a part of the conversation is marked as compacted.
use arbeiterfarm.Base.{
  ℕ, zero, suc, ◌≤◌, ◌<◌, ◌≡◌, refl, subst, ◌∙◌, inl, inr, Bool, true, false, not, some, List, [],
  ◌∷◌, ◌++◌, map, arith, if◌then◌else◌, Bool-cases, take, drop, keep, All,
}
use arbeiterfarm.Base.Text.{lit, text_eq}
use arbeiterfarm.Agents.MessageStore.{
  MessageRow, is_marked, compact_row, Store, mark_messages_compacted, get_thread_messages_compacted,
}
use arbeiterfarm.Agents.Trimming.{seq_at}

-- Sequence numbers rise.
abbrev pub Ascending : List MessageRow → Type 0
Ascending [] = Unit
Ascending (row ∷ rest) = All (λ r. row.seq < r.seq) rest × Ascending rest

abbrev pub is_system_row : MessageRow → Bool
is_system_row row = text_eq row.role (lit "system")

marked-live : (q : ℕ) (row : MessageRow) → is_marked q row ≡ true → row.compacted ≡ false
unfolding is_marked
marked-live q row h = ground (arith, h)

mark-keep :
    (q : ℕ) (rows : List MessageRow)
    → keep (λ r. not r.compacted) (map (λ r. if is_marked q r then compact_row r else r) rows)
      ≡ keep (λ r. not (is_marked q r)) (keep (λ r. not r.compacted) rows)
mark-keep q [] = refl
mark-keep q (row ∷ rest) = ground (arith, mark-keep q rest, marked-live q row)

All-keep {ℓ κ} :
    {A : Type ℓ} (P : A → Type κ) (p : A → Bool) (xs : List A) → All P xs → All P (keep p xs)
All-keep P p [] h = tt
All-keep P p (x ∷ xs) h = elim (Bool-cases (p x)) [
  | inl e ↦ rw e (h.0, All-keep P p xs h.1)
  | inr e ↦ rw e (All-keep P p xs h.1)
]

Ascending-keep :
    (p : MessageRow → Bool) (rows : List MessageRow) → Ascending rows → Ascending (keep p rows)
Ascending-keep p [] h = tt
Ascending-keep p (row ∷ rest) h = elim (Bool-cases (p row)) [
  | inl e ↦ rw e (All-keep (λ r. row.seq < r.seq) p rest h.0, Ascending-keep p rest h.1)
  | inr e ↦ rw e (Ascending-keep p rest h.1)
]

All-keep_self {ℓ} : {A : Type ℓ} (p : A → Bool) (xs : List A) → All (λ x. p x ≡ true) (keep p xs)
All-keep_self p [] = tt
All-keep_self p (x ∷ xs) = elim (Bool-cases (p x)) [
  | inl e ↦ rw e (e, All-keep_self p xs)
  | inr e ↦ rw e (All-keep_self p xs)
]

later-unmarked :
    (q : ℕ) (rows : List MessageRow)
    → All (λ r. q < r.seq) rows
    → keep (λ r. not (is_marked q r)) rows ≡ rows
later-unmarked q [] h = refl
later-unmarked q (row ∷ rest) h =
    let e : is_marked q row ≡ false = unfold is_marked in ground arith in
    rw (e, later-unmarked q rest h.1) refl

seq_at-above :
    (low i q : ℕ) (rows : List MessageRow)
    → All (λ r. low < r.seq) rows
    → seq_at rows i ≡ some q
    → low < q
seq_at-above low i q [] h e = absurd (ground arith)
seq_at-above low zero q (row ∷ rest) h e = ground (arith, h.0, e)
seq_at-above low (suc i) q (row ∷ rest) h e = seq_at-above low i q rest h.1 e

reached :
    (q : ℕ) (row : MessageRow)
    → row.seq ≤ q
    → not row.compacted ≡ true
    → not (is_marked q row) ≡ is_system_row row
unfolding is_marked
reached q row le live = ground (arith, le, live)

-- Of the rows up to the one at index `i`, those of the system are left.
pub marks_up_to :
    (i q : ℕ) (rows : List MessageRow)
    → Ascending rows
    → All (λ r. not r.compacted ≡ true) rows
    → seq_at rows i ≡ some q
    → keep (λ r. not (is_marked q r)) rows
      ≡ keep is_system_row (take (suc i) rows) ++ drop (suc i) rows
marks_up_to i q [] up live e = absurd (ground arith)
marks_up_to zero q (row ∷ rest) up live e =
    let same : row.seq ≡ q = ground (arith, e) in
    ground (
      arith,
      reached q row (omega (arith, same)) live.0,
      later-unmarked q rest (subst (λ n. All (λ r. n < r.seq) rest) same up.0),
    )
marks_up_to (suc i) q (row ∷ rest) up live e =
    let above : row.seq < q = seq_at-above row.seq i q rest up.0 e in
    ground (arith, reached q row (omega (arith, above)) live.0, marks_up_to i q rest up.1 live.1 e)

-- The rows that a context is built from, after marking: of those up to index `i`, the ones of the
-- system are left, and the rows behind all are.
pub compacted-marks :
    (i q : ℕ) (store : Store)
    → Ascending store.rows
    → seq_at (get_thread_messages_compacted store) i ≡ some q
    → get_thread_messages_compacted (mark_messages_compacted q store)
      ≡ keep is_system_row (take (suc i) (get_thread_messages_compacted store))
        ++ drop (suc i) (get_thread_messages_compacted store)
unfolding get_thread_messages_compacted mark_messages_compacted
compacted-marks i q store up e =
    mark-keep q store.rows
    ∙ marks_up_to i q (keep (λ r. not r.compacted) store.rows)
        (Ascending-keep (λ r. not r.compacted) store.rows up)
        (All-keep_self (λ r. not r.compacted) store.rows) e

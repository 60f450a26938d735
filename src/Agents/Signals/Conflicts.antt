-- ===== src/Agents/Signals/Conflicts.antt =====
-- What `resolve_conflicts` leaves of a list of signals.
use arbeiterfarm.Base.{
  ◌≡◌, refl, ap₂, Bool, true, false, ◌&&◌, ◌||◌, not, Option, none, some, List, [], ◌∷◌, arith,
  if◌then◌else◌, and-true, is_some, any, keep,
}
use arbeiterfarm.Base.Text.{Text, text_eq, text_eq_refl, eq_of_text_eq}
use arbeiterfarm.Agents.Signals.{
  SignalKind, request, AgentSignal, kind_eq, has_key, seen_contains, first_per_key, requested,
  resolve_conflicts, skip,
}

-- The first signal with a key.
unfoldable pub find_key : Text → SignalKind → List AgentSignal → Option AgentSignal
find_key t k [] = none
find_key t k (s ∷ rest) = if has_key t k s then some s else find_key t k rest

-- No two signals share a key.
abbrev pub Distinct : List AgentSignal → Type 0
Distinct [] = Unit
Distinct (s ∷ rest) = (any (has_key s.target_agent s.kind) rest ≡ false) × Distinct rest

kind_eq_refl : (k : SignalKind) → kind_eq k k ≡ true
kind_eq_refl request = refl
kind_eq_refl _ = refl

eq_of_kind_eq : (j k : SignalKind) → kind_eq j k ≡ true → j ≡ k
eq_of_kind_eq j k h = ground arith

has_key-eq :
    (t : Text) (k : SignalKind) (s : AgentSignal)
    → has_key t k s ≡ true
    → (s.target_agent ≡ t) × (s.kind ≡ k)
unfolding has_key
has_key-eq t k s h =
    let p = and-true (text_eq s.target_agent t) (kind_eq s.kind k) h in
    (eq_of_text_eq s.target_agent t p.0, eq_of_kind_eq s.kind k p.1)

has_key_self : (s : AgentSignal) → has_key s.target_agent s.kind s ≡ true
unfolding has_key
has_key_self s = rw (text_eq_refl s.target_agent, kind_eq_refl s.kind)

seen_step :
    (t : Text) (k : SignalKind) (s : AgentSignal) (seen : List (Text × SignalKind))
    → seen_contains t k ((s.target_agent, s.kind) ∷ seen)
      ≡ (has_key t k s || seen_contains t k seen)
unfolding seen_contains has_key
seen_step t k s seen = refl

seen_match :
    (t : Text) (k : SignalKind) (s : AgentSignal) (seen : List (Text × SignalKind))
    → has_key t k s ≡ true
    → seen_contains s.target_agent s.kind seen ≡ seen_contains t k seen
seen_match t k s seen h = let p = has_key-eq t k s h in ap₂ (λ u j. seen_contains u j seen) p.0 p.1

pub find_key-first_per_key :
    (t : Text) (k : SignalKind) (seen : List (Text × SignalKind)) (l : List AgentSignal)
    → find_key t k (first_per_key seen l)
      ≡ (if seen_contains t k seen then none else find_key t k l)
unfolding find_key first_per_key
find_key-first_per_key t k seen [] = ground arith
find_key-first_per_key t k seen (s ∷ rest) = ground (
  arith,
  seen_match t k s seen,
  seen_step t k s seen,
  find_key-first_per_key t k seen rest,
  find_key-first_per_key t k ((s.target_agent, s.kind) ∷ seen) rest,
)

any-first_per_key :
    (t : Text) (k : SignalKind) (seen : List (Text × SignalKind)) (l : List AgentSignal)
    → any (has_key t k) (first_per_key seen l)
      ≡ (not (seen_contains t k seen) && any (has_key t k) l)
unfolding first_per_key
any-first_per_key t k seen [] = ground arith
any-first_per_key t k seen (s ∷ rest) = ground (
  arith,
  seen_match t k s seen,
  seen_step t k s seen,
  any-first_per_key t k seen rest,
  any-first_per_key t k ((s.target_agent, s.kind) ∷ seen) rest,
)

first_per_key-Distinct :
    (seen : List (Text × SignalKind)) (l : List AgentSignal) → Distinct (first_per_key seen l)
unfolding first_per_key
first_per_key-Distinct seen [] = tt
first_per_key-Distinct seen (s ∷ rest) = ground (
  arith,
  first_per_key-Distinct seen rest,
  first_per_key-Distinct ((s.target_agent, s.kind) ∷ seen) rest,
  seen_step s.target_agent s.kind s seen,
  has_key_self s,
  any-first_per_key s.target_agent s.kind ((s.target_agent, s.kind) ∷ seen) rest,
)

any-keep_le :
    (t : Text) (k : SignalKind) (p : AgentSignal → Bool) (l : List AgentSignal)
    → any (has_key t k) l ≡ false
    → any (has_key t k) (keep p l) ≡ false
any-keep_le t k p [] h = refl
any-keep_le t k p (s ∷ rest) h = ground (arith, any-keep_le t k p rest)

keep-Distinct : (p : AgentSignal → Bool) (l : List AgentSignal) → Distinct l → Distinct (keep p l)
keep-Distinct p [] d = tt
keep-Distinct p (s ∷ rest) d =
    ground (arith, keep-Distinct p rest d.1, any-keep_le s.target_agent s.kind p rest d.0)

-- Dropping the requested skips changes the first signal of a key only for a requested skip.
overruled : List AgentSignal → Text → SignalKind → Bool
overruled result t k = kind_eq k skip && requested t result

kept : List AgentSignal → AgentSignal → Bool
kept result s = not (kind_eq s.kind skip && requested s.target_agent result)

kept_match :
    (result : List AgentSignal) (t : Text) (k : SignalKind) (s : AgentSignal)
    → has_key t k s ≡ true
    → kept result s ≡ not (overruled result t k)
unfolding kept overruled
kept_match result t k s h =
    let p = has_key-eq t k s h in ap₂ (λ u j. not (kind_eq j skip && requested u result)) p.0 p.1

find_key-kept :
    (result : List AgentSignal) (t : Text) (k : SignalKind) (l : List AgentSignal)
    → find_key t k (keep (kept result) l) ≡ (if overruled result t k then none else find_key t k l)
unfolding find_key
find_key-kept result t k [] = ground arith
find_key-kept result t k (s ∷ rest) =
    ground (arith, kept_match result t k s, find_key-kept result t k rest)

resolve-keep :
    (l : List AgentSignal)
    → resolve_conflicts l ≡ keep (kept (first_per_key [] l)) (first_per_key [] l)
unfolding resolve_conflicts kept
resolve-keep l = refl

requested-first :
    (t : Text) (l : List AgentSignal) → requested t (first_per_key [] l) ≡ requested t l
unfolding requested seen_contains
requested-first t l = any-first_per_key t request [] l

-- The first signal left for a key.
find_key-left :
    (t : Text) (k : SignalKind) (l : List AgentSignal)
    → find_key t k (resolve_conflicts l)
      ≡ (if kind_eq k skip && requested t l then none else find_key t k l)
unfolding overruled seen_contains
find_key-left t k l = rw (
  resolve-keep l,
  find_key-kept (first_per_key [] l) t k (first_per_key [] l),
  find_key-first_per_key t k [] l,
  requested-first t l,
)

-- No two signals that `resolve_conflicts` leaves have the same target and kind.
pub resolve-Distinct : (l : List AgentSignal) → Distinct (resolve_conflicts l)
resolve-Distinct l = rw (resolve-keep l) (keep-Distinct _ _ (first_per_key-Distinct [] l))

-- For each target and kind, `resolve_conflicts` leaves at most one signal: the first one given for
-- them, or none if it is a skip and some signal of the list requests the same target.
pub find_key-resolve :
    (l : List AgentSignal)
    → ((t : Text) (k : SignalKind)
        → find_key t k (resolve_conflicts l)
          ≡ (if kind_eq k skip && requested t l then none else find_key t k l))
      × Distinct (resolve_conflicts l)
find_key-resolve l = (λ t k. find_key-left t k l, resolve-Distinct l)

any-find_key :
    (t : Text) (k : SignalKind) (l : List AgentSignal)
    → any (has_key t k) l ≡ is_some (find_key t k l)
unfolding find_key
any-find_key t k [] = refl
any-find_key t k (s ∷ rest) = ground (arith, any-find_key t k rest)

-- A key is left unless it is a skip whose target some signal of the list requests.
pub any-resolve :
    (t : Text) (k : SignalKind) (l : List AgentSignal)
    → any (has_key t k) (resolve_conflicts l)
      ≡ (not (kind_eq k skip && requested t l) && any (has_key t k) l)
any-resolve t k l =
    ground (arith, any-find_key t k (resolve_conflicts l), any-find_key t k l, find_key-left t k l)

-- ===== src/Vt/RateLimiter/Bound.antt =====
-- How many tokens all callers of a limiter get together.
use native.Mathlib.Nat.{mul-le-mul_left, mul-add, mul_assoc}
use native.Mathlib.Omega.{div_any}
use arbeiterfarm.Base.{
  ℕ, ◌+◌, ◌-◌, ◌*◌, ◌/◌, ◌≤◌, max, ◌≡◌, sym, ap, subst, ◌∙◌, ◌⊎◌, inl, inr, Option, none, some,
  List, [], ◌∷◌, arith, leb, ◌==◌, Bool-cases, Option-cases, All,
}
use arbeiterfarm.Vt.RateLimiter.{
  RateLimiterState, RateLimiter, millis, elapsed, whole_intervals, refill, Readings, Round,
  take_token, acquire_round, acquired, timed_out, sleeping, new_limiter, new_state,
}

refill-cases :
    (limiter : RateLimiter) (now : ℕ) (s s' : RateLimiterState)
    → refill limiter now s ≡ some s'
    → (s' ≡ s)
      ⊎ ((n : ℕ) × (n ≤ elapsed now s / millis / (limiter.refill_interval / millis))
          × (s'.tokens ≤ s.tokens + n)
          × (s'.last_refill ≡ s.last_refill + limiter.refill_interval * n)
          × (limiter.refill_interval ≤ elapsed now s))
unfolding refill whole_intervals
refill-cases limiter now s s' h = elim (Bool-cases (leb limiter.refill_interval (elapsed now s))) [
  | inr e ↦ inl (ground (arith, h, e))
  | inl e ↦ elim (Bool-cases (limiter.refill_interval / millis == 0)) [
    | inl z ↦ absurd (ground (arith, h, e, z))
    | inr z ↦ inr (
      whole_intervals limiter (elapsed now s),
      ground arith,
      ground (arith, h, e, z),
      ground (arith, h, e, z),
      ground (arith, e),
    )
  ]
]

-- A refill hands out no more than the time that it takes off.
refill-potential :
    (limiter : RateLimiter) (now : ℕ) (s s' : RateLimiterState)
    → refill limiter now s ≡ some s'
    → limiter.refill_interval * s'.tokens + s.last_refill
      ≤ limiter.refill_interval * s.tokens + s'.last_refill
refill-potential limiter now s s' h = elim (refill-cases limiter now s s' h) [
  | inl e ↦ rw e (omega arith)
  | inr (n, few, more, last, long) ↦ omega (
    arith,
    mul-le-mul_left limiter.refill_interval more,
    mul-add limiter.refill_interval s.tokens n,
    last,
  )
]

-- Whole milliseconds: the refill time does not pass the clock.
refill-last :
    (limiter : RateLimiter) (now k end : ℕ) (s s' : RateLimiterState)
    → limiter.refill_interval ≡ millis * k
    → s.last_refill ≤ end
    → now ≤ end
    → refill limiter now s ≡ some s'
    → s'.last_refill ≤ end
refill-last limiter now k end s s' whole le reads h = elim (refill-cases limiter now s s' h) [
  | inl e ↦ rw e le
  | inr (n, few, more, last, long) ↦
      let x = elapsed now s / millis in
      let same : limiter.refill_interval / millis ≡ k = omega (arith, whole) in
      let few' : n ≤ x / k = subst (λ m. n ≤ x / m) same few in
      let taken : limiter.refill_interval * n ≡ millis * (k * n) =
        ap (λ i. i * n) whole ∙ mul_assoc millis k n in
      omega (arith, taken, last, le, reads, mul-le-mul_left k few', div_any x k)
]

-- The tokens that a round hands out.
abbrev pub handed_out : Round → ℕ
handed_out acquired = 1
handed_out timed_out = 0
handed_out (sleeping wait) = 0

take_token-handed :
    (limiter : RateLimiter) (deadline : ℕ) (clock : Readings) (s : RateLimiterState)
    → let r = take_token limiter deadline clock s in
      (handed_out r.0 + r.1.tokens ≡ s.tokens) × (r.1.last_refill ≡ s.last_refill)
unfolding take_token
take_token-handed limiter deadline clock s = ground arith

-- Rounds of any callers, in the order in which they get the lock, each with its deadline: the
-- tokens handed out, and the state afterwards.
unfoldable pub run :
    RateLimiter → List (ℕ × Readings) → RateLimiterState → Option (ℕ × RateLimiterState)
run limiter [] s = some (0, s)
run limiter ((deadline, clock) ∷ rest) s = elim (acquire_round limiter deadline clock s) [
  | none ↦ none
  | some (round, s') ↦ elim (run limiter rest s') [
    | none ↦ none
    | some (count, s'') ↦ some (handed_out round + count, s'')
  ]
]

-- The refill of every round reads at most `end`.
abbrev pub Until : ℕ → List (ℕ × Readings) → Type 0
Until end rounds = All (λ r. r.1.refill_at ≤ end) rounds

run-nil :
    (limiter : RateLimiter) (s s' : RateLimiterState) (count : ℕ)
    → run limiter [] s ≡ some (count, s')
    → (count ≡ 0) × (s' ≡ s)
unfolding run
run-nil limiter s s' count h = (
  sym (ap (λ o. elim o [ none ↦ 0 | some p ↦ p.0 ]) h),
  sym (ap (λ o. elim o [ none ↦ s | some p ↦ p.1 ]) h),
)

run-cons :
    (limiter : RateLimiter) (deadline : ℕ) (clock : Readings) (rest : List (ℕ × Readings))
    → (s s' : RateLimiterState) (count : ℕ)
    → run limiter ((deadline, clock) ∷ rest) s ≡ some (count, s')
    → (t : RateLimiterState) × (more : ℕ) × (refill limiter clock.refill_at s ≡ some t)
      × (run limiter rest (take_token limiter deadline clock t).1 ≡ some (more, s'))
      × (count ≡ handed_out (take_token limiter deadline clock t).0 + more)
unfolding run acquire_round
run-cons limiter deadline clock rest s s' count h =
    elim (Option-cases (refill limiter clock.refill_at s)) [
      | inl e ↦ absurd (ground (arith, h, e))
      | inr (t, e) ↦
          elim (Option-cases (run limiter rest (take_token limiter deadline clock t).1)) [
            | inl r ↦ absurd (ground (arith, rw (e, r, run, acquire_round) at h))
            | inr ((more, u), r) ↦ (
              t,
              more,
              e,
              r ∙ ground (arith, rw (e, r, run, acquire_round) at h),
              ground (arith, rw (e, r, run, acquire_round) at h),
            )
          ]
    ]

run-potential :
    (limiter : RateLimiter) (rounds : List (ℕ × Readings)) (s s' : RateLimiterState) (count : ℕ)
    → run limiter rounds s ≡ some (count, s')
    → limiter.refill_interval * count + limiter.refill_interval * s'.tokens + s.last_refill
      ≤ limiter.refill_interval * s.tokens + s'.last_refill
run-potential limiter [] s s' count h =
    rw ((run-nil limiter s s' count h).0, (run-nil limiter s s' count h).1) (omega arith)
run-potential limiter ((deadline, clock) ∷ rest) s s' count h =
    let (t, more, e, r, c) = run-cons limiter deadline clock rest s s' count h in
    let k = take_token-handed limiter deadline clock t in
    let u = take_token limiter deadline clock t in
    let tokens : limiter.refill_interval * t.tokens
        ≡ limiter.refill_interval * handed_out u.0 + limiter.refill_interval * u.1.tokens =
      ap (λ n. limiter.refill_interval * n) (sym k.0)
      ∙ mul-add limiter.refill_interval (handed_out u.0) u.1.tokens in
    omega (
      arith,
      refill-potential limiter clock.refill_at s t e,
      run-potential limiter rest u.1 s' more r,
      tokens,
      k.1,
      ap (λ n. limiter.refill_interval * n) c,
      mul-add limiter.refill_interval (handed_out u.0) more,
    )

run-last :
    (limiter : RateLimiter) (rounds : List (ℕ × Readings)) (s s' : RateLimiterState)
    (count k end : ℕ)
    → limiter.refill_interval ≡ millis * k
    → Until end rounds
    → s.last_refill ≤ end
    → run limiter rounds s ≡ some (count, s')
    → s'.last_refill ≤ end
run-last limiter [] s s' count k end whole until le h =
    subst (λ t. t.last_refill ≤ end) (sym (run-nil limiter s s' count h).1) le
run-last limiter ((deadline, clock) ∷ rest) s s' count k end whole until le h =
    let (t, more, e, r, c) = run-cons limiter deadline clock rest s s' count h in
    run-last limiter rest (take_token limiter deadline clock t).1 s' more k end whole until.1
      (omega (
        arith,
        (take_token-handed limiter deadline clock t).1,
        refill-last limiter clock.refill_at k end s t whole le until.0 e,
      ))
      r

refill-tokens :
    (limiter : RateLimiter) (now : ℕ) (s s' : RateLimiterState)
    → s.tokens ≤ limiter.max_tokens
    → refill limiter now s ≡ some s'
    → s'.tokens ≤ limiter.max_tokens
unfolding refill
refill-tokens limiter now s s' le h = ground arith

-- The bucket never holds more than it is made for.
run-tokens :
    (limiter : RateLimiter) (rounds : List (ℕ × Readings)) (s s' : RateLimiterState) (count : ℕ)
    → s.tokens ≤ limiter.max_tokens
    → run limiter rounds s ≡ some (count, s')
    → s'.tokens ≤ limiter.max_tokens
run-tokens limiter [] s s' count le h =
    subst (λ t. t.tokens ≤ limiter.max_tokens) (sym (run-nil limiter s s' count h).1) le
run-tokens limiter ((deadline, clock) ∷ rest) s s' count le h =
    let (t, more, e, r, c) = run-cons limiter deadline clock rest s s' count h in
    run-tokens limiter rest (take_token limiter deadline clock t).1 s' more
      (omega (
        arith,
        (take_token-handed limiter deadline clock t).0,
        refill-tokens limiter clock.refill_at s t le e,
      ))
      r

-- Where the refill interval of a limiter is a whole number of milliseconds, all callers together, in
-- whatever order they get the lock, have by the time `end` at most a full bucket of tokens and one
-- more for each interval since the limiter was made; and however long nobody asked, no more than a
-- full bucket of tokens is left for later callers.
pub run-bound :
    (rpm start end k count : ℕ) (rounds : List (ℕ × Readings)) (s : RateLimiterState)
    → (new_limiter rpm).refill_interval ≡ millis * k
    → start ≤ end
    → Until end rounds
    → run (new_limiter rpm) rounds (new_state rpm start) ≡ some (count, s)
    → ((new_limiter rpm).refill_interval * count
        ≤ (new_limiter rpm).refill_interval * max rpm 1 + (end - start))
      × (s.tokens ≤ max rpm 1)
unfolding new_state new_limiter
run-bound rpm start end k count rounds s whole le until h = (
  omega (
    arith,
    run-potential (new_limiter rpm) rounds (new_state rpm start) s count h,
    run-last (new_limiter rpm) rounds (new_state rpm start) s count k end whole until le h,
  ),
  run-tokens (new_limiter rpm) rounds (new_state rpm start) s count (omega arith) h,
)

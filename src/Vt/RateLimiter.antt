-- ===== src/Vt/RateLimiter.antt =====
-- arbeiterfarm/crates/af-re-vt/src/rate_limiter.rs: a token bucket. Times are nanoseconds of a clock
-- that never goes back; the lock makes each round of `acquire` one step, in which the clock is read
-- up to three times.
pub mod Bound
pub mod Examples
use arbeiterfarm.Base.{
  ℕ, ◌+◌, ◌-◌, ◌*◌, ◌/◌, ◌%◌, ◌^◌, min, max, Option, none, some, ltb, leb, ◌==◌, if◌then◌else◌,
}

pub record RateLimiterState : Type 0 where
  pub tokens : ℕ
  pub last_refill : ℕ

-- The two fixed fields; the third is the state.
pub record RateLimiter : Type 0 where
  pub max_tokens : ℕ
  pub refill_interval : ℕ

-- What a round does: it returns, with or without a token, or sleeps.
pub data Round : Type 0 where
  acquired timed_out : Round
  sleeping : ℕ → Round

abbrev pub millis : ℕ
millis = 1000000

abbrev pub minute : ℕ
minute = 60000000000

unfoldable pub new_limiter : ℕ → RateLimiter
new_limiter requests_per_minute = record {
  max_tokens = max requests_per_minute 1;
  refill_interval = minute / max requests_per_minute 1;
}

unfoldable pub new_state : ℕ → ℕ → RateLimiterState
new_state requests_per_minute now = record { tokens = max requests_per_minute 1; last_refill = now }

-- `elapsed()` is 0 where the instant lies ahead, as is the subtraction.
abbrev pub elapsed : ℕ → RateLimiterState → ℕ
elapsed now state = now - state.last_refill

-- `(elapsed.as_millis() / refill_interval.as_millis()) as u32`. Rust panics where the interval is
-- shorter than a millisecond; the quotient by 0 is not used there.
unfoldable pub whole_intervals : RateLimiter → ℕ → ℕ
whole_intervals limiter passed = passed / millis / (limiter.refill_interval / millis) % 2 ^ 32

-- `none` where the division panics.
unfoldable pub refill : RateLimiter → ℕ → RateLimiterState → Option RateLimiterState
refill limiter now state =
    let passed = elapsed now state in
    let intervals = whole_intervals limiter passed in
    if leb limiter.refill_interval passed
    then (if limiter.refill_interval / millis == 0
        then none
        else some (record {
          tokens = min ((state.tokens + intervals) % 2 ^ 32) limiter.max_tokens;
          last_refill = state.last_refill + limiter.refill_interval * intervals;
        }))
    else some state

-- How long a round without a token sleeps.
unfoldable pub wait_time : RateLimiter → ℕ → RateLimiterState → ℕ
wait_time limiter now state =
    if ltb (elapsed now state) limiter.refill_interval
    then limiter.refill_interval - elapsed now state
    else 10 * millis

-- What the clock shows in a round: for the refill, for the wait, and for the test of the deadline.
pub record Readings : Type 0 where
  pub refill_at : ℕ
  pub wait_at : ℕ
  pub check_at : ℕ

-- The rest of a round, after the refill.
unfoldable pub take_token : RateLimiter → ℕ → Readings → RateLimiterState → Round × RateLimiterState
take_token limiter deadline clock state =
    let wait = wait_time limiter clock.wait_at state in
    if ltb 0 state.tokens
    then (acquired, record state { tokens = state.tokens - 1 })
    else if ltb deadline (clock.check_at + wait)
    then (timed_out, state)
    else (sleeping wait, state)

-- One round of the loop of `acquire`.
unfoldable pub acquire_round :
    RateLimiter → ℕ → Readings → RateLimiterState → Option (Round × RateLimiterState)
acquire_round limiter deadline clock state = elim (refill limiter clock.refill_at state) [
  | none ↦ none
  | some refilled ↦ some (take_token limiter deadline clock refilled)
]

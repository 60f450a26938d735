-- ===== src/Vt/RateLimiter/Examples.antt =====
-- A limiter of two requests per minute.
use arbeiterfarm.Base.{ℕ, ◌+◌, ◌-◌, ◌*◌, ◌≤◌, ◌≡◌, refl, none, some, [], ◌∷◌, map, arith}
use arbeiterfarm.Vt.RateLimiter.{
  new_limiter, new_state, whole_intervals, refill, wait_time, Readings, take_token, acquire_round,
}
use arbeiterfarm.Vt.RateLimiter.Bound.{run, run-bound}

abbrev at_second : ℕ → ℕ × Readings
at_second n = (
  (n + 1) * 1000000000,
  record { refill_at = n * 1000000000; wait_at = n * 1000000000; check_at = n * 1000000000 },
)

-- Two tokens at once, none in the first half minute, one at second 31.
three_tokens :
    run (new_limiter 2) (map at_second (1 ∷ 1 ∷ 2 ∷ 31 ∷ 32 ∷ [])) (new_state 2 0)
    ≡ some (3, record { tokens = 0; last_refill = 30000000000 })
unfolding run acquire_round refill take_token wait_time whole_intervals new_limiter new_state
three_tokens = refl

abbrev at_milli : ℕ → ℕ × Readings
at_milli n =
    (n * 1000000, record { refill_at = n * 1000000; wait_at = n * 1000000; check_at = n * 1000000 })

-- At seven requests per minute, where the interval is no whole number of milliseconds, nine tokens
-- by 17.142 seconds: two intervals are 17.142857 seconds.
nine_early :
    run
      (new_limiter 7)
      (map at_milli (0 ∷ 0 ∷ 0 ∷ 0 ∷ 0 ∷ 0 ∷ 0 ∷ 17142 ∷ 17142 ∷ []))
      (new_state 7 0)
    ≡ some (9, record { tokens = 0; last_refill = 17142857142 })
unfolding run acquire_round refill take_token wait_time whole_intervals new_limiter new_state
nine_early = refl

-- An interval that is shorter than a millisecond.
panics : refill (new_limiter 100000) 1000000 (new_state 100000 0) ≡ none
unfolding refill whole_intervals new_limiter new_state
panics = refl

run-bound_example : (30000000000 * 3 ≤ 30000000000 * 2 + (32000000000 - 0)) × (0 ≤ 2)
unfolding new_limiter
run-bound_example =
    run-bound 2 0 32000000000 30000 3 (map at_second (1 ∷ 1 ∷ 2 ∷ 31 ∷ 32 ∷ []))
      (record { tokens = 0; last_refill = 30000000000 }) refl (omega arith)
      (omega arith, (omega arith, (omega arith, (omega arith, (omega arith, tt))))) three_tokens

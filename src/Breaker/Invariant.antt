-- ===== src/Breaker/Invariant.antt =====
-- What holds of a circuit breaker between two calls (internal/proxy/circuitbreaker.go).
use kortex.Common.{ℕ, ◌+◌, ◌≤◌, ◌<◌, ◌≡◌, ◌⊎◌, String, List, [], ◌∷◌, arith}
use kortex.Common.Int.{pos, ◌+ℤ◌, ◌-ℤ◌, ◌≤ℤ◌}
use kortex.Breaker.{
  CircuitBreaker, CircuitBreakerConfig, BreakerCall, allows, succeeds, fails, resets, state_closed,
  state_half_open, new_circuit_breaker, step, run, allow, record_success, record_failure, reset,
}

pub record IsValid (cb : CircuitBreaker) : Type 0 where
  pub gauge : cb.metrics.state_gauge ≡ cb.state
  pub total : cb.total_requests ≡ cb.failures + cb.successes
  pub failure_streak : cb.consecutive_failures ≤ cb.failures
  pub success_streak : cb.consecutive_successes ≤ cb.successes
  pub one_streak : (cb.consecutive_failures ≡ 0) ⊎ (cb.consecutive_successes ≡ 0)
  pub closed_below :
      cb.state ≡ state_closed
      → 0 < cb.config.failure_threshold
      → cb.consecutive_failures < cb.config.failure_threshold
  pub half_open_below :
      cb.state ≡ state_half_open
      → 0 < cb.config.success_threshold
      → cb.consecutive_successes < cb.config.success_threshold
  pub slots_capped :
      cb.state ≡ state_half_open
      → pos 1 ≤ℤ cb.config.half_open_max_requests
      → cb.half_open_requests ≤ℤ cb.config.half_open_max_requests

pub new-IsValid : (name : String) (c : CircuitBreakerConfig) → IsValid (new_circuit_breaker name c)
unfolding new_circuit_breaker
new-IsValid name c = ground arith

allow-IsValid : (now : ℕ) (cb : CircuitBreaker) → IsValid cb → IsValid (allow now cb).0
unfolding allow ◌+ℤ◌
allow-IsValid now cb v = ground arith

record_success-IsValid : (cb : CircuitBreaker) → IsValid cb → IsValid (record_success cb)
unfolding record_success ◌-ℤ◌
record_success-IsValid cb v = ground arith

record_failure-IsValid :
    (now later : ℕ) (cb : CircuitBreaker) → IsValid cb → IsValid (record_failure now later cb)
unfolding record_failure ◌-ℤ◌
record_failure-IsValid now later cb v = ground arith

reset-IsValid : (cb : CircuitBreaker) → IsValid cb → IsValid (reset cb)
unfolding reset
reset-IsValid cb v = ground arith

pub step-IsValid : (cb : CircuitBreaker) (c : BreakerCall) → IsValid cb → IsValid (step cb c)
unfolding step
step-IsValid cb (allows now) v = allow-IsValid now cb v
step-IsValid cb succeeds v = record_success-IsValid cb v
step-IsValid cb (fails now later) v = record_failure-IsValid now later cb v
step-IsValid cb resets v = reset-IsValid cb v

run-IsValid : (cb : CircuitBreaker) (cs : List BreakerCall) → IsValid cb → IsValid (run cb cs)
unfolding run
run-IsValid cb [] v = v
run-IsValid cb (c ∷ cs) v = run-IsValid (step cb c) cs (step-IsValid cb c v)

-- Whatever calls a new breaker receives, in whatever order: the exported gauge is its state, the
-- requests counted are the failures and successes, at most one streak runs, a closed breaker has
-- not reached its (positive) failure threshold, and a half-open one neither its success threshold
-- nor more than its (positive) number of slots.
pub run-new-IsValid :
    (name : String) (c : CircuitBreakerConfig) (cs : List BreakerCall)
    → IsValid (run (new_circuit_breaker name c) cs)
run-new-IsValid name c cs = run-IsValid _ cs (new-IsValid name c)

-- ===== src/Breaker/Tests.antt =====
-- The theorems on circuit breakers at concrete breakers (internal/proxy/circuitbreaker.go).
use kortex.Common.{ℕ, ◌+◌, ◌≡◌, refl, String, Option, some, List, [], ◌∷◌, All, arith, string_eq}
use kortex.Common.Int.{pos, ◌+ℤ◌, ◌≤ℤ◌}
use kortex.Breaker.{
  CircuitState, state_closed, state_open, state_half_open, BreakerError, circuit_open,
  too_many_requests, CircuitBreakerConfig, CircuitBreaker, new_circuit_breaker, BreakerCall, allows,
  succeeds, fails, resets, step, run, allow, record_failure, stats,
}
use kortex.Breaker.Invariant.{IsValid, run-new-IsValid}
use kortex.Breaker.Transitions.{Edge, step-Edge}
use kortex.Breaker.Tripping.{failing, failing_trips, answers, open_fails_fast}
use kortex.Breaker.HalfOpen.{IsFresh, succeeding, open_recovers}
use kortex.Breaker.Flights.{
  Flight, FlightEvent, arrives, probe_ok, stale_ok, fly, flown, probes-le_max_and_drained,
  stale_success_frees_slot,
}
use kortex.Breaker.Manager.{
  CircuitBreakerManager, new_circuit_breaker_manager, manager_record_failure, execute,
}
use kortex.Breaker.Manager.Refinement.{view, updated, protect, execute-protect}

-- Two failures in a row open it, for 30 units; one probe at a time, and two successes close it.
abbrev strict : CircuitBreakerConfig
strict = record {
  failure_threshold = 2;
  success_threshold = 2;
  timeout = 30;
  half_open_max_requests = pos 1;
  failure_rate_threshold = record { num = 0; den = 1 };
  min_requests_for_rate = 10;
}

abbrev two_failures : List (ℕ × ℕ)
two_failures = (5, 6) ∷ (7, 8) ∷ []

abbrev closed_one : CircuitBreaker
closed_one = new_circuit_breaker "gpt" strict

abbrev open_one : CircuitBreaker
open_one = run closed_one (failing two_failures)

abbrev probed_one : CircuitBreaker
probed_one = run open_one (allows 38 ∷ [])

run-new-IsValid_example :
    IsValid (run (new_circuit_breaker "gpt" strict) (fails 5 6 ∷ allows 7 ∷ succeeds ∷ []))
run-new-IsValid_example = run-new-IsValid "gpt" strict (fails 5 6 ∷ allows 7 ∷ succeeds ∷ [])

step-Edge_example : Edge open_one (allows 38) (step open_one (allows 38)).state
step-Edge_example = step-Edge open_one (allows 38)

failing_trips_example : (run closed_one (failing two_failures)).state ≡ state_open
unfolding new_circuit_breaker
failing_trips_example = failing_trips two_failures closed_one refl (omega arith) (omega arith)

open_fails_fast_example :
    All (λ a. a ≡ some circuit_open) (answers open_one (allows 9 ∷ succeeds ∷ allows 37 ∷ []))
    × ((run open_one (allows 9 ∷ succeeds ∷ allows 37 ∷ [])).state ≡ state_open)
    × ((run open_one (allows 9 ∷ succeeds ∷ allows 37 ∷ [])).opened_at
          + (run open_one (allows 9 ∷ succeeds ∷ allows 37 ∷ [])).config.timeout
        ≡ open_one.opened_at + open_one.config.timeout)
unfolding run step record_failure new_circuit_breaker
open_fails_fast_example =
    open_fails_fast open_one (allows 9 ∷ succeeds ∷ allows 37 ∷ []) refl
      (omega arith, (tt, (omega arith, tt)))

open_recovers_example : IsFresh (run open_one (allows 38 ∷ succeeding 2))
unfolding run step record_failure new_circuit_breaker
open_recovers_example = open_recovers open_one 38 1 refl (omega arith) refl

-- A request that is admitted before the breaker opens, and is still out in half-open.
abbrev slow_request : List FlightEvent
slow_request =
    arrives 1
    ∷ arrives 2
    ∷ arrives 3
    ∷ FlightEvent.stale_failed 5 6
    ∷ FlightEvent.stale_failed 7 8
    ∷ arrives 38
    ∷ []

probes_example :
    pos (flown "gpt" strict slow_request).probes
    ≤ℤ (flown "gpt" strict slow_request).breaker.config.half_open_max_requests
      +ℤ pos (flown "gpt" strict slow_request).drained
unfolding fly kortex.Breaker.Flights.fly_all kortex.Breaker.Flights.launch record_failure allow
    new_circuit_breaker
probes_example = probes-le_max_and_drained "gpt" strict slow_request refl (omega arith)

stale_success_example :
    (fly (fly (flown "gpt" strict slow_request) stale_ok) (arrives 39)).probes
    ≡ (flown "gpt" strict slow_request).probes + 1
unfolding fly kortex.Breaker.Flights.fly_all kortex.Breaker.Flights.launch record_failure allow
    new_circuit_breaker
stale_success_example =
    stale_success_frees_slot (flown "gpt" strict slow_request) 0 39 refl refl refl (omega arith)

abbrev manager : CircuitBreakerManager
manager = manager_record_failure 1 2 "gpt" (new_circuit_breaker_manager strict)

abbrev failing_call : ℕ → ℕ × Option String
failing_call n = (n + 1, some "timeout")

execute-protect_example :
    ((execute 3 4 5 "gpt" failing_call 7 manager).1
      ≡ (protect 3 4 5 failing_call 7 (view manager "gpt")).1)
    × ((execute 3 4 5 "gpt" failing_call 7 manager).2
        ≡ (protect 3 4 5 failing_call 7 (view manager "gpt")).2)
    × (view (execute 3 4 5 "gpt" failing_call 7 manager).0 "claude"
        ≡ updated
            (view manager)
            "gpt"
            (protect 3 4 5 failing_call 7 (view manager "gpt")).0
            "claude")
execute-protect_example = execute-protect 3 4 5 "gpt" failing_call 7 manager "claude"

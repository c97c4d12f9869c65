-- ===== src/Breaker/Manager.antt =====
-- The circuit breakers of all backends (internal/proxy/circuitbreaker.go): `breakers` is the map
-- from names to breakers, and a change made through a breaker's pointer is a write to its entry.
-- The lock is held over each call, so the calls come one after the other.
pub mod Refinement
use kortex.Common.{ℕ, String, Bool, Option, none, some, List, [], string_eq}
use kortex.Common.Dict.{lookup, insert, map_values}
use kortex.Breaker.{
  CircuitBreaker, CircuitBreakerConfig, CircuitBreakerStats, BreakerError, new_circuit_breaker,
  allow, record_success, record_failure, reset, stats,
}

pub record CircuitBreakerManager : Type 0 where
  pub breakers : List (String × CircuitBreaker)
  pub config : CircuitBreakerConfig

unfoldable pub new_circuit_breaker_manager : CircuitBreakerConfig → CircuitBreakerManager
new_circuit_breaker_manager config = record { breakers = []; config = config }

-- `GetBreaker`: the breaker of a name, made and stored at its first use.
unfoldable pub get_breaker : String → CircuitBreakerManager → CircuitBreaker × CircuitBreakerManager
get_breaker name m = elim (lookup name m.breakers) [
  | some cb ↦ (cb, m)
  | none ↦
      let cb = new_circuit_breaker name m.config in
      (cb, record m { breakers = insert name cb m.breakers })
]

-- A write through the pointer that `GetBreaker` returned.
abbrev store : String → CircuitBreaker → CircuitBreakerManager → CircuitBreakerManager
store name cb m = record m { breakers = insert name cb m.breakers }

unfoldable pub manager_allow :
    ℕ → String → CircuitBreakerManager → CircuitBreakerManager × Option BreakerError
unfolding get_breaker
manager_allow now name m =
    let (cb, m') = get_breaker name m in let (cb', e) = allow now cb in (store name cb' m', e)

unfoldable pub manager_record_success : String → CircuitBreakerManager → CircuitBreakerManager
unfolding get_breaker
manager_record_success name m =
    let (cb, m') = get_breaker name m in store name (record_success cb) m'

unfoldable pub manager_record_failure :
    ℕ → ℕ → String → CircuitBreakerManager → CircuitBreakerManager
unfolding get_breaker
manager_record_failure now later name m =
    let (cb, m') = get_breaker name m in store name (record_failure now later cb) m'

unfoldable pub all_stats : CircuitBreakerManager → List (String × CircuitBreakerStats)
all_stats m = map_values stats m.breakers

unfoldable pub reset_all : CircuitBreakerManager → CircuitBreakerManager
reset_all m = record m { breakers = map_values reset m.breakers }

-- The error of `Execute`: the breaker's, or the one that the function returned.
pub data ExecuteError {ℓ} (E : Type ℓ) : Type ℓ where
  rejected : BreakerError → ExecuteError E
  failed : E → ExecuteError E

-- `Execute`, with a function over a world of the caller's that may fail.
module _ {ℓ κ} {W : Type ℓ} {E : Type κ} where
  record_result :
      ℕ
      → ℕ
      → String
      → CircuitBreakerManager
      → W × Option E
      → CircuitBreakerManager × W × Option (ExecuteError E)
  record_result now later name m (w, none) = (manager_record_success name m, w, none)
  record_result now later name m (w, some err) =
      (manager_record_failure now later name m, w, some (failed err))

  run_allowed :
      ℕ
      → ℕ
      → String
      → (W → W × Option E)
      → W
      → CircuitBreakerManager × Option BreakerError
      → CircuitBreakerManager × W × Option (ExecuteError E)
  unfolding record_result
  run_allowed now later name fn w (m, some err) = (m, w, some (rejected err))
  run_allowed now later name fn w (m, none) = record_result now later name m (fn w)

  -- `asked`, `now` and `later` are the readings of the clock by `Allow` and by `RecordFailure`.
  unfoldable pub execute :
      (asked now later : ℕ)
      → String
      → (W → W × Option E)
      → W
      → CircuitBreakerManager
      → CircuitBreakerManager × W × Option (ExecuteError E)
  unfolding run_allowed
  execute asked now later name fn w m = run_allowed now later name fn w (manager_allow asked name m)

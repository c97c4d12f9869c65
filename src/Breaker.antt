-- ===== src/Breaker.antt =====
-- The circuit breaker of one backend (internal/proxy/circuitbreaker.go). A method that changes its
-- receiver returns the new record. The clock is read by the caller: `now` is what `time.Now()`
-- returns, in nanoseconds since the zero time, one argument for each reading. The Prometheus
-- gauge and counters of the backend are fields of `BreakerMetrics`.
pub mod Invariant
pub mod Transitions
pub mod Tripping
pub mod HalfOpen
pub mod Flights
pub mod Manager
mod Tests
use kortex.Common.{
  ℕ, ◌+◌, ◌*◌, String, Bool, ◌&&◌, ◌||◌, Option, none, some, leb, ltb, if◌then◌else◌, List, [], ◌∷◌,
}
use kortex.Common.Int.{ℤ, pos, ◌+ℤ◌, ◌-ℤ◌, leb_ℤ}

pub data CircuitState : Type 0 where
  state_closed state_open state_half_open : CircuitState

abbrev pub to_string : CircuitState → String
to_string state_closed = "closed"
to_string state_open = "open"
to_string state_half_open = "half-open"

pub data BreakerError : Type 0 where
  circuit_open too_many_requests : BreakerError

-- A failure rate: the fraction `num / den`.
pub record Rate : Type 0 where
  pub num : ℕ
  pub den : ℕ

-- `half_open_max_requests` is compared with a counter that may be negative, so it is an integer;
-- the other limits are compared with counters that are not, where a negative one acts as 0.
pub record CircuitBreakerConfig : Type 0 where
  pub failure_threshold : ℕ
  pub success_threshold : ℕ
  pub timeout : ℕ
  pub half_open_max_requests : ℤ
  pub failure_rate_threshold : Rate
  pub min_requests_for_rate : ℕ

abbrev pub second : ℕ
second = 1_000_000_000

abbrev pub default_circuit_breaker_config : CircuitBreakerConfig
default_circuit_breaker_config = record {
  failure_threshold = 5;
  success_threshold = 3;
  timeout = 30 * second;
  half_open_max_requests = pos 3;
  failure_rate_threshold = record { num = 1; den = 2 };
  min_requests_for_rate = 10;
}

-- What the breaker reports to Prometheus, counted from its creation.
pub record BreakerMetrics : Type 0 where
  pub state_gauge : CircuitState
  pub trips : ℕ
  pub successes_total : ℕ
  pub failures_total : ℕ
  pub rejections : ℕ

pub record CircuitBreaker : Type 0 where
  pub name : String
  pub config : CircuitBreakerConfig
  pub state : CircuitState
  pub failures : ℕ
  pub successes : ℕ
  pub consecutive_failures : ℕ
  pub consecutive_successes : ℕ
  pub total_requests : ℕ
  pub last_failure : ℕ
  pub opened_at : ℕ
  pub half_open_requests : ℤ
  pub metrics : BreakerMetrics

unfoldable pub new_circuit_breaker : String → CircuitBreakerConfig → CircuitBreaker
new_circuit_breaker name config = record {
  name = name;
  config = config;
  state = state_closed;
  failures = 0;
  successes = 0;
  consecutive_failures = 0;
  consecutive_successes = 0;
  total_requests = 0;
  last_failure = 0;
  opened_at = 0;
  half_open_requests = pos 0;
  metrics = record {
    state_gauge = state_closed;
    trips = 0;
    successes_total = 0;
    failures_total = 0;
    rejections = 0;
  };
}

abbrev set_gauge : CircuitState → BreakerMetrics → BreakerMetrics
set_gauge s m = record m { state_gauge = s }

abbrev inc_trips : BreakerMetrics → BreakerMetrics
inc_trips m = record m { trips = m.trips + 1 }

abbrev inc_successes : BreakerMetrics → BreakerMetrics
inc_successes m = record m { successes_total = m.successes_total + 1 }

abbrev inc_failures : BreakerMetrics → BreakerMetrics
inc_failures m = record m { failures_total = m.failures_total + 1 }

abbrev inc_rejections : BreakerMetrics → BreakerMetrics
inc_rejections m = record m { rejections = m.rejections + 1 }

-- `transitionTo`; only the transition to open reads the clock.
unfoldable pub transition_to : ℕ → CircuitState → CircuitBreaker → CircuitBreaker
transition_to now state_open cb = record cb {
  state = state_open;
  opened_at = now;
  metrics = inc_trips (set_gauge state_open cb.metrics);
}
transition_to now state_half_open cb = record cb {
  state = state_half_open;
  half_open_requests = pos 0;
  consecutive_successes = 0;
  metrics = set_gauge state_half_open cb.metrics;
}
transition_to now state_closed cb = record cb {
  state = state_closed;
  failures = 0;
  successes = 0;
  total_requests = 0;
  consecutive_failures = 0;
  consecutive_successes = 0;
  metrics = set_gauge state_closed cb.metrics;
}

-- The two tests of `shouldTrip`. `failures / total >= num / den` is written over the integers.
unfoldable pub should_trip : CircuitBreaker → Bool
should_trip cb =
    leb cb.config.failure_threshold cb.consecutive_failures
    || (ltb 0 cb.config.failure_rate_threshold.num
        && leb cb.config.min_requests_for_rate cb.total_requests
        && leb (cb.config.failure_rate_threshold.num * cb.total_requests)
            (cb.failures * cb.config.failure_rate_threshold.den))

-- `now.Sub(openedAt) >= Timeout`
unfoldable pub timed_out : ℕ → CircuitBreaker → Bool
timed_out now cb = leb (cb.opened_at + cb.config.timeout) now

abbrev reject : CircuitBreaker → CircuitBreaker
reject cb = record cb { metrics = inc_rejections cb.metrics }

allow_in : CircuitState → ℕ → CircuitBreaker → CircuitBreaker × Option BreakerError
allow_in state_closed now cb = (cb, none)
allow_in state_open now cb =
    if timed_out now cb
    then (record (transition_to now state_half_open cb) { half_open_requests = pos 1 }, none)
    else (reject cb, some circuit_open)
allow_in state_half_open now cb =
    if leb_ℤ cb.config.half_open_max_requests cb.half_open_requests
    then (reject cb, some too_many_requests)
    else (record cb { half_open_requests = cb.half_open_requests +ℤ pos 1 }, none)

-- `Allow`: no error means that the request may go through.
unfoldable pub allow : ℕ → CircuitBreaker → CircuitBreaker × Option BreakerError
unfolding allow_in timed_out transition_to
allow now cb = allow_in cb.state now cb

abbrev release_slot : CircuitBreaker → CircuitBreaker
release_slot cb = record cb { half_open_requests = cb.half_open_requests -ℤ pos 1 }

-- The `switch` at the end of `RecordSuccess`; `now` is not read on its way to closed.
after_success : CircuitState → CircuitBreaker → CircuitBreaker
after_success state_half_open cb =
    let released = release_slot cb in
    if leb released.config.success_threshold released.consecutive_successes
    then transition_to 0 state_closed released
    else released
after_success state_closed cb = record cb { consecutive_failures = 0 }
after_success state_open cb = cb

unfoldable pub record_success : CircuitBreaker → CircuitBreaker
unfolding after_success transition_to
record_success cb = after_success cb.state (record cb {
  successes = cb.successes + 1;
  total_requests = cb.total_requests + 1;
  consecutive_successes = cb.consecutive_successes + 1;
  consecutive_failures = 0;
  metrics = inc_successes cb.metrics;
})

after_failure : CircuitState → ℕ → CircuitBreaker → CircuitBreaker
after_failure state_closed later cb =
    if should_trip cb then transition_to later state_open cb else cb
after_failure state_half_open later cb = transition_to later state_open (release_slot cb)
after_failure state_open later cb = cb

-- `now` is the time of the failure, and `later` the time that a transition reads.
unfoldable pub record_failure : ℕ → ℕ → CircuitBreaker → CircuitBreaker
unfolding after_failure transition_to should_trip
record_failure now later cb = after_failure cb.state later (record cb {
  failures = cb.failures + 1;
  total_requests = cb.total_requests + 1;
  consecutive_failures = cb.consecutive_failures + 1;
  consecutive_successes = 0;
  last_failure = now;
  metrics = inc_failures cb.metrics;
})

pub record CircuitBreakerStats : Type 0 where
  pub state : CircuitState
  pub failures : ℕ
  pub successes : ℕ
  pub consecutive_failures : ℕ
  pub consecutive_successes : ℕ
  pub total_requests : ℕ
  pub last_failure : ℕ
  pub opened_at : ℕ

unfoldable pub stats : CircuitBreaker → CircuitBreakerStats
stats cb = record {
  state = cb.state;
  failures = cb.failures;
  successes = cb.successes;
  consecutive_failures = cb.consecutive_failures;
  consecutive_successes = cb.consecutive_successes;
  total_requests = cb.total_requests;
  last_failure = cb.last_failure;
  opened_at = cb.opened_at;
}

unfoldable pub reset : CircuitBreaker → CircuitBreaker
unfolding transition_to
reset cb = transition_to 0 state_closed cb

-- The calls that change a breaker, as one step each.
pub data BreakerCall : Type 0 where
  allows : (now : ℕ) → BreakerCall
  succeeds : BreakerCall
  fails : (now later : ℕ) → BreakerCall
  resets : BreakerCall

unfoldable pub step : CircuitBreaker → BreakerCall → CircuitBreaker
step cb (allows now) = (allow now cb).0
step cb succeeds = record_success cb
step cb (fails now later) = record_failure now later cb
step cb resets = reset cb

unfoldable pub run : CircuitBreaker → List BreakerCall → CircuitBreaker
run cb [] = cb
run cb (c ∷ cs) = run (step cb c) cs

-- ===== src/Breaker/Transitions.antt =====
-- The state diagram of the circuit breaker (internal/proxy/circuitbreaker.go): from which state, on
-- which call and under which condition a breaker changes its state.
use kortex.Common.{ℕ, ◌+◌, ◌*◌, ◌≤◌, ◌<◌, ◌≡◌, ◌≢◌, ◌⊎◌, refl, inl, inr, none, arith, ◌↔◌}
use kortex.Common.Int.{◌<ℤ◌}
use kortex.Breaker.{
  CircuitBreaker, CircuitState, BreakerCall, allows, succeeds, fails, resets, state_closed,
  state_open, state_half_open, step, allow, record_failure, record_success, reset, record_success,
  reset,
}

-- The condition for tripping, in terms of the counters before the failure is counted.
abbrev pub Trips : CircuitBreaker → Type 0
Trips cb =
    (cb.config.failure_threshold ≤ cb.consecutive_failures + 1)
    ⊎ ((0 < cb.config.failure_rate_threshold.num)
        × (cb.config.min_requests_for_rate ≤ cb.total_requests + 1)
        × (cb.config.failure_rate_threshold.num * (cb.total_requests + 1)
            ≤ (cb.failures + 1) * cb.config.failure_rate_threshold.den))

-- A change of state on a call.
pub data Edge (cb : CircuitBreaker) : BreakerCall → CircuitState → Type 0 where
  stay : {c : BreakerCall} {s : CircuitState} → s ≡ cb.state → Edge cb c s
  trip :
      {s : CircuitState} (now later : ℕ)
      → s ≡ state_open
      → cb.state ≡ state_closed
      → Trips cb
      → Edge cb (fails now later) s
  probe :
      {s : CircuitState} (now : ℕ)
      → s ≡ state_half_open
      → cb.state ≡ state_open
      → cb.opened_at + cb.config.timeout ≤ now
      → Edge cb (allows now) s
  recover :
      {s : CircuitState}
      → s ≡ state_closed
      → cb.state ≡ state_half_open
      → cb.config.success_threshold ≤ cb.consecutive_successes + 1
      → Edge cb succeeds s
  relapse :
      {s : CircuitState} (now later : ℕ)
      → s ≡ state_open
      → cb.state ≡ state_half_open
      → Edge cb (fails now later) s
  clear : {s : CircuitState} → s ≡ state_closed → Edge cb resets s

allow-Edge : (cb : CircuitBreaker) (now : ℕ) → Edge cb (allows now) (step cb (allows now)).state
unfolding step allow
allow-Edge cb now = grind (arith, stay, probe)

success-Edge : (cb : CircuitBreaker) → Edge cb succeeds (step cb succeeds).state
unfolding step record_success
success-Edge cb = grind (arith, stay, recover)

-- A failure opens a closed breaker exactly when the condition for tripping holds.
pub failure-Trips_iff :
    (cb : CircuitBreaker) (now later : ℕ)
    → cb.state ≡ state_closed
    → ((record_failure now later cb).state ≡ state_open) ↔ Trips cb
unfolding record_failure
failure-Trips_iff cb now later h = ground arith

failure_cases :
    (cb : CircuitBreaker) (now later : ℕ)
    → ((record_failure now later cb).state ≡ cb.state)
      ⊎ (((record_failure now later cb).state ≡ state_open) × (cb.state ≡ state_closed))
      ⊎ (((record_failure now later cb).state ≡ state_open) × (cb.state ≡ state_half_open))
unfolding record_failure
failure_cases cb now later = ground arith

failure-Edge :
    (cb : CircuitBreaker) (now later : ℕ)
    → Edge cb (fails now later) (step cb (fails now later)).state
unfolding step
failure-Edge cb now later = elim (failure_cases cb now later) [
  | inl same ↦ stay same
  | inr (inl (opened, closed)) ↦
      trip now later opened closed ((failure-Trips_iff cb now later closed).0 opened)
  | inr (inr (opened, half)) ↦ relapse now later opened half
]

reset-Edge : (cb : CircuitBreaker) → Edge cb resets (step cb resets).state
unfolding step reset
reset-Edge cb = clear refl

-- Every call keeps the state or follows an edge of the diagram: closed to open on a failure that
-- meets the condition for tripping, open to half-open on an `Allow` after the timeout, half-open to
-- closed on the last success wanted, half-open to open on a failure, and any to closed on a reset.
pub step-Edge : (cb : CircuitBreaker) (c : BreakerCall) → Edge cb c (step cb c).state
step-Edge cb (allows now) = allow-Edge cb now
step-Edge cb succeeds = success-Edge cb
step-Edge cb (fails now later) = failure-Edge cb now later
step-Edge cb resets = reset-Edge cb

-- `Allow` grants exactly in a closed breaker, in an open one whose timeout has passed, and in a
-- half-open one with a free slot.
pub allow-grants_iff :
    (cb : CircuitBreaker) (now : ℕ)
    → ((allow now cb).1 ≡ none) ↔ (
        (cb.state ≡ state_closed)
        ⊎ ((cb.state ≡ state_open) × (cb.opened_at + cb.config.timeout ≤ now))
        ⊎ ((cb.state ≡ state_half_open)
            × (cb.half_open_requests <ℤ cb.config.half_open_max_requests)))
unfolding allow
allow-grants_iff cb now = ground arith

-- A rejected request changes nothing but the counter of rejections.
pub allow-rejects :
    (cb : CircuitBreaker) (now : ℕ)
    → (allow now cb).1 ≢ none
    → (allow now cb).0
      ≡ record cb { metrics = record cb.metrics { rejections = cb.metrics.rejections + 1 } }
unfolding allow
allow-rejects cb now h = ground arith

-- ===== src/Breaker/Tripping.antt =====
-- How a breaker trips, and how an open one fails fast (internal/proxy/circuitbreaker.go).
use kortex.Common.{
  ℕ, ◌+◌, ◌≤◌, ◌<◌, ◌≡◌, ◌⊎◌, refl, inl, inr, some, arith, List, [], ◌∷◌, All, length, Option, Bool,
  Bool-cases, leb, ap, ◌↔◌,
}
use kortex.Breaker.{
  CircuitBreaker, BreakerCall, allows, succeeds, fails, resets, state_closed, state_open, step, run,
  allow, record_failure, record_success, BreakerError, circuit_open,
}

-- A failure for each pair of clock readings.
abbrev pub failing : List (ℕ × ℕ) → List BreakerCall
failing [] = []
failing ((now, later) ∷ ts) = fails now later ∷ failing ts

module _ (cb : CircuitBreaker) (now later : ℕ) where
  fail_open : cb.state ≡ state_open → (record_failure now later cb).state ≡ state_open
  unfolding record_failure
  fail_open h = ground arith

  fail_counts : (record_failure now later cb).consecutive_failures ≡ cb.consecutive_failures + 1
  unfolding record_failure
  fail_counts = ground arith

  fail_keeps_config : (record_failure now later cb).config ≡ cb.config
  unfolding record_failure
  fail_keeps_config = ground arith

  fail_cases :
      cb.state ≡ state_closed
      → ((record_failure now later cb).state ≡ state_open)
        ⊎ (((record_failure now later cb).state ≡ state_closed)
            × (cb.consecutive_failures + 1 < cb.config.failure_threshold))
  unfolding record_failure
  fail_cases h = ground arith

  fail_stays :
      cb.state ≡ state_closed
      → cb.config.failure_rate_threshold.num ≡ 0
      → cb.consecutive_failures + 1 < cb.config.failure_threshold
      → (record_failure now later cb).state ≡ state_closed
  unfolding record_failure
  fail_stays h z k = ground arith

open_stays :
    (ts : List (ℕ × ℕ)) (cb : CircuitBreaker)
    → cb.state ≡ state_open
    → (run cb (failing ts)).state ≡ state_open
unfolding run step
open_stays [] cb h = h
open_stays ((now, later) ∷ ts) cb h =
    open_stays ts (record_failure now later cb) (fail_open cb now later h)

-- Failures in a row open a closed breaker at the latest when they reach the failure threshold,
-- whatever its other settings.
pub failing_trips :
    (ts : List (ℕ × ℕ)) (cb : CircuitBreaker)
    → cb.state ≡ state_closed
    → cb.consecutive_failures < cb.config.failure_threshold
    → cb.config.failure_threshold ≤ cb.consecutive_failures + length ts
    → (run cb (failing ts)).state ≡ state_open
unfolding run step
failing_trips [] cb h below k = absurd (omega arith)
failing_trips ((now, later) ∷ ts) cb h below k = elim (fail_cases cb now later h) [
  | inl opened ↦ open_stays ts (record_failure now later cb) opened
  | inr (closed, early) ↦
      failing_trips ts (record_failure now later cb) closed
        (rw (fail_counts cb now later, fail_keeps_config cb now later) early)
        (rw (fail_counts cb now later, fail_keeps_config cb now later) (omega arith))
]

early :
    (ts : List (ℕ × ℕ)) (cb : CircuitBreaker)
    → cb.state ≡ state_closed
    → cb.config.failure_rate_threshold.num ≡ 0
    → cb.consecutive_failures < cb.config.failure_threshold
    → (run cb (failing ts)).state ≡ state_open
    → cb.config.failure_threshold ≤ cb.consecutive_failures + length ts
unfolding run step
early [] cb h z below o = cc
early ((now, later) ∷ ts) cb h z below o = elim (Bool-cases reached) [
  | inl yes_ ↦ ground arith
  | inr no_ ↦
      let next = record_failure now later cb in
      let k =
        early ts next (fail_stays cb now later h z (ground arith))
          (rw (fail_keeps_config cb now later) z)
          (rw (fail_counts cb now later, fail_keeps_config cb now later) (ground arith)) o in
      omega (
        arith,
        k,
        fail_counts cb now later,
        ap (λ c. c.failure_threshold) (fail_keeps_config cb now later),
      )
]
  where
    reached : Bool
    reached = leb cb.config.failure_threshold (cb.consecutive_failures + 1)

-- Where the failure rate is not used, failures in a row open a closed breaker exactly when they reach
-- the failure threshold.
pub failing_trips_iff :
    (ts : List (ℕ × ℕ)) (cb : CircuitBreaker)
    → cb.state ≡ state_closed
    → cb.config.failure_rate_threshold.num ≡ 0
    → cb.consecutive_failures < cb.config.failure_threshold
    → ((run cb (failing ts)).state ≡ state_open)
      ↔ (cb.config.failure_threshold ≤ cb.consecutive_failures + length ts)
failing_trips_iff ts cb h z below = (early ts cb h z below, failing_trips ts cb h below)

-- Calls that come before a time, none of them a reset.
abbrev pub Early : ℕ → BreakerCall → Type 0
Early deadline (allows now) = now < deadline
Early deadline resets = ⊥
Early deadline _ = Unit

-- What the calls of `Allow` answer.
unfoldable pub answers : CircuitBreaker → List BreakerCall → List (Option BreakerError)
answers cb [] = []
answers cb (allows now ∷ cs) = (allow now cb).1 ∷ answers (step cb (allows now)) cs
answers cb (c ∷ cs) = answers (step cb c) cs

-- An open breaker before its timeout.
record IsOpenUntil (deadline : ℕ) (cb : CircuitBreaker) : Type 0 where
  opened : cb.state ≡ state_open
  until : cb.opened_at + cb.config.timeout ≡ deadline

step-IsOpenUntil :
    (deadline : ℕ) (cb : CircuitBreaker) (c : BreakerCall)
    → Early deadline c
    → IsOpenUntil deadline cb
    → IsOpenUntil deadline (step cb c)
unfolding step allow record_success record_failure
step-IsOpenUntil deadline cb (allows now) e o = ground arith
step-IsOpenUntil deadline cb resets e o = absurd e
step-IsOpenUntil deadline cb succeeds e o = ground arith
step-IsOpenUntil deadline cb (fails now later) e o = ground arith

allow_early :
    (now : ℕ) (cb : CircuitBreaker)
    → cb.state ≡ state_open
    → now < cb.opened_at + cb.config.timeout
    → (allow now cb).1 ≡ some circuit_open
unfolding allow
allow_early now cb h e = ground arith

fails_fast :
    (deadline : ℕ) (cs : List BreakerCall) (cb : CircuitBreaker)
    → All (Early deadline) cs
    → IsOpenUntil deadline cb
    → All (λ a. a ≡ some circuit_open) (answers cb cs) × IsOpenUntil deadline (run cb cs)
unfolding answers run
fails_fast deadline [] cb e o = (tt, o)
fails_fast deadline (allows now ∷ cs) cb (e, es) o =
    let rest =
      fails_fast deadline cs (step cb (allows now)) es (step-IsOpenUntil deadline cb _ e o) in
    ((allow_early now cb o.opened (rw (o.until) e), rest.0), rest.1)
fails_fast deadline (succeeds ∷ cs) cb (e, es) o =
    fails_fast deadline cs _ es (step-IsOpenUntil deadline cb _ e o)
fails_fast deadline (fails now later ∷ cs) cb (e, es) o =
    fails_fast deadline cs _ es (step-IsOpenUntil deadline cb _ e o)
fails_fast deadline (resets ∷ cs) cb (e, es) o = absurd e

-- An open breaker fails fast: over any calls but a reset, as long as no `Allow` comes at or after
-- its timeout, every `Allow` answers that the circuit is open, and it stays open with the same
-- deadline, whatever results are recorded meanwhile.
pub open_fails_fast :
    (cb : CircuitBreaker) (cs : List BreakerCall)
    → cb.state ≡ state_open
    → All (Early (cb.opened_at + cb.config.timeout)) cs
    → All (λ a. a ≡ some circuit_open) (answers cb cs)
      × ((run cb cs).state ≡ state_open)
      × ((run cb cs).opened_at + (run cb cs).config.timeout ≡ cb.opened_at + cb.config.timeout)
open_fails_fast cb cs h e =
    let (all, still) = fails_fast _ cs cb e (record { opened = h; until = refl }) in
    (all, still.opened, still.until)

-- ===== src/Breaker/HalfOpen.antt =====
-- Recovery, and who holds the slots of a half-open breaker (internal/proxy/circuitbreaker.go).
use kortex.Common.{ℕ, zero, suc, ◌+◌, ◌≤◌, ◌<◌, ◌≡◌, some, arith, List, [], ◌∷◌, All, Option, ap}
use kortex.Common.Int.{◌≤ℤ◌}
use kortex.Breaker.{
  CircuitBreaker, BreakerCall, allows, succeeds, state_closed, state_open, state_half_open, step,
  run, allow, record_failure, record_success, BreakerError, circuit_open, too_many_requests,
}

-- A breaker just after it closed: no counter keeps anything of the past.
abbrev pub IsFresh : CircuitBreaker → Type 0
IsFresh cb =
    (cb.state ≡ state_closed)
    × (cb.failures ≡ 0)
    × (cb.successes ≡ 0)
    × (cb.total_requests ≡ 0)
    × (cb.consecutive_failures ≡ 0)
    × (cb.consecutive_successes ≡ 0)

-- `n` successes in a row.
abbrev pub succeeding : ℕ → List BreakerCall
succeeding zero = []
succeeding (suc n) = succeeds ∷ succeeding n

success_counts :
    (cb : CircuitBreaker)
    → cb.state ≡ state_half_open
    → cb.consecutive_successes + 1 < cb.config.success_threshold
    → ((record_success cb).state ≡ state_half_open)
      × ((record_success cb).consecutive_successes ≡ cb.consecutive_successes + 1)
      × ((record_success cb).config ≡ cb.config)
unfolding record_success
success_counts cb h k = ground arith

success_closes :
    (cb : CircuitBreaker)
    → cb.state ≡ state_half_open
    → cb.config.success_threshold ≤ cb.consecutive_successes + 1
    → IsFresh (record_success cb)
unfolding record_success
success_closes cb h k = ground arith

half_open_closes :
    (n : ℕ) (cb : CircuitBreaker)
    → cb.state ≡ state_half_open
    → cb.consecutive_successes + suc n ≡ cb.config.success_threshold
    → IsFresh (run cb (succeeding (suc n)))
unfolding run step
half_open_closes zero cb h e = success_closes cb h (omega arith)
half_open_closes (suc n) cb h e =
    let (half, more, same) = success_counts cb h (omega arith) in
    half_open_closes n (record_success cb) half
      (omega (arith, more, ap (λ c. c.success_threshold) same))

probe_opens :
    (now : ℕ) (cb : CircuitBreaker)
    → cb.state ≡ state_open
    → cb.opened_at + cb.config.timeout ≤ now
    → ((allow now cb).0.state ≡ state_half_open)
      × ((allow now cb).0.consecutive_successes ≡ 0)
      × ((allow now cb).0.config ≡ cb.config)
unfolding allow
probe_opens now cb h t = ground arith

-- An open breaker recovers: after an `Allow` at or past its timeout, as many successes in a row as
-- the (positive) success threshold close it, with every counter back at zero.
pub open_recovers :
    (cb : CircuitBreaker) (now n : ℕ)
    → cb.state ≡ state_open
    → cb.opened_at + cb.config.timeout ≤ now
    → cb.config.success_threshold ≡ suc n
    → IsFresh (run cb (allows now ∷ succeeding (suc n)))
unfolding run step
open_recovers cb now n h t e =
    let (half, none_yet, same) = probe_opens now cb h t in
    half_open_closes n (allow now cb).0 half
      (omega (arith, e, none_yet, ap (λ c. c.success_threshold) same))

-- A failure sends a half-open breaker back to open, until the timeout has passed from then.
pub half_open_relapses :
    (cb : CircuitBreaker) (now later next : ℕ)
    → cb.state ≡ state_half_open
    → next < later + cb.config.timeout
    → ((record_failure now later cb).state ≡ state_open)
      × ((allow next (record_failure now later cb)).1 ≡ some circuit_open)
unfolding record_failure allow
half_open_relapses cb now later next h t = ground arith

-- A breaker that is only asked, at the times given: its answers, and its state afterwards.
abbrev pub polled : CircuitBreaker → List ℕ → CircuitBreaker
polled cb [] = cb
polled cb (now ∷ times) = polled (allow now cb).0 times

abbrev pub asked : CircuitBreaker → List ℕ → List (Option BreakerError)
asked cb [] = []
asked cb (now ∷ times) = (allow now cb).1 ∷ asked (allow now cb).0 times

full_rejects :
    (cb : CircuitBreaker) (now : ℕ)
    → cb.state ≡ state_half_open
    → cb.config.half_open_max_requests ≤ℤ cb.half_open_requests
    → ((allow now cb).1 ≡ some too_many_requests)
      × ((allow now cb).0.state ≡ state_half_open)
      × (cb.config.half_open_max_requests ≤ℤ (allow now cb).0.half_open_requests)
      × ((allow now cb).0.config ≡ cb.config)
unfolding allow
full_rejects cb now h f = ground arith

-- Half-open has no timeout: once its slots are taken, every `Allow` at any time is rejected, until
-- some result is recorded.
pub full_stays_full :
    (times : List ℕ) (cb : CircuitBreaker)
    → cb.state ≡ state_half_open
    → cb.config.half_open_max_requests ≤ℤ cb.half_open_requests
    → All (λ a. a ≡ some too_many_requests) (asked cb times)
      × ((polled cb times).state ≡ state_half_open)
full_stays_full [] cb h f = (tt, h)
full_stays_full (now ∷ times) cb h f =
    let (no_slot, half, full, same) = full_rejects cb now h f in
    let rest = full_stays_full times (allow now cb).0 half (rw same full) in
    ((no_slot, rest.0), rest.1)

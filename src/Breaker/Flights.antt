-- ===== src/Breaker/Flights.antt =====
-- Requests in flight behind a breaker (internal/proxy/circuitbreaker.go): who holds the slots of
-- half-open. A result is recorded without saying when its request was admitted, so a ledger beside
-- the breaker tells the probes of the current half-open period from the stale requests that were
-- admitted before it, and counts the stale ones that were recorded during it (`drained`).
use kortex.Common.{
  ℕ, zero, suc, ◌+◌, ◌<◌, ◌≡◌, ◌≢◌, none, some, arith, List, [], ◌∷◌, Option, String,
}
use kortex.Common.Int.{pos, ◌+ℤ◌, ◌-ℤ◌, ◌≤ℤ◌}
use kortex.Breaker.{
  CircuitBreaker, CircuitState, state_closed, state_open, state_half_open, allow, record_failure,
  record_success, BreakerError, new_circuit_breaker, CircuitBreakerConfig,
}

pub record Flight : Type 0 where
  pub breaker : CircuitBreaker
  pub probes : ℕ
  pub stale : ℕ
  pub drained : ℕ

pub data FlightEvent : Type 0 where
  arrives : (now : ℕ) → FlightEvent
  probe_ok stale_ok : FlightEvent
  probe_failed stale_failed : (now later : ℕ) → FlightEvent

-- Outside half-open nobody holds a slot: the probes left over are stale from then on.
settle : CircuitState → Flight → Flight
settle state_half_open f = f
settle s f = record f { probes = 0; stale = f.stale + f.probes }

admitted : CircuitState → Flight → Flight
admitted state_closed f = record f { stale = f.stale + 1 }
admitted state_open f = record f { probes = 1; stale = f.stale + f.probes; drained = 0 }
admitted state_half_open f = record f { probes = f.probes + 1 }

enter : Flight → CircuitBreaker × Option BreakerError → Flight
unfolding admitted
enter f (cb, none) = record (admitted f.breaker.state f) { breaker = cb }
enter f (cb, some e) = record f { breaker = cb }

ok_probe : ℕ → Flight → Flight
unfolding settle
ok_probe zero f = f
ok_probe (suc n) f =
    let cb = record_success f.breaker in settle cb.state (record f { breaker = cb; probes = n })

ok_stale : ℕ → Flight → Flight
unfolding settle
ok_stale zero f = f
ok_stale (suc n) f =
    let cb = record_success f.breaker in
    settle cb.state (record f { breaker = cb; stale = n; drained = f.drained + 1 })

fail_probe : ℕ → ℕ → ℕ → Flight → Flight
unfolding settle
fail_probe zero now later f = f
fail_probe (suc n) now later f =
    let cb = record_failure now later f.breaker in
    settle cb.state (record f { breaker = cb; probes = n })

fail_stale : ℕ → ℕ → ℕ → Flight → Flight
unfolding settle
fail_stale zero now later f = f
fail_stale (suc n) now later f =
    let cb = record_failure now later f.breaker in
    settle cb.state (record f { breaker = cb; stale = n; drained = f.drained + 1 })

-- An event of a request that is not in flight changes nothing.
unfoldable pub fly : Flight → FlightEvent → Flight
unfolding enter ok_probe ok_stale fail_probe fail_stale
fly f (arrives now) = enter f (allow now f.breaker)
fly f probe_ok = ok_probe f.probes f
fly f stale_ok = ok_stale f.stale f
fly f (probe_failed now later) = fail_probe f.probes now later f
fly f (stale_failed now later) = fail_stale f.stale now later f

unfoldable pub fly_all : Flight → List FlightEvent → Flight
fly_all f [] = f
fly_all f (e ∷ es) = fly_all (fly f e) es

unfoldable pub launch : CircuitBreaker → Flight
launch cb = record { breaker = cb; probes = 0; stale = 0; drained = 0 }

record IsLedger (f : Flight) : Type 0 where
  balance :
      f.breaker.state ≡ state_half_open
      → f.breaker.half_open_requests +ℤ pos f.drained ≡ pos f.probes
  capped :
      f.breaker.state ≡ state_half_open
      → pos 1 ≤ℤ f.breaker.config.half_open_max_requests
      → f.breaker.half_open_requests ≤ℤ f.breaker.config.half_open_max_requests
  no_probe : f.breaker.state ≢ state_half_open → f.probes ≡ 0

arrives-IsLedger : (f : Flight) (now : ℕ) → IsLedger f → IsLedger (fly f (arrives now))
unfolding fly allow ◌+ℤ◌
arrives-IsLedger f now v = ground arith

probe_ok-IsLedger : (f : Flight) → IsLedger f → IsLedger (fly f probe_ok)
unfolding fly record_success ◌+ℤ◌ ◌-ℤ◌
probe_ok-IsLedger f v = ground arith

stale_ok-IsLedger : (f : Flight) → IsLedger f → IsLedger (fly f stale_ok)
unfolding fly record_success ◌+ℤ◌ ◌-ℤ◌
stale_ok-IsLedger f v = ground arith

probe_failed-IsLedger :
    (f : Flight) (now later : ℕ) → IsLedger f → IsLedger (fly f (probe_failed now later))
unfolding fly record_failure ◌+ℤ◌ ◌-ℤ◌
probe_failed-IsLedger f now later v = ground arith

stale_failed-IsLedger :
    (f : Flight) (now later : ℕ) → IsLedger f → IsLedger (fly f (stale_failed now later))
unfolding fly record_failure ◌+ℤ◌ ◌-ℤ◌
stale_failed-IsLedger f now later v = ground arith

fly-IsLedger : (f : Flight) (e : FlightEvent) → IsLedger f → IsLedger (fly f e)
fly-IsLedger f (arrives now) v = arrives-IsLedger f now v
fly-IsLedger f probe_ok v = probe_ok-IsLedger f v
fly-IsLedger f stale_ok v = stale_ok-IsLedger f v
fly-IsLedger f (probe_failed now later) v = probe_failed-IsLedger f now later v
fly-IsLedger f (stale_failed now later) v = stale_failed-IsLedger f now later v

fly_all-IsLedger : (f : Flight) (es : List FlightEvent) → IsLedger f → IsLedger (fly_all f es)
unfolding fly_all
fly_all-IsLedger f [] v = v
fly_all-IsLedger f (e ∷ es) v = fly_all-IsLedger (fly f e) es (fly-IsLedger f e v)

launch-IsLedger :
    (name : String) (c : CircuitBreakerConfig) → IsLedger (launch (new_circuit_breaker name c))
unfolding launch new_circuit_breaker
launch-IsLedger name c = ground arith

probes_of_IsLedger :
    (f : Flight)
    → IsLedger f
    → f.breaker.state ≡ state_half_open
    → pos 1 ≤ℤ f.breaker.config.half_open_max_requests
    → pos f.probes ≤ℤ f.breaker.config.half_open_max_requests +ℤ pos f.drained
unfolding ◌+ℤ◌
probes_of_IsLedger f v h m = ground (arith, v.balance h, v.capped h m)

abbrev pub flown : String → CircuitBreakerConfig → List FlightEvent → Flight
flown name c es = fly_all (launch (new_circuit_breaker name c)) es

-- However requests arrive and finish behind a new breaker, in half-open the probes that hold a slot
-- number at most the (positive) maximum and the stale results recorded in this half-open period.
pub probes-le_max_and_drained :
    (name : String) (c : CircuitBreakerConfig) (es : List FlightEvent)
    → (flown name c es).breaker.state ≡ state_half_open
    → pos 1 ≤ℤ (flown name c es).breaker.config.half_open_max_requests
    → pos (flown name c es).probes
      ≤ℤ (flown name c es).breaker.config.half_open_max_requests +ℤ pos (flown name c es).drained
probes-le_max_and_drained name c es =
    probes_of_IsLedger _ (fly_all-IsLedger _ es (launch-IsLedger name c))

-- A stale success frees a slot that its request never took: with every slot held by a probe, and
-- the success not yet closing the breaker, the next `Allow` admits one probe more.
pub stale_success_frees_slot :
    (f : Flight) (n now : ℕ)
    → f.breaker.state ≡ state_half_open
    → f.breaker.half_open_requests ≡ f.breaker.config.half_open_max_requests
    → f.stale ≡ suc n
    → f.breaker.consecutive_successes + 1 < f.breaker.config.success_threshold
    → (fly (fly f stale_ok) (arrives now)).probes ≡ f.probes + 1
unfolding fly allow record_success ◌-ℤ◌
stale_success_frees_slot f n now h full s few = ground arith

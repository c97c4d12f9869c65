-- ===== src/Breaker/Manager/Refinement.antt =====
-- The manager against its specification: a breaker for every name, each a component of its own
-- (internal/proxy/circuitbreaker.go).
use kortex.Common.{
  ℕ, ◌≡◌, refl, String, Option, none, some, ◌==◌, if◌then◌else◌, arith, string_eq, ==_refl, ◌∙◌,
}
use kortex.Common.Dict.{lookup, lookup-insert, lookup-map_values, map_option}
use kortex.Breaker.HalfOpen.{IsFresh}
use text.Mathlib.TextEquality.{eq_iff}
use kortex.Breaker.{
  CircuitBreaker, CircuitBreakerConfig, BreakerError, new_circuit_breaker, allow, record_success,
  record_failure, reset, stats,
}
use kortex.Breaker.Manager.{
  record_result, run_allowed, CircuitBreakerManager, get_breaker, manager_allow,
  manager_record_success, manager_record_failure, all_stats, reset_all, store, execute, rejected,
  failed, ExecuteError,
}

-- The breaker that a name has: the stored one, or a new one.
abbrev pub or_new : CircuitBreakerConfig → String → Option CircuitBreaker → CircuitBreaker
or_new c name none = new_circuit_breaker name c
or_new c name (some cb) = cb

unfoldable pub view : CircuitBreakerManager → String → CircuitBreaker
view m name = or_new m.config name (lookup name m.breakers)

-- One name's breaker replaced.
abbrev pub updated : (String → CircuitBreaker) → String → CircuitBreaker → String → CircuitBreaker
updated v name cb other = if name == other then cb else v other

view-store :
    (m : CircuitBreakerManager) (name : String) (cb : CircuitBreaker) (other : String)
    → view (store name cb m) other ≡ updated (view m) name cb other
unfolding view
view-store m name cb other =
    ground (arith, eq_iff name other, lookup-insert other name cb m.breakers)

get_breaker-view :
    (m : CircuitBreakerManager) (name : String) → (get_breaker name m).0 ≡ view m name
unfolding get_breaker view
get_breaker-view m name = ground arith

view-get_breaker :
    (m : CircuitBreakerManager) (name other : String)
    → view (get_breaker name m).1 other ≡ view m other
unfolding get_breaker view
view-get_breaker m name other = ground (
  arith,
  eq_iff name other,
  lookup-insert other name (new_circuit_breaker name m.config) m.breakers,
)

-- To read a breaker, change it and write it back.
changed :
    (f : CircuitBreaker → CircuitBreaker) (m : CircuitBreakerManager) (name other : String)
    → view (store name (f (get_breaker name m).0) (get_breaker name m).1) other
      ≡ updated (view m) name (f (view m name)) other
changed f m name other = rw (
  view-store (get_breaker name m).1 name (f (get_breaker name m).0) other,
  get_breaker-view m name,
  view-get_breaker m name other,
)

module _ (name : String) (m : CircuitBreakerManager) (other : String) where
  -- `Allow` of a name answers as that name's breaker does, and changes no other breaker.
  pub manager_allow-view :
      (now : ℕ)
      → ((manager_allow now name m).1 ≡ (allow now (view m name)).1)
        × (view (manager_allow now name m).0 other
            ≡ updated (view m) name (allow now (view m name)).0 other)
  unfolding manager_allow
  manager_allow-view now =
      (rw (get_breaker-view m name), changed (λ cb. (allow now cb).0) m name other)

  -- So do the calls that record a result.
  pub manager_record_success-view :
      view (manager_record_success name m) other
      ≡ updated (view m) name (record_success (view m name)) other
  unfolding manager_record_success
  manager_record_success-view = changed record_success m name other

  pub manager_record_failure-view :
      (now later : ℕ)
      → view (manager_record_failure now later name m) other
        ≡ updated (view m) name (record_failure now later (view m name)) other
  unfolding manager_record_failure
  manager_record_failure-view now later = changed (record_failure now later) m name other

pub updated_twice :
    (m m1 : CircuitBreakerManager) (name : String) (cb1 cb2 : CircuitBreaker)
    → ((o : String) → view m1 o ≡ updated (view m) name cb1 o)
    → (other : String) → updated (view m1) name cb2 other ≡ updated (view m) name cb2 other
updated_twice m m1 name cb1 cb2 h other = ground (arith, h other)

-- What `Execute` promises, on one breaker: a rejected call does not run the function and reports
-- the breaker's error; an allowed one runs it once, records its result, and reports its error.
module _ {ℓ κ} {W : Type ℓ} {E : Type κ} where
  settle :
      (now later : ℕ) → W × Option E → CircuitBreaker → CircuitBreaker × W × Option (ExecuteError E)
  settle now later (w, none) cb = (record_success cb, w, none)
  settle now later (w, some err) cb = (record_failure now later cb, w, some (failed err))

  guarded :
      (now later : ℕ) (fn : W → W × Option E) (w : W)
      → CircuitBreaker × Option BreakerError
      → CircuitBreaker × W × Option (ExecuteError E)
  guarded now later fn w (cb, some err) = (cb, w, some (rejected err))
  guarded now later fn w (cb, none) = settle now later (fn w) cb

  pub protect :
      (asked now later : ℕ) (fn : W → W × Option E) (w : W)
      → CircuitBreaker
      → CircuitBreaker × W × Option (ExecuteError E)
  protect asked now later fn w cb = guarded now later fn w (allow asked cb)

  record_result-settle :
      (now later : ℕ) (name : String) (m : CircuitBreakerManager) (r : W × Option E)
      (other : String)
      → ((record_result now later name m r).1 ≡ (settle now later r (view m name)).1)
        × ((record_result now later name m r).2 ≡ (settle now later r (view m name)).2)
        × (view (record_result now later name m r).0 other
            ≡ updated (view m) name (settle now later r (view m name)).0 other)
  unfolding record_result settle
  record_result-settle now later name m (w, none) other =
      (refl, refl, manager_record_success-view name m other)
  record_result-settle now later name m (w, some err) other =
      (refl, refl, manager_record_failure-view name m other now later)

  run_allowed-guarded :
      (now later : ℕ) (name : String) (fn : W → W × Option E) (w : W) (m m1 : CircuitBreakerManager)
      (cb1 : CircuitBreaker)
      → ((o : String) → view m1 o ≡ updated (view m) name cb1 o)
      → (e : Option BreakerError) (other : String)
      → ((run_allowed now later name fn w (m1, e)).1 ≡ (guarded now later fn w (cb1, e)).1)
        × ((run_allowed now later name fn w (m1, e)).2 ≡ (guarded now later fn w (cb1, e)).2)
        × (view (run_allowed now later name fn w (m1, e)).0 other
            ≡ updated (view m) name (guarded now later fn w (cb1, e)).0 other)
  unfolding run_allowed guarded
  run_allowed-guarded now later name fn w m m1 cb1 h (some err) other = (refl, refl, h other)
  run_allowed-guarded now later name fn w m m1 cb1 h none other =
      let here : view m1 name ≡ cb1 = rw (h name, ==_refl name) in
      let (same, error, viewed) = record_result-settle now later name m1 (fn w) other in
      (
        rw here at same,
        rw here at error,
        (rw here at viewed) ∙ updated_twice m m1 name cb1 _ h other,
      )

  run_allowed-guarded_of_eq :
      (now later : ℕ) (name : String) (fn : W → W × Option E) (w : W) (m m1 : CircuitBreakerManager)
      (cb1 : CircuitBreaker)
      → ((o : String) → view m1 o ≡ updated (view m) name cb1 o)
      → (e answer : Option BreakerError) (other : String) → answer ≡ e
      → ((run_allowed now later name fn w (m1, answer)).1 ≡ (guarded now later fn w (cb1, e)).1)
        × ((run_allowed now later name fn w (m1, answer)).2 ≡ (guarded now later fn w (cb1, e)).2)
        × (view (run_allowed now later name fn w (m1, answer)).0 other
            ≡ updated (view m) name (guarded now later fn w (cb1, e)).0 other)
  run_allowed-guarded_of_eq now later name fn w m m1 cb1 h e answer other p =
      rw p (run_allowed-guarded now later name fn w m m1 cb1 h e other)

  -- `Execute` on a name does to that name's breaker, to the world and with the error what the
  -- guarded call promises, and changes no other breaker.
  pub execute-protect :
      (asked now later : ℕ) (name : String) (fn : W → W × Option E) (w : W)
      (m : CircuitBreakerManager) (other : String)
      → ((execute asked now later name fn w m).1 ≡ (protect asked now later fn w (view m name)).1)
        × ((execute asked now later name fn w m).2 ≡ (protect asked now later fn w (view m name)).2)
        × (view (execute asked now later name fn w m).0 other
            ≡ updated (view m) name (protect asked now later fn w (view m name)).0 other)
  unfolding execute protect
  execute-protect asked now later name fn w m other =
      let answer = (manager_allow-view name m other asked).0 in
      let cb = allow asked (view m name) in
      let h = λ (o : String). (manager_allow-view name m o asked).1 in
      run_allowed-guarded_of_eq now later name fn w m (manager_allow asked name m).0 cb.0 h cb.1
        (manager_allow asked name m).1 other answer

-- After `ResetAll` the breaker of every name is closed, with every counter at zero.
pub reset_all-IsFresh :
    (m : CircuitBreakerManager) (name : String) → IsFresh (view (reset_all m) name)
unfolding reset_all view reset new_circuit_breaker
reset_all-IsFresh m name = ground (arith, lookup-map_values name reset m.breakers)

-- `AllStats` has an entry for exactly the names that have been used, with their breakers' counters.
pub lookup-all_stats :
    (m : CircuitBreakerManager) (name : String)
    → lookup name (all_stats m) ≡ map_option stats (lookup name m.breakers)
unfolding all_stats
lookup-all_stats m name = lookup-map_values name stats m.breakers

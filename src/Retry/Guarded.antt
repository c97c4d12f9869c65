-- ===== src/Retry/Guarded.antt =====
-- The breaker around the retries (`RetryWithCircuitBreaker` of internal/proxy/retry.go).
use mathlib.Core.Path.{subst⁻¹}
use kortex.Common.{==_refl, string_eq, ℕ, ◌≡◌, refl, ap, ◌∙◌, String, Option, none, some}
use kortex.Common.Int.{ℤ, pos}
use kortex.Breaker.{CircuitBreaker, BreakerError, allow, record_success, record_failure}
use kortex.Breaker.Manager.{CircuitBreakerManager, manager_allow}
use kortex.Breaker.Manager.Refinement.{
  view, updated, updated_twice, manager_allow-view, manager_record_success-view,
  manager_record_failure-view,
}
use kortex.Retry.{
  Floats, CallError, Moment, RetryFailure, RetryResult, RetryConfig, Run, blocked_by, do_retries,
  guarded, finished, recorded, execute_with_retries,
}

-- What one guarded call does to the breaker that was asked: nothing more when it was rejected, else
-- one record of the last error.
unfoldable pub after_call :
    (now later : ℕ) → CircuitBreaker → Option BreakerError → Option RetryFailure → CircuitBreaker
after_call now later cb (some e) last = cb
after_call now later cb none none = record_success cb
after_call now later cb none (some x) = record_failure now later cb

module _ (f : Floats) {W : Type 0} (config : RetryConfig f) (moment : ℕ → Moment f.Float)
    (backend : String) (fn : ℕ → W → W × ℤ × Option CallError) where
  -- The run of a rejected call is the one it started with; an admitted one ends as `Do` ends.
  abbrev pub RunOf : Option BreakerError → Run W → Run W × RetryResult → Type 0
  RunOf (some e) r out =
      out ≡ (r, record { attempts = 0; last_error = some (blocked_by e); status_code = pos 0 })
  RunOf none r out = out ≡ do_retries f config moment backend fn r

  recorded-view :
      (now later : ℕ) (m m1 : CircuitBreakerManager) (cb : CircuitBreaker)
      → ((o : String) → view m1 o ≡ updated (view m) backend cb o)
      → view m1 backend ≡ cb
      → (last : Option RetryFailure) (other : String)
      → view (recorded f config moment backend fn now later m1 last) other
        ≡ updated (view m) backend (after_call now later cb none last) other
  unfolding recorded after_call
  recorded-view now later m m1 cb h own none other =
      manager_record_success-view backend m1 other
      ∙ ap (λ c. updated (view m1) backend (record_success c) other) own
      ∙ updated_twice m m1 backend cb (record_success cb) h other
  recorded-view now later m m1 cb h own (some e) other =
      manager_record_failure-view backend m1 other now later
      ∙ ap (λ c. updated (view m1) backend (record_failure now later c) other) own
      ∙ updated_twice m m1 backend cb (record_failure now later cb) h other

  -- What `guarded` does to the breakers, and its run, once a breaker has answered.
  abbrev pub Guards :
      (now later : ℕ)
      → CircuitBreakerManager
      → Run W
      → CircuitBreaker × Option BreakerError
      → String
      → CircuitBreakerManager × Run W × RetryResult
      → Type 0
  Guards now later m r (cb, e) other out =
      (view out.0 other
        ≡ updated (view m) backend (after_call now later cb e out.2.last_error) other)
      × RunOf e r (out.1, out.2)

  guarded-Guards :
      (now later : ℕ) (m m1 : CircuitBreakerManager) (r : Run W) (cb : CircuitBreaker)
      → ((o : String) → view m1 o ≡ updated (view m) backend cb o)
      → view m1 backend ≡ cb
      → (e : Option BreakerError) (other : String)
      → Guards now later m r (cb, e) other (guarded f config moment backend fn now later r (m1, e))
  unfolding guarded finished after_call
  guarded-Guards now later m m1 r cb h own (some e) other = (h other, refl)
  guarded-Guards now later m m1 r cb h own none other = (
    recorded-view now later m m1 cb h own (do_retries f config moment backend fn r).1.last_error
        other,
    refl,
  )

  -- However often the function is retried, the breaker of its backend records exactly one result, a
  -- failure where the last error is set; a call that the breaker rejects runs nothing and records
  -- nothing. No other breaker is changed.
  pub execute_with_retries-Guards :
      (asked now later : ℕ) (m : CircuitBreakerManager) (r : Run W) (other : String)
      → Guards now later m r
          (allow asked (view m backend))
          other
          (execute_with_retries f config moment backend fn asked now later m r)
  unfolding execute_with_retries
  execute_with_retries-Guards asked now later m r other =
      let cb = (allow asked (view m backend)).0 in
      let m1 = (manager_allow asked backend m).0 in
      let h = λ (o : String). (manager_allow-view backend m o asked).1 in
      let own : view m1 backend ≡ cb = rw (h backend, ==_refl backend) in
      subst⁻¹
        (λ e.
          Guards now later m r (allow asked (view m backend)) other
            (guarded f config moment backend fn now later r (m1, e)))
        (manager_allow-view backend m other asked).0
        (guarded-Guards now later m m1 r cb h own (allow asked (view m backend)).1 other)

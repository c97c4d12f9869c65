-- ===== src/Retry.antt =====
-- Retries (internal/proxy/retry.go). The function that is retried works on a world of the caller's.
-- What errors.Is and errors.As find in an error are its fields, and the draws of math/rand and the
-- state of the context are the environment's, one `Moment` for each attempt.
pub mod Attempts
pub mod Guarded
mod Tests
use kortex.Common.{
  ℕ, zero, suc, ◌+◌, String, Bool, true, false, not, ◌&&◌, ◌||◌, Option, none, some, List, [], ◌∷◌,
  ◌++◌, if◌then◌else◌,
}
use kortex.Common.Int.{ℤ, pos, negsuc, beq_ℤ, leb_ℤ}
use kortex.Breaker.{BreakerError}
use kortex.Breaker.Manager.{
  CircuitBreakerManager, manager_allow, manager_record_success, manager_record_failure,
}

-- An error, as the tests on it see it: of the context, of package net (with its `Timeout`), or a
-- refused, reset or aborted connection.
pub record CallError : Type 0 where
  pub text : String
  pub is_canceled : Bool
  pub is_deadline_exceeded : Bool
  pub net_timeout : Option Bool
  pub is_refused : Bool
  pub is_reset : Bool
  pub is_aborted : Bool

-- The float64 operations of the backoff.
pub record Floats : Type 1 where
  pub Float : Type 0
  pub of_int : ℤ → Float
  pub to_int : Float → ℤ
  pub add : Float → Float → Float
  pub sub : Float → Float → Float
  pub mul : Float → Float → Float
  pub half : Float → Float
  pub pow : Float → Float → Float
  pub lt : Float → Float → Bool

-- What the environment does around one attempt: the error of the context when it is asked for and
-- while the backoff is waited, and the draw for the jitter.
pub record Moment (F : Type 0) : Type 0 where
  pub ctx_error : Option CallError
  pub ctx_done : Option CallError
  pub draw : F

pub data RetryEvent : Type 0 where
  attempted : (backend : String) → (attempt : ℕ) → RetryEvent
  succeeded exhausted : (backend : String) → RetryEvent

pub data RetryFailure : Type 0 where
  call_failed : CallError → RetryFailure
  blocked_by : BreakerError → RetryFailure

pub record RetryResult : Type 0 where
  pub attempts : ℕ
  pub last_error : Option RetryFailure
  pub status_code : ℤ

-- The world, the metrics counted and the backoffs waited.
pub record Run (W : Type 0) : Type 0 where
  pub world : W
  pub events : List RetryEvent
  pub waits : List ℤ

-- The end of an attempt: the loop returns, is left by break, or goes on.
pub data Next (W : Type 0) : Type 0 where
  returns leaves continues : Run W → RetryResult → Next W

contains : ℤ → List ℤ → Bool
contains code [] = false
contains code (c ∷ codes) = beq_ℤ code c || contains code codes

is_net : Option Bool → Bool
is_net none = false
is_net (some timeout) = true

is_net_timeout : Option Bool → Bool
is_net_timeout none = false
is_net_timeout (some timeout) = timeout

abbrev failure_of : Option CallError → Option RetryFailure
failure_of none = none
failure_of (some e) = some (call_failed e)

module _ (f : Floats) where
  open f use {Float, of_int, to_int, add, sub, mul, half, pow, lt}

  pub record RetryConfig : Type 0 where
    pub max_retries : ℤ
    pub initial_backoff : ℤ
    pub max_backoff : ℤ
    pub backoff_multiplier : Float
    pub jitter : Float
    pub retryable_status_codes : List ℤ
    pub retry_on_connection_error : Bool
    pub retry_on_timeout : Bool

  unfoldable pub is_retryable_status_code : RetryConfig → ℤ → Bool
  unfolding contains
  is_retryable_status_code config code = contains code config.retryable_status_codes

  unfoldable pub is_retryable_error : RetryConfig → Option CallError → Bool
  unfolding is_net is_net_timeout
  is_retryable_error config none = false
  is_retryable_error config (some e) =
      not (e.is_canceled || e.is_deadline_exceeded)
      && ((config.retry_on_connection_error
            && (is_net e.net_timeout || e.is_refused || e.is_reset || e.is_aborted))
          || (config.retry_on_timeout && is_net_timeout e.net_timeout))

  has_error : Option CallError → Bool
  has_error none = false
  has_error (some e) = true

  unfoldable pub should_retry : RetryConfig → Option CallError → Option CallError → ℤ → ℕ → Bool
  unfolding has_error
  should_retry config ctx_error err code attempt =
      not (leb_ℤ config.max_retries (pos attempt))
      && not (has_error ctx_error)
      && (is_retryable_status_code config code || is_retryable_error config err)

  unfoldable pub calculate_backoff : RetryConfig → ℕ → Float → ℤ
  calculate_backoff config attempt draw =
      let base =
        mul (of_int config.initial_backoff)
          (pow config.backoff_multiplier (of_int (pos attempt))) in
      let jittered =
        if lt (of_int (pos 0)) config.jitter
        then add (sub base (half (mul config.jitter base))) (mul (mul draw config.jitter) base)
        else base in
      let capped =
        if lt (of_int config.max_backoff) jittered then of_int config.max_backoff else jittered in
      to_int capped

  -- `IsRetryable`, of the status of a response that there may be.
  unfoldable pub is_retryable : Option ℤ → Option CallError → RetryConfig → Bool
  is_retryable resp (some e) config = is_retryable_error config (some e)
  is_retryable none none config = false
  is_retryable (some code) none config = is_retryable_status_code config code

  module _ {W : Type 0} where
    module _ (config : RetryConfig) (moment : ℕ → Moment Float) (backend : String)
        (fn : ℕ → W → W × ℤ × Option CallError) where
      count : RetryEvent → Run W → Run W
      count e r = record r { events = r.events ++ e ∷ [] }

      result_of : ℕ → ℤ → Option CallError → RetryResult
      result_of attempt code err = record {
        attempts = suc attempt;
        last_error = failure_of err;
        status_code = code;
      }

      -- Waiting for the backoff.
      waited : ℕ → ℤ → Option CallError → Run W → Option CallError → Next W
      unfolding result_of
      waited attempt code err r none = continues r (result_of attempt code err)
      waited attempt code err r (some e) = returns r (result_of attempt code (some e))

      -- What follows the call of the function.
      judge : ℕ → Run W → ℤ → Option CallError → Next W
      unfolding waited count has_error
      judge attempt r code err =
          let wait = calculate_backoff config attempt (moment attempt).draw in
          let r' = record r { waits = r.waits ++ wait ∷ [] } in
          if not (has_error err) && not (is_retryable_status_code config code)
          then returns (if leb_ℤ (pos 1) (pos attempt) then count (succeeded backend) r else r)
              (result_of attempt code err)
          else if should_retry config (moment attempt).ctx_error err code attempt
          then waited attempt code err r' (moment attempt).ctx_done
          else leaves r (result_of attempt code err)

      called : ℕ → Run W → W × ℤ × Option CallError → Next W
      unfolding judge
      called attempt r (w, code, err) = judge attempt (record r { world = w }) code err

      -- One round of the loop.
      unfoldable pub try_once : ℕ → Run W → Next W
      unfolding called count
      try_once attempt r =
          let r' = count (attempted backend attempt) r in called attempt r' (fn attempt r'.world)

      give_up : Run W → RetryResult → Run W × RetryResult
      unfolding count
      give_up r result = (count (exhausted backend) r, result)

      -- The rounds that are left, from one attempt on.
      unfoldable pub rounds : ℕ → ℕ → Run W → RetryResult → Run W × RetryResult
      unfolding give_up
      rounds zero attempt r result = give_up r result
      rounds (suc left) attempt r result = elim (try_once attempt r) [
        | returns r' result' ↦ (r', result')
        | leaves r' result' ↦ give_up r' result'
        | continues r' result' ↦ rounds left (suc attempt) r' result'
      ]

      rounds_of : ℤ → ℕ
      rounds_of (pos n) = suc n
      rounds_of (negsuc n) = 0

      -- `Do`
      unfoldable pub do_retries : Run W → Run W × RetryResult
      unfolding rounds_of
      do_retries r =
          rounds (rounds_of config.max_retries) 0 r
            (record { attempts = 0; last_error = none; status_code = pos 0 })

      recorded :
          (now later : ℕ) → CircuitBreakerManager → Option RetryFailure → CircuitBreakerManager
      recorded now later m none = manager_record_success backend m
      recorded now later m (some e) = manager_record_failure now later backend m

      finished :
          (now later : ℕ)
          → CircuitBreakerManager
          → Run W × RetryResult
          → CircuitBreakerManager × Run W × RetryResult
      unfolding recorded
      finished now later m (r, result) = (recorded now later m result.last_error, r, result)

      guarded :
          (now later : ℕ)
          → Run W
          → CircuitBreakerManager × Option BreakerError
          → CircuitBreakerManager × Run W × RetryResult
      unfolding finished
      guarded now later r (m, some e) =
          (m, r, record { attempts = 0; last_error = some (blocked_by e); status_code = pos 0 })
      guarded now later r (m, none) = finished now later m (do_retries r)

      -- `RetryWithCircuitBreaker.Execute`
      unfoldable pub execute_with_retries :
          (asked now later : ℕ)
          → CircuitBreakerManager
          → Run W
          → CircuitBreakerManager × Run W × RetryResult
      unfolding guarded
      execute_with_retries asked now later m r = guarded now later r (manager_allow asked backend m)

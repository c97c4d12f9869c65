-- ===== src/Retry/Tests.antt =====
-- The theorems on retries at a function that fails once, with integers for floats
-- (internal/proxy/retry.go).
use kortex.Common.{arith, ℕ, zero, suc, ◌+◌, ◌≤◌, ◌≡◌, refl, true, Option, none, [], ◌∷◌, string_eq}
use kortex.Common.Int.{ℤ, pos, ◌+ℤ◌, ltb_ℤ}
use kortex.Breaker.{allow, default_circuit_breaker_config}
use kortex.Breaker.Manager.{CircuitBreakerManager, new_circuit_breaker_manager}
use kortex.Breaker.Manager.Refinement.{view}
use kortex.Retry.{
  rounds, try_once, is_retryable_status_code, should_retry, Floats, CallError, Moment, RetryConfig,
  Run, do_retries, execute_with_retries,
}
use kortex.Retry.Attempts.{do_retries-attempts}
use kortex.Retry.Guarded.{Guards, execute_with_retries-Guards}

abbrev integers : Floats
integers = record {
  Float = ℤ;
  of_int = λ n. n;
  to_int = λ x. x;
  add = ◌+ℤ◌;
  sub = λ x y. x;
  mul = λ x y. x;
  half = λ x. x;
  pow = λ x y. x;
  lt = ltb_ℤ;
}

abbrev two_retries : RetryConfig integers
two_retries = record {
  max_retries = pos 2;
  initial_backoff = pos 100;
  max_backoff = pos 1000;
  backoff_multiplier = pos 2;
  jitter = pos 0;
  retryable_status_codes = pos 502 ∷ pos 503 ∷ pos 504 ∷ [];
  retry_on_connection_error = true;
  retry_on_timeout = true;
}

abbrev quiet : ℕ → Moment ℤ
quiet i = record { ctx_error = none; ctx_done = none; draw = pos 0 }

-- The world counts the calls; the first answer is 503.
abbrev fails_once : ℕ → ℕ → ℕ × ℤ × Option CallError
fails_once zero n = (n + 1, pos 503, none)
fails_once (suc i) n = (n + 1, pos 200, none)

abbrev start : Run ℕ
start = record { world = 0; events = []; waits = [] }

retried_once :
    ((do_retries integers two_retries quiet "gpt" fails_once start).0.world ≡ 2)
    × ((do_retries integers two_retries quiet "gpt" fails_once start).1.status_code ≡ pos 200)
unfolding do_retries rounds try_once is_retryable_status_code should_retry
retried_once = (refl, refl)

fails_once-Counts : (attempt n : ℕ) → (fails_once attempt n).0 ≡ suc n
fails_once-Counts zero n = omega arith
fails_once-Counts (suc attempt) n = omega arith

do_retries-attempts_example :
    (1 ≤ (do_retries integers two_retries quiet "gpt" fails_once start).1.attempts)
    × ((do_retries integers two_retries quiet "gpt" fails_once start).1.attempts ≤ 3)
    × ((do_retries integers two_retries quiet "gpt" fails_once start).0.world
        ≡ start.world + (do_retries integers two_retries quiet "gpt" fails_once start).1.attempts)
do_retries-attempts_example =
    do_retries-attempts integers two_retries quiet "gpt" fails_once (λ n. n) 2 start refl
      fails_once-Counts

abbrev breakers : CircuitBreakerManager
breakers = new_circuit_breaker_manager default_circuit_breaker_config

execute_with_retries-Guards_example :
    Guards integers two_retries quiet "gpt" fails_once 2 3 breakers start
      (allow 1 (view breakers "gpt"))
      "claude"
      (execute_with_retries integers two_retries quiet "gpt" fails_once 1 2 3 breakers start)
execute_with_retries-Guards_example =
    execute_with_retries-Guards integers two_retries quiet "gpt" fails_once 1 2 3 breakers start
      "claude"

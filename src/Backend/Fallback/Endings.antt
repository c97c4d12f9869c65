-- ===== src/Backend/Fallback/Endings.antt =====
-- How the handling of a request ends (`ExecuteWithFallback` of internal/proxy/backend.go).
use kortex.Common.{
  ℕ, suc, ◌<◌, ◌≡◌, ◌≢◌, inl, inr, refl, String, Option, none, some, List, [], ◌∷◌, arith,
  Bool-cases, Bool, true, false, ◌==◌, string_eq,
}
use kortex.Http.{Request, http_error}
use kortex.Api.{InferenceBackend, InferenceRoute, BackendRef}
use kortex.Cache.{Store, get_backend_by_name, health_status_healthy}
use kortex.Breaker.{BreakerError}
use kortex.Breaker.Manager.{CircuitBreakerManager, manager_allow}
use kortex.Backend.Proxying.{
  copy_aborted, blocked, not_found, no_target, backend_status, World, Env, HandlerError, metric,
  execute_request,
}
use kortex.Backend.Proxying.Status.{
  client_status, execute_request-answers, execute_request-lt_500, execute_request-aborts,
}
use kortex.Backend.Fallback.{
  Ending, served, gone, all_failed, aborted, is_abort, panicked, allowed_with, started, conclude,
  attempt_backend, found, checked, try_backend, finish, run_chain, execute_with_fallback,
  attempt_timeout, build_fallback_chain, has_more,
}
use kortex.Backend.Fallback.Rounds.{AfterTurn, run_chain-cons}

-- An ending at which the client has received a status, and where it was served, by a backend that
-- answered no error of the server.
abbrev pub Answered : World → Ending → Type 0
Answered w (served name status) = (status < 500) × (client_status w ≢ none)
Answered w gone = client_status w ≢ none
Answered w (all_failed e) = client_status w ≢ none
Answered w (aborted name) = client_status w ≢ none
Answered w panicked = ⊥

module _ (env : Env) (store : Store) (route : InferenceRoute) (req : Request) where
  abbrev Fine : Bool → World → Option HandlerError → Type 0
  Fine true w last = Unit
  Fine false w last = last ≢ none

  conclude-Answered :
      (i : ℕ) (name : String) (rest : List String) (r : World × ℕ × Option HandlerError)
      → (r.2 ≡ none → (r.1 < 500) × (client_status r.0 ≢ none))
      → (r.2 ≡ some copy_aborted → client_status r.0 ≢ none)
      → AfterTurn (Fine (has_more rest)) Answered (conclude env store route req i name rest r)
  unfolding conclude metric http_error has_more is_abort
  conclude-Answered i name [] (w, status, none) h aborts = ground (arith, h refl)
  conclude-Answered i name [] (w, status, some copy_aborted) h aborts = aborts refl
  conclude-Answered i name [] (w, status, some (blocked x)) h aborts = ground arith
  conclude-Answered i name [] (w, status, some (not_found x)) h aborts = ground arith
  conclude-Answered i name [] (w, status, some (no_target x)) h aborts = ground arith
  conclude-Answered i name [] (w, status, some (backend_status x)) h aborts = ground arith
  conclude-Answered i name (more ∷ rest) (w, status, none) h aborts = ground (arith, h refl)
  conclude-Answered i name (more ∷ rest) (w, status, some copy_aborted) h aborts = aborts refl
  conclude-Answered i name (more ∷ rest) (w, status, some (blocked x)) h aborts = ground arith
  conclude-Answered i name (more ∷ rest) (w, status, some (not_found x)) h aborts = ground arith
  conclude-Answered i name (more ∷ rest) (w, status, some (no_target x)) h aborts = ground arith
  conclude-Answered i name (more ∷ rest) (w, status, some (backend_status x)) h aborts =
      ground arith

  attempt-Answered :
      (i : ℕ) (name : String) (rest : List String) (previous : String) (b : InferenceBackend)
      (w : World)
      → AfterTurn
          (Fine (has_more rest))
          Answered
          (attempt_backend env store route req i name rest previous b w)
  unfolding attempt_backend
  attempt-Answered i name rest previous b w =
      let w1 = started route.name previous name w in
      let timeout = attempt_timeout route in
      conclude-Answered i name rest (execute_request env i timeout route b req w1)
        (λ h. (
          execute_request-lt_500 env i route b timeout req w1 h,
          execute_request-answers env i route b timeout req w1 h,
        ))
        (execute_request-aborts env i route b timeout req w1)

  found-Answered :
      (i : ℕ) (name : String) (rest : List String) (last : Option HandlerError) (previous : String)
      (w : World) (b : Option InferenceBackend)
      → AfterTurn
          (Fine (has_more rest))
          Answered
          (found env store route req i name rest last previous w b)
  unfolding found has_more
  found-Answered i name [] last previous w none = cc
  found-Answered i name (more ∷ rest) last previous w none = tt
  found-Answered i name [] last previous w (some b) =
      elim (Bool-cases (b.status.health == health_status_healthy)) [
        | inl e ↦ rw e (attempt-Answered i name [] previous b w)
        | inr e ↦ rw e (attempt-Answered i name [] previous b w)
      ]
  found-Answered i name (more ∷ rest) last previous w (some b) =
      elim (Bool-cases (b.status.health == health_status_healthy)) [
        | inl e ↦ rw e (attempt-Answered i name (more ∷ rest) previous b w)
        | inr e ↦ rw e tt
      ]

  checked-Answered :
      (i : ℕ) (name : String) (rest : List String) (last : Option HandlerError) (previous : String)
      (w : World) (e : Option BreakerError)
      → AfterTurn
          (Fine (has_more rest))
          Answered
          (checked env store route req i name rest last previous (w, e))
  unfolding checked has_more
  checked-Answered i name [] last previous w (some e) = cc
  checked-Answered i name (more ∷ rest) last previous w (some e) = tt
  checked-Answered i name rest last previous w none =
      found-Answered i name rest last previous w (get_backend_by_name route.namespace name store)

  asked-Answered :
      (i : ℕ) (name : String) (rest : List String) (last : Option HandlerError) (previous : String)
      (w : World) (m : Option CircuitBreakerManager)
      → AfterTurn (Fine (has_more rest)) Answered (
          checked env store route req i name rest last previous
            (allowed_with (env.attempt i).allow_at name w m))
  unfolding allowed_with
  asked-Answered i name rest last previous w none =
      checked-Answered i name rest last previous w none
  asked-Answered i name rest last previous w (some m) =
      checked-Answered i name rest last previous
        (record w { breakers = some (manager_allow (env.attempt i).allow_at name m).0 })
        (manager_allow (env.attempt i).allow_at name m).1

  finish-Answered :
      (w : World) (last : Option HandlerError)
      → last ≢ none
      → Answered (finish last w).0 (finish last w).1
  unfolding finish http_error
  finish-Answered w none h = absurd (h refl)
  finish-Answered w (some e) h = ground arith

  run_chain-Answered :
      (i : ℕ) (name : String) (rest : List String) (last : Option HandlerError) (previous : String)
      (w : World)
      → Answered
          (run_chain env store route req i (name ∷ rest) last previous w).0
          (run_chain env store route req i (name ∷ rest) last previous w).1
  unfolding try_backend has_more
  run_chain-Answered i name [] last previous w =
      run_chain-cons env store route req (Fine false) Answered i name [] last previous w
        (asked-Answered i name [] last previous w w.breakers)
        (λ last' previous' w' p. unfold run_chain in finish-Answered w' last' p)
  run_chain-Answered i name (more ∷ rest) last previous w =
      run_chain-cons env store route req (Fine true) Answered i name (more ∷ rest) last previous w
        (asked-Answered i name (more ∷ rest) last previous w w.breakers)
        (λ last' previous' w' p. run_chain-Answered (suc i) more rest last' previous' w')

  -- Every request ends with a status for the client: served by a backend whose code is below 500,
  -- cancelled during a backoff, failed with a last error, or aborted by the panic of the reverse proxy
  -- while it copied the body of an answer. In particular `lastErr` is not nil behind the loop, whatever the breakers, the cache and the backends do.
  pub execute_with_fallback-Answered :
      (primary : BackendRef) (w : World)
      → Answered
          (execute_with_fallback env store route req primary w).0
          (execute_with_fallback env store route req primary w).1
  unfolding execute_with_fallback build_fallback_chain
  execute_with_fallback-Answered primary w = run_chain-Answered 0 primary.name _ none "" w

-- ===== src/Backend/Fallback/Status.antt =====
-- The status that the client receives over the whole fallback chain, and how the handling ends
-- (`ExecuteWithFallback` of internal/proxy/backend.go).
use kortex.Common.{ℕ, ◌≡◌, String, Option, none, some, List, [], ◌∷◌, arith, ok}
use kortex.Http.{Request, Response, http_error}
use kortex.Api.{InferenceBackend, InferenceRoute, BackendRef}
use text.Mathlib.TextEquality.{eq_iff}
use kortex.Cache.{Store, get_backend_by_name, health_status_healthy}
use kortex.Breaker.Manager.{CircuitBreakerManager, manager_allow}
use kortex.Backend.Target.{Url, build_target_url}
use kortex.Backend.Proxying.{World, Env, HandlerError, metric, execute_request, director}
use kortex.Backend.Proxying.Status.{
  client_status, execute_request_keeps_status, execute_request-answer,
}
use kortex.Backend.Fallback.{
  is_abort, allowed_with, started, conclude, attempt_backend, found, checked, try_backend, finish,
  run_chain, execute_with_fallback, attempt_timeout, build_fallback_chain,
}
use kortex.Backend.Fallback.Rounds.{AfterTurn, run_chain_rule, run_chain-cons, try_backend_rule}

-- The client has received the status `s`.
abbrev Has : ℕ → World → Type 0
Has s w = client_status w ≡ some s

module _ (env : Env) (store : Store) (route : InferenceRoute) (req : Request) (s : ℕ) where
  conclude_keeps :
      (i : ℕ) (name : String) (rest : List String) (r : World × ℕ × Option HandlerError)
      → Has s r.0
      → AfterTurn (λ w l. Has s w) (λ w e. Has s w) (conclude env store route req i name rest r)
  unfolding conclude metric http_error is_abort
  conclude_keeps i name [] (w, status, none) h = ground arith
  conclude_keeps i name [] (w, status, some x) h = ground arith
  conclude_keeps i name (more ∷ rest) (w, status, none) h = ground arith
  conclude_keeps i name (more ∷ rest) (w, status, some x) h = ground (arith)

  attempt_keeps :
      (i : ℕ) (name : String) (rest : List String) (previous : String) (b : InferenceBackend)
      (last : Option HandlerError) (w : World)
      → Has s w
      → AfterTurn
          (λ w l. Has s w)
          (λ w e. Has s w)
          (attempt_backend env store route req i name rest previous b w)
  unfolding attempt_backend metric
  attempt_keeps i name rest previous b last w h =
      conclude_keeps i name rest
        (execute_request env i (attempt_timeout route) route b req
          (started route.name previous name w))
        (execute_request_keeps_status env i route b (attempt_timeout route) req _ s (ground arith))

  finish_keeps : (w : World) (last : Option HandlerError) → Has s w → Has s (finish last w).0
  unfolding finish http_error
  finish_keeps w none h = h
  finish_keeps w (some e) h = ground arith

  -- A status that the client has received is kept, whatever the rest of the chain does.
  pub run_chain_keeps_status :
      (i : ℕ) (chain : List String) (last : Option HandlerError) (previous : String) (w : World)
      → client_status w ≡ some s
      → client_status (run_chain env store route req i chain last previous w).0 ≡ some s
  run_chain_keeps_status =
      run_chain_rule env store route req (λ w l. Has s w) (λ w e. Has s w)
        (try_backend_rule env store route req (λ w l. Has s w) (λ w e. Has s w) (λ w last m h. h)
          (λ w last e h. h) attempt_keeps)
        finish_keeps

-- The breaker of the name, if there are breakers, lets the request through.
abbrev pub Admits : ℕ → String → Option CircuitBreakerManager → Type 0
Admits now name none = Unit
Admits now name (some m) = (manager_allow now name m).1 ≡ none

module _ (env : Env) (store : Store) (route : InferenceRoute) (req : Request) (b : InferenceBackend)
    (url : Url) (resp : Response) where
  attempt_answers :
      (i : ℕ) (name : String) (rest : List String) (previous : String) (w : World)
      → build_target_url env.parse_url b ≡ ok url
      → (env.attempt i).round_trip (attempt_timeout route) (director env b url req w.body)
        ≡ some resp
      → client_status w ≡ none
      → AfterTurn
          (λ w l. Has resp.status_code w)
          (λ w e. Has resp.status_code w)
          (attempt_backend env store route req i name rest previous b w)
  unfolding attempt_backend metric started
  attempt_answers i name rest previous w target answer fresh =
      let w1 = started route.name previous name w in
      conclude_keeps env store route req resp.status_code i name rest
        (execute_request env i (attempt_timeout route) route b req w1)
        (ground
          (arith, execute_request-answer env i route b (attempt_timeout route) req url w1 target))

  checked_answers :
      (i : ℕ) (name : String) (rest : List String) (last : Option HandlerError) (previous : String)
      (w : World)
      → get_backend_by_name route.namespace name store ≡ some b
      → b.status.health ≡ health_status_healthy
      → build_target_url env.parse_url b ≡ ok url
      → (env.attempt i).round_trip (attempt_timeout route) (director env b url req w.body)
        ≡ some resp
      → client_status w ≡ none
      → AfterTurn
          (λ w l. Has resp.status_code w)
          (λ w e. Has resp.status_code w)
          (checked env store route req i name rest last previous (w, none))
  unfolding checked found
  checked_answers i name rest last previous w known healthy target answer fresh =
      rw (known, (eq_iff b.status.health health_status_healthy).1 healthy)
        (attempt_answers i name rest previous w target answer fresh)

  first_turn :
      (name : String) (rest : List String) (w : World) (m : Option CircuitBreakerManager)
      → Admits (env.attempt 0).allow_at name m
      → get_backend_by_name route.namespace name store ≡ some b
      → b.status.health ≡ health_status_healthy
      → build_target_url env.parse_url b ≡ ok url
      → (env.attempt 0).round_trip (attempt_timeout route) (director env b url req w.body)
        ≡ some resp
      → client_status w ≡ none
      → AfterTurn
          (λ w l. Has resp.status_code w)
          (λ w e. Has resp.status_code w)
          (checked env store route req 0 name rest none ""
            (allowed_with (env.attempt 0).allow_at name w m))
  unfolding allowed_with
  first_turn name rest w none admits known healthy target answer fresh =
      checked_answers 0 name rest none "" w known healthy target answer fresh
  first_turn name rest w (some m) admits known healthy target answer fresh = rw admits (
      checked_answers 0 name rest none ""
        (record w { breakers = some (manager_allow (env.attempt 0).allow_at name m).0 }) known
        healthy target answer fresh)

  -- Where the first backend of the chain is tried (its breaker admits it, it is in the cache and
  -- healthy, and its URL parses) and answers at all, the client receives the status of that answer:
  -- if that is an error of the server, then also when another backend serves the request afterwards.
  pub first_answer_decides :
      (primary : BackendRef) (w : World)
      → Admits (env.attempt 0).allow_at primary.name w.breakers
      → get_backend_by_name route.namespace primary.name store ≡ some b
      → b.status.health ≡ health_status_healthy
      → build_target_url env.parse_url b ≡ ok url
      → (env.attempt 0).round_trip (attempt_timeout route) (director env b url req w.body)
        ≡ some resp
      → client_status w ≡ none
      → client_status (execute_with_fallback env store route req primary w).0
        ≡ some resp.status_code
  unfolding execute_with_fallback build_fallback_chain try_backend
  first_answer_decides primary w admits known healthy target answer fresh =
      run_chain-cons env store route req (λ w l. Has resp.status_code w)
        (λ w e. Has resp.status_code w) 0 primary.name _ none "" w
        (first_turn primary.name _ w w.breakers admits known healthy target answer fresh)
        (λ last' previous' w' h.
          run_chain_keeps_status env store route req resp.status_code 1 _ last' previous' w' h)

-- ===== src/Backend/Fallback/Slots.antt =====
-- Requests that a breaker admits and the handler does not make (`ExecuteWithFallback` of
-- internal/proxy/backend.go): the cache is asked after the breaker, and a name that is then skipped
-- records no result.
use kortex.Common.{
  ℕ, ◌≡◌, refl, ◌∙◌, ap, String, Option, none, some, List, arith, ==_refl, string_eq,
}
use kortex.Common.Int.{pos, ◌+ℤ◌, ◌<ℤ◌}
use kortex.Http.{Request}
use kortex.Api.{InferenceRoute}
use kortex.Cache.{Store, get_backend_by_name}
use kortex.Breaker.{CircuitBreaker, allow, state_half_open}
use kortex.Breaker.Manager.{CircuitBreakerManager, manager_allow}
use kortex.Breaker.Manager.Refinement.{view, manager_allow-view}
use kortex.Backend.Proxying.{World, Env, HandlerError, not_found}
use kortex.Backend.Fallback.{on, allowed_with, found, checked, try_backend}

takes_slot :
    (cb : CircuitBreaker) (now : ℕ)
    → cb.state ≡ state_half_open
    → cb.half_open_requests <ℤ cb.config.half_open_max_requests
    → ((allow now cb).1 ≡ none)
      × ((allow now cb).0 ≡ record cb { half_open_requests = cb.half_open_requests +ℤ pos 1 })
unfolding allow
takes_slot cb now h free = ground arith

module _ (env : Env) (store : Store) (route : InferenceRoute) (req : Request) where
  checked_missing :
      (i : ℕ) (name : String) (rest : List String) (last : Option HandlerError) (previous : String)
      (w : World)
      → get_backend_by_name route.namespace name store ≡ none
      → checked env store route req i name rest last previous (w, none)
        ≡ on w (some (not_found name)) previous
  unfolding checked found
  checked_missing i name rest last previous w missing = rw missing refl

  missing_allowed :
      (i : ℕ) (name : String) (rest : List String) (last : Option HandlerError) (previous : String)
      (w : World) (m : CircuitBreakerManager)
      → (manager_allow (env.attempt i).allow_at name m).1 ≡ none
      → get_backend_by_name route.namespace name store ≡ none
      → checked env store route req i name rest last previous
          (allowed_with (env.attempt i).allow_at name w (some m))
        ≡ on
            (record w { breakers = some (manager_allow (env.attempt i).allow_at name m).0 })
            (some (not_found name))
            previous
  unfolding allowed_with
  missing_allowed i name rest last previous w m admits missing = rw admits (
      checked_missing i name rest last previous
        (record w { breakers = some (manager_allow (env.attempt i).allow_at name m).0 }) missing)

  -- A round on a name that its breaker admits and the cache does not hold goes on with the breaker
  -- as `Allow` left it: no result is recorded.
  missing_records_nothing :
      (i : ℕ) (name : String) (rest : List String) (last : Option HandlerError) (previous : String)
      (w : World) (m : CircuitBreakerManager)
      → w.breakers ≡ some m
      → (manager_allow (env.attempt i).allow_at name m).1 ≡ none
      → get_backend_by_name route.namespace name store ≡ none
      → try_backend env store route req i name rest last previous w
        ≡ on
            (record w { breakers = some (manager_allow (env.attempt i).allow_at name m).0 })
            (some (not_found name))
            previous
  unfolding try_backend
  missing_records_nothing i name rest last previous w m held admits missing =
      ap
        (λ o.
          checked env store route req i name rest last previous
            (allowed_with (env.attempt i).allow_at name w o))
        held
      ∙ missing_allowed i name rest last previous w m admits missing

  -- A round on a name that is not in the cache, whose breaker is half-open with a free slot, takes
  -- the slot and never gives it back: it goes on to the next name with that breaker changed in
  -- nothing but one more request in half-open.
  pub missing_keeps_slot :
      (i : ℕ) (name : String) (rest : List String) (last : Option HandlerError) (previous : String)
      (w : World) (m : CircuitBreakerManager)
      → w.breakers ≡ some m
      → get_backend_by_name route.namespace name store ≡ none
      → (view m name).state ≡ state_half_open
      → (view m name).half_open_requests <ℤ (view m name).config.half_open_max_requests
      → (m' : CircuitBreakerManager) × (try_backend env store route req i name rest last previous w
          ≡ on (record w { breakers = some m' }) (some (not_found name)) previous)
        × (view m' name ≡ record (view m name) {
          half_open_requests = (view m name).half_open_requests +ℤ pos 1;
        })
  missing_keeps_slot i name rest last previous w m held missing half free =
      let now = (env.attempt i).allow_at in
      let (grants, slot) = takes_slot (view m name) now half free in
      let (answer, viewed) = manager_allow-view name m name now in
      (
        (manager_allow now name m).0,
        missing_records_nothing i name rest last previous w m held (answer ∙ grants) missing,
        viewed ∙ (rw (==_refl name) slot),
      )

-- ===== src/Backend/Fallback/Rounds.antt =====
-- The rule by which what each round keeps holds behind the loop over the fallback chain
-- (`ExecuteWithFallback` of internal/proxy/backend.go).
use kortex.Common.{
  ℕ, suc, ◌≡◌, ◌⊎◌, inl, inr, refl, String, Option, none, some, List, [], ◌∷◌, Bool-cases, Bool,
  not, ◌&&◌, ◌==◌, string_eq,
}
use kortex.Http.{Request}
use kortex.Api.{InferenceBackend, InferenceRoute}
use kortex.Cache.{Store, get_backend_by_name, health_status_healthy}
use kortex.Breaker.{BreakerError}
use kortex.Breaker.Manager.{CircuitBreakerManager, manager_allow}
use kortex.Backend.Proxying.{World, Env, HandlerError, blocked, not_found}
use kortex.Backend.Fallback.{
  Turn, on, stop, Ending, allowed_with, attempt_backend, found, checked, try_backend, finish,
  run_chain, has_more,
}

-- What holds after a round of the loop: `P` of the state it goes on with, `Q` where it returns.
abbrev pub AfterTurn :
    (World → Option HandlerError → Type 0) → (World → Ending → Type 0) → Turn → Type 0
AfterTurn P Q (on w last previous) = P w last
AfterTurn P Q (stop w ending) = Q w ending

pub AfterTurn-mono :
    (P P' : World → Option HandlerError → Type 0) (Q Q' : World → Ending → Type 0)
    → ((w : World) (last : Option HandlerError) → P w last → P' w last)
    → ((w : World) (ending : Ending) → Q w ending → Q' w ending)
    → (t : Turn) → AfterTurn P Q t
    → AfterTurn P' Q' t
AfterTurn-mono P P' Q Q' f g (on w last previous) h = f w last h
AfterTurn-mono P P' Q Q' f g (stop w ending) h = g w ending h

Turn-cases :
    (t : Turn)
    → ((w : World) × (last : Option HandlerError) × (previous : String) × (t ≡ on w last previous))
      ⊎ ((w : World) × (ending : Ending) × (t ≡ stop w ending))
Turn-cases (on w last previous) = inl (w, last, previous, refl)
Turn-cases (stop w ending) = inr (w, ending, refl)

-- The rule for the loop: what each round keeps holds behind it, where `finish` makes `Q` of `P`.
module _ (env : Env) (store : Store) (route : InferenceRoute) (req : Request) where
  -- One round, and then the rest of the chain.
  pub run_chain-cons :
      (P : World → Option HandlerError → Type 0) (Q : World → Ending → Type 0) (i : ℕ)
      (name : String) (rest : List String) (last : Option HandlerError) (previous : String)
      (w : World)
      → AfterTurn P Q (try_backend env store route req i name rest last previous w)
      → ((last' : Option HandlerError) (previous' : String) (w' : World)
          → P w' last'
          → Q
              (run_chain env store route req (suc i) rest last' previous' w').0
              (run_chain env store route req (suc i) rest last' previous' w').1)
      → Q
          (run_chain env store route req i (name ∷ rest) last previous w).0
          (run_chain env store route req i (name ∷ rest) last previous w).1
  unfolding run_chain
  run_chain-cons P Q i name rest last previous w h later =
      elim (Turn-cases (try_backend env store route req i name rest last previous w)) [
        | inl (w', last', previous', e) ↦ rw (e, run_chain) (later last' previous' w' (rw e at h))
        | inr (w', ending, e) ↦ rw (e, run_chain) (rw e at h)
      ]

  pub run_chain_rule :
      (P : World → Option HandlerError → Type 0) (Q : World → Ending → Type 0)
      → ((i : ℕ) (name : String) (rest : List String) (last : Option HandlerError)
            (previous : String) (w : World)
          → P w last
          → AfterTurn P Q (try_backend env store route req i name rest last previous w))
      → ((w : World) (last : Option HandlerError)
          → P w last
          → Q (finish last w).0 (finish last w).1)
      → (i : ℕ) (chain : List String) (last : Option HandlerError) (previous : String) (w : World)
      → P w last
      → Q
          (run_chain env store route req i chain last previous w).0
          (run_chain env store route req i chain last previous w).1
  unfolding run_chain
  run_chain_rule P Q keep end i [] last previous w p = end w last p
  run_chain_rule P Q keep end i (name ∷ rest) last previous w p =
      run_chain-cons P Q i name rest last previous w (keep i name rest last previous w p)
        (λ last' previous' w' p'. run_chain_rule P Q keep end (suc i) rest last' previous' w' p')

-- The rule for a round: what an `Allow` and an error keep, it is enough to see through attempts.
module _ (env : Env) (store : Store) (route : InferenceRoute) (req : Request)
    (P : World → Option HandlerError → Type 0) (Q : World → Ending → Type 0)
    (breakers_free : (w : World) (last : Option HandlerError) (m : Option CircuitBreakerManager)
      → P w last
      → P (record w { breakers = m }) last)
    (last_free : (w : World) (last : Option HandlerError) (e : HandlerError)
      → P w last
      → P w (some e))
    (attempts : (i : ℕ) (name : String) (rest : List String) (previous : String)
        (b : InferenceBackend) (last : Option HandlerError) (w : World)
      → P w last
      → AfterTurn P Q (attempt_backend env store route req i name rest previous b w)) where
  found_rule :
      (i : ℕ) (name : String) (rest : List String) (last : Option HandlerError) (previous : String)
      (w : World) (b : Option InferenceBackend)
      → P w last
      → AfterTurn P Q (found env store route req i name rest last previous w b)
  unfolding found
  found_rule i name rest last previous w none p = last_free w last (not_found name) p
  found_rule i name rest last previous w (some b) p = elim (Bool-cases skipped) [
    | inl skip ↦ rw skip p
    | inr attempted ↦ rw attempted (attempts i name rest previous b last w p)
  ]
    where
      skipped : Bool
      skipped = not (b.status.health == health_status_healthy) && has_more rest

  checked_rule :
      (i : ℕ) (name : String) (rest : List String) (last : Option HandlerError) (previous : String)
      (w : World) (e : Option BreakerError)
      → P w last
      → AfterTurn P Q (checked env store route req i name rest last previous (w, e))
  unfolding checked
  checked_rule i name rest last previous w (some e) p = last_free w last (blocked e) p
  checked_rule i name rest last previous w none p =
      found_rule i name rest last previous w (get_backend_by_name route.namespace name store) p

  asked_rule :
      (i : ℕ) (name : String) (rest : List String) (last : Option HandlerError) (previous : String)
      (w : World) (m : Option CircuitBreakerManager)
      → P w last
      → AfterTurn P Q (
          checked env store route req i name rest last previous
            (allowed_with (env.attempt i).allow_at name w m))
  unfolding allowed_with
  asked_rule i name rest last previous w none p = checked_rule i name rest last previous w none p
  asked_rule i name rest last previous w (some m) p =
      checked_rule i name rest last previous
        (record w { breakers = some (manager_allow (env.attempt i).allow_at name m).0 })
        (manager_allow (env.attempt i).allow_at name m).1 (breakers_free w last _ p)

  pub try_backend_rule :
      (i : ℕ) (name : String) (rest : List String) (last : Option HandlerError) (previous : String)
      (w : World)
      → P w last
      → AfterTurn P Q (try_backend env store route req i name rest last previous w)
  unfolding try_backend
  try_backend_rule i name rest last previous w p =
      asked_rule i name rest last previous w w.breakers p

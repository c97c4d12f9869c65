-- ===== src/Backend/Fallback/Bodies.antt =====
-- The bodies that the backends of a chain receive (`ExecuteWithFallback` of
-- internal/proxy/backend.go): where the request is not buffered, only the first attempt has one.
use kortex.Common.{
  ap, ◌∙◌, false, if◌then◌else◌, ℕ, ◌≡◌, inl, inr, refl, String, Option, none, some, List, [], ◌∷◌,
  ◌++◌, arith, All, All-append,
}
use kortex.Http.{Request}
use kortex.Api.{InferenceBackend, InferenceRoute, BackendRef}
use kortex.Cache.{Store}
use kortex.Backend.Target.{Url}
use kortex.Backend.Proxying.{
  World, Env, OutRequest, HandlerError, metric, execute_request, director,
}
use kortex.Backend.Proxying.Status.{Effects, execute_request-Effects}
use kortex.Backend.Fallback.{
  is_abort, started, conclude, attempt_backend, finish, execute_with_fallback, build_fallback_chain,
  attempt_timeout,
}
use kortex.Backend.Fallback.Rounds.{AfterTurn, AfterTurn-mono, run_chain_rule, try_backend_rule}

abbrev pub NoBody : OutRequest → Type 0
NoBody o = o.body ≡ none

-- Once a request has been sent its body is gone, and all requests but the first had none.
abbrev pub Drained : List OutRequest → Option String → Type 0
Drained [] body = Unit
Drained (o ∷ os) body = (body ≡ none) × All NoBody os

abbrev pub Behind : List OutRequest → Type 0
Behind [] = Unit
Behind (o ∷ os) = All NoBody os

director-NoBody :
    (env : Env) (b : InferenceBackend) (url : Url) (req : Request) (body : Option String)
    → body ≡ none
    → NoBody (director env b url req body)
unfolding director
director-NoBody env b url req body h = ground arith

Drained-append :
    (env : Env) (b : InferenceBackend) (url : Url) (req : Request) (os : List OutRequest)
    (body : Option String)
    → Drained os body
    → Drained (os ++ director env b url req body ∷ []) none
Drained-append env b url req [] body h = (refl, tt)
Drained-append env b url req (o ∷ os) body (gone, rest) =
    (refl, All-append NoBody os _ rest (director-NoBody env b url req body gone, tt))

Drained-Behind : (os : List OutRequest) (body : Option String) → Drained os body → Behind os
Drained-Behind [] body h = tt
Drained-Behind (o ∷ os) body h = h.1

started_same :
    (route previous name : String) (w : World)
    → ((started route previous name w).sent ≡ w.sent)
      × ((started route previous name w).body ≡ w.body)
      × ((started route previous name w).buffered ≡ w.buffered)
unfolding started metric
started_same route previous name w = ground arith

module _ (env : Env) (store : Store) (route : InferenceRoute) (req : Request) where
  abbrev Kept : World → Type 0
  Kept w = (w.buffered ≡ false) × Drained w.sent w.body

  Effects-Kept :
      (i : ℕ) (b : InferenceBackend) (w w' : World)
      → Effects env i route b (attempt_timeout route) req w w'
      → Kept w
      → Kept w'
  Effects-Kept i b w w' f (plain, h) = (
    f.same_buffered ∙ plain,
    elim f.sends [
      | inl (same, kept) ↦ rw (same, kept) h
      | inr (url, sent, left) ↦
          rw (sent, left ∙ ap (λ t. if t then (env.attempt i).unread else none) plain)
            (Drained-append env b url req w.sent w.body h)
    ],
  )

  abbrev SameSent : World → World → Type 0
  SameSent w w' = (w'.sent ≡ w.sent) × (w'.body ≡ w.body) × (w'.buffered ≡ w.buffered)

  conclude-SameSent :
      (i : ℕ) (name : String) (rest : List String) (w : World) (status : ℕ)
      (e : Option HandlerError)
      → AfterTurn
          (λ w' l. SameSent w w')
          (λ w' e. SameSent w w')
          (conclude env store route req i name rest (w, status, e))
  unfolding conclude metric is_abort
  conclude-SameSent i name [] w status none = ground arith
  conclude-SameSent i name [] w status (some x) = ground arith
  conclude-SameSent i name (more ∷ rest) w status none = ground arith
  conclude-SameSent i name (more ∷ rest) w status (some x) = ground arith

  attempt-Kept :
      (i : ℕ) (name : String) (rest : List String) (previous : String) (b : InferenceBackend)
      (last : Option HandlerError) (w : World)
      → Kept w
      → AfterTurn
          (λ w l. Kept w)
          (λ w e. Kept w)
          (attempt_backend env store route req i name rest previous b w)
  unfolding attempt_backend
  attempt-Kept i name rest previous b last w h =
      let w1 = started route.name previous name w in
      let r = execute_request env i (attempt_timeout route) route b req w1 in
      let (sent, body, buffered) = started_same route.name previous name w in
      let kept : Kept r.0 =
        Effects-Kept i b w1 r.0
          (execute_request-Effects env i route b (attempt_timeout route) req w1)
          (buffered ∙ h.0, rw (sent, body) h.1) in
      AfterTurn-mono (λ w l. SameSent r.0 w) (λ w l. Kept w) (λ w e. SameSent r.0 w) (λ w e. Kept w)
        (λ w l same. (same.2 ∙ kept.0, rw (same.0, same.1) kept.1))
        (λ w e same. (same.2 ∙ kept.0, rw (same.0, same.1) kept.1)) _
        (conclude-SameSent i name rest r.0 r.1 r.2)

  finish-Kept : (w : World) (last : Option HandlerError) → Kept w → Kept (finish last w).0
  unfolding finish
  finish-Kept w none h = h
  finish-Kept w (some e) h = h

  -- Of the requests that a chain sends to its backends, only the first one carries the body, unless
  -- the smart router has put the body in a buffer before.
  pub later_attempts-NoBody :
      (primary : BackendRef) (w : World)
      → w.buffered ≡ false
      → w.sent ≡ []
      → Behind (execute_with_fallback env store route req primary w).0.sent
  unfolding execute_with_fallback
  later_attempts-NoBody primary w plain fresh =
      let h =
        (run_chain_rule env store route req (λ w l. Kept w) (λ w e. Kept w)
          (try_backend_rule env store route req (λ w l. Kept w) (λ w e. Kept w) (λ w last m h. h)
            (λ w last e h. h) attempt-Kept)
          finish-Kept 0 (build_fallback_chain route primary) none "" w (plain, rw fresh tt)) in
      Drained-Behind _ _ h.1

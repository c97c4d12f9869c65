-- ===== src/Router/Handling.antt =====
-- Every request is answered (`HandleRequest` of internal/proxy/router.go).
use kortex.Common.{
  ℕ, ◌≡◌, ◌<◌, ◌^◌, inl, inr, refl, String, Option, none, some, List, [], ◌∷◌, All, Bool-cases,
  ◌==◌, string_eq, ap, ◌∙◌, Bool, Result, not, ◌||◌,
}
use kortex.Common.Int.{pos}
use kortex.Common.Dict.{lookup}
use kortex.Common.Text.{is_empty}
use kortex.Http.{Request, header_get}
use kortex.Http.Laws.{status-http_error, or_code}
use kortex.Api.{InferenceRoute, RouteRule, BackendRef}
use kortex.Cache.{Store, NamespacedName, key_eq, get_route, values_in, list_routes_in_namespace}
use kortex.SmartRouter.{SmartRouterConfig, select_backend}
use kortex.Experiments.{ExperimentManager, apply_experiment, set_experiment_headers}
use kortex.Backend.Proxying.{World, Env}
use kortex.Backend.Fallback.Endings.{Answered, execute_with_fallback-Answered}
use kortex.Router.{
  Router, RouterEnv, Routed, refused, forwarded, crashed, first_operational, find_matching_route,
  match_rule, rule_matches, select_weighted_backend, smart_choice, estimated, backends_of, refuse,
  forward, with_experiments, selected, with_backends, with_route, handle_request,
}
use kortex.Router.Weights.{IsWeighted, shares, select_weighted_backend-In}

-- The weights of several backends are not negative, and an int32 holds their sum; a single one is
-- taken whatever its weight.
abbrev pub IsBalanced : List BackendRef → Type 0
IsBalanced [] = Unit
IsBalanced (a ∷ []) = Unit
IsBalanced (a ∷ b ∷ bs) = All IsWeighted (a ∷ b ∷ bs) × (shares (a ∷ b ∷ bs) < 2 ^ 31)

abbrev pub IsRoutable : InferenceRoute → Type 0
IsRoutable route = All (λ rule. IsBalanced rule.backends) route.spec.rules

abbrev pub AllRoutable : List (NamespacedName × InferenceRoute) → Type 0
AllRoutable m = All (λ entry. IsRoutable entry.1) m

-- The client has the status of a refusal, or the fallback chain has answered; no choice of a backend
-- panicked.
abbrev pub Replied : Router × World × Routed → Type 0
Replied (r, w, refused code) = w.writer.status ≡ some code
Replied (r, w, forwarded name ending) = Answered w ending
Replied (r, w, crashed) = ⊥

abbrev Holds {ℓ} : {A : Type 0} → (A → Type ℓ) → Option A → Type ℓ
Holds P none = Unit
Holds P (some a) = P a

module _ {V : Type 0} (P : V → Type 0) where
  lookup-All :
      (k : NamespacedName) (m : List (NamespacedName × V))
      → All (λ e. P e.1) m
      → Holds P (lookup k m)
  unfolding lookup
  lookup-All k [] h = tt
  lookup-All k ((j, v) ∷ m) h = elim (Bool-cases (j == k)) [
    | inl same ↦ rw same h.0
    | inr other ↦ rw other (lookup-All k m h.1)
  ]

  values_in-All :
      (namespace : String) (m : List (NamespacedName × V))
      → All (λ e. P e.1) m
      → All P (values_in namespace m)
  unfolding values_in
  values_in-All namespace [] h = tt
  values_in-All namespace ((j, v) ∷ m) h = elim (Bool-cases (j.namespace == namespace)) [
    | inl same ↦ rw same (h.0, values_in-All namespace m h.1)
    | inr other ↦ rw other (values_in-All namespace m h.1)
  ]

first_operational-All :
    (P : InferenceRoute → Type 0) (routes : List InferenceRoute)
    → All P routes
    → Holds P (first_operational routes)
unfolding first_operational
first_operational-All P [] h = tt
first_operational-All P (route ∷ routes) h =
    elim (Bool-cases (route.status.phase == "Failed" || route.status.phase == "Pending")) [
      | inl down ↦ rw down (first_operational-All P routes h.1)
      | inr up ↦ rw up h.0
    ]

find_matching_route-All :
    (s : Store) (req : Request)
    → AllRoutable s.routes
    → Holds IsRoutable (find_matching_route s req)
unfolding find_matching_route get_route list_routes_in_namespace
find_matching_route-All s req h =
    elim (Bool-cases (not (is_empty (header_get "X-Route" req.header)))) [
      | inl named ↦ rw named (lookup-All IsRoutable _ s.routes h)
      | inr unnamed ↦
          rw unnamed (first_operational-All IsRoutable _ (values_in-All IsRoutable _ s.routes h))
    ]

match_rule-All :
    (path_match : (pattern name : String) → Result String Bool) (P : RouteRule → Type 0)
    (rules : List RouteRule) (req : Request)
    → All P rules
    → Holds P (match_rule path_match rules req)
unfolding match_rule
match_rule-All path_match P [] req h = tt
match_rule-All path_match P (rule ∷ rules) req h =
    elim (Bool-cases (rule_matches path_match rule req)) [
      | inl here ↦ rw here h.0
      | inr there ↦ rw there (match_rule-All path_match P rules req h.1)
    ]

-- `rand.Int31n` stays below its bound.
abbrev pub Draws : RouterEnv → Type 0
Draws renv = (n : ℕ) → 0 < n → renv.int31n n < n

select-some :
    (renv : RouterEnv)
    → Draws renv
    → (bs : List BackendRef) → IsBalanced bs
    → (b : BackendRef) × (select_weighted_backend renv.int31n bs ≡ some b)
unfolding select_weighted_backend
select-some renv draws [] h = (record { name = ""; weight = pos 0 }, refl)
select-some renv draws (a ∷ []) h = (a, refl)
select-some renv draws (a ∷ c ∷ bs) h =
    let (b, e, at) = select_weighted_backend-In renv.int31n a (c ∷ bs) draws h.0 h.1 in (b, e)

smart_choice-some :
    (renv : RouterEnv)
    → Draws renv
    → (config : Option SmartRouterConfig) (req : Request) (route : InferenceRoute)
      (bs : List BackendRef)
    → IsBalanced bs
    → (b : BackendRef) × (smart_choice renv config req route bs ≡ some b)
unfolding smart_choice
smart_choice-some renv draws none req route bs h = select-some renv draws bs h
smart_choice-some renv draws (some config) req route bs h =
    let d = select_backend renv.unmarshal config req route in
    elim (Bool-cases (is_empty d.backend)) [
      | inl unset ↦ rw unset (select-some renv draws bs h)
      | inr set ↦ rw set (record { name = d.backend; weight = pos 0 }, refl)
    ]

backends_of-All :
    (rule : Option RouteRule) (fallback : Option BackendRef)
    → Holds (λ r. IsBalanced r.backends) rule
    → Holds IsBalanced (backends_of rule fallback)
unfolding backends_of
backends_of-All (some rule) fallback h = h
backends_of-All none none h = tt
backends_of-All none (some b) h = tt

module _ (renv : RouterEnv) (env : Env) (r : Router) (req : Request) (w : World) where
  refuse-Replied :
      (message : String) (code : ℕ) → w.writer.status ≡ none → Replied (refuse message code r w)
  unfolding refuse
  refuse-Replied message code fresh =
      status-http_error message code w.writer ∙ ap (λ s. or_code s code) fresh

  with_experiments-Replied :
      (route : InferenceRoute) (b : BackendRef) (m : Option ExperimentManager)
      → Replied (with_experiments env r route req b w m)
  unfolding with_experiments forward
  with_experiments-Replied route b none = execute_with_fallback-Answered env r.cache route req b w
  with_experiments-Replied route b (some m) =
      let (m', name, result) = apply_experiment route.spec.experiments b.name req m in
      execute_with_fallback-Answered env r.cache route req (record b { name = name })
        (record w { writer = set_experiment_headers result w.writer })

module _ (renv : RouterEnv) (env : Env) (r : Router) (req : Request) (w : World) where
  with_backends-Replied :
      (route : InferenceRoute) (bs : Option (List BackendRef))
      → Draws renv
      → w.writer.status ≡ none
      → Holds IsBalanced bs
      → Replied (with_backends renv env r route req w bs)
  unfolding with_backends selected
  with_backends-Replied route none draws fresh h =
      refuse-Replied renv env r req w "No backend configured for this route" 503 fresh
  with_backends-Replied route (some bs) draws fresh h =
      let (b, e) = smart_choice-some renv draws r.smart_router req route bs h in
      rw e (
        with_experiments-Replied renv env r req (estimated r.smart_router req w) route b
          r.experiments)

  with_route-Replied :
      (route : Option InferenceRoute)
      → Draws renv
      → w.writer.status ≡ none
      → Holds IsRoutable route
      → Replied (with_route renv env r req w route)
  unfolding with_route
  with_route-Replied none draws fresh h =
      refuse-Replied renv env r req w "No matching route found" 404 fresh
  with_route-Replied (some route) draws fresh h =
      elim (Bool-cases (route.status.phase == "Failed")) [
        | inl failed ↦
            rw failed (refuse-Replied renv env r req w "Route is not operational" 503 fresh)
        | inr fine ↦ rw fine (
            with_backends-Replied route
              (backends_of (match_rule renv.path_match route.spec.rules req)
                route.spec.default_backend)
              draws fresh
              (backends_of-All _ route.spec.default_backend
                (match_rule-All renv.path_match _ route.spec.rules req h)))
      ]

-- A request to a router whose routes are balanced, whose draws stay below their bound and whose
-- writer has sent no status is answered, whatever it holds and whatever the breakers, the cache and
-- the backends do: with a status of the router's own, or as the fallback chain ends. The selection
-- of a backend does not panic.
pub handle_request-Replied :
    (renv : RouterEnv) (env : Env) (r : Router) (req : Request) (w : World)
    → Draws renv
    → AllRoutable r.cache.routes
    → w.writer.status ≡ none
    → Replied (handle_request renv env r req w)
unfolding handle_request
handle_request-Replied renv env r req w draws h fresh =
    with_route-Replied renv env r req w (find_matching_route r.cache req) draws fresh
      (find_matching_route-All r.cache req h)

-- ===== src/Controller/Routes/Naming.antt =====
-- The names that a route refers to (`collectBackendNames` and `findRoutesForBackend` of
-- internal/controller/inferenceroute_controller.go).
use kortex.Common.{
  ◌≡◌, refl, sym, ap, ◌∙◌, String, ◌==◌, string_eq, Bool, false, ◌||◌, Option, none, some, List, [],
  ◌∷◌, Bool-cases, inl, inr, arith,
}
use text.Mathlib.TextEquality.{eq_iff}
use kortex.Api.{InferenceRoute, RouteRule, BackendRef, FallbackChain, AbExperiment}
use kortex.Controller.Routes.{
  has_name, add_name, add_refs, add_rules, add_default, add_all, add_fallback, add_experiments,
  collect_backend_names,
}

-- Some entry passes a test.
unfoldable pub any {ℓ} : {A : Type ℓ} → (A → Bool) → List A → Bool
any test [] = false
any test (x ∷ xs) = test x || any test xs

unfoldable pub in_default : String → Option BackendRef → Bool
in_default name none = false
in_default name (some b) = b.name == name

unfoldable pub in_fallback : String → Option FallbackChain → Bool
in_fallback name none = false
in_fallback name (some chain) = any (λ n. n == name) chain.backends

-- A rule, the default, the fallback chain or an experiment of the route names the backend.
unfoldable pub references : String → InferenceRoute → Bool
references name route =
    any (λ e. e.control == name || e.treatment == name) route.spec.experiments
    || in_fallback name route.spec.fallback
    || in_default name route.spec.default_backend
    || any (λ (rule : RouteRule). any (λ b. b.name == name) rule.backends) route.spec.rules

has_name-add_name :
    (name new : String) (names : List String)
    → has_name name (add_name new names) ≡ (new == name || has_name name names)
unfolding has_name add_name
has_name-add_name name new names = elim (Bool-cases (has_name new names)) [
  | inl old ↦ elim (Bool-cases (new == name)) [
    | inl same ↦
        let e = (eq_iff new name).0 same in
        rw (old, same) (sym (ap (λ n. has_name n names) e) ∙ old)
    | inr other ↦ rw (old, other) refl
  ]
  | inr fresh ↦ rw fresh refl
]

has_name-add_refs :
    (name : String) (bs : List BackendRef) (names : List String)
    → has_name name (add_refs bs names) ≡ (any (λ b. b.name == name) bs || has_name name names)
unfolding add_refs any
has_name-add_refs name [] names = refl
has_name-add_refs name (b ∷ bs) names =
    ground (
      arith,
      has_name-add_refs name bs (add_name b.name names),
      has_name-add_name name b.name names,
    )

has_name-add_rules :
    (name : String) (rules : List RouteRule) (names : List String)
    → has_name name (add_rules rules names) ≡ (
        any (λ (rule : RouteRule). any (λ b. b.name == name) rule.backends) rules
        || has_name name names)
unfolding add_rules any
has_name-add_rules name [] names = refl
has_name-add_rules name (rule ∷ rules) names = ground (
  arith,
  has_name-add_rules name rules (add_refs rule.backends names),
  has_name-add_refs name rule.backends names,
)

has_name-add_all :
    (name : String) (news names : List String)
    → has_name name (add_all news names) ≡ (any (λ n. n == name) news || has_name name names)
unfolding add_all any
has_name-add_all name [] names = refl
has_name-add_all name (n ∷ ns) names =
    ground (arith, has_name-add_all name ns (add_name n names), has_name-add_name name n names)

has_name-add_default :
    (name : String) (b : Option BackendRef) (names : List String)
    → has_name name (add_default b names) ≡ (in_default name b || has_name name names)
unfolding add_default in_default
has_name-add_default name none names = refl
has_name-add_default name (some b) names = has_name-add_name name b.name names

has_name-add_fallback :
    (name : String) (chain : Option FallbackChain) (names : List String)
    → has_name name (add_fallback chain names) ≡ (in_fallback name chain || has_name name names)
unfolding add_fallback in_fallback
has_name-add_fallback name none names = refl
has_name-add_fallback name (some chain) names = has_name-add_all name chain.backends names

has_name-add_experiments :
    (name : String) (es : List AbExperiment) (names : List String)
    → has_name name (add_experiments es names)
      ≡ (any (λ e. e.control == name || e.treatment == name) es || has_name name names)
unfolding add_experiments any
has_name-add_experiments name [] names = refl
has_name-add_experiments name (e ∷ es) names =
    let names' = add_name e.control names in
    ground (
      arith,
      has_name-add_experiments name es (add_name e.treatment names'),
      has_name-add_name name e.treatment names',
      has_name-add_name name e.control names,
    )

-- The names that are collected are those of the backends to which the route refers.
pub has_name-collect_backend_names :
    (name : String) (route : InferenceRoute)
    → has_name name (collect_backend_names route) ≡ references name route
unfolding collect_backend_names references has_name
has_name-collect_backend_names name route =
    let by_rule = add_rules route.spec.rules [] in
    let by_default = add_default route.spec.default_backend by_rule in
    let by_chain = add_fallback route.spec.fallback by_default in
    ground (
      arith,
      has_name-add_experiments name route.spec.experiments by_chain,
      has_name-add_fallback name route.spec.fallback by_default,
      has_name-add_default name route.spec.default_backend by_rule,
      has_name-add_rules name route.spec.rules [],
    )

-- No name stands twice.
abbrev pub IsUnique : List String → Type 0
IsUnique [] = Unit
IsUnique (n ∷ ns) = (has_name n ns ≡ false) × IsUnique ns

add_name-IsUnique : (n : String) (ns : List String) → IsUnique ns → IsUnique (add_name n ns)
unfolding add_name
add_name-IsUnique n ns h = elim (Bool-cases (has_name n ns)) [
  | inl old ↦ rw old h
  | inr fresh ↦ rw fresh (fresh, h)
]

add_refs-IsUnique :
    (bs : List BackendRef) (ns : List String) → IsUnique ns → IsUnique (add_refs bs ns)
unfolding add_refs
add_refs-IsUnique [] ns h = h
add_refs-IsUnique (b ∷ bs) ns h = add_refs-IsUnique bs _ (add_name-IsUnique b.name ns h)

add_rules-IsUnique :
    (rules : List RouteRule) (ns : List String) → IsUnique ns → IsUnique (add_rules rules ns)
unfolding add_rules
add_rules-IsUnique [] ns h = h
add_rules-IsUnique (rule ∷ rules) ns h =
    add_rules-IsUnique rules _ (add_refs-IsUnique rule.backends ns h)

add_all-IsUnique : (news ns : List String) → IsUnique ns → IsUnique (add_all news ns)
unfolding add_all
add_all-IsUnique [] ns h = h
add_all-IsUnique (n ∷ news) ns h = add_all-IsUnique news _ (add_name-IsUnique n ns h)

add_default-IsUnique :
    (b : Option BackendRef) (ns : List String) → IsUnique ns → IsUnique (add_default b ns)
unfolding add_default
add_default-IsUnique none ns h = h
add_default-IsUnique (some b) ns h = add_name-IsUnique b.name ns h

add_fallback-IsUnique :
    (c : Option FallbackChain) (ns : List String) → IsUnique ns → IsUnique (add_fallback c ns)
unfolding add_fallback
add_fallback-IsUnique none ns h = h
add_fallback-IsUnique (some c) ns h = add_all-IsUnique c.backends ns h

add_experiments-IsUnique :
    (es : List AbExperiment) (ns : List String) → IsUnique ns → IsUnique (add_experiments es ns)
unfolding add_experiments
add_experiments-IsUnique [] ns h = h
add_experiments-IsUnique (e ∷ es) ns h =
    add_experiments-IsUnique es _
      (add_name-IsUnique e.treatment _ (add_name-IsUnique e.control ns h))

-- A route's names are collected once each, and are those of the backends to which a rule, the
-- default, the fallback chain or an experiment of the route refers.
pub collect_backend_names-IsUnique :
    (route : InferenceRoute)
    → IsUnique (collect_backend_names route)
      × ((name : String) → has_name name (collect_backend_names route) ≡ references name route)
unfolding collect_backend_names
collect_backend_names-IsUnique route = (
  add_experiments-IsUnique route.spec.experiments _ (
      add_fallback-IsUnique route.spec.fallback _ (
        add_default-IsUnique route.spec.default_backend _
          (add_rules-IsUnique route.spec.rules [] tt))),
  λ name. has_name-collect_backend_names name route,
)

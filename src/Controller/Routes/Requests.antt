-- ===== src/Controller/Routes/Requests.antt =====
-- Which routes are reconciled when a backend changes (`findRoutesForBackend` of
-- internal/controller/inferenceroute_controller.go).
use kortex.Common.{
  ◌≡◌, refl, ◌↔◌, String, true, Option, some, List, [], ◌∷◌, In, Any, Bool-cases, inl, inr, arith,
}
use kortex.Api.{InferenceRoute, InferenceBackend}
use kortex.Cache.{NamespacedName}
use kortex.Controller.Routes.{requests_from, requests_listed, find_routes_for_backend}
use kortex.Controller.Routes.Naming.{references, has_name-collect_backend_names}

abbrev pub key_of : InferenceRoute → NamespacedName
key_of route = record { namespace = route.namespace; name = route.name }

-- The route of a key refers to a backend.
abbrev pub Refers : String → NamespacedName → InferenceRoute → Type 0
Refers name key route = (references name route ≡ true) × (key_of route ≡ key)

requests_from-In :
    (name : String) (key : NamespacedName) (routes : List InferenceRoute)
    → In key (requests_from name routes) ↔ Any (Refers name key) routes
unfolding requests_from
requests_from-In name key [] = (λ h. h, λ h. h)
requests_from-In name key (route ∷ routes) =
    let rest = requests_from-In name key routes in
    let same = has_name-collect_backend_names name route in
    elim (Bool-cases (references name route)) [
      | inl refers ↦
          rw (same, refers)
            (
              λ h. elim h [ inl here ↦ inl (refl, here) | inr later ↦ inr (rest.0 later) ],
              λ h. elim h [ inl here ↦ inl here.1 | inr later ↦ inr (rest.1 later) ],
            )
      | inr ignores ↦
          rw (same, ignores)
            (
              λ h. inr (rest.0 h),
              λ h. elim h [ inl here ↦ ground arith | inr later ↦ rest.1 later ],
            )
    ]

-- When a backend changes, a key is reconciled exactly if some route of that key, among those listed
-- in the namespace of the backend, refers to the backend.
pub find_routes_for_backend-In :
    (list : String → Option (List InferenceRoute)) (b : InferenceBackend)
    (routes : List InferenceRoute) (key : NamespacedName)
    → list b.namespace ≡ some routes
    → In key (find_routes_for_backend list b) ↔ Any (Refers b.name key) routes
unfolding find_routes_for_backend requests_listed
find_routes_for_backend-In list b routes key listed = rw listed (requests_from-In b.name key routes)

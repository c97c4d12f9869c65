-- ===== src/Controller/Routes/Caching.antt =====
-- What the reconciler of routes does to the cache of the proxy
-- (internal/controller/inferenceroute_controller.go).
use kortex.Common.{
  refl, ◌≡◌, ap, ◌==◌, Bool-cases, inl, inr, String, Option, none, some, List, [], ◌∷◌, All,
}
use kortex.Common.Dict.{insert, delete, map_option}
use kortex.Api.{InferenceRoute, InferenceBackend}
use kortex.Cache.{NamespacedName, key_eq, Store, set_route, delete_route, set_backend}
use kortex.Router.Handling.{AllRoutable, IsRoutable}
use kortex.Controller.{Fetched, present, absent, unavailable}
use kortex.Controller.Routes.{
  RouteCluster, RouteReconciler, assessed_by, route_assessed, route_concluded, route_fetched,
  reconcile_route, put_condition, set_backends_condition, set_route_valid_condition,
  set_route_ready_condition,
}

module _ {V : Type 0} (P : V → Type 0) where
  insert-All :
      (k : NamespacedName) (v : V) (m : List (NamespacedName × V))
      → P v
      → All (λ e. P e.1) m
      → All (λ e. P e.1) (insert k v m)
  unfolding insert
  insert-All k v [] p h = (p, tt)
  insert-All k v ((j, u) ∷ m) p h = elim (Bool-cases (j == k)) [
    | inl same ↦ rw same (p, h.1)
    | inr other ↦ rw other (h.0, insert-All k v m p h.1)
  ]

  delete-All :
      (k : NamespacedName) (m : List (NamespacedName × V))
      → All (λ e. P e.1) m
      → All (λ e. P e.1) (delete k m)
  unfolding delete
  delete-All k [] h = tt
  delete-All k ((j, u) ∷ m) h = elim (Bool-cases (j == k)) [
    | inl same ↦ rw same (delete-All k m h.1)
    | inr other ↦ rw other (h.0, delete-All k m h.1)
  ]

-- The routes in a cache that may be nil.
abbrev pub InCache : Option Store → Type 0
InCache none = Unit
InCache (some s) = AllRoutable s.routes

pub set_backend-InCache :
    (k : NamespacedName) (b : InferenceBackend) (cache : Option Store)
    → InCache cache
    → InCache (map_option (set_backend k b) cache)
unfolding set_backend
set_backend-InCache k b none h = h
set_backend-InCache k b (some s) h = h

-- The API server only gives routes whose weights are balanced.
abbrev pub GivesRoutable : Fetched InferenceRoute → Type 0
GivesRoutable absent = Unit
GivesRoutable (unavailable e) = Unit
GivesRoutable (present route) = IsRoutable route

route_concluded-InCache :
    (k : NamespacedName) (route : InferenceRoute) (s : Store) (e : Option String)
    → IsRoutable route
    → AllRoutable s.routes
    → InCache (route_concluded k route (record { cache = some s }) e).0.cache
unfolding route_concluded set_route
route_concluded-InCache k route s none p h = insert-All IsRoutable k route s.routes p h
route_concluded-InCache k route s (some e) p h = h

assessed_by-IsRoutable :
    (c : RouteCluster) (route : InferenceRoute)
    → IsRoutable route
    → IsRoutable (assessed_by c route)
unfolding assessed_by route_assessed set_backends_condition set_route_valid_condition
    set_route_ready_condition put_condition
assessed_by-IsRoutable c route p = p

route_fetched-InCache :
    (c : RouteCluster) (k : NamespacedName) (s : Store) (f : Fetched InferenceRoute)
    → GivesRoutable f
    → AllRoutable s.routes
    → InCache (route_fetched c k (record { cache = some s }) f).0.cache
unfolding route_fetched delete_route
route_fetched-InCache c k s absent p h = delete-All IsRoutable k s.routes h
route_fetched-InCache c k s (unavailable e) p h = h
route_fetched-InCache c k s (present route) p h =
    let route' = assessed_by c route in
    route_concluded-InCache k route' s (c.update_error route') (assessed_by-IsRoutable c route p) h

-- A reconciliation keeps the routes in the cache balanced where the API server only gives such routes.
pub reconcile_route-InCache :
    (c : RouteCluster) (k : NamespacedName) (s : Store)
    → GivesRoutable (c.get k)
    → AllRoutable s.routes
    → InCache (reconcile_route c k (record { cache = some s })).0.cache
unfolding reconcile_route
reconcile_route-InCache c k s p h = route_fetched-InCache c k s (c.get k) p h

abbrev pub backends_in : Option Store → Option (List (NamespacedName × InferenceBackend))
backends_in none = none
backends_in (some s) = some s.backends

map_option-backends_in :
    (g : Store → Store) (cache : Option Store)
    → ((s : Store) → (g s).backends ≡ s.backends)
    → backends_in (map_option g cache) ≡ backends_in cache
map_option-backends_in g none same = refl
map_option-backends_in g (some s) same = ap some (same s)

route_concluded-backends_in :
    (k : NamespacedName) (route : InferenceRoute) (r : RouteReconciler) (e : Option String)
    → backends_in (route_concluded k route r e).0.cache ≡ backends_in r.cache
unfolding route_concluded set_route
route_concluded-backends_in k route r none =
    map_option-backends_in (set_route k route) r.cache (λ s. refl)
route_concluded-backends_in k route r (some e) = refl

route_fetched-backends_in :
    (c : RouteCluster) (k : NamespacedName) (r : RouteReconciler) (f : Fetched InferenceRoute)
    → backends_in (route_fetched c k r f).0.cache ≡ backends_in r.cache
unfolding route_fetched delete_route
route_fetched-backends_in c k r absent = map_option-backends_in (delete_route k) r.cache (λ s. refl)
route_fetched-backends_in c k r (unavailable e) = refl
route_fetched-backends_in c k r (present route) =
    let route' = assessed_by c route in
    route_concluded-backends_in k route' r (c.update_error route')

-- A reconciliation of a route leaves the backends in the cache as they are.
pub reconcile_route-backends_in :
    (c : RouteCluster) (k : NamespacedName) (r : RouteReconciler)
    → backends_in (reconcile_route c k r).0.cache ≡ backends_in r.cache
unfolding reconcile_route
reconcile_route-backends_in c k r = route_fetched-backends_in c k r (c.get k)

-- ===== src/Cache.antt =====
-- The cache of routes and backends between the controllers and the proxy (internal/cache/store.go).
-- Values are copied on the way in and out in the source, so they are plain values here. The order
-- of a map stands for the order in which the runtime happens to iterate.
pub mod Laws
pub mod Listing
mod Tests
use kortex.Common.{
  String, Bool, true, ◌&&◌, ◌≡◌, ◌↔◌, ap, ℕ, Option, none, some, List, [], ◌∷◌, Eq, ◌==◌, string_eq,
  if◌then◌else◌, length, arith,
}
use text.Mathlib.TextEquality.{eq_iff}
use kortex.Common.Dict.{lookup, insert, delete}
use kortex.Api.{InferenceRoute, InferenceBackend}

-- types.NamespacedName
pub record NamespacedName : Type 0 where
  pub namespace : String
  pub name : String

abbrev pub key_beq : NamespacedName → NamespacedName → Bool
key_beq a b = a.namespace == b.namespace && a.name == b.name

pub key_beq_iff : (a b : NamespacedName) → (key_beq a b ≡ true) ↔ (a ≡ b)
key_beq_iff a b = ground (arith, eq_iff a.namespace b.namespace, eq_iff a.name b.name)

instance abbrev pub key_eq : Eq NamespacedName
key_eq = record { same = key_beq; same_iff = key_beq_iff }

abbrev pub health_status_healthy : String
health_status_healthy = "Healthy"

abbrev pub health_status_unhealthy : String
health_status_unhealthy = "Unhealthy"

abbrev pub health_status_unknown : String
health_status_unknown = "Unknown"

pub record Store : Type 0 where
  pub routes : List (NamespacedName × InferenceRoute)
  pub backends : List (NamespacedName × InferenceBackend)

unfoldable pub new_store : Store
new_store = record { routes = []; backends = [] }

unfoldable pub set_route : NamespacedName → InferenceRoute → Store → Store
set_route key route s = record s { routes = insert key route s.routes }

unfoldable pub get_route : NamespacedName → Store → Option InferenceRoute
get_route key s = lookup key s.routes

unfoldable pub delete_route : NamespacedName → Store → Store
delete_route key s = record s { routes = delete key s.routes }

-- The values of a map, and those under the keys of a namespace.
unfoldable pub values : {V : Type 0} → List (NamespacedName × V) → List V
values [] = []
values ((k, v) ∷ m) = v ∷ values m

unfoldable pub values_in : {V : Type 0} → String → List (NamespacedName × V) → List V
values_in namespace [] = []
values_in namespace ((k, v) ∷ m) =
    if k.namespace == namespace then v ∷ values_in namespace m else values_in namespace m

unfoldable pub list_routes : Store → List InferenceRoute
list_routes s = values s.routes

unfoldable pub list_routes_in_namespace : String → Store → List InferenceRoute
list_routes_in_namespace namespace s = values_in namespace s.routes

unfoldable pub set_backend : NamespacedName → InferenceBackend → Store → Store
set_backend key backend s = record s { backends = insert key backend s.backends }

unfoldable pub get_backend : NamespacedName → Store → Option InferenceBackend
get_backend key s = lookup key s.backends

unfoldable pub delete_backend : NamespacedName → Store → Store
delete_backend key s = record s { backends = delete key s.backends }

unfoldable pub list_backends : Store → List InferenceBackend
list_backends s = values s.backends

unfoldable pub list_backends_in_namespace : String → Store → List InferenceBackend
list_backends_in_namespace namespace s = values_in namespace s.backends

healthy_only : Option InferenceBackend → Option InferenceBackend
healthy_only none = none
healthy_only (some b) = if b.status.health == health_status_healthy then some b else none

unfoldable pub get_healthy_backend : (namespace name : String) → Store → Option InferenceBackend
unfolding healthy_only get_backend
get_healthy_backend namespace name s =
    healthy_only (get_backend (record { namespace = namespace; name = name }) s)

unfoldable pub get_backend_by_name : (namespace name : String) → Store → Option InferenceBackend
unfolding get_backend
get_backend_by_name namespace name s = get_backend (record { namespace = namespace; name = name }) s

unfoldable pub get_route_by_name : (namespace name : String) → Store → Option InferenceRoute
unfolding get_route
get_route_by_name namespace name s = get_route (record { namespace = namespace; name = name }) s

pub record Stats : Type 0 where
  pub route_count : ℕ
  pub backend_count : ℕ

unfoldable pub get_stats : Store → Stats
get_stats s = record { route_count = length s.routes; backend_count = length s.backends }

-- The calls that change the store.
pub data StoreCall : Type 0 where
  sets_route : NamespacedName → InferenceRoute → StoreCall
  deletes_route : NamespacedName → StoreCall
  sets_backend : NamespacedName → InferenceBackend → StoreCall
  deletes_backend : NamespacedName → StoreCall

unfoldable pub store_step : Store → StoreCall → Store
unfolding set_route delete_route set_backend delete_backend
store_step s (sets_route k r) = set_route k r s
store_step s (deletes_route k) = delete_route k s
store_step s (sets_backend k b) = set_backend k b s
store_step s (deletes_backend k) = delete_backend k s

unfoldable pub store_run : Store → List StoreCall → Store
store_run s [] = s
store_run s (c ∷ cs) = store_run (store_step s c) cs

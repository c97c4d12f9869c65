-- ===== src/Cache/Laws.antt =====
-- The cache against its specification: two finite maps (internal/cache/store.go).
use kortex.Common.{
  String, ◌≡◌, ◌↔◌, refl, Option, Option-cases, inl, inr, string_eq, none, some, List, [], ◌∷◌,
  ◌==◌, if◌then◌else◌, arith,
}
use text.Mathlib.TextEquality.{eq_iff}
use kortex.Common.Dict.{lookup, lookup-insert, lookup-delete, IsDict, insert-IsDict, delete-IsDict}
use kortex.Api.{InferenceRoute, InferenceBackend}
use kortex.Cache.{
  NamespacedName, key_eq, Store, StoreCall, sets_route, deletes_route, sets_backend,
  deletes_backend, new_store, set_route, get_route, delete_route, set_backend, get_backend,
  delete_backend, get_healthy_backend, store_step, store_run, health_status_healthy,
}

-- What a history of calls left under a key: the value of the last call on it, if that was a set.
unfoldable pub last_route :
    NamespacedName → List StoreCall → Option InferenceRoute → Option InferenceRoute
last_route k [] o = o
last_route k (sets_route j r ∷ cs) o = last_route k cs (if j == k then some r else o)
last_route k (deletes_route j ∷ cs) o = last_route k cs (if j == k then none else o)
last_route k (c ∷ cs) o = last_route k cs o

unfoldable pub last_backend :
    NamespacedName → List StoreCall → Option InferenceBackend → Option InferenceBackend
last_backend k [] o = o
last_backend k (sets_backend j b ∷ cs) o = last_backend k cs (if j == k then some b else o)
last_backend k (deletes_backend j ∷ cs) o = last_backend k cs (if j == k then none else o)
last_backend k (c ∷ cs) o = last_backend k cs o

get_route-store_run :
    (k : NamespacedName) (cs : List StoreCall) (s : Store)
    → get_route k (store_run s cs) ≡ last_route k cs (get_route k s)
unfolding store_run store_step last_route get_route
get_route-store_run k [] s = refl
get_route-store_run k (sets_route j r ∷ cs) s =
    rw (get_route-store_run k cs (set_route j r s)) (rw (lookup-insert k j r s.routes))
get_route-store_run k (deletes_route j ∷ cs) s =
    rw (get_route-store_run k cs (delete_route j s)) (rw (lookup-delete k j s.routes))
get_route-store_run k (sets_backend j b ∷ cs) s = get_route-store_run k cs (set_backend j b s)
get_route-store_run k (deletes_backend j ∷ cs) s = get_route-store_run k cs (delete_backend j s)

get_backend-store_run :
    (k : NamespacedName) (cs : List StoreCall) (s : Store)
    → get_backend k (store_run s cs) ≡ last_backend k cs (get_backend k s)
unfolding store_run store_step last_backend get_backend
get_backend-store_run k [] s = refl
get_backend-store_run k (sets_backend j b ∷ cs) s =
    rw (get_backend-store_run k cs (set_backend j b s)) (rw (lookup-insert k j b s.backends))
get_backend-store_run k (deletes_backend j ∷ cs) s =
    rw (get_backend-store_run k cs (delete_backend j s)) (rw (lookup-delete k j s.backends))
get_backend-store_run k (sets_route j r ∷ cs) s = get_backend-store_run k cs (set_route j r s)
get_backend-store_run k (deletes_route j ∷ cs) s = get_backend-store_run k cs (delete_route j s)

-- After any calls on a new store, a key holds what the last call on that key and kind left there:
-- the value set, or nothing.
pub gets-last :
    (k : NamespacedName) (cs : List StoreCall)
    → (get_route k (store_run new_store cs) ≡ last_route k cs none)
      × (get_backend k (store_run new_store cs) ≡ last_backend k cs none)
unfolding new_store get_route get_backend lookup
gets-last k cs = (get_route-store_run k cs new_store, get_backend-store_run k cs new_store)

-- `GetHealthyBackend` finds exactly the stored backends whose status says healthy.
pub get_healthy_backend_iff :
    (namespace name : String) (s : Store) (b : InferenceBackend)
    → (get_healthy_backend namespace name s ≡ some b) ↔ (
        (get_backend (record { namespace = namespace; name = name }) s ≡ some b)
        × (b.status.health ≡ health_status_healthy))
unfolding get_healthy_backend
get_healthy_backend_iff namespace name s b = elim (Option-cases found) [
  | inl e ↦ ground arith
  | inr (c, e) ↦ ground (arith, eq_iff c.status.health health_status_healthy)
]
  where
    found : Option InferenceBackend
    found = lookup (record { namespace = namespace; name = name }) s.backends

-- No key stands twice in either map.
pub record IsStore (s : Store) : Type 0 where
  pub routes_once : IsDict s.routes
  pub backends_once : IsDict s.backends

new-IsStore : IsStore new_store
unfolding new_store
new-IsStore = record { routes_once = tt; backends_once = tt }

store_step-IsStore : (s : Store) (c : StoreCall) → IsStore s → IsStore (store_step s c)
unfolding store_step
store_step-IsStore s (sets_route k r) v = record {
  routes_once = insert-IsDict k r s.routes v.routes_once;
  backends_once = v.backends_once;
}
store_step-IsStore s (deletes_route k) v = record {
  routes_once = delete-IsDict k s.routes v.routes_once;
  backends_once = v.backends_once;
}
store_step-IsStore s (sets_backend k b) v = record {
  routes_once = v.routes_once;
  backends_once = insert-IsDict k b s.backends v.backends_once;
}
store_step-IsStore s (deletes_backend k) v = record {
  routes_once = v.routes_once;
  backends_once = delete-IsDict k s.backends v.backends_once;
}

pub store_run-IsStore : (s : Store) (cs : List StoreCall) → IsStore s → IsStore (store_run s cs)
unfolding store_run
store_run-IsStore s [] v = v
store_run-IsStore s (c ∷ cs) v = store_run-IsStore (store_step s c) cs (store_step-IsStore s c v)

-- After any calls on a new store no key stands twice among its routes or among its backends.
pub store_run-new-IsStore : (cs : List StoreCall) → IsStore (store_run new_store cs)
store_run-new-IsStore cs = store_run-IsStore new_store cs new-IsStore

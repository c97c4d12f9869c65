-- ===== src/Controller/Backends/Caching.antt =====
-- What the reconciler of backends does to the cache of the proxy
-- (internal/controller/inferencebackend_controller.go).
use kortex.Common.{
  ◌≡◌, refl, ap, ◌∙◌, sym, ◌⊎◌, inl, inr, String, ◌==◌, string_eq, Bool-cases, Option, none, some,
  List, [], ◌∷◌, ◌++◌, In, Any-append_left, Any-append_right, if◌then◌else◌,
}
use mathlib.Core.Path.{subst⁻¹}
use kortex.Common.Int.{ℤ}
use kortex.Common.Dict.{lookup, lookup-insert, map_option}
use kortex.Api.{InferenceBackend}
use kortex.Cache.{NamespacedName, key_eq, key_beq_iff, Store, get_backend, set_backend}
use kortex.Controller.{Fetched, present, absent, unavailable}
use kortex.Controller.Backends.{
  Cluster, BackendReconciler, BackendEvent, validate_backend_config, cleanup_backend, persist,
  concluded, probed, misconfigured, update_status_with_error, validated, fetched, reconcile_backend,
  reconcile_backends,
}

-- The statuses only grow.
abbrev pub Grows : BackendReconciler → BackendReconciler → Type 0
Grows r r' =
    (more : List (NamespacedName × InferenceBackend)) × (r'.persisted ≡ r.persisted ++ more)

-- The cache stays, or takes a status that the API server has accepted.
abbrev pub Caches : BackendReconciler → BackendReconciler → Type 0
Caches r r' =
    ((r'.cache ≡ r.cache) × Grows r r')
    ⊎ ((k : NamespacedName) × (b : InferenceBackend) × (r'.cache
          ≡ map_option (set_backend k b) r.cache)
        × (r'.persisted ≡ r.persisted ++ (k, b) ∷ []))

append_nil : {A : Type 0} (xs : List A) → xs ≡ xs ++ []
append_nil [] = refl
append_nil (x ∷ xs) = ap (λ ys. x ∷ ys) (append_nil xs)

still : (r : BackendReconciler) → Grows r r
still r = ([], append_nil r.persisted)

misconfigured-Caches :
    (k : NamespacedName) (b : InferenceBackend) (r : BackendReconciler) (e : Option String)
    → Caches r (misconfigured k b r e).0
unfolding misconfigured persist
misconfigured-Caches k b r none = inl (refl, ((k, b) ∷ [], refl))
misconfigured-Caches k b r (some e) = inl (refl, still r)

concluded-Caches :
    (k : NamespacedName) (b : InferenceBackend) (r : BackendReconciler) (counts : List (String × ℤ))
    (e : Option String)
    → Caches r (concluded k b (record r { failure_counts = counts }) e).0
unfolding concluded persist
concluded-Caches k b r counts none = inr (k, b, refl, refl)
concluded-Caches k b r counts (some e) = inl (refl, still r)

validated-Caches :
    (c : Cluster) (k : NamespacedName) (b : InferenceBackend) (r : BackendReconciler)
    (e : Option String)
    → Caches r (validated c k b r e).0
unfolding validated probed update_status_with_error
validated-Caches c k b r none = concluded-Caches k _ r _ _
validated-Caches c k b r (some e) = misconfigured-Caches k _ r _

fetched-Caches :
    (c : Cluster) (k : NamespacedName) (r : BackendReconciler) (f : Fetched InferenceBackend)
    → Caches r (fetched c k r f).0
unfolding fetched cleanup_backend
fetched-Caches c k r absent = inl (refl, still r)
fetched-Caches c k r (unavailable e) = inl (refl, still r)
fetched-Caches c k r (present b) = validated-Caches c k b r (validate_backend_config b)

pub reconcile_backend-Caches :
    (c : Cluster) (k : NamespacedName) (r : BackendReconciler)
    → Caches r (reconcile_backend c k r).0
unfolding reconcile_backend
reconcile_backend-Caches c k r = fetched-Caches c k r (c.get k)

-- Something is cached under a key.
unfoldable pub IsCached : NamespacedName → Option Store → Type 0
IsCached k none = ⊥
IsCached k (some s) = (b : InferenceBackend) × (get_backend k s ≡ some b)

pub set_backend-IsCached :
    (k j : NamespacedName) (b : InferenceBackend) (cache : Option Store)
    → IsCached k cache
    → IsCached k (map_option (set_backend j b) cache)
unfolding IsCached get_backend set_backend
set_backend-IsCached k j b none h = h
set_backend-IsCached k j b (some s) h = elim (Bool-cases (j == k)) [
  | inl same ↦ (b, lookup-insert k j b s.backends ∙ rw same refl)
  | inr other ↦ (h.0, lookup-insert k j b s.backends ∙ rw other h.1)
]

-- No history of reconciliations takes a backend out of the cache, whether it is deleted from the
-- cluster, becomes invalid or cannot be fetched.
pub reconcile_backends-IsCached :
    (k : NamespacedName) (es : List BackendEvent) (r : BackendReconciler)
    → IsCached k r.cache
    → IsCached k (reconcile_backends es r).cache
unfolding reconcile_backends reconcile_backend
reconcile_backends-IsCached k [] r h = h
reconcile_backends-IsCached k (e ∷ es) r h =
    reconcile_backends-IsCached k es _ (elim (reconcile_backend-Caches e.cluster e.key r) [
      | inl kept ↦ subst⁻¹ (λ c. IsCached k c) kept.0 h
      | inr (j, b, cached, logged) ↦
          subst⁻¹ (λ c. IsCached k c) cached (set_backend-IsCached k j b r.cache h)
    ])

-- What the cache holds of a backend was accepted by the API server as its status.
unfoldable pub IsBacked : List (NamespacedName × InferenceBackend) → Option Store → Type 0
IsBacked log none = Unit
IsBacked log (some s) =
    (k : NamespacedName) (b : InferenceBackend) → get_backend k s ≡ some b → In (k, b) log

IsBacked-append :
    (log more : List (NamespacedName × InferenceBackend)) (cache : Option Store)
    → IsBacked log cache
    → IsBacked (log ++ more) cache
unfolding IsBacked
IsBacked-append log more none h = tt
IsBacked-append log more (some s) h = λ k b e. Any-append_left (λ x. x ≡ (k, b)) log more (h k b e)

or_else : InferenceBackend → Option InferenceBackend → InferenceBackend
or_else b none = b
or_else b (some a) = a

set_backend-IsBacked :
    (j : NamespacedName) (new : InferenceBackend) (log : List (NamespacedName × InferenceBackend))
    (cache : Option Store)
    → IsBacked log cache
    → IsBacked (log ++ (j, new) ∷ []) (map_option (set_backend j new) cache)
unfolding IsBacked get_backend set_backend or_else
set_backend-IsBacked j new log none h = tt
set_backend-IsBacked j new log (some s) h = λ k b e. elim (Bool-cases (j == k)) [
  | inl same ↦
      let key = (key_beq_iff j k).0 same in
      let found =
        lookup-insert k j new s.backends
        ∙ ap (λ t. if t then some new else lookup k s.backends) same in
      let value = ap (or_else new) (sym found ∙ e) in
      Any-append_right (λ x. x ≡ (k, b)) log ((j, new) ∷ []) (inl (λ i. (key i, value i)))
  | inr other ↦
      Any-append_left (λ x. x ≡ (k, b)) log ((j, new) ∷ [])
        (h k b (sym (lookup-insert k j new s.backends ∙ rw other refl) ∙ e))
]

-- Through any history of reconciliations, every backend in the cache has the status that the API
-- server accepted for it at some time.
pub reconcile_backends-IsBacked :
    (es : List BackendEvent) (r : BackendReconciler)
    → IsBacked r.persisted r.cache
    → IsBacked (reconcile_backends es r).persisted (reconcile_backends es r).cache
unfolding reconcile_backends reconcile_backend
reconcile_backends-IsBacked [] r h = h
reconcile_backends-IsBacked (e ∷ es) r h =
    let r' = (fetched e.cluster e.key r (e.cluster.get e.key)).0 in
    reconcile_backends-IsBacked es r'
      (elim (fetched-Caches e.cluster e.key r (e.cluster.get e.key)) [
        | inl (kept, (more, grown)) ↦
            subst⁻¹ (λ log. IsBacked log r'.cache) grown
              (subst⁻¹ (λ c. IsBacked (r.persisted ++ more) c) kept
                (IsBacked-append r.persisted more r.cache h))
        | inr (j, b, cached, logged) ↦
            subst⁻¹ (λ log. IsBacked log r'.cache) logged
              (subst⁻¹ (λ c. IsBacked (r.persisted ++ (j, b) ∷ []) c) cached
                (set_backend-IsBacked j b r.persisted r.cache h))
      ])

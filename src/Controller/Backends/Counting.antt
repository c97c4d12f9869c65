-- ===== src/Controller/Backends/Counting.antt =====
-- The count of failures and the status that it leads to (internal/controller/inferencebackend_controller.go).
use kortex.Common.{
  ℕ, suc, ◌+◌, ◌<◌, ◌≤◌, ◌^◌, ◌≡◌, refl, ap, ◌∙◌, String, ◌==◌, string_eq, Bool, true, false,
  Option, none, some, List, [], ◌∷◌, length, if◌then◌else◌, Bool-cases, inl, inr, arith,
}
use text.Mathlib.TextEquality.{eq_iff}
use kortex.Common.Int.{ℤ, pos, ◌+ℤ◌}
use kortex.Common.Dict.{insert, delete, lookup-insert, lookup-delete}
use kortex.Api.{InferenceBackend}
use kortex.Cache.{NamespacedName}
use kortex.Health.{Checker, HealthResult, check}
use kortex.Controller.{Fetched, present, absent, unavailable, request_text}
use kortex.Controller.Backends.{
  Cluster, BackendReconciler, BackendEvent, validate_backend_config, count_of, failures_after,
  or_zero, cleanup_backend, probed, concluded, persist, misconfigured, update_status_with_error,
  validated, fetched, reconcile_backend, reconcile_backends,
}

-- What a reconciliation learns of its backend: nothing, that it is gone, or the result of a check.
pub data Observed : Type 0 where
  unseen deleted : Observed
  probe_ended : (healthy : Bool) → Observed

observed_present : Cluster → Checker → InferenceBackend → Option String → Observed
observed_present c checker b (some e) = unseen
observed_present c checker b none = probe_ended (check c.probes checker b).healthy

observed_fetched : Cluster → Checker → Fetched InferenceBackend → Observed
unfolding observed_present
observed_fetched c checker absent = deleted
observed_fetched c checker (unavailable e) = unseen
observed_fetched c checker (present b) = observed_present c checker b (validate_backend_config b)

unfoldable pub observed : Checker → BackendEvent → Observed
unfolding observed_fetched
observed checker e = observed_fetched e.cluster checker (e.cluster.get e.key)

-- The failed checks in a row behind one more observation.
unfoldable pub next_streak : ℕ → Observed → ℕ
next_streak n unseen = n
next_streak n deleted = 0
next_streak n (probe_ended true) = 0
next_streak n (probe_ended false) = suc n

-- The failed checks of a key in a row, behind those that there were before a history.
unfoldable pub streak : Checker → String → ℕ → List BackendEvent → ℕ
streak checker key n [] = n
streak checker key n (e ∷ es) =
    streak checker key (if request_text e.key == key then next_streak n (observed checker e) else n)
      es

count_of-insert :
    (k key : String) (n : ℤ) (counts : List (String × ℤ))
    → count_of key (insert k n counts) ≡ (if k == key then n else count_of key counts)
unfolding count_of or_zero
count_of-insert k key n counts = elim (Bool-cases (k == key)) [
  | inl same ↦ rw (lookup-insert key k n counts, same) refl
  | inr other ↦ rw (lookup-insert key k n counts, other) refl
]

count_of-delete :
    (k key : String) (counts : List (String × ℤ))
    → count_of key (delete k counts) ≡ (if k == key then pos 0 else count_of key counts)
unfolding count_of or_zero
count_of-delete k key counts = elim (Bool-cases (k == key)) [
  | inl same ↦ rw (lookup-delete key k counts, same) refl
  | inr other ↦ rw (lookup-delete key k counts, other) refl
]

concluded-counts :
    (k : NamespacedName) (b : InferenceBackend) (r : BackendReconciler) (e : Option String)
    → (concluded k b r e).0.failure_counts ≡ r.failure_counts
unfolding concluded persist
concluded-counts k b r none = refl
concluded-counts k b r (some e) = refl

misconfigured-counts :
    (k : NamespacedName) (b : InferenceBackend) (r : BackendReconciler) (e : Option String)
    → (misconfigured k b r e).0.failure_counts ≡ r.failure_counts
unfolding misconfigured persist
misconfigured-counts k b r none = refl
misconfigured-counts k b r (some e) = refl

pub failures_after-next_streak :
    (healthy : Bool) (n : ℕ)
    → suc n < 2 ^ 31
    → failures_after healthy (pos n) ≡ pos (next_streak n (probe_ended healthy))
unfolding failures_after next_streak ◌+ℤ◌
failures_after-next_streak true n h = refl
failures_after-next_streak false n h = ground arith

probed-counts :
    (c : Cluster) (k : NamespacedName) (b : InferenceBackend) (result : HealthResult)
    (r : BackendReconciler) (key : String)
    → count_of key (probed c k b result r).0.failure_counts ≡ (
        if request_text k == key
        then failures_after result.healthy (count_of (request_text k) r.failure_counts)
        else count_of key r.failure_counts)
unfolding probed
probed-counts c k b result r key =
    ap (count_of key) (concluded-counts k _ _ _) ∙ count_of-insert (request_text k) key _ _

-- The count of a key goes with the streak, while an int32 holds it.
abbrev Counts : String → ℕ → Observed → NamespacedName → BackendReconciler → Type 0
Counts key n seen k r =
    count_of key r.failure_counts ≡ pos (if request_text k == key then next_streak n seen else n)

module _ (key : String) (n : ℕ) (room : suc n < 2 ^ 31) where
  probed-Counts :
      (c : Cluster) (k : NamespacedName) (b : InferenceBackend) (result : HealthResult)
      (r : BackendReconciler)
      → count_of key r.failure_counts ≡ pos n
      → Counts key n (probe_ended result.healthy) k (probed c k b result r).0
  probed-Counts c k b result r h = elim (Bool-cases (request_text k == key)) [
    | inl same ↦
        let e = (eq_iff (request_text k) key).0 same in
        probed-counts c k b result r key
        ∙ rw (same, e, h) (failures_after-next_streak result.healthy n room)
    | inr other ↦ probed-counts c k b result r key ∙ rw other h
  ]

  kept-Counts :
      (k : NamespacedName) (r : BackendReconciler)
      → count_of key r.failure_counts ≡ pos n
      → Counts key n unseen k r
  unfolding next_streak
  kept-Counts k r h = elim (Bool-cases (request_text k == key)) [
    | inl same ↦ rw same h
    | inr other ↦ rw other h
  ]

  validated-Counts :
      (c : Cluster) (k : NamespacedName) (b : InferenceBackend) (r : BackendReconciler)
      (e : Option String)
      → count_of key r.failure_counts ≡ pos n
      → Counts key n (observed_present c r.health_checker b e) k (validated c k b r e).0
  unfolding validated observed_present update_status_with_error
  validated-Counts c k b r none h = probed-Counts c k b (check c.probes r.health_checker b) r h
  validated-Counts c k b r (some e) h =
      ap (count_of key) (misconfigured-counts k _ r _) ∙ kept-Counts k r h

  fetched-Counts :
      (c : Cluster) (k : NamespacedName) (r : BackendReconciler) (f : Fetched InferenceBackend)
      → count_of key r.failure_counts ≡ pos n
      → Counts key n (observed_fetched c r.health_checker f) k (fetched c k r f).0
  unfolding fetched observed_fetched cleanup_backend next_streak
  fetched-Counts c k r absent h = elim (Bool-cases (request_text k == key)) [
    | inl same ↦ count_of-delete (request_text k) key r.failure_counts ∙ rw same refl
    | inr other ↦ count_of-delete (request_text k) key r.failure_counts ∙ rw other h
  ]
  fetched-Counts c k r (unavailable e) h = kept-Counts k r h
  fetched-Counts c k r (present b) h = validated-Counts c k b r (validate_backend_config b) h

checker-concluded :
    (k : NamespacedName) (b : InferenceBackend) (r : BackendReconciler) (e : Option String)
    → (concluded k b r e).0.health_checker ≡ r.health_checker
unfolding concluded persist
checker-concluded k b r none = refl
checker-concluded k b r (some e) = refl

checker-misconfigured :
    (k : NamespacedName) (b : InferenceBackend) (r : BackendReconciler) (e : Option String)
    → (misconfigured k b r e).0.health_checker ≡ r.health_checker
unfolding misconfigured persist
checker-misconfigured k b r none = refl
checker-misconfigured k b r (some e) = refl

checker-validated :
    (c : Cluster) (k : NamespacedName) (b : InferenceBackend) (r : BackendReconciler)
    (e : Option String)
    → (validated c k b r e).0.health_checker ≡ r.health_checker
unfolding validated probed update_status_with_error
checker-validated c k b r none = checker-concluded k _ _ _
checker-validated c k b r (some e) = checker-misconfigured k _ r _

checker-fetched :
    (c : Cluster) (k : NamespacedName) (r : BackendReconciler) (f : Fetched InferenceBackend)
    → (fetched c k r f).0.health_checker ≡ r.health_checker
unfolding fetched cleanup_backend
checker-fetched c k r absent = refl
checker-fetched c k r (unavailable e) = refl
checker-fetched c k r (present b) = checker-validated c k b r (validate_backend_config b)

next_streak_le : (n : ℕ) (seen : Observed) → next_streak n seen ≤ suc n
unfolding next_streak
next_streak_le n unseen = omega arith
next_streak_le n deleted = omega arith
next_streak_le n (probe_ended true) = omega arith
next_streak_le n (probe_ended false) = omega arith

pub streak_le :
    (checker : Checker) (key : String) (es : List BackendEvent) (n : ℕ)
    → streak checker key n es ≤ n + length es
unfolding streak
streak_le checker key [] n = omega arith
streak_le checker key (e ∷ es) n = elim (Bool-cases (request_text e.key == key)) [
  | inl same ↦
      let n' = next_streak n (observed checker e) in
      rw same (omega (arith, streak_le checker key es n', next_streak_le n (observed checker e)))
  | inr other ↦ rw other (omega (arith, streak_le checker key es n))
]

-- Over a history that with the count before it stays below 2^31, the count of failures of a key is
-- the number of its failed checks in a row: a check that succeeds and a deletion set it to zero,
-- and what happens to other keys, a fetch that fails and a bad configuration leave it.
pub reconcile_backends-streak :
    (key : String) (es : List BackendEvent) (n : ℕ) (r : BackendReconciler)
    → count_of key r.failure_counts ≡ pos n
    → n + length es < 2 ^ 31
    → count_of key (reconcile_backends es r).failure_counts ≡ pos (streak r.health_checker key n es)
unfolding reconcile_backends streak reconcile_backend observed
reconcile_backends-streak key [] n r h room = h
reconcile_backends-streak key (e ∷ es) n r h room =
    let seen = observed r.health_checker e in
    let n' = if request_text e.key == key then next_streak n seen else n in
    reconcile_backends-streak key es n' (fetched e.cluster e.key r (e.cluster.get e.key)).0
      (fetched-Counts key n (omega arith) e.cluster e.key r (e.cluster.get e.key) h)
      (elim (Bool-cases (request_text e.key == key)) [
        | inl same ↦ rw same (omega (arith, next_streak_le n seen))
        | inr other ↦ rw other (omega arith)
      ])
    ∙ ap (λ checker. pos (streak checker key n' es))
        (checker-fetched e.cluster e.key r (e.cluster.get e.key))

pub checker-reconcile_backends :
    (es : List BackendEvent) (r : BackendReconciler)
    → (reconcile_backends es r).health_checker ≡ r.health_checker
unfolding reconcile_backends reconcile_backend
checker-reconcile_backends [] r = refl
checker-reconcile_backends (e ∷ es) r =
    checker-reconcile_backends es _ ∙ checker-fetched e.cluster e.key r (e.cluster.get e.key)

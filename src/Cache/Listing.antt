-- ===== src/Cache/Listing.antt =====
-- What the listings of the cache hold (internal/cache/store.go).
use kortex.Common.{
  String, ◌≡◌, ◌≢◌, ◌↔◌, ◌⊎◌, inl, inr, sym, ◌∙◌, none, some, List, [], ◌∷◌, ◌==◌, arith, In,
  Bool-cases, ==_refl, string_eq,
}
use text.Mathlib.TextEquality.{eq_iff}
use kortex.Common.Dict.{lookup, IsDict}
use kortex.Api.{InferenceRoute, InferenceBackend}
use kortex.Cache.{
  NamespacedName, key_eq, key_beq, key_beq_iff, values_in, list_routes_in_namespace,
  list_backends_in_namespace, new_store, StoreCall, store_run,
}
use kortex.Cache.Laws.{store_run-new-IsStore}

none≢some : {V : Type 0} (v : V) → none ≢ some v
none≢some v e = cc

module _ {V : Type 0} (namespace : String) (v : V) where
  -- The value is stored in the namespace, under some name.
  abbrev pub StoredIn : List (NamespacedName × V) → Type 0
  StoredIn m = (name : String) × (lookup (record { namespace = namespace; name = name }) m ≡ some v)

  StoredIn-cons :
      (k : NamespacedName) (w : V) (m : List (NamespacedName × V))
      → lookup k m ≡ none
      → StoredIn m
      → StoredIn ((k, w) ∷ m)
  unfolding lookup
  StoredIn-cons k w m fresh (name, found) =
      let key : NamespacedName = record { namespace = namespace; name = name } in
      elim (Bool-cases (key_beq k key)) [
        | inl same ↦
            let e : k ≡ key = (key_beq_iff k key).0 same in
            absurd (none≢some v ((sym (rw e at fresh)) ∙ found))
        | inr other ↦ (name, rw other found)
      ]

  values_in-StoredIn :
      (m : List (NamespacedName × V)) → IsDict m → In v (values_in namespace m) → StoredIn m
  unfolding values_in lookup
  values_in-StoredIn [] d h = absurd h
  values_in-StoredIn ((k, w) ∷ m) (fresh, d) h = elim (Bool-cases (k.namespace == namespace)) [
    | inl here ↦
        let h' : (w ≡ v) ⊎ In v (values_in namespace m) = rw here at h in
        elim h' [
          | inl e ↦ (k.name, ground (arith, ==_refl k.name, here))
          | inr later ↦ StoredIn-cons k w m fresh (values_in-StoredIn m d later)
        ]
    | inr there ↦ StoredIn-cons k w m fresh (values_in-StoredIn m d (rw there at h))
  ]

  StoredIn-values_in :
      (m : List (NamespacedName × V)) (name : String)
      → lookup (record { namespace = namespace; name = name }) m ≡ some v
      → In v (values_in namespace m)
  unfolding values_in lookup
  StoredIn-values_in [] name h = ground arith
  StoredIn-values_in ((k, w) ∷ m) name h =
      ground (arith, StoredIn-values_in m name, eq_iff k.namespace namespace)

-- In a history of calls on a new store, the routes listed for a namespace are exactly those stored
-- under some name in it, and so are the backends.
pub listed_iff :
    (cs : List StoreCall) (namespace : String) (r : InferenceRoute) (b : InferenceBackend)
    → (In r (list_routes_in_namespace namespace (store_run new_store cs))
        ↔ StoredIn namespace r (store_run new_store cs).routes)
      × (In b (list_backends_in_namespace namespace (store_run new_store cs))
          ↔ StoredIn namespace b (store_run new_store cs).backends)
unfolding list_routes_in_namespace list_backends_in_namespace
listed_iff cs namespace r b =
    let v = store_run-new-IsStore cs in
    let s = store_run new_store cs in
    (
      (
        values_in-StoredIn namespace r s.routes v.routes_once,
        λ h. StoredIn-values_in namespace r s.routes h.0 h.1,
      ),
      (
        values_in-StoredIn namespace b s.backends v.backends_once,
        λ h. StoredIn-values_in namespace b s.backends h.0 h.1,
      ),
    )

-- ===== src/Controller.antt =====
-- The controllers (internal/controller): what they use of the Kubernetes API, and the reconcilers of
-- backends (`Backends`) and of routes (`Routes`), which keep the cache of the proxy.
pub mod Backends
pub mod Routes
use kortex.Common.{
  ℕ, ◌≡◌, String, ◌==◌, string_eq, Bool, Option, none, some, List, [], ◌∷◌, if◌then◌else◌,
}
use kortex.Common.Int.{ℤ, pos}
use kortex.Common.Text.{◌<>◌}
use kortex.Api.{Condition}
use kortex.Cache.{NamespacedName}

-- What `Get` of the Kubernetes client finds; `unavailable` is an error other than NotFound.
pub data Fetched {ℓ} (A : Type ℓ) : Type ℓ where
  present : A → Fetched A
  absent : Fetched A
  unavailable : String → Fetched A

-- ctrl.Result and the error of a reconciliation; the delay is in nanoseconds, zero for none.
pub record Reply : Type 0 where
  pub requeue_after : ℤ
  pub error : Option String

abbrev pub done : Reply
done = record { requeue_after = pos 0; error = none }

abbrev pub failing : String → Reply
failing e = record { requeue_after = pos 0; error = some e }

-- `NamespacedName.String`
abbrev pub request_text : NamespacedName → String
request_text key = key.namespace <> "/" <> key.name

abbrev pub new_condition :
    (kind : String) → (generation : ℤ) → (status reason message : String) → Condition
new_condition kind generation status reason message = record {
  kind = kind;
  status = status;
  observed_generation = generation;
  reason = reason;
  message = message;
}

-- The condition of a type.
unfoldable pub condition_of : String → List Condition → Option Condition
condition_of kind [] = none
condition_of kind (c ∷ cs) = if c.kind == kind then some c else condition_of kind cs

-- `meta.SetStatusCondition` of the Kubernetes API machinery is a parameter. What it documents: the
-- condition of the type is the one that was set, and those of other types stay.
abbrev pub SetsCondition : (Condition → List Condition → List Condition) → Type 0
SetsCondition set_condition =
    (c : Condition) (cs : List Condition) (kind : String)
    → condition_of kind (set_condition c cs)
      ≡ (if c.kind == kind then some c else condition_of kind cs)

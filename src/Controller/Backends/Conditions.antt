-- ===== src/Controller/Backends/Conditions.antt =====
-- The conditions behind a check (`setHealthCondition` and `setReadyCondition` of
-- internal/controller/inferencebackend_controller.go).
use kortex.Common.{
  ◌≡◌, refl, ap, ◌∙◌, ◌/◌, String, ◌==◌, string_eq, false, Option, some, if◌then◌else◌, Bool-cases,
  inl, inr,
}
use kortex.Common.Int.{pos}
use kortex.Common.Dict.{map_option}
use kortex.Api.{InferenceBackend, Condition}
use kortex.Health.{HealthResult}
use kortex.Controller.{condition_of, SetsCondition}
use kortex.Controller.Backends.{
  Cluster, health_condition, put_condition, set_health_condition, set_ready_condition, assessed,
}

-- The status of a condition of the resource, if there is one.
abbrev pub status_of : String → InferenceBackend → Option String
status_of kind b = map_option (λ c. c.status) (condition_of kind b.status.conditions)

module _ (c : Cluster) (law : SetsCondition c.set_condition) where
  status_of-put :
      (kind : String) (condition : Condition) (b : InferenceBackend)
      → status_of kind (put_condition c condition b)
        ≡ (if condition.kind == kind then some condition.status else status_of kind b)
  unfolding put_condition
  status_of-put kind condition b = elim (Bool-cases (condition.kind == kind)) [
    | inl same ↦ rw (law condition b.status.conditions kind, same) refl
    | inr other ↦ rw (law condition b.status.conditions kind, other) refl
  ]

  two_puts :
      (h d : Condition) (b : InferenceBackend) (other : String)
      → h.kind ≡ "Healthy"
      → d.kind ≡ "Ready"
      → ("Healthy" == other) ≡ false
      → ("Ready" == other) ≡ false
      → (status_of "Healthy" (put_condition c d (put_condition c h b)) ≡ some h.status)
        × (status_of "Ready" (put_condition c d (put_condition c h b)) ≡ some d.status)
        × (status_of other (put_condition c d (put_condition c h b)) ≡ status_of other b)
  two_puts h d b other is_h is_d apart_h apart_d = (
    status_of-put "Healthy" d (put_condition c h b)
        ∙ ap
            (λ k.
              if k == "Healthy" then some d.status else status_of "Healthy" (put_condition c h b))
            is_d
        ∙ status_of-put "Healthy" h b
        ∙ ap (λ k. if k == "Healthy" then some h.status else status_of "Healthy" b) is_h,
    status_of-put "Ready" d (put_condition c h b)
        ∙ ap (λ k. if k == "Ready" then some d.status else status_of "Ready" (put_condition c h b))
            is_d,
    status_of-put other d (put_condition c h b)
        ∙ ap (λ k. if k == other then some d.status else status_of other (put_condition c h b)) is_d
        ∙ ap (λ t. if t then some d.status else status_of other (put_condition c h b)) apart_d
        ∙ status_of-put other h b
        ∙ ap (λ k. if k == other then some h.status else status_of other b) is_h
        ∙ ap (λ t. if t then some h.status else status_of other b) apart_h,
  )

  conditions_of :
      (status : String) (e : Option String) (b : InferenceBackend) (other : String)
      → ("Healthy" == other) ≡ false
      → ("Ready" == other) ≡ false
      → (let b' = set_ready_condition c status (set_health_condition c status e b) in
          (status_of "Healthy" b'
            ≡ some (
                if status == "Healthy"
                then "True"
                else if status == "Unhealthy"
                then "False"
                else "Unknown"))
          × (status_of "Ready" b' ≡ some (if status == "Healthy" then "True" else "False"))
          × (status_of other b' ≡ status_of other b))
  unfolding set_ready_condition set_health_condition health_condition
  conditions_of status e b other apart_h apart_d = elim (Bool-cases (status == "Healthy")) [
    | inl up ↦ rw up (two_puts _ _ b other refl refl apart_h apart_d)
    | inr down ↦ rw down (elim (Bool-cases (status == "Unhealthy")) [
      | inl failed ↦ rw failed (two_puts _ _ b other refl refl apart_h apart_d)
      | inr open_yet ↦ rw open_yet (two_puts _ _ b other refl refl apart_h apart_d)
    ])
  ]

  -- Behind a check that leads to a status, the condition Healthy is true, false or unknown as the
  -- status is healthy, unhealthy or unknown, the condition Ready is true exactly for a healthy
  -- status, and the conditions of other types stay, where SetStatusCondition sets the condition of
  -- its type and no other.
  pub assessed-conditions :
      (status : String) (result : HealthResult) (b : InferenceBackend) (other : String)
      → ("Healthy" == other) ≡ false
      → ("Ready" == other) ≡ false
      → (let b' = assessed c status result b in
          (status_of "Healthy" b'
            ≡ some (
                if status == "Healthy"
                then "True"
                else if status == "Unhealthy"
                then "False"
                else "Unknown"))
          × (status_of "Ready" b' ≡ some (if status == "Healthy" then "True" else "False"))
          × (status_of other b' ≡ status_of other b))
  unfolding assessed
  assessed-conditions status result b other =
      conditions_of status result.error
        (record b {
          status = record b.status {
            health = status;
            average_latency_ms = pos (result.latency / 1_000_000);
            last_health_check = if result.healthy then some c.now else b.status.last_health_check;
          };
        })
        other

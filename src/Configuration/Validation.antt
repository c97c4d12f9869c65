-- ===== src/Configuration/Validation.antt =====
-- When a configuration has no errors (`ValidateConfig` of internal/config/watcher.go).
use kortex.Common.{
  ◌≡◌, refl, ◌↔◌, String, Bool, true, false, ◌&&◌, ◌||◌, List, [], ◌∷◌, ◌++◌, Bool-cases, inl, inr,
  arith,
}
use kortex.Common.Int.{ℤ, pos, ◌<ℤ◌, leb_ℤ}
use kortex.Common.Text.{is_empty}
use kortex.Configuration.{
  Rates, KortexConfig, SmartRoutingConfig, error_if, routing_errors, validate_config,
}

-- The thresholds of a smart router are in order, and the shorter one is positive.
abbrev pub IsOrdered : SmartRoutingConfig → Type 0
IsOrdered r =
    r.enabled ≡ true
    → (pos 0 <ℤ r.fast_model_threshold) × (r.fast_model_threshold <ℤ r.long_context_threshold)

traced_none : (enabled unset : Bool) → (enabled ≡ true → unset ≡ false) → (enabled && unset) ≡ false
traced_none true unset h = h refl
traced_none false unset h = refl

error_if-none : (b : Bool) (e : String) → (error_if b e ≡ []) ↔ (b ≡ false)
unfolding error_if
error_if-none true e = ground arith
error_if-none false e = ground arith

append-none : (xs ys : List String) → (xs ++ ys ≡ []) ↔ ((xs ≡ []) × (ys ≡ []))
append-none [] ys = (λ h. (refl, h), λ h. h.1)
append-none (x ∷ xs) ys = ground arith

order_iff :
    (l s : ℤ)
    → ((leb_ℤ l (pos 0) ≡ false) × (leb_ℤ s (pos 0) ≡ false) × (leb_ℤ l s ≡ false))
      ↔ ((pos 0 <ℤ s) × (s <ℤ l))
order_iff l s = ground arith

three-none :
    (a b c : Bool) (d e f : String)
    → (error_if a d ++ error_if b e ++ error_if c f ≡ [])
      ↔ ((a ≡ false) × (b ≡ false) × (c ≡ false))
three-none a b c d e f =
    let outer = append-none (error_if a d ++ error_if b e) (error_if c f) in
    let inner = append-none (error_if a d) (error_if b e) in
    (
      λ h.
          let (front, third) = outer.0 h in
          let (first, second) = inner.0 front in
          ((error_if-none a d).0 first, (error_if-none b e).0 second, (error_if-none c f).0 third),
      λ h. outer.1 (
        inner.1 ((error_if-none a d).1 h.0, (error_if-none b e).1 h.1),
        (error_if-none c f).1 h.2,
      ),
    )

routing_errors-none : (r : SmartRoutingConfig) → (routing_errors r ≡ []) ↔ IsOrdered r
unfolding routing_errors
routing_errors-none r =
    let l = r.long_context_threshold in
    let s = r.fast_model_threshold in
    let three =
      three-none (leb_ℤ l (pos 0)) (leb_ℤ s (pos 0)) (leb_ℤ l s)
        "smartRouting.longContextThreshold must be positive when enabled"
        "smartRouting.fastModelThreshold must be positive when enabled"
        "smartRouting.longContextThreshold must be greater than fastModelThreshold" in
    elim (Bool-cases r.enabled) [
      | inl on ↦
          rw on
            (λ h enabled. (order_iff l s).0 (three.0 h), λ h. three.1 ((order_iff l s).1 (h refl)))
      | inr off ↦ rw off (λ h enabled. ground arith, λ h. refl)
    ]

module _ (f : Rates) where
  abbrev pub IsSound : KortexConfig f → Type 0
  IsSound c =
      (is_empty c.gateway.bind_address ≡ false)
      × IsOrdered c.smart_routing
      × (c.observability.tracing.enabled ≡ true → is_empty c.observability.tracing.endpoint ≡ false)
      × (f.below_zero c.observability.tracing.sample_rate ≡ false)
      × (f.above_one c.observability.tracing.sample_rate ≡ false)

  -- A configuration has no errors exactly if it has an address to bind, positive thresholds in order
  -- where smart routing is enabled, an endpoint where tracing is enabled, and a sample rate that is
  -- neither below 0 nor above 1.
  pub validate_config-none : (c : KortexConfig f) → (validate_config f c ≡ []) ↔ IsSound c
  unfolding validate_config
  validate_config-none c =
      let t = c.observability.tracing in
      let traced = t.enabled && is_empty t.endpoint in
      let sampled = f.below_zero t.sample_rate || f.above_one t.sample_rate in
      let address = error_if (is_empty c.gateway.bind_address) "gateway.bindAddress is required" in
      let tracing =
        error_if traced "observability.tracing.endpoint is required when tracing is enabled" in
      let sampling =
        error_if sampled "observability.tracing.sampleRate must be between 0.0 and 1.0" in
      let routing = routing_errors c.smart_routing in
      let third = append-none (address ++ routing ++ tracing) sampling in
      let second = append-none (address ++ routing) tracing in
      let first = append-none address routing in
      let has_address =
        error_if-none (is_empty c.gateway.bind_address) "gateway.bindAddress is required" in
      let has_endpoint =
        error_if-none traced "observability.tracing.endpoint is required when tracing is enabled" in
      let has_rate =
        error_if-none sampled "observability.tracing.sampleRate must be between 0.0 and 1.0" in
      let ordered = routing_errors-none c.smart_routing in
      (
        λ h.
            let (front, e4) = third.0 h in
            let (pair, e3) = second.0 front in
            let (e1, e2) = first.0 pair in
            let no_trace = has_endpoint.0 e3 in
            let no_sample = has_rate.0 e4 in
            (has_address.0 e1, ordered.0 e2, λ enabled. ground arith, ground arith, ground arith),
        λ h. third.1 (
          second.1 (
            first.1 (has_address.1 h.0, ordered.1 h.1),
            has_endpoint.1 (traced_none t.enabled (is_empty t.endpoint) h.2),
          ),
          has_rate.1 (ground arith),
        ),
      )

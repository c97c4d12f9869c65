-- ===== src/SmartRouter/Selection.antt =====
-- The latency-based selection (`LatencyBasedSelection` of internal/proxy/smartrouter.go).
use kortex.Common.{
  ◌≡◌, refl, sym, ap, ◌∙◌, String, true, false, Option, none, some, List, [], ◌∷◌, All, In, inl,
  inr, ◌⊎◌, arith, string_eq, Option-cases, Bool-cases, ◌||◌,
}
use mathlib.Core.Path.{subst⁻¹}
use kortex.Common.Int.{ℤ, pos, negsuc, ◌≤ℤ◌, ltb_ℤ}
use kortex.Common.Dict.{lookup}
use kortex.Api.{BackendRef}
use kortex.SmartRouter.{fastest_from, faster, latency_based_selection}

module _ (health : List (String × ℤ)) where
  abbrev pub latency_of : BackendRef → Option ℤ
  latency_of b = lookup b.name health

  -- A latency that is known is not negative.
  abbrev pub IsMeasured : BackendRef → Type 0
  IsMeasured b = (l : ℤ) → latency_of b ≡ some l → pos 0 ≤ℤ l

  -- No known latency is below `l`.
  abbrev pub AtLeast : ℤ → BackendRef → Type 0
  AtLeast l b = (k : ℤ) → latency_of b ≡ some k → l ≤ℤ k

  -- The name and the latency of one of the backends.
  abbrev pub Candidate : List BackendRef → String × ℤ → Type 0
  Candidate bs r = (b : BackendRef) × In b bs × (r.0 ≡ b.name) × (latency_of b ≡ some r.1)

  AtLeast-step : (l k : ℤ) (bs : List BackendRef) → l ≤ℤ k → All (AtLeast k) bs → All (AtLeast l) bs
  AtLeast-step l k [] h hs = tt
  AtLeast-step l k (b ∷ bs) h hs = ((λ j e. omega (arith, h, hs.0 j e)), AtLeast-step l k bs h hs.1)

  -- The end of the loop from a best that is set: the best itself or a candidate, as fast as any.
  abbrev Outcome : List BackendRef → String × ℤ → String × ℤ → Type 0
  Outcome bs best r = ((r ≡ best) ⊎ Candidate bs r) × (r.1 ≤ℤ best.1) × All (AtLeast r.1) bs

  weaken :
      (b : BackendRef) (bs : List BackendRef) (r : String × ℤ)
      → Candidate bs r
      → Candidate (b ∷ bs) r
  weaken b bs r (c, at, name, known) = (c, inr at, name, known)

  kept :
      (b : BackendRef) (bs : List BackendRef) (best r : String × ℤ)
      → ((l : ℤ) → latency_of b ≡ some l → best.1 ≤ℤ l)
      → Outcome bs best r
      → Outcome (b ∷ bs) best r
  kept b bs best r slow (inl e, le, all) =
      (inl e, le, ((λ l known. omega (arith, le, slow l known)), all))
  kept b bs best r slow (inr c, le, all) =
      (inr (weaken b bs r c), le, ((λ l known. omega (arith, le, slow l known)), all))

  switched :
      (b : BackendRef) (bs : List BackendRef) (best r : String × ℤ) (l : ℤ)
      → latency_of b ≡ some l
      → l ≤ℤ best.1
      → Outcome bs (b.name, l) r
      → Outcome (b ∷ bs) best r
  switched b bs best r l known faster_than (from, le, all) = (
    inr (elim from [
      | inl e ↦ (b, inl refl, ap (λ p. p.0) e, known ∙ ap (λ p. some p.1) (sym e))
      | inr c ↦ weaken b bs r c
    ]),
    omega (arith, le, faster_than),
    ((λ k e. ground (arith, le, known, e)), all),
  )

  fastest_from-cons :
      (b : BackendRef) (bs : List BackendRef) (best next : String × ℤ)
      → faster b.name (latency_of b) best ≡ next
      → fastest_from health (b ∷ bs) best ≡ fastest_from health bs next
  unfolding fastest_from
  fastest_from-cons b bs best next e = ap (fastest_from health bs) e

  faster_unknown :
      (b : BackendRef) (best : String × ℤ)
      → latency_of b ≡ none
      → faster b.name (latency_of b) best ≡ best
  unfolding faster
  faster_unknown b best e = rw e refl

  faster_less :
      (b : BackendRef) (best : String × ℤ) (l : ℤ)
      → latency_of b ≡ some l
      → (ltb_ℤ best.1 (pos 0) || ltb_ℤ l best.1) ≡ true
      → faster b.name (latency_of b) best ≡ (b.name, l)
  unfolding faster
  faster_less b best l e h = rw (e, h) refl

  faster_not :
      (b : BackendRef) (best : String × ℤ) (l : ℤ)
      → latency_of b ≡ some l
      → (ltb_ℤ best.1 (pos 0) || ltb_ℤ l best.1) ≡ false
      → faster b.name (latency_of b) best ≡ best
  unfolding faster
  faster_not b best l e h = rw (e, h) refl

  fastest_from_none : (best : String × ℤ) → Outcome [] best (fastest_from health [] best)
  unfolding fastest_from
  fastest_from_none best = (inl refl, omega arith, tt)

  fastest_from_set :
      (bs : List BackendRef) (best : String × ℤ)
      → pos 0 ≤ℤ best.1
      → All IsMeasured bs
      → Outcome bs best (fastest_from health bs best)
  fastest_from_set [] best h hs = fastest_from_none best
  fastest_from_set (b ∷ bs) best h hs = elim (Option-cases (latency_of b)) [
    | inl unknown ↦
        subst⁻¹ (Outcome (b ∷ bs) best)
          (fastest_from-cons b bs best best (faster_unknown b best unknown))
          (kept b bs best _ (λ l e. ground (arith, unknown, e)) (fastest_from_set bs best h hs.1))
    | inr (l, known) ↦ elim (Bool-cases (ltb_ℤ best.1 (pos 0) || ltb_ℤ l best.1)) [
      | inl less ↦
          subst⁻¹ (Outcome (b ∷ bs) best)
            (fastest_from-cons b bs best (b.name, l) (faster_less b best l known less))
            (switched b bs best _ l known (ground (arith, h))
              (fastest_from_set bs (b.name, l) (hs.0 l known) hs.1))
      | inr more ↦
          subst⁻¹ (Outcome (b ∷ bs) best)
            (fastest_from-cons b bs best best (faster_not b best l known more))
            (kept b bs best _ (λ k e. ground (arith, known, e, more))
              (fastest_from_set bs best h hs.1))
    ]
  ]

  -- What the loop has at its end: nothing, when no latency is known, or one of the fastest.
  abbrev pub Chosen : List BackendRef → String × ℤ → Type 0
  Chosen bs r =
      ((r.0 ≡ "") × All (λ b. latency_of b ≡ none) bs) ⊎ (Candidate bs r × All (AtLeast r.1) bs)

  Chosen-behind :
      (b : BackendRef) (bs : List BackendRef) (r : String × ℤ)
      → latency_of b ≡ none
      → Chosen bs r
      → Chosen (b ∷ bs) r
  Chosen-behind b bs r unknown (inl (e, all)) = inl (e, (unknown, all))
  Chosen-behind b bs r unknown (inr (c, all)) =
      inr (weaken b bs r c, ((λ l e. ground (arith, unknown, e)), all))

  Chosen-set :
      (b : BackendRef) (bs : List BackendRef) (l : ℤ) (r : String × ℤ)
      → latency_of b ≡ some l
      → Outcome bs (b.name, l) r
      → Chosen (b ∷ bs) r
  Chosen-set b bs l r known (from, le, all) =
      let (start, _, every) = switched b bs (b.name, l) r l known (omega arith) (from, le, all) in
      elim start [
        | inl e ↦ inr ((b, inl refl, ap (λ p. p.0) e, known ∙ ap (λ p. some p.1) (sym e)), every)
        | inr c ↦ inr (c, every)
      ]

  fastest_from_unset :
      (bs : List BackendRef) → All IsMeasured bs → Chosen bs (fastest_from health bs ("", negsuc 0))
  unfolding fastest_from
  fastest_from_unset [] hs = inl (refl, tt)
  fastest_from_unset (b ∷ bs) hs = elim (Option-cases (latency_of b)) [
    | inl unknown ↦
        subst⁻¹ (Chosen (b ∷ bs))
          (fastest_from-cons b bs ("", negsuc 0) ("", negsuc 0)
            (faster_unknown b ("", negsuc 0) unknown))
          (Chosen-behind b bs _ unknown (fastest_from_unset bs hs.1))
    | inr (l, known) ↦
        subst⁻¹ (Chosen (b ∷ bs))
          (fastest_from-cons b bs ("", negsuc 0) (b.name, l)
            (faster_less b ("", negsuc 0) l known refl))
          (Chosen-set b bs l _ known (fastest_from_set bs (b.name, l) (hs.0 l known) hs.1))
  ]

  -- Where no known latency is negative, the selection is a backend whose latency is known and least
  -- among those of the list, or the empty name, and then no backend of the list has a known latency.
  pub latency_based_selection_lem :
      (bs : List BackendRef)
      → All IsMeasured bs
      → ((latency_based_selection bs health ≡ "") × All (λ b. latency_of b ≡ none) bs)
        ⊎ ((b : BackendRef) × (l : ℤ) × In b bs
            × (latency_based_selection bs health ≡ b.name)
            × (latency_of b ≡ some l)
            × All (AtLeast l) bs)
  unfolding latency_based_selection
  latency_based_selection_lem bs hs = elim (fastest_from_unset bs hs) [
    | inl nothing ↦ inl nothing
    | inr ((b, at, name, known), all) ↦
        inr (b, (fastest_from health bs ("", negsuc 0)).1, at, name, known, all)
  ]

-- ===== src/SmartRouter/Costing/Cheapest.antt =====
-- The cost-based selection finds a cheapest backend (`CostBasedSelection` of
-- internal/proxy/smartrouter.go).
use kortex.Common.{
  ◌≡◌, refl, sym, ap, ◌∙◌, String, true, false, ◌||◌, Option, none, some, List, [], ◌∷◌, In, inl,
  inr, ◌⊎◌, Bool-cases, Option-cases, arith, string_eq, if◌then◌else◌,
}
use mathlib.Core.Path.{subst⁻¹}
use kortex.Common.Int.{ℤ}
use kortex.Api.{BackendRef, CostConfig}
use kortex.SmartRouter.{SmartRouterConfig}
use kortex.SmartRouter.Costing.{Prices, cheaper, cheapest_from, price_of, cost_based_selection}

module _ (f : Prices) where
  open f use {Float, zero_price, minus_one, less}

  -- What the comparison of floats does where none is a NaN: nothing is less than itself, and being at
  -- least as large is transitive.
  abbrev pub Compares : Type 0
  Compares =
      ((x : Float) → less x x ≡ false)
      × ((x y z : Float) → less x y ≡ false → less y z ≡ false → less x z ≡ false)
      × ((x y : Float) → less x y ≡ true → less y x ≡ false)
      × (less minus_one zero_price ≡ true)

  module _ (price : BackendRef → Option Float) where
    -- A price that is known is not negative.
    abbrev pub IsPriced : BackendRef → Type 0
    IsPriced b = (x : Float) → price b ≡ some x → less x zero_price ≡ false

    -- Of the backends that `S` holds of, none has a price and the best is not set, or the best is one
    -- of them and none is cheaper.
    abbrev IsBest : (S : BackendRef → Type 0) → String × Float → Type 0
    IsBest S best =
        ((best ≡ ("", minus_one)) × ((b : BackendRef) → S b → price b ≡ none))
        ⊎ ((c : BackendRef) × S c
            × (best.0 ≡ c.name)
            × (price c ≡ some best.1)
            × ((b : BackendRef) (x : Float) → S b → price b ≡ some x → less x best.1 ≡ false))

    abbrev Behind : BackendRef → (BackendRef → Type 0) → BackendRef → Type 0
    Behind b S c = (b ≡ c) ⊎ S c

    module _ (sound : Compares) (positive : (b : BackendRef) → IsPriced b)
        (S : BackendRef → Type 0) where
      same_price :
          (b d : BackendRef) (x y : Float) → b ≡ d → price b ≡ some x → price d ≡ some y → y ≡ x
      same_price b d x y same known e = ground (arith, ap price same, known, e)

      unpriced-IsBest :
          (b : BackendRef) (best : String × Float)
          → price b ≡ none
          → IsBest S best
          → IsBest (Behind b S) best
      unpriced-IsBest b best unknown (inl (unset, all)) =
          inl (unset, λ c h. elim h [ inl e ↦ ap price (sym e) ∙ unknown | inr s ↦ all c s ])
      unpriced-IsBest b best unknown (inr (c, at, name, known, all)) = inr (
        c,
        inr at,
        name,
        known,
        λ d x h e. elim h [
          | inl same ↦ ground (arith, ap price same, unknown, e)
          | inr s ↦ all d x s e
        ],
      )

      -- The backend takes the place of the best where it is cheaper, or nothing is set.
      taken-IsBest :
          (b : BackendRef) (best : String × Float) (x : Float)
          → price b ≡ some x
          → (less best.1 zero_price || less x best.1) ≡ true
          → IsBest S best
          → IsBest (Behind b S) (b.name, x)
      taken-IsBest b best x known better (inl (unset, all)) = inr (
        b,
        inl refl,
        refl,
        known,
        λ d y h e. elim h [
          | inl same ↦ ap (λ z. less z x) (same_price b d x y same known e) ∙ sound.0 x
          | inr s ↦ ground (arith, all d s, e)
        ],
      )
      taken-IsBest b best x known better (inr (c, at, name, was, all)) = inr (
        b,
        inl refl,
        refl,
        known,
        λ d y h e. elim h [
          | inl same ↦ ap (λ z. less z x) (same_price b d x y same known e) ∙ sound.0 x
          | inr s ↦
              sound.1 y best.1 x (all d y s e)
                (ground (arith, better, positive c best.1 was, sound.2 x best.1))
        ],
      )

      left-IsBest :
          (b : BackendRef) (best : String × Float) (x : Float)
          → price b ≡ some x
          → (less best.1 zero_price || less x best.1) ≡ false
          → IsBest S best
          → IsBest (Behind b S) best
      left-IsBest b best x known worse (inl (unset, all)) =
          ground (arith, worse, ap (λ p. less p.1 zero_price) unset, sound.3)
      left-IsBest b best x known worse (inr (c, at, name, was, all)) = inr (
        c,
        inr at,
        name,
        was,
        λ d y h e. elim h [
          | inl same ↦
              ap (λ z. less z best.1) (same_price b d x y same known e) ∙ ground (arith, worse)
          | inr s ↦ all d y s e
        ],
      )

      cheaper-IsBest :
          (b : BackendRef) (best : String × Float)
          → IsBest S best
          → IsBest (Behind b S) (cheaper f b.name (price b) best)
      unfolding cheaper
      cheaper-IsBest b best h = elim (Option-cases (price b)) [
        | inl unknown ↦
            subst⁻¹ (IsBest (Behind b S)) (ap (λ p. cheaper f b.name p best) unknown)
              (unpriced-IsBest b best unknown h)
        | inr (x, known) ↦ elim (Bool-cases (less best.1 zero_price || less x best.1)) [
          | inl better ↦
              subst⁻¹ (IsBest (Behind b S))
                (ap (λ p. cheaper f b.name p best) known
                  ∙ ap (λ t. if t then (b.name, x) else best) better)
                (taken-IsBest b best x known better h)
          | inr worse ↦
              subst⁻¹ (IsBest (Behind b S))
                (ap (λ p. cheaper f b.name p best) known
                  ∙ ap (λ t. if t then (b.name, x) else best) worse)
                (left-IsBest b best x known worse h)
        ]
      ]

    IsBest-map :
        (S T : BackendRef → Type 0) (best : String × Float)
        → ((b : BackendRef) → T b → S b)
        → ((b : BackendRef) → S b → T b)
        → IsBest S best
        → IsBest T best
    IsBest-map S T best back on (inl (unset, all)) = inl (unset, λ b h. all b (back b h))
    IsBest-map S T best back on (inr (c, at, name, known, all)) =
        inr (c, on c at, name, known, λ b x h e. all b x (back b h) e)

    cheapest_from-IsBest :
        Compares
        → ((b : BackendRef) → IsPriced b)
        → (S : BackendRef → Type 0) (bs : List BackendRef) (best : String × Float) → IsBest S best
        → IsBest (λ b. In b bs ⊎ S b) (cheapest_from f price bs best)
    unfolding cheapest_from
    cheapest_from-IsBest sound positive S [] best h =
        IsBest-map S (λ b. In b [] ⊎ S b) best (λ b t. elim t [ inl n ↦ elim n [ ] | inr s ↦ s ])
          (λ b s. inr s) h
    cheapest_from-IsBest sound positive S (a ∷ bs) best h =
        IsBest-map (λ b. In b bs ⊎ Behind a S b) (λ b. In b (a ∷ bs) ⊎ S b) _
          (λ b t. elim t [
            | inl at ↦ elim at [ inl e ↦ inr (inl e) | inr later ↦ inl later ]
            | inr s ↦ inr (inr s)
          ])
          (λ b t. elim t [
            | inl later ↦ inl (inr later)
            | inr d ↦ elim d [ inl e ↦ inl (inl e) | inr s ↦ inr s ]
          ])
          (cheapest_from-IsBest sound positive (Behind a S) bs _
            (cheaper-IsBest sound positive S a best h))

    -- No backend of the list has a price and nothing is chosen, or one of the cheapest is.
    abbrev pub Cheapest : List BackendRef → String → Type 0
    Cheapest bs chosen =
        ((chosen ≡ "") × ((b : BackendRef) → In b bs → price b ≡ none))
        ⊎ ((c : BackendRef) × (x : Float) × In c bs
            × (chosen ≡ c.name)
            × (price c ≡ some x)
            × ((b : BackendRef) (y : Float) → In b bs → price b ≡ some y → less y x ≡ false))

    IsBest-Cheapest :
        (bs : List BackendRef) (best : String × Float)
        → IsBest (λ b. In b bs ⊎ ⊥) best
        → Cheapest bs best.0
    IsBest-Cheapest bs best (inl (unset, all)) = inl (ap (λ p. p.0) unset, λ b at. all b (inl at))
    IsBest-Cheapest bs best (inr (c, at, name, known, all)) = inr (
      c,
      best.1,
      elim at [ inl here ↦ here | inr n ↦ elim n [ ] ],
      name,
      known,
      λ b y here e. all b y (inl here) e,
    )

  -- With the optimisation of costs enabled, the cost-based selection gives the name of a backend
  -- whose estimated cost is known and below which no other is, or nothing where no cost is known. No
  -- known cost is negative and none is a NaN.
  pub cost_based_selection-Cheapest :
      (config : SmartRouterConfig) (bs : List BackendRef) (tokens : ℤ)
      (costs : List (String × Option CostConfig))
      → Compares
      → ((b : BackendRef) → IsPriced (price_of f tokens costs) b)
      → config.enable_cost_optimization ≡ true
      → Cheapest (price_of f tokens costs) bs (cost_based_selection f config bs tokens costs)
  unfolding cost_based_selection
  cost_based_selection-Cheapest config [] tokens costs sound positive on =
      inl (refl, λ b h. elim h [ ])
  cost_based_selection-Cheapest config (a ∷ bs) tokens costs sound positive on = rw on (
      IsBest-Cheapest (price_of f tokens costs) (a ∷ bs) _ (
        cheapest_from-IsBest (price_of f tokens costs) sound positive (λ b. ⊥) (a ∷ bs)
          ("", minus_one) (inl (refl, λ b h. elim h [ ]))))

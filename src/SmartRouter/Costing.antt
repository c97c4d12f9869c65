-- ===== src/SmartRouter/Costing.antt =====
-- The cost-based selection (`CostBasedSelection` and parseCostString of
-- internal/proxy/smartrouter.go). The floats are a parameter, with the scanning of a text for one.
pub mod Cheapest
use kortex.Common.{
  ◌≡◌, refl, sym, ap, ◌∙◌, String, Bool, true, false, ◌||◌, Option, none, some, List, [], ◌∷◌, inl,
  inr, ◌⊎◌, Bool-cases, Option-cases, arith, string_eq, if◌then◌else◌,
}
use mathlib.Core.Path.{subst⁻¹}
use kortex.Common.Int.{ℤ}
use kortex.Common.Dict.{lookup}
use kortex.Common.Text.{is_empty}
use kortex.Api.{BackendRef, CostConfig}
use kortex.SmartRouter.{SmartRouterConfig}

pub record Prices : Type 1 where
  pub Float : Type 0
  pub zero_price : Float
  pub minus_one : Float
  pub thousand : Float
  pub of_int : ℤ → Float
  pub add : Float → Float → Float
  pub mul : Float → Float → Float
  pub div : Float → Float → Float
  pub less : Float → Float → Bool
  pub scan_float : String → Option Float

module _ (f : Prices) where
  open f use {Float, zero_price, minus_one, thousand, of_int, add, mul, div, less, scan_float}

  -- Zero where the text is empty or holds no float.
  unfoldable pub parse_cost_string : String → Float
  parse_cost_string text =
      if is_empty text
      then zero_price
      else elim (scan_float text) [ none ↦ zero_price | some x ↦ x ]

  unfoldable pub estimated_cost : (tokens : ℤ) → CostConfig → Float
  unfolding parse_cost_string
  estimated_cost tokens cost =
      add (div (mul (of_int tokens) (parse_cost_string cost.input_token_cost)) thousand)
        (parse_cost_string cost.request_cost)

  -- A backend may be missing in the map, or be there with a nil pointer.
  priced : (tokens : ℤ) → Option (Option CostConfig) → Option Float
  unfolding estimated_cost
  priced tokens none = none
  priced tokens (some none) = none
  priced tokens (some (some cost)) = some (estimated_cost tokens cost)

  unfoldable pub price_of :
      (tokens : ℤ) → List (String × Option CostConfig) → BackendRef → Option Float
  unfolding priced
  price_of tokens costs b = priced tokens (lookup b.name costs)

  cheaper : String → Option Float → String × Float → String × Float
  cheaper name none best = best
  cheaper name (some cost) best =
      if less best.1 zero_price || less cost best.1 then (name, cost) else best

  -- The loop over the backends, with the best so far and its cost.
  unfoldable pub cheapest_from :
      (BackendRef → Option Float) → List BackendRef → String × Float → String × Float
  unfolding cheaper
  cheapest_from price [] best = best
  cheapest_from price (b ∷ bs) best = cheapest_from price bs (cheaper b.name (price b) best)

  unfoldable pub cost_based_selection :
      SmartRouterConfig
      → List BackendRef
      → (tokens : ℤ) → List (String × Option CostConfig)
      → String
  unfolding cheapest_from price_of
  cost_based_selection config [] tokens costs = ""
  cost_based_selection config (b ∷ bs) tokens costs =
      let best = cheapest_from (price_of tokens costs) (b ∷ bs) ("", minus_one) in
      if config.enable_cost_optimization then best.0 else ""

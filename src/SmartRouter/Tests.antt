-- ===== src/SmartRouter/Tests.antt =====
-- The latency-based and the cost-based selection at two backends (internal/proxy/smartrouter.go).
use kortex.SmartRouter.{latency_based_selection}
use kortex.Common.{
  ◌⊎◌, ◌==◌, ◌≡◌, refl, String, ◌==◌, true, Option, none, some, List, [], ◌∷◌, ◌/◌, string_eq,
  Bool-cases, inl, inr, arith, if◌then◌else◌,
}
use kortex.Common.Int.{ℤ, pos, ltb_ℤ, ◌+ℤ◌, negsuc, scale}
use kortex.Common.Dict.{lookup}
use kortex.Api.{BackendRef, CostConfig}
use kortex.SmartRouter.{SmartRouterConfig, default_smart_router_config}
use kortex.SmartRouter.Costing.{Prices, price_of, cost_based_selection}
use kortex.SmartRouter.Costing.Cheapest.{Cheapest, IsPriced, cost_based_selection-Cheapest}

abbrev measured : List (String × ℤ)
measured = ("gpt", pos 120) ∷ ("claude", pos 80) ∷ []

fastest_test :
    latency_based_selection
      (record { name = "gpt"; weight = pos 1 } ∷ record { name = "claude"; weight = pos 1 } ∷ [])
      measured
    ≡ "claude"
unfolding latency_based_selection kortex.SmartRouter.fastest_from kortex.Common.Dict.lookup
fastest_test = refl

abbrev times : ℤ → ℤ → ℤ
times (pos m) y = scale m y
times (negsuc m) y = negsuc m

abbrev over : ℤ → ℤ → ℤ
over (pos m) (pos n) = pos (m / n)
over x y = x

-- Thousandths, where the texts are "0.002" and others, which are taken for "0.005".
abbrev thousandths : Prices
thousandths = record {
  Float = ℤ;
  zero_price = pos 0;
  minus_one = negsuc 999;
  thousand = pos 1000;
  of_int = λ n. n;
  add = λ x y. x +ℤ y;
  mul = times;
  div = over;
  less = ltb_ℤ;
  scan_float = λ t. some (if t == "0.002" then pos 2 else pos 5);
}

abbrev cost_of : String → CostConfig
cost_of text = record {
  input_token_cost = text;
  output_token_cost = "";
  request_cost = "";
  currency = "USD";
}

abbrev costs : List (String × Option CostConfig)
costs = ("gpt", some (cost_of "0.005")) ∷ ("claude", some (cost_of "0.002")) ∷ []

abbrev optimising : SmartRouterConfig
optimising = record default_smart_router_config { enable_cost_optimization = true }

abbrev both : List BackendRef
both = record { name = "gpt"; weight = pos 1 } ∷ record { name = "claude"; weight = pos 1 } ∷ []

price_of-costs :
    (b : BackendRef)
    → (price_of thousandths (pos 4000) costs b ≡ some (pos 20))
      ⊎ (price_of thousandths (pos 4000) costs b ≡ some (pos 8))
      ⊎ (price_of thousandths (pos 4000) costs b ≡ none)
unfolding price_of lookup ◌+ℤ◌ kortex.Common.Text.is_empty
price_of-costs b = elim (Bool-cases ("gpt" == b.name)) [
  | inl gpt ↦ inl (rw gpt refl)
  | inr other ↦ elim (Bool-cases ("claude" == b.name)) [
    | inl claude ↦ inr (inl (rw (other, claude) refl))
    | inr unknown ↦ inr (inr (rw (other, unknown) refl))
  ]
]

costs-IsPriced : (b : BackendRef) → IsPriced thousandths (price_of thousandths (pos 4000) costs) b
costs-IsPriced b x e = elim (price_of-costs b) [
  | inl p ↦ ground (arith, e, p)
  | inr (inl p) ↦ ground (arith, e, p)
  | inr (inr p) ↦ ground (arith, e, p)
]

cost_based_selection-Cheapest_example :
    Cheapest thousandths
      (price_of thousandths (pos 4000) costs)
      both
      (cost_based_selection thousandths optimising both (pos 4000) costs)
cost_based_selection-Cheapest_example =
    cost_based_selection-Cheapest thousandths optimising both (pos 4000) costs
      ((λ x. ground arith), (λ x y z. ground arith), (λ x y. ground arith), refl) costs-IsPriced
      refl

cheapest_test : cost_based_selection thousandths optimising both (pos 4000) costs ≡ "claude"
unfolding cost_based_selection lookup ◌+ℤ◌ kortex.Common.Text.is_empty
cheapest_test = refl

-- ===== src/Costs/Totals.antt =====
-- What the cost tracker holds after a history of calls (internal/proxy/costs.go).
use kortex.Common.{
  sym, Option-cases, none, ◌++◌, ◌≡◌, refl, ◌∙◌, ap, String, Option, some, List, [], ◌∷◌, ◌==◌,
  string_eq, if◌then◌else◌, Bool-cases, inl, inr,
}
use text.Mathlib.TextEquality.{eq_iff}
use kortex.Common.Int.{pos, ◌+ℤ◌, wrap64}
use kortex.Common.Text.{is_empty}
use kortex.Api.{CostConfig}
use kortex.Common.Dict.{lookup, lookup-insert}
use kortex.Costs.{
  TokenUsage, add_parsed, Numbers, CostStats, CostTracker, Tracked, charge, calculate_cost,
  stats_or_fresh, currency_of, update_stats, track_request, track_all,
}

module _ (f : Numbers) where
  open f use {Float, zero_cost, add, mul, div, thousand, of_int, parse_float}

  -- A price that is configured and parses.
  abbrev price : String → Option Float
  price text = if is_empty text then none else parse_float text

  -- The term of a price in a sum, if there is one.
  term : (Float → Float) → Option Float → List Float
  term g none = []
  term g (some x) = g x ∷ []

  summed : Float → List Float → Float
  summed total [] = total
  summed total (x ∷ xs) = summed (add total x) xs

  -- The cost of a call: what its input tokens and its output tokens cost by the thousand, and the
  -- price of a request, each where it is configured and parses, summed up from zero.
  unfoldable pub cost_stated : TokenUsage → CostConfig → Float
  unfolding term summed
  cost_stated usage config = summed zero_cost (
      term (λ x. mul (div (of_int usage.input_tokens) thousand) x) (price config.input_token_cost)
      ++ term (λ x. mul (div (of_int usage.output_tokens) thousand) x)
          (price config.output_token_cost)
      ++ term (λ x. x) (price config.request_cost))

  abbrev before : CostConfig → Option (CostStats f) → CostStats f
  before config none = record {
    total_cost = zero_cost;
    total_requests = pos 0;
    total_input_tokens = pos 0;
    total_output_tokens = pos 0;
    currency = if is_empty config.currency then "USD" else config.currency;
    last_updated = 0;
  }
  before config (some s) = s

  -- The account behind a call: the cost is added, one request, and the tokens, in int64; the currency
  -- is that of the first call, "USD" where none is configured.
  abbrev pub charged : Tracked → Option (CostStats f) → CostStats f
  charged t o = record {
    total_cost = add (before t.cost_config o).total_cost (cost_stated t.usage t.cost_config);
    total_requests = wrap64 ((before t.cost_config o).total_requests +ℤ pos 1);
    total_input_tokens =
        wrap64 ((before t.cost_config o).total_input_tokens +ℤ t.usage.input_tokens);
    total_output_tokens =
        wrap64 ((before t.cost_config o).total_output_tokens +ℤ t.usage.output_tokens);
    currency = (before t.cost_config o).currency;
    last_updated = t.now;
  }

  summed-append :
      (total : Float) (xs ys : List Float) → summed total (xs ++ ys) ≡ summed (summed total xs) ys
  unfolding summed
  summed-append total [] ys = refl
  summed-append total (x ∷ xs) ys = summed-append (add total x) xs ys

  summed-term :
      (text : String) (g : Float → Float) (cost : Float)
      → summed cost (term g (price text)) ≡ add_parsed f text g cost
  unfolding term summed
  summed-term text g cost = elim (Bool-cases (is_empty text)) [
    | inl unset ↦ rw unset refl
    | inr set ↦ elim (Option-cases (parse_float text)) [
      | inl bad ↦ rw (set, bad) refl
      | inr (x, good) ↦ rw (set, good) refl
    ]
  ]

  cost_stated-calculate :
      (usage : TokenUsage) (config : CostConfig)
      → calculate_cost f usage config ≡ cost_stated usage config
  unfolding cost_stated calculate_cost
  cost_stated-calculate usage config =
      let input = λ (x : Float). mul (div (of_int usage.input_tokens) thousand) x in
      let output = λ (x : Float). mul (div (of_int usage.output_tokens) thousand) x in
      let ins = term input (price config.input_token_cost) in
      let outs = term output (price config.output_token_cost) in
      let fee = term (λ x. x) (price config.request_cost) in
      sym (
        summed-append zero_cost (ins ++ outs) fee
        ∙ ap (λ t. summed t fee) (summed-append zero_cost ins outs)
        ∙ summed-term config.request_cost (λ x. x) (summed (summed zero_cost ins) outs)
        ∙ ap (add_parsed f config.request_cost (λ x. x)) (
            summed-term config.output_token_cost output (summed zero_cost ins)
            ∙ ap (add_parsed f config.output_token_cost output)
                (summed-term config.input_token_cost input zero_cost)))

  charged_by : Float → Tracked → Option (CostStats f) → CostStats f
  charged_by cost t o =
      charge f t.usage cost t.now (stats_or_fresh f (currency_of f t.cost_config) o)

  charge-charged :
      (t : Tracked) (o : Option (CostStats f))
      → charged_by (calculate_cost f t.usage t.cost_config) t o ≡ charged t o
  unfolding charged_by charge
  charge-charged t none =
      ap (λ c. charged_by c t none) (cost_stated-calculate t.usage t.cost_config)
  charge-charged t (some s) =
      ap (λ c. charged_by c t (some s)) (cost_stated-calculate t.usage t.cost_config)

  -- The calls on one key, charged one after the other to what the key had.
  unfoldable pub account :
      (Tracked → String) → String → List Tracked → Option (CostStats f) → Option (CostStats f)
  account key_of key [] o = o
  account key_of key (t ∷ ts) o =
      account key_of key ts (if key_of t == key then some (charged t o) else o)

  lookup-update_stats :
      (key name : String) (t : Tracked) (m : List (String × CostStats f))
      → lookup key (
          update_stats f name t.usage
            (calculate_cost f t.usage t.cost_config)
            (currency_of f t.cost_config)
            t.now
            m)
        ≡ (if name == key then some (charged t (lookup key m)) else lookup key m)
  unfolding update_stats charged_by
  lookup-update_stats key name t m = elim (Bool-cases (name == key)) [
    | inl same ↦
        lookup-insert key name (charged_by cost t (lookup name m)) m
        ∙ rw same (
            ap (λ k. some (charged_by cost t (lookup k m))) ((eq_iff name key).0 same)
            ∙ ap some (charge-charged t (lookup key m)))
    | inr other ↦ lookup-insert key name (charged_by cost t (lookup name m)) m ∙ rw other refl
  ]
    where
      cost : Float
      cost = calculate_cost f t.usage t.cost_config

  -- After any calls, what the tracker holds of a route is what it held before with the calls of that
  -- route charged in their order, and likewise of a backend; other calls change neither. A call adds
  -- its cost, one request and its tokens, the integers in int64.
  pub lookup-track_all :
      (key : String) (c : CostTracker f) (ts : List Tracked)
      → (lookup key (track_all f c ts).route_costs
          ≡ account (λ t. t.route) key ts (lookup key c.route_costs))
        × (lookup key (track_all f c ts).backend_costs
            ≡ account (λ t. t.backend) key ts (lookup key c.backend_costs))
  unfolding track_all account track_request
  lookup-track_all key c [] = (refl, refl)
  lookup-track_all key c (t ∷ ts) =
      let (routes, backends) =
        lookup-track_all key
          (track_request f t.route t.backend t.usage (some t.cost_config) t.now c) ts in
      (
        routes
            ∙ ap (account (λ t. t.route) key ts) (lookup-update_stats key t.route t c.route_costs),
        backends
            ∙ ap (account (λ t. t.backend) key ts)
                (lookup-update_stats key t.backend t c.backend_costs),
      )

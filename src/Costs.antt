-- ===== src/Costs.antt =====
-- Cost tracking (internal/proxy/costs.go). Go's float64 and the parsers of the standard library are
-- the fields of `Numbers`, of which nothing is assumed; a total is a sum by its `add`. int64 sums
-- wrap. Times are nanoseconds. The metrics that are recorded beside the totals are left out.
pub mod Totals
pub mod Capturing
mod Tests
use kortex.Common.{
  ℕ, String, not, ◌&&◌, ◌||◌, ◌==◌, string_eq, Option, none, some, List, [], ◌∷◌, if◌then◌else◌,
}
use kortex.Common.Int.{ℤ, pos, ◌+ℤ◌, wrap64}
use kortex.Common.Dict.{lookup, insert}
use kortex.Common.Text.{is_empty}
use kortex.Http.{Response, header_get}
use kortex.Api.{CostConfig}

-- Where the JSON of a provider keeps its token counts.
pub data UsageShape : Type 0 where
  openai_shape anthropic_shape cohere_shape : UsageShape

pub record TokenUsage : Type 0 where
  pub input_tokens : ℤ
  pub output_tokens : ℤ

abbrev pub no_usage : TokenUsage
no_usage = record { input_tokens = pos 0; output_tokens = pos 0 }

-- `json.Unmarshal` into the struct of a shape, none for its error, and the value that
-- `strconv.ParseInt` returns, whose error the code drops.
pub record Parsers : Type 0 where
  pub unmarshal : UsageShape → String → Option TokenUsage
  pub parse_int : String → ℤ

abbrev or_no_usage : Option TokenUsage → TokenUsage
or_no_usage none = no_usage
or_no_usage (some u) = u

module _ (p : Parsers) where
  unfoldable pub parse_openai_usage : String → TokenUsage
  parse_openai_usage body = or_no_usage (p.unmarshal openai_shape body)

  unfoldable pub parse_anthropic_usage : Response → TokenUsage
  parse_anthropic_usage resp =
      let input = header_get "X-Usage-Input-Tokens" resp.header in
      let output = header_get "X-Usage-Output-Tokens" resp.header in
      if not (is_empty input) && not (is_empty output)
      then record { input_tokens = p.parse_int input; output_tokens = p.parse_int output }
      else or_no_usage (p.unmarshal anthropic_shape resp.body)

  unfoldable pub parse_cohere_usage : String → TokenUsage
  parse_cohere_usage body = or_no_usage (p.unmarshal cohere_shape body)

  unfoldable pub parse_token_usage : String → Response → TokenUsage
  unfolding parse_openai_usage parse_anthropic_usage parse_cohere_usage
  parse_token_usage provider resp =
      if provider == "openai" || provider == ""
      then parse_openai_usage resp.body
      else if provider == "anthropic"
      then parse_anthropic_usage resp
      else if provider == "cohere"
      then parse_cohere_usage resp.body
      else no_usage

-- One call of `TrackRequest`, with the clock that it reads.
pub record Tracked : Type 0 where
  pub route : String
  pub backend : String
  pub usage : TokenUsage
  pub cost_config : CostConfig
  pub now : ℕ

pub record Numbers : Type 1 where
  pub Float : Type 0
  pub zero_cost : Float
  pub add : Float → Float → Float
  pub mul : Float → Float → Float
  pub div : Float → Float → Float
  pub thousand : Float
  pub of_int : ℤ → Float
  pub parse_float : String → Option Float

module _ (f : Numbers) where
  open f use {Float, zero_cost, add, mul, div, thousand, of_int, parse_float}

  pub record CostStats : Type 0 where
    pub total_cost : Float
    pub total_requests : ℤ
    pub total_input_tokens : ℤ
    pub total_output_tokens : ℤ
    pub currency : String
    pub last_updated : ℕ

  pub record CostTracker : Type 0 where
    pub route_costs : List (String × CostStats)
    pub backend_costs : List (String × CostStats)

  unfoldable pub new_cost_tracker : CostTracker
  new_cost_tracker = record { route_costs = []; backend_costs = [] }

  -- An amount that is configured and parses is added, by `g` of it; else the cost is kept.
  abbrev add_parsed : String → (Float → Float) → Float → Float
  add_parsed text g cost =
      if is_empty text
      then cost
      else elim (parse_float text) [ none ↦ cost | some x ↦ add cost (g x) ]

  unfoldable pub calculate_cost : TokenUsage → CostConfig → Float
  calculate_cost usage config =
      add_parsed config.request_cost (λ x. x)
        (add_parsed config.output_token_cost
          (λ x. mul (div (of_int usage.output_tokens) thousand) x)
          (add_parsed config.input_token_cost
            (λ x. mul (div (of_int usage.input_tokens) thousand) x) zero_cost))

  abbrev pub fresh_stats : String → CostStats
  fresh_stats currency = record {
    total_cost = zero_cost;
    total_requests = pos 0;
    total_input_tokens = pos 0;
    total_output_tokens = pos 0;
    currency = currency;
    last_updated = 0;
  }

  abbrev pub stats_or_fresh : String → Option CostStats → CostStats
  stats_or_fresh currency none = fresh_stats currency
  stats_or_fresh currency (some s) = s

  pub charge : TokenUsage → Float → ℕ → CostStats → CostStats
  charge usage cost timestamp s = record s {
    total_cost = add s.total_cost cost;
    total_requests = wrap64 (s.total_requests +ℤ pos 1);
    total_input_tokens = wrap64 (s.total_input_tokens +ℤ usage.input_tokens);
    total_output_tokens = wrap64 (s.total_output_tokens +ℤ usage.output_tokens);
    last_updated = timestamp;
  }

  -- `updateStats`, on one of the two maps.
  unfoldable pub update_stats :
      String
      → TokenUsage
      → Float
      → String
      → ℕ
      → List (String × CostStats)
      → List (String × CostStats)
  update_stats key usage cost currency timestamp stats =
      insert key (charge usage cost timestamp (stats_or_fresh currency (lookup key stats))) stats

  abbrev pub currency_of : CostConfig → String
  currency_of config = if is_empty config.currency then "USD" else config.currency

  -- `TrackRequest`, past its check that there is a cost configuration.
  track_with : String → String → TokenUsage → CostConfig → ℕ → CostTracker → CostTracker
  unfolding update_stats
  track_with route backend usage config now c =
      let cost = calculate_cost usage config in
      let currency = currency_of config in
      record {
        route_costs = update_stats route usage cost currency now c.route_costs;
        backend_costs = update_stats backend usage cost currency now c.backend_costs;
      }

  unfoldable pub track_request :
      String → String → TokenUsage → Option CostConfig → ℕ → CostTracker → CostTracker
  unfolding track_with
  track_request route backend usage none now c = c
  track_request route backend usage (some config) now c =
      track_with route backend usage config now c

  unfoldable pub get_route_costs : String → CostTracker → Option CostStats
  get_route_costs route c = lookup route c.route_costs

  unfoldable pub get_backend_costs : String → CostTracker → Option CostStats
  get_backend_costs backend c = lookup backend c.backend_costs

  unfoldable pub get_all_stats : CostTracker → List (String × CostStats) × List (String × CostStats)
  get_all_stats c = (c.route_costs, c.backend_costs)

  unfoldable pub reset_costs : CostTracker → CostTracker
  reset_costs c = record { route_costs = []; backend_costs = [] }

  -- The calls recorded one after the other.
  unfoldable pub track_all : CostTracker → List Tracked → CostTracker
  track_all c [] = c
  track_all c (t ∷ ts) =
      track_all (track_request t.route t.backend t.usage (some t.cost_config) t.now c) ts

-- ===== src/Costs/Tests.antt =====
-- The theorem on the cost tracker at two calls of one route, with natural numbers for floats
-- (internal/proxy/costs.go).
use kortex.Common.{ℕ, ◌+◌, ◌*◌, ◌/◌, ◌≡◌, some, List, [], ◌∷◌, string_eq}
use kortex.Common.Int.{pos, pos_part}
use kortex.Common.Dict.{lookup}
use kortex.Api.{CostConfig}
use kortex.Costs.{Numbers, Tracked, new_cost_tracker, track_all}
use kortex.Costs.Totals.{account, lookup-track_all}

abbrev naturals : Numbers
naturals = record {
  Float = ℕ;
  zero_cost = 0;
  add = ◌+◌;
  mul = ◌*◌;
  div = ◌/◌;
  thousand = 1000;
  of_int = pos_part;
  parse_float = λ text. some 2;
}

abbrev priced : CostConfig
priced = record {
  input_token_cost = "2";
  output_token_cost = "2";
  request_cost = "";
  currency = "EUR";
}

abbrev calls : List Tracked
calls =
    record {
      route = "chat";
      backend = "gpt";
      usage = record { input_tokens = pos 3000; output_tokens = pos 1000 };
      cost_config = priced;
      now = 7;
    }
    ∷ record {
      route = "chat";
      backend = "claude";
      usage = record { input_tokens = pos 1000; output_tokens = pos 0 };
      cost_config = priced;
      now = 8;
    }
    ∷ []

lookup-track_all_example :
    (lookup "chat" (track_all naturals (new_cost_tracker naturals) calls).route_costs
      ≡ account naturals
          (λ t. t.route)
          "chat"
          calls
          (lookup "chat" (new_cost_tracker naturals).route_costs))
    × (lookup "chat" (track_all naturals (new_cost_tracker naturals) calls).backend_costs
        ≡ account naturals
            (λ t. t.backend)
            "chat"
            calls
            (lookup "chat" (new_cost_tracker naturals).backend_costs))
lookup-track_all_example = lookup-track_all naturals "chat" (new_cost_tracker naturals) calls

-- ===== src/Router/Tests.antt =====
-- The theorems on the router at a concrete route (internal/proxy/router.go).
use kortex.Common.{ℕ, ◌≡◌, refl, some, none, [], ◌∷◌, arith}
use kortex.Common.Dict.{insert}
use kortex.Cache.{set_route, set_backend, new_store}
use kortex.Router.{weight_of, select_weighted_backend, handle_request}
use kortex.Router.Weights.{select_weighted_backend-share}
use kortex.Router.Handling.{Replied, handle_request-Replied}
use kortex.Samples.{
  gpt_ref, claude_ref, sample_router_env, sample_env, sample_router, chat_request, fresh_world,
}

abbrev draw_75 : ℕ → ℕ
draw_75 n = 75

share_example : select_weighted_backend draw_75 (gpt_ref ∷ claude_ref ∷ []) ≡ some claude_ref
unfolding weight_of
share_example =
    select_weighted_backend-share draw_75 (gpt_ref ∷ []) claude_ref [] (refl, (refl, tt))
      (omega arith) (omega arith) (omega arith)

Replied_example :
    Replied
      (handle_request sample_router_env sample_env sample_router chat_request (fresh_world none))
unfolding weight_of set_route set_backend new_store insert
Replied_example =
    handle_request-Replied sample_router_env sample_env sample_router chat_request
      (fresh_world none) (λ n positive. positive) ((((refl, (refl, tt)), omega arith), tt), tt) refl

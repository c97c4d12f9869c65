-- ===== src/Server/Tests.antt =====
-- The theorems on the server at concrete requests (internal/proxy/server.go).
use kortex.Common.{◌≢◌, ap, String, false, ◌≡◌, refl, true, some, none, [], ◌∷◌, arith}
use kortex.Common.Int.{pos}
use kortex.Common.Dict.{insert, lookup}
use kortex.Common.Text.{is_empty, decimal}
use kortex.Api.{RateLimitConfig, InferenceRoute}
use kortex.Http.{write, Request, new_writer}
use kortex.Cache.{set_route, set_backend, new_store, get_stats}
use kortex.Router.{weight_of, find_matching_route}
use kortex.RateLimit.{RateLimiter, new_rate_limiter}
use kortex.RateLimit.Sessions.{of_user, by_user}
use kortex.Server.{
  Server, new_server, default_config, with_rate_limiter, serve_http, limit_body, is_too_large,
  user_of, health_handler,
}
use kortex.Server.Admission.{Guards, Judged, lets_pass, serve_http-Guards, serve_http-Judged}
use kortex.Samples.{
  sample_router_env, sample_env, sample_store, chat_request, fresh_world, draining, chat_route,
}

abbrev one_per_minute : RateLimitConfig
one_per_minute = record { requests_per_minute = pos 1; per_user = true; user_header = "" }

abbrev limited_route : InferenceRoute
limited_route = record chat_route {
  spec = record chat_route.spec { rate_limit = some one_per_minute };
}

-- No token is left for the user.
abbrev spent : RateLimiter draining
spent = record (new_rate_limiter draining) { user_limiters = ("chat:ann", 0) ∷ [] }

abbrev limited_server : Server draining
limited_server =
    new_server draining default_config
      (set_route (record { namespace = "default"; name = "chat" }) limited_route sample_store)
      (with_rate_limiter draining spent ∷ [])

abbrev ann_request : Request
ann_request = record chat_request { header = ("x-user-id", "ann") ∷ [] }

serve_http-Guards_example :
    Guards draining sample_router_env sample_env
      (λ n. n)
      limited_server
      ann_request
      (fresh_world none)
      (serve_http draining sample_router_env sample_env
        (λ n. n)
        limited_server
        ann_request
        (fresh_world none))
serve_http-Guards_example =
    serve_http-Guards draining sample_router_env sample_env (λ n. n) limited_server ann_request
      (fresh_world none)

abbrev ann : String
ann = "ann"

ann-IsNamed : ann ≢ ""
unfolding is_empty
ann-IsNamed e = ground (arith, ap is_empty e)

serve_http-Judged_example :
    Judged draining sample_router_env sample_env limited_server ann_request
      (fresh_world none)
      (lets_pass draining (λ n. n) (of_user (pos 1) "chat:ann") spent)
      (serve_http draining sample_router_env sample_env
        (λ n. n)
        limited_server
        ann_request
        (fresh_world none)).1
unfolding set_route set_backend new_store insert new_server with_rate_limiter find_matching_route
    is_too_large limit_body user_of is_empty kortex.Http.header_get kortex.Common.Text.fold_eq
    kortex.Router.first_operational kortex.Cache.list_routes_in_namespace kortex.Cache.values_in
serve_http-Judged_example =
    serve_http-Judged draining sample_router_env sample_env (λ n. n) limited_server ann_request
      (fresh_world none) limited_route one_per_minute spent (of_user (pos 1) "chat:ann") refl refl
      refl refl refl (by_user one_per_minute (omega arith) refl ann-IsNamed)

-- The bucket of the user is empty.
ann_is_limited : lets_pass draining (λ n. n) (of_user (pos 1) "chat:ann") spent ≡ false
unfolding lets_pass lookup
ann_is_limited = refl

health_test :
    (health_handler sample_store new_writer).body
    ≡ "{\"status\":\"ok\",\"routes\":1,\"backends\":2}" ∷ []
unfolding health_handler write decimal get_stats set_route insert set_backend new_store
health_test = refl

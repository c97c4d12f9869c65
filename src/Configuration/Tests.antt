-- ===== src/Configuration/Tests.antt =====
-- The theorems on the configuration at a concrete file (internal/config/watcher.go, cmd/main.go).
use kortex.Common.{
  ℕ, ◌≡◌, refl, String, Bool, true, false, Option, none, some, List, [], ◌∷◌, ◌++◌, Result, ok, err,
  arith, inl,
}
use kortex.Common.Int.{ℤ, pos, ltb_ℤ}
use kortex.SmartRouter.{SmartRouterConfig, default_smart_router_config}
use kortex.Server.{Server, default_config}
use kortex.Configuration.{
  Rates, KortexConfig, default_kortex_config, validate_config, Watcher, file, no_file, changed,
  elapsed, watch_run, reload_config,
}
use kortex.Configuration.Watching.{
  IsBusy, due_behind, watch_run-debounced, IsUpToDate, last_call, watch_run-IsUpToDate,
}
use kortex.Configuration.Applying.{apply_config, apply_config-default_lost}
use kortex.SmartRouter.{estimate_request_tokens, select_backend}
use kortex.Samples.{draining, chat_request, chat_route, sample_router}

-- Hundredths.
abbrev hundredths : Rates
hundredths = record {
  Float = ℤ;
  one = pos 100;
  below_zero = λ x. ltb_ℤ x (pos 0);
  above_one = λ x. ltb_ℤ (pos 100) x;
}

default_test : validate_config hundredths (default_kortex_config hundredths) ≡ []
unfolding validate_config kortex.Common.Text.is_empty
default_test = refl

-- Files with the text "v2" are configurations.
abbrev decode : String → Result String (KortexConfig hundredths)
decode text = ok (record (default_kortex_config hundredths) { version = text })

abbrev watching : Watcher hundredths
watching = record {
  file_name = "kortex.yaml";
  handlers = "limits" ∷ [];
  config = default_kortex_config hundredths;
  debounce = 500;
  timer = none;
  calls = [];
}

watch_run-debounced_example :
    watch_run hundredths decode
      (changed 10 "kortex.yaml" true
        ∷ ((elapsed 300 (file "v2") ∷ changed 400 "kortex.yaml" true ∷ [])
            ++ elapsed 900 (file "v3") ∷ []))
      watching
    ≡ reload_config hundredths decode (file "v3") (record watching { timer = none })
unfolding IsBusy due_behind
watch_run-debounced_example =
    watch_run-debounced hundredths decode watching 10
      (elapsed 300 (file "v2") ∷ changed 400 "kortex.yaml" true ∷ []) 900 (file "v3")
      (omega arith, tt) (omega arith)

watch_run-IsUpToDate_example : IsUpToDate hundredths decode (
    watch_run hundredths decode (changed 10 "kortex.yaml" true ∷ elapsed 900 no_file ∷ []) watching)
unfolding last_call
watch_run-IsUpToDate_example =
    watch_run-IsUpToDate hundredths decode
      (changed 10 "kortex.yaml" true ∷ elapsed 900 no_file ∷ []) watching (λ h. inl refl)

-- Smart routing with a default backend, and a change that enables it anew.
abbrev smart_server : Server draining
smart_server = record {
  config = default_config;
  router = record sample_router {
    smart_router = some (record default_smart_router_config { default_backend = "gpt" });
  };
  rate_limiter = none;
}

abbrev smart_config : KortexConfig hundredths
smart_config = record (default_kortex_config hundredths) {
  smart_routing = record (default_kortex_config hundredths).smart_routing {
    enabled = true;
    fast_model_threshold = pos 0;
  };
}

apply_config-default_lost_example :
    (after : SmartRouterConfig) × ((apply_config hundredths draining
        (λ k n. n)
        smart_config
        smart_server).router.smart_router
      ≡ some after)
    × ((select_backend (λ body. none) after chat_request chat_route).backend ≡ "claude")
unfolding estimate_request_tokens kortex.Http.over_limit
    kortex.SmartRouter.estimate_tokens_from_text kortex.Common.Text.is_empty
    kortex.Common.Utf8.field_count kortex.Common.Utf8.bytes
apply_config-default_lost_example =
    apply_config-default_lost hundredths draining (λ k n. n) smart_config smart_server
      (record default_smart_router_config { default_backend = "gpt" }) (λ body. none) chat_request
      chat_route refl refl refl refl

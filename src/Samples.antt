-- ===== src/Samples.antt =====
-- Resources, requests and an environment for the tests: the backend "gpt" answers 500 and the backend
-- "claude" answers 200, both external.
use kortex.Common.{
  ℕ, ◌-◌, ltb, String, false, Option, none, some, [], ◌∷◌, ok, if◌then◌else◌, ◌==◌, string_eq,
}
use kortex.Common.Int.{ℤ, pos, pos_part}
use kortex.RateLimit.{Buckets}
use kortex.Api.{InferenceRoute, InferenceBackend, BackendRef, AbExperiment, backend_type_external}
use kortex.Http.{Request, Response, new_writer}
use kortex.Cache.{Store, new_store, set_backend, set_route}
use kortex.Breaker.Manager.{CircuitBreakerManager}
use kortex.Backend.Proxying.{World, Env, OutRequest}
use kortex.Router.{RouterEnv, Router}

abbrev pub external_backend : String → InferenceBackend
external_backend name = record {
  name = name;
  namespace = "default";
  generation = pos 1;
  spec = record {
    kind = backend_type_external;
    kserve = none;
    external = some (record { url = name; provider = "openai"; api_key_secret = none; model = "" });
    kubernetes = none;
    health_check = none;
    cost = none;
    timeout_seconds = pos 60;
    max_concurrency = pos 0;
    priority = pos 0;
  };
  status = record {
    health = "Healthy";
    last_health_check = none;
    active_requests = pos 0;
    total_requests = pos 0;
    total_errors = pos 0;
    average_latency_ms = pos 0;
    conditions = [];
  };
}

abbrev pub gpt_ref : BackendRef
gpt_ref = record { name = "gpt"; weight = pos 70 }

abbrev pub claude_ref : BackendRef
claude_ref = record { name = "claude"; weight = pos 30 }

abbrev pub ramp_up : AbExperiment
ramp_up = record {
  name = "ramp-up";
  control = "gpt";
  treatment = "claude";
  traffic_percent = pos 60;
  metric = "latency";
}

-- Requests under /v1 are split between the two backends; the chain goes on from one to the other.
abbrev pub chat_route : InferenceRoute
chat_route = record {
  name = "chat";
  namespace = "default";
  generation = pos 1;
  spec = record {
    rules =
        (record {
          match = some (record { headers = []; path_prefix = some "/v1"; model_pattern = none });
          backends = gpt_ref ∷ claude_ref ∷ [];
        })
        ∷ [];
    default_backend = some claude_ref;
    fallback = some (record { backends = "gpt" ∷ "claude" ∷ []; timeout_seconds = pos 5 });
    rate_limit = none;
    experiments = [];
    cost_tracking = false;
    enable_logging = false;
  };
  status = record {
    phase = "Active";
    total_requests = pos 0;
    active_backends = pos 2;
    last_updated = none;
    conditions = [];
  };
}

abbrev pub sample_store : Store
sample_store =
    set_route (record { namespace = "default"; name = "chat" }) chat_route
      (set_backend (record { namespace = "default"; name = "gpt" }) (external_backend "gpt")
        (set_backend (record { namespace = "default"; name = "claude" }) (external_backend "claude")
          new_store))

abbrev pub chat_request : Request
chat_request = record {
  method = "POST";
  path = "/v1/chat";
  header = ("X-User-ID", "ann") ∷ [];
  remote_addr = "10.0.0.1:4000";
  content_length = pos 5;
  body_limit = none;
  body = some "hello";
}

abbrev pub gpt_fails : (timeout : ℤ) → OutRequest → Option Response
gpt_fails timeout out =
    some
      (record { status_code = if out.url.host == "gpt" then 500 else 200; header = []; body = "" })

abbrev pub sample_env : Env
sample_env = record {
  parse_url = λ text. ok (record { scheme = "https"; host = text; path = "" });
  secrets = λ key. none;
  parsers = record { unmarshal = λ shape body. none; parse_int = λ text. pos 0 };
  attempt = λ i. record {
    allow_at = i;
    failed_at = i;
    opened_at = i;
    tracked_at = i;
    round_trip = gpt_fails;
    broken_off = none;
    read_fails = false;
    unread = none;
    cancelled = false;
  };
}

abbrev pub fresh_world : Option CircuitBreakerManager → World
fresh_world breakers = record {
  breakers = breakers;
  writer = new_writer;
  body = some "hello";
  buffered = false;
  metrics = none;
  tracked = none;
  waits = [];
  sent = [];
}

abbrev pub sample_router_env : RouterEnv
sample_router_env = record {
  path_match = λ pattern name. ok (pattern == name);
  int31n = λ n. 0;
  unmarshal = λ body. none;
}

abbrev pub sample_router : Router
sample_router = record { cache = sample_store; experiments = none; smart_router = none }

-- Token buckets that never refill: a limiter is the number of tokens that it has left.
abbrev pub draining : Buckets
draining = record {
  Limiter = ℕ;
  Limit = ℤ;
  Reservation = Unit;
  per_minute = λ n. n;
  new_limiter = λ limit burst. pos_part burst;
  take = λ now l. (l - 1, ltb 0 l);
  reserve = λ now l. (l, tt);
  delay = λ now r. pos 0;
  cancel = λ now r l. l;
  tokens = λ now l. pos l;
  set_limit = λ now limit l. l;
  set_burst = λ now burst l. l;
}

-- ===== src/Api.antt =====
-- The custom resources of the gateway (api/v1alpha1): routes and backends, as the structs of Go.
-- A pointer that may be nil is an Option, an int32 or int64 is a ℤ, and a string enumeration stays
-- a String, as in the source. Only the fields of the Kubernetes metadata that the code reads stand.
use kortex.Common.{String, Bool, ℕ, Option, List}
use kortex.Common.Int.{ℤ}

pub record RouteMatch : Type 0 where
  pub headers : List (String × String)
  pub path_prefix : Option String
  pub model_pattern : Option String

pub record BackendRef : Type 0 where
  pub name : String
  pub weight : ℤ

pub record RouteRule : Type 0 where
  pub match : Option RouteMatch
  pub backends : List BackendRef

pub record FallbackChain : Type 0 where
  pub backends : List String
  pub timeout_seconds : ℤ

pub record RateLimitConfig : Type 0 where
  pub requests_per_minute : ℤ
  pub per_user : Bool
  pub user_header : String

pub record AbExperiment : Type 0 where
  pub name : String
  pub control : String
  pub treatment : String
  pub traffic_percent : ℤ
  pub metric : String

pub record InferenceRouteSpec : Type 0 where
  pub rules : List RouteRule
  pub default_backend : Option BackendRef
  pub fallback : Option FallbackChain
  pub rate_limit : Option RateLimitConfig
  pub experiments : List AbExperiment
  pub cost_tracking : Bool
  pub enable_logging : Bool

-- metav1.Condition, less the transition time.
pub record Condition : Type 0 where
  pub kind : String
  pub status : String
  pub observed_generation : ℤ
  pub reason : String
  pub message : String

pub record InferenceRouteStatus : Type 0 where
  pub phase : String
  pub total_requests : ℤ
  pub active_backends : ℤ
  pub last_updated : Option ℕ
  pub conditions : List Condition

pub record InferenceRoute : Type 0 where
  pub name : String
  pub namespace : String
  pub generation : ℤ
  pub spec : InferenceRouteSpec
  pub status : InferenceRouteStatus

abbrev pub backend_type_kserve : String
backend_type_kserve = "kserve"

abbrev pub backend_type_external : String
backend_type_external = "external"

abbrev pub backend_type_kubernetes : String
backend_type_kubernetes = "kubernetes"

pub record KserveBackend : Type 0 where
  pub service_name : String
  pub namespace : String

-- corev1.SecretKeySelector
pub record SecretKeySelector : Type 0 where
  pub name : String
  pub key : String

pub record ExternalBackend : Type 0 where
  pub url : String
  pub provider : String
  pub api_key_secret : Option SecretKeySelector
  pub model : String

pub record KubernetesBackend : Type 0 where
  pub service_name : String
  pub namespace : String
  pub port : ℤ

pub record HealthCheck : Type 0 where
  pub path : String
  pub interval_seconds : ℤ
  pub timeout_seconds : ℤ
  pub failure_threshold : ℤ

pub record CostConfig : Type 0 where
  pub input_token_cost : String
  pub output_token_cost : String
  pub request_cost : String
  pub currency : String

pub record InferenceBackendSpec : Type 0 where
  pub kind : String
  pub kserve : Option KserveBackend
  pub external : Option ExternalBackend
  pub kubernetes : Option KubernetesBackend
  pub health_check : Option HealthCheck
  pub cost : Option CostConfig
  pub timeout_seconds : ℤ
  pub max_concurrency : ℤ
  pub priority : ℤ

pub record InferenceBackendStatus : Type 0 where
  pub health : String
  pub last_health_check : Option ℕ
  pub active_requests : ℤ
  pub total_requests : ℤ
  pub total_errors : ℤ
  pub average_latency_ms : ℤ
  pub conditions : List Condition

pub record InferenceBackend : Type 0 where
  pub name : String
  pub namespace : String
  pub generation : ℤ
  pub spec : InferenceBackendSpec
  pub status : InferenceBackendStatus

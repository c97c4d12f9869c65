-- ===== src/Configuration.antt =====
-- The configuration file (internal/config/watcher.go), and what cmd/main.go does with a configuration
-- that has changed (`Applying`). Reading and decoding the file are parameters; the delivery of file
-- events and the timer of the debouncing are inputs of the watcher, each with its time; a timer that
-- is due may lose against an event that is there too, and fires by an input of its own. Opening and
-- closing the watch on the directory is left out, and so are the log lines.
pub mod Validation
pub mod Watching
pub mod Applying
mod Tests
use kortex.Common.{
  ℕ, ◌+◌, ◌*◌, String, ◌==◌, string_eq, Bool, true, false, not, ◌&&◌, ◌||◌, Option, none, some,
  List, [], ◌∷◌, ◌++◌, leb, if◌then◌else◌, Result, ok, err,
}
use kortex.Common.Int.{ℤ, pos, leb_ℤ}
use kortex.Common.Text.{is_empty}

pub record GatewayConfig : Type 0 where
  pub bind_address : String
  pub read_timeout : ℤ
  pub write_timeout : ℤ
  pub max_request_body_size : ℤ

pub record SmartRoutingConfig : Type 0 where
  pub enabled : Bool
  pub long_context_threshold : ℤ
  pub fast_model_threshold : ℤ
  pub long_context_backend : String
  pub fast_model_backend : String
  pub enable_cost_optimization : Bool

pub record ProviderConfig : Type 0 where
  pub enabled : Bool
  pub base_url : String
  pub timeout : ℤ
  pub max_retries : ℤ

pub record RateLimitConfig : Type 0 where
  pub enabled : Bool
  pub default_requests_per_minute : ℤ
  pub per_user_limiting : Bool
  pub user_header_name : String

pub record MetricsConfig : Type 0 where
  pub enabled : Bool
  pub bind_address : String

error_if : Bool → String → List String
error_if true e = e ∷ []
error_if false e = []

routing_errors : SmartRoutingConfig → List String
unfolding error_if
routing_errors r =
    if r.enabled
    then error_if (leb_ℤ r.long_context_threshold (pos 0))
        "smartRouting.longContextThreshold must be positive when enabled"
      ++ error_if (leb_ℤ r.fast_model_threshold (pos 0))
          "smartRouting.fastModelThreshold must be positive when enabled"
      ++ error_if (leb_ℤ r.long_context_threshold r.fast_model_threshold)
          "smartRouting.longContextThreshold must be greater than fastModelThreshold"
    else []

-- Floats, as far as the sample rate of the traces needs them.
pub record Rates : Type 1 where
  pub Float : Type 0
  pub one : Float
  pub below_zero : Float → Bool
  pub above_one : Float → Bool

module _ (f : Rates) where
  open f use {Float, one, below_zero, above_one}

  pub record TracingConfig : Type 0 where
    pub enabled : Bool
    pub endpoint : String
    pub sample_rate : Float
    pub insecure : Bool

  pub record ObservabilityConfig : Type 0 where
    pub tracing : TracingConfig
    pub metrics : MetricsConfig

  pub record KortexConfig : Type 0 where
    pub version : String
    pub gateway : GatewayConfig
    pub smart_routing : SmartRoutingConfig
    pub providers : List (String × ProviderConfig)
    pub rate_limits : RateLimitConfig
    pub observability : ObservabilityConfig

  abbrev pub default_kortex_config : KortexConfig
  default_kortex_config = record {
    version = "v1";
    gateway = record {
      bind_address = ":8080";
      read_timeout = pos 30;
      write_timeout = pos 120;
      max_request_body_size = pos (10 * 1024 * 1024);
    };
    smart_routing = record {
      enabled = false;
      long_context_threshold = pos 4000;
      fast_model_threshold = pos 500;
      long_context_backend = "";
      fast_model_backend = "";
      enable_cost_optimization = false;
    };
    providers = [];
    rate_limits = record {
      enabled = true;
      default_requests_per_minute = pos 60;
      per_user_limiting = true;
      user_header_name = "x-user-id";
    };
    observability = record {
      tracing = record {
        enabled = false;
        endpoint = "localhost:4317";
        sample_rate = one;
        insecure = true;
      };
      metrics = record { enabled = true; bind_address = ":8443" };
    };
  }

  -- The errors of a configuration, in their order.
  unfoldable pub validate_config : KortexConfig → List String
  unfolding error_if routing_errors
  validate_config c =
      error_if (is_empty c.gateway.bind_address) "gateway.bindAddress is required"
      ++ routing_errors c.smart_routing
      ++ error_if (c.observability.tracing.enabled && is_empty c.observability.tracing.endpoint)
          "observability.tracing.endpoint is required when tracing is enabled"
      ++ error_if
          (below_zero c.observability.tracing.sample_rate
            || above_one c.observability.tracing.sample_rate)
          "observability.tracing.sampleRate must be between 0.0 and 1.0"

  -- What a reading of the file gives.
  pub data Disk : Type 0 where
    file : (text : String) → Disk
    no_file : Disk
    unreadable : String → Disk

  -- The calls of handlers are kept with their configurations, in the order in which they start; each
  -- runs in a goroutine of its own. `timer` is when the pending reload is due, and `file_name` the
  -- base name of the path.
  pub record Watcher : Type 0 where
    pub file_name : String
    pub handlers : List String
    pub config : KortexConfig
    pub debounce : ℕ
    pub timer : Option ℕ
    pub calls : List (String × KortexConfig)

  -- `loadConfig`: the configuration that it sets.
  unfoldable pub load_config :
      (unmarshal : String → Result String KortexConfig) → Disk → Result String KortexConfig
  load_config unmarshal (file text) = unmarshal text
  load_config unmarshal no_file = ok default_kortex_config
  load_config unmarshal (unreadable e) = err e

  started : String → Result String KortexConfig → Result String Watcher
  started file_name (err e) = err e
  started file_name (ok c) = ok (record {
    file_name = file_name;
    handlers = [];
    config = c;
    debounce = 500_000_000;
    timer = none;
    calls = [];
  })

  -- `NewWatcher`; `notify_error` is that of fsnotify.
  unfoldable pub new_watcher :
      (unmarshal : String → Result String KortexConfig)
      → (notify_error : Option String) → (file_name : String) → Disk
      → Result String Watcher
  unfolding started
  new_watcher unmarshal (some e) file_name disk = err e
  new_watcher unmarshal none file_name disk = started file_name (load_config unmarshal disk)

  unfoldable pub on_change : String → Watcher → Watcher
  on_change handler w = record w { handlers = w.handlers ++ handler ∷ [] }

  notify : List String → KortexConfig → List (String × KortexConfig)
  notify [] c = []
  notify (h ∷ hs) c = (h, c) ∷ notify hs c

  reloaded : Watcher → Result String KortexConfig → Watcher
  unfolding notify
  reloaded w (err e) = w
  reloaded w (ok c) = record w { config = c; calls = w.calls ++ notify w.handlers c }

  unfoldable pub reload_config :
      (unmarshal : String → Result String KortexConfig) → Disk → Watcher → Watcher
  unfolding reloaded
  reload_config unmarshal disk w = reloaded w (load_config unmarshal disk)

  -- What happens to a running watcher: an event on a file of the directory, which may be a write or
  -- a creation, or a moment at which the timer may have run out, with the file as it is then.
  pub data WatchInput : Type 0 where
    changed : (at : ℕ) (file_name : String) (is_write : Bool) → WatchInput
    elapsed : (at : ℕ) → Disk → WatchInput

  fire : (unmarshal : String → Result String KortexConfig) → ℕ → Disk → Watcher → Option ℕ → Watcher
  unfolding reload_config
  fire unmarshal at disk w none = w
  fire unmarshal at disk w (some due) =
      if leb due at then reload_config unmarshal disk (record w { timer = none }) else w

  -- One round of the loop of `Start`, or the timer.
  unfoldable pub watch_step :
      (unmarshal : String → Result String KortexConfig) → WatchInput → Watcher → Watcher
  unfolding fire
  watch_step unmarshal (changed at name is_write) w =
      if name == w.file_name && is_write then record w { timer = some (at + w.debounce) } else w
  watch_step unmarshal (elapsed at disk) w = fire unmarshal at disk w w.timer

  unfoldable pub watch_run :
      (unmarshal : String → Result String KortexConfig) → List WatchInput → Watcher → Watcher
  watch_run unmarshal [] w = w
  watch_run unmarshal (i ∷ is) w = watch_run unmarshal is (watch_step unmarshal i w)

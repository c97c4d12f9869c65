-- ===== src/Backend/Proxying.antt =====
-- One request to one backend through httputil.ReverseProxy (`executeRequest` and `trackCosts` of
-- internal/proxy/backend.go), and the state that the handler changes. The reverse proxy closes the
-- body of the request, whether or not the backend answers, which ends it unless it has been put in a
-- buffer; an answer's header is added to the writer's, then its status and its body are written, and
-- a copy of the body that breaks off is a panic with http.ErrAbortHandler. What a backend answers,
-- how far its body and that of the request are read, the clock, and the cancelling of the client's
-- context are the environment's, an `Attempt` for each attempt. Answers of 1xx and upgrades of the
-- connection are left out.
pub mod Status
use kortex.Common.{
  ℕ, String, Bool, true, false, not, ◌&&◌, ◌==◌, Option, none, some, List, [], ◌∷◌, ◌++◌, leb,
  nat_beq, if◌then◌else◌, Result, ok, err, ltb, ◌||◌, string_eq,
}
use kortex.Common.Int.{ℤ, pos, beq_ℤ, ltb_ℤ}
use kortex.Common.Text.{◌<>◌, is_empty, decimal}
use kortex.Http.{Header, header_set, Request, Response, ResponseWriter, write_header, write}
use kortex.Api.{
  InferenceBackend, InferenceRoute, ExternalBackend, CostConfig, backend_type_external,
}
use kortex.Breaker.{BreakerError}
use kortex.Breaker.Manager.{CircuitBreakerManager}
use kortex.Costs.{Parsers, parse_token_usage, Tracked, TokenUsage}
use kortex.Backend.Target.{Url, TargetError, Secrets, build_target_url, inject_api_key}

-- The calls on the metrics recorder, in their order.
pub data MetricCall : Type 0 where
  fallback_from : (route from to : String) → MetricCall
  inc_active dec_active : (backend : String) → MetricCall
  request_done : (route backend : String) → (status : ℕ) → MetricCall
  request_failed : (route backend : String) → MetricCall
  rate_limit_hit : (route user : String) → MetricCall

-- The request that reaches a backend.
pub record OutRequest : Type 0 where
  pub method : String
  pub url : Url
  pub header : Header
  pub body_limit : Option ℤ
  pub body : Option String

-- What the handler works on. The breakers, the metrics and the cost tracker may be nil; of the last
-- two the calls are kept. `buffered` says that the body has been read into a buffer whose closing
-- does nothing (`io.NopCloser`). `waits` are the backoffs that were waited, in nanoseconds, and `sent` the
-- requests that were handed to the transport.
pub record World : Type 0 where
  pub breakers : Option CircuitBreakerManager
  pub writer : ResponseWriter
  pub body : Option String
  pub buffered : Bool
  pub metrics : Option (List MetricCall)
  pub tracked : Option (List Tracked)
  pub waits : List ℤ
  pub sent : List OutRequest

-- What the environment does during the attempt with one index of the chain: the clock at `Allow`,
-- at the record of a failure, at a transition and at the tracking of costs, the answer of a backend
-- (none for an error of the transport, the timeout included), the part of its body that reached the
-- client where copying it broke off, whether reading it for the costs fails, what is left unread of
-- a buffered body of the request, and whether the client is gone while the handler waits.
pub record Attempt : Type 0 where
  pub allow_at : ℕ
  pub failed_at : ℕ
  pub opened_at : ℕ
  pub tracked_at : ℕ
  pub round_trip : (timeout : ℤ) → OutRequest → Option Response
  pub broken_off : Option String
  pub read_fails : Bool
  pub unread : Option String
  pub cancelled : Bool

-- The parts of the handler that are not of this repository.
pub record Env : Type 0 where
  pub parse_url : String → Result String Url
  pub secrets : Secrets
  pub parsers : Parsers
  pub attempt : ℕ → Attempt

-- The errors of an attempt; `copy_aborted` is the panic of the reverse proxy in the midst of a body.
pub data HandlerError : Type 0 where
  blocked : BreakerError → HandlerError
  not_found : String → HandlerError
  no_target : TargetError → HandlerError
  backend_status : ℕ → HandlerError
  copy_aborted : HandlerError

-- `responseRecorder`
pub record ResponseRecorder : Type 0 where
  pub writer : ResponseWriter
  pub status_code : ℕ
  pub written : Bool

unfoldable pub recorder_write_header : ℕ → ResponseRecorder → ResponseRecorder
recorder_write_header code r =
    let r' = if r.written then r else record r { status_code = code; written = true } in
    record r' { writer = write_header code r.writer }

unfoldable pub recorder_write : String → ResponseRecorder → ResponseRecorder
recorder_write text r = record r { writer = write text r.writer; written = true }

abbrev log_call : MetricCall → Option (List MetricCall) → Option (List MetricCall)
log_call c none = none
log_call c (some cs) = some (cs ++ c ∷ [])

unfoldable pub metric : MetricCall → World → World
metric c w = record w { metrics = log_call c w.metrics }

-- The provider that is handed to the cost tracking.
abbrev provider_of : Option ExternalBackend → String
provider_of none = ""
provider_of (some e) = e.provider

abbrev used : TokenUsage → Bool
used u = ltb_ℤ (pos 0) u.input_tokens || ltb_ℤ (pos 0) u.output_tokens

track : Tracked → Option (List Tracked) → Option (List Tracked)
track t none = none
track t (some ts) = if used t.usage then some (ts ++ t ∷ []) else some ts

-- `trackCosts`, under the condition of `ModifyResponse`; nothing is tracked where the body cannot be
-- read.
track_costs :
    Parsers
    → (read_fails : Bool) → ℕ
    → InferenceRoute
    → InferenceBackend
    → Response
    → Option CostConfig
    → Option (List Tracked)
    → Option (List Tracked)
unfolding track
track_costs p read_fails now route backend resp none ts = ts
track_costs p read_fails now route backend resp (some config) ts =
    if route.spec.cost_tracking && not read_fails
    then track
        (record {
          route = route.name;
          backend = backend.name;
          usage = parse_token_usage p (provider_of backend.spec.external) resp;
          cost_config = config;
          now = now;
        })
        ts
    else ts

-- `Director`
unfoldable pub director : Env → InferenceBackend → Url → Request → Option String → OutRequest
director env backend url req body = record {
  method = req.method;
  url = record {
    scheme = url.scheme;
    host = url.host;
    path =
        if not (is_empty url.path) && not (url.path == "/") then url.path <> req.path else req.path;
  };
  header =
      if backend.spec.kind == backend_type_external
      then inject_api_key env.secrets backend req.header
      else req.header;
  body_limit = req.body_limit;
  body = if beq_ℤ req.content_length (pos 0) then none else body;
}

-- The header of a response after `ModifyResponse`.
abbrev pub served_header : InferenceBackend → Header → Header
served_header backend h =
    header_set "X-Backend-Type" backend.spec.kind (header_set "X-Served-By" backend.name h)

-- What the reverse proxy writes of an answer.
copy_response : InferenceBackend → Response → ResponseWriter → ResponseRecorder
unfolding recorder_write_header recorder_write
copy_response backend resp w =
    let r : ResponseRecorder = record {
      writer = record w { header = w.header ++ served_header backend resp.header };
      status_code = 200;
      written = false;
    } in
    let r' = recorder_write_header resp.status_code r in
    if is_empty resp.body then r' else recorder_write resp.body r'

-- The error for a status, if it is one of the server.
abbrev pub status_error : ℕ → Option HandlerError
status_error code = if leb 500 code then some (backend_status code) else none

-- What is left of the body of the request.
abbrev pub left_body : Attempt → World → Option String
left_body a w = if w.buffered then a.unread else none

-- The answer as far as it reaches the client.
abbrev pub delivered : Option String → Response → Response
delivered none resp = resp
delivered (some part) resp = record resp { body = part }

-- The error behind a copy.
abbrev pub copy_error : Option String → ℕ → Option HandlerError
copy_error none code = status_error code
copy_error (some part) code = some copy_aborted

answered :
    Env
    → ℕ
    → InferenceRoute
    → InferenceBackend
    → Option Response
    → World
    → World × ℕ × Option HandlerError
unfolding track_costs copy_response
answered env i route backend none w =
    (record w { body = left_body (env.attempt i) w }, 502, status_error 502)
answered env i route backend (some resp) w =
    let a = env.attempt i in
    let r = copy_response backend (delivered a.broken_off resp) w.writer in
    let code = if nat_beq r.status_code 200 then resp.status_code else r.status_code in
    (
      record w {
        writer = r.writer;
        body = left_body a w;
        tracked =
            track_costs env.parsers a.read_fails a.tracked_at route backend resp backend.spec.cost
              w.tracked;
      },
      code,
      copy_error a.broken_off code,
    )

sent_to :
    Env
    → ℕ
    → ℤ
    → InferenceRoute
    → InferenceBackend
    → Request
    → Result TargetError Url
    → World
    → World × ℕ × Option HandlerError
unfolding answered director
sent_to env i timeout route backend req (err e) w = (w, 0, some (no_target e))
sent_to env i timeout route backend req (ok url) w =
    let out = director env backend url req w.body in
    answered env i route backend ((env.attempt i).round_trip timeout out)
      (record w { sent = w.sent ++ out ∷ [] })

-- `executeRequest`: the new state, the status code and the error.
unfoldable pub execute_request :
    Env
    → ℕ
    → ℤ
    → InferenceRoute
    → InferenceBackend
    → Request
    → World
    → World × ℕ × Option HandlerError
unfolding sent_to
execute_request env i timeout route backend req w =
    sent_to env i timeout route backend req (build_target_url env.parse_url backend) w

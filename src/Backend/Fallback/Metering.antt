-- ===== src/Backend/Fallback/Metering.antt =====
-- What the handling of a request leaves in the counters of the proxy (`ExecuteWithFallback` of
-- internal/proxy/backend.go, internal/proxy/metrics.go).
use kortex.Common.{
  leb, ◌||◌, ℕ, suc, ◌+◌, ◌≡◌, refl, ◌∙◌, inl, inr, String, ◌==◌, string_eq, Bool, false, not,
  Bool-cases, Option, none, some, List, [], ◌∷◌, ◌++◌, arith, if◌then◌else◌, ==_refl,
}
use kortex.Common.Int.{ℤ, pos, negsuc, ◌+ℤ◌}
use kortex.Common.Text.{is_empty}
use kortex.Http.{Request}
use kortex.Api.{InferenceBackend, InferenceRoute, BackendRef}
use kortex.Cache.{Store}
use kortex.Breaker.Manager.{CircuitBreakerManager}
use kortex.Backend.Proxying.{
  World, Env, Attempt, HandlerError, MetricCall, inc_active, dec_active, request_done,
  request_failed, fallback_from, rate_limit_hit, metric, execute_request,
}
use kortex.Backend.Proxying.Status.{execute_request-Effects}
use kortex.Backend.Fallback.{
  is_abort, served, gone, all_failed, panicked, aborted, Ending, started, recorded_with, is_error,
  conclude, attempt_backend, finish, execute_with_fallback, build_fallback_chain, attempt_timeout,
  wait_after,
}
use kortex.Backend.Fallback.Rounds.{AfterTurn, run_chain_rule, try_backend_rule}
use kortex.Metrics.{gauge_step, active_requests, counter_step, requests_total}

active_requests-snoc :
    (name : String) (g : ℤ) (cs : List MetricCall) (c : MetricCall)
    → active_requests name g (cs ++ c ∷ []) ≡ gauge_step name (active_requests name g cs) c
unfolding active_requests
active_requests-snoc name g [] c = refl
active_requests-snoc name g (d ∷ cs) c = active_requests-snoc name (gauge_step name g d) cs c

requests_total-snoc :
    (route b : String) (n : ℕ) (cs : List MetricCall) (c : MetricCall)
    → requests_total route b n (cs ++ c ∷ []) ≡ counter_step route b (requests_total route b n cs) c
unfolding requests_total
requests_total-snoc route b n [] c = refl
requests_total-snoc route b n (d ∷ cs) c =
    requests_total-snoc route b (counter_step route b n d) cs c

-- The attempts on a backend that have started.
unfoldable pub attempts_on : String → List MetricCall → ℕ
attempts_on b [] = 0
attempts_on b (inc_active a ∷ cs) = if a == b then suc (attempts_on b cs) else attempts_on b cs
attempts_on b (dec_active a ∷ cs) = attempts_on b cs
attempts_on b (fallback_from route c d ∷ cs) = attempts_on b cs
attempts_on b (request_done route c status ∷ cs) = attempts_on b cs
attempts_on b (request_failed route c ∷ cs) = attempts_on b cs
attempts_on b (rate_limit_hit route user ∷ cs) = attempts_on b cs

attempts_on-append :
    (b : String) (cs ds : List MetricCall)
    → attempts_on b (cs ++ ds) ≡ attempts_on b cs + attempts_on b ds
unfolding attempts_on
attempts_on-append b [] ds = ground arith
attempts_on-append b (inc_active a ∷ cs) ds = ground (arith, attempts_on-append b cs ds)
attempts_on-append b (dec_active a ∷ cs) ds = attempts_on-append b cs ds
attempts_on-append b (fallback_from route c d ∷ cs) ds = attempts_on-append b cs ds
attempts_on-append b (request_done route c status ∷ cs) ds = attempts_on-append b cs ds
attempts_on-append b (request_failed route c ∷ cs) ds = attempts_on-append b cs ds
attempts_on-append b (rate_limit_hit route user ∷ cs) ds = attempts_on-append b cs ds

abbrev raised : Bool → ℤ → ℤ
raised up g = if up then g +ℤ pos 1 else g

cancel : (g : ℤ) → (g +ℤ pos 1) +ℤ negsuc 0 ≡ g
unfolding ◌+ℤ◌
cancel g = ground arith

module _ (route : String) (before : List MetricCall) where
  -- Every gauge is ahead of where it was by one where `up` holds, and of the attempts that started since, `open_on`
  -- are not counted as requests yet.
  abbrev Ahead : (up : String → Bool) → (open_on : String → ℕ) → List MetricCall → Type 0
  Ahead up open_on cs =
      (b : String)
      → (active_requests b (pos 0) cs ≡ raised (up b) (active_requests b (pos 0) before))
        × (attempts_on b cs + requests_total route b 0 before
            ≡ attempts_on b before + requests_total route b 0 cs + open_on b)

  abbrev hit : String → String → ℕ
  hit a b = if a == b then 1 else 0

  abbrev Level : List MetricCall → Type 0
  Level cs = Ahead (λ b. false) (λ b. 0) cs

  Ahead-fallback :
      (up : String → Bool) (open_on : String → ℕ) (r c d : String) (cs : List MetricCall)
      → Ahead up open_on cs
      → Ahead up open_on (cs ++ fallback_from r c d ∷ [])
  unfolding gauge_step counter_step attempts_on
  Ahead-fallback up open_on r c d cs h = λ b. ground (
    arith,
    h b,
    active_requests-snoc b (pos 0) cs (fallback_from r c d),
    requests_total-snoc route b 0 cs (fallback_from r c d),
    attempts_on-append b cs (fallback_from r c d ∷ []),
  )

  Ahead-failed :
      (up : String → Bool) (open_on : String → ℕ) (r c : String) (cs : List MetricCall)
      → Ahead up open_on cs
      → Ahead up open_on (cs ++ request_failed r c ∷ [])
  unfolding gauge_step counter_step attempts_on
  Ahead-failed up open_on r c cs h = λ b. ground (
    arith,
    h b,
    active_requests-snoc b (pos 0) cs (request_failed r c),
    requests_total-snoc route b 0 cs (request_failed r c),
    attempts_on-append b cs (request_failed r c ∷ []),
  )

  Ahead-inc :
      (a : String) (cs : List MetricCall)
      → Level cs
      → Ahead (λ b. a == b) (hit a) (cs ++ inc_active a ∷ [])
  unfolding gauge_step counter_step attempts_on
  Ahead-inc a cs h = λ b. ground (
    arith,
    h b,
    active_requests-snoc b (pos 0) cs (inc_active a),
    requests_total-snoc route b 0 cs (inc_active a),
    attempts_on-append b cs (inc_active a ∷ []),
  )

  Ahead-dec :
      (a : String) (cs : List MetricCall)
      → Ahead (λ b. a == b) (hit a) cs
      → Ahead (λ b. false) (hit a) (cs ++ dec_active a ∷ [])
  unfolding gauge_step counter_step attempts_on
  Ahead-dec a cs h = λ b. ground (
    arith,
    h b,
    active_requests-snoc b (pos 0) cs (dec_active a),
    cancel (active_requests b (pos 0) before),
    requests_total-snoc route b 0 cs (dec_active a),
    attempts_on-append b cs (dec_active a ∷ []),
  )

  Ahead-done :
      (a : String) (status : ℕ) (cs : List MetricCall)
      → Ahead (λ b. false) (hit a) cs
      → Level (cs ++ request_done route a status ∷ [])
  unfolding gauge_step counter_step attempts_on
  Ahead-done a status cs h = λ b. ground (
    arith,
    h b,
    active_requests-snoc b (pos 0) cs (request_done route a status),
    requests_total-snoc route b 0 cs (request_done route a status),
    attempts_on-append b cs (request_done route a status ∷ []),
    ==_refl route,
  )

abbrev Metered : (List MetricCall → Type 0) → World → Type 0
Metered G w = (cs : List MetricCall) × (w.metrics ≡ some cs) × G cs

metric-Metered :
    (G G' : List MetricCall → Type 0) (c : MetricCall) (w : World)
    → ((cs : List MetricCall) → G cs → G' (cs ++ c ∷ []))
    → Metered G w
    → Metered G' (metric c w)
unfolding metric
metric-Metered G G' c w f (cs, known, good) = (cs ++ c ∷ [], rw known refl, f cs good)

metrics-recorded_with :
    (a : Attempt) (name : String) (failure : Bool) (w : World) (m : Option CircuitBreakerManager)
    → (recorded_with a name failure w m).metrics ≡ w.metrics
unfolding recorded_with
metrics-recorded_with a name failure w none = refl
metrics-recorded_with a name failure w (some m) = refl

kept-Metered :
    (G : List MetricCall → Type 0) (w w' : World)
    → w'.metrics ≡ w.metrics
    → Metered G w
    → Metered G w'
kept-Metered G w w' same (cs, known, good) = (cs, same ∙ known, good)

module _ (env : Env) (store : Store) (route : InferenceRoute) (req : Request)
    (before : List MetricCall) where
  abbrev Settled : World → Type 0
  Settled w = Metered (Level route.name before) w

  abbrev Running : String → World → Type 0
  Running name w = Metered (Ahead route.name before (λ b. name == b) (hit route.name before name)) w

  -- What an ending leaves: where the reverse proxy panicked, the attempt on the backend stays an
  -- active request and is not counted.
  abbrev pub Leaves : World → Ending → Type 0
  Leaves w (served name status) = Settled w
  Leaves w gone = Settled w
  Leaves w (all_failed e) = Settled w
  Leaves w panicked = Settled w
  Leaves w (aborted name) = Running name w

  started-Running :
      (previous name : String) (w : World)
      → Settled w
      → Running name (started route.name previous name w)
  unfolding started
  started-Running previous name w h = elim (Bool-cases (not (is_empty previous))) [
    | inl fallen ↦ rw fallen (
        metric-Metered _ _ _ _ (Ahead-inc route.name before name) (
          metric-Metered _ _ _ w
            (Ahead-fallback route.name before (λ b. false) (λ b. 0) route.name previous name) h))
    | inr first ↦ rw first (metric-Metered _ _ _ w (Ahead-inc route.name before name) h)
  ]

  wait_after-Settled :
      (i : ℕ) (name : String) (e : HandlerError) (rest : List String) (w : World)
      → Settled w
      → AfterTurn (λ w l. Settled w) Leaves (wait_after env store route req i name e rest w)
  unfolding wait_after
  wait_after-Settled i name e [] w h = h
  wait_after-Settled i name e (more ∷ rest) w h = elim (Bool-cases (env.attempt i).cancelled) [
    | inl stopped ↦ rw stopped h
    | inr waited ↦ rw waited h
  ]

  abbrev behind : ℕ → String → Bool → World → World
  behind i name failure w =
      let w1 = metric (dec_active name) w in
      recorded_with (env.attempt i) name failure w1 w1.breakers

  behind-Metered :
      (i : ℕ) (name : String) (failure : Bool) (w : World)
      → Running name w
      → Metered
          (Ahead route.name before (λ b. false) (hit route.name before name))
          (behind i name failure w)
  behind-Metered i name failure w h =
      let w1 = metric (dec_active name) w in
      kept-Metered (Ahead route.name before (λ b. false) (hit route.name before name)) w1
        (behind i name failure w)
        (metrics-recorded_with (env.attempt i) name failure w1 w1.breakers)
        (metric-Metered (Ahead route.name before (λ b. name == b) (hit route.name before name))
          (Ahead route.name before (λ b. false) (hit route.name before name)) (dec_active name) w
          (Ahead-dec route.name before name) h)

  done-Settled :
      (name : String) (status : ℕ) (w : World)
      → Metered (Ahead route.name before (λ b. false) (hit route.name before name)) w
      → Settled (metric (request_done route.name name status) w)
  done-Settled name status w =
      metric-Metered (Ahead route.name before (λ b. false) (hit route.name before name))
        (Level route.name before) (request_done route.name name status) w
        (Ahead-done route.name before name status)

  conclude-Settled :
      (i : ℕ) (name : String) (rest : List String) (w : World) (status : ℕ)
      (e : Option HandlerError)
      → Running name w
      → AfterTurn
          (λ w l. Settled w)
          Leaves
          (conclude env store route req i name rest (w, status, e))
  unfolding conclude is_error is_abort
  conclude-Settled i name rest w status none h =
      let w2 = behind i name (is_error none || leb 500 status) w in
      done-Settled name status w2 (behind-Metered i name (is_error none || leb 500 status) w h)
  conclude-Settled i name rest w status (some x) h = elim (Bool-cases (is_abort (some x))) [
    | inl cut ↦ rw cut h
    | inr ended ↦ rw ended (
        wait_after-Settled i name x rest (metric (request_done route.name name status) (w3 x)) (
          done-Settled name status (w3 x) (
            metric-Metered (Ahead route.name before (λ b. false) open_on)
              (Ahead route.name before (λ b. false) open_on) (request_failed route.name name) (w2 x)
              (Ahead-failed route.name before (λ b. false) open_on route.name name)
              (behind-Metered i name (is_error (some x) || leb 500 status) w h))))
  ]
    where
      w2 : HandlerError → World
      w2 x = behind i name (is_error (some x) || leb 500 status) w

      w3 : HandlerError → World
      w3 x = metric (request_failed route.name name) (w2 x)

      open_on : String → ℕ
      open_on = hit route.name before name

  attempt-Settled :
      (i : ℕ) (name : String) (rest : List String) (previous : String) (b : InferenceBackend)
      (last : Option HandlerError) (w : World)
      → Settled w
      → AfterTurn
          (λ w l. Settled w)
          Leaves
          (attempt_backend env store route req i name rest previous b w)
  unfolding attempt_backend
  attempt-Settled i name rest previous b last w h =
      let w1 = started route.name previous name w in
      let r = execute_request env i (attempt_timeout route) route b req w1 in
      let f = execute_request-Effects env i route b (attempt_timeout route) req w1 in
      conclude-Settled i name rest r.0 r.1 r.2
        (kept-Metered _ w1 r.0 f.same_metrics (started-Running previous name w h))

  finish-Settled :
      (w : World) (last : Option HandlerError)
      → Settled w
      → Leaves (finish last w).0 (finish last w).1
  unfolding finish
  finish-Settled w none h = h
  finish-Settled w (some e) h = h

  -- What a chain leaves in the counters: every gauge of active requests has the value it had, and the
  -- requests counted for the route on a backend, over all statuses, grow by one for each attempt that
  -- started on the backend; but where the reverse proxy panics while it copies the body of an answer,
  -- the gauge of that backend stays one too high, and that attempt is never counted.
  pub execute_with_fallback-Leaves :
      (primary : BackendRef) (w : World)
      → w.metrics ≡ some before
      → Leaves
          (execute_with_fallback env store route req primary w).0
          (execute_with_fallback env store route req primary w).1
  unfolding execute_with_fallback
  execute_with_fallback-Leaves primary w known =
      run_chain_rule env store route req (λ w l. Settled w) Leaves
        (try_backend_rule env store route req (λ w l. Settled w) Leaves (λ w last m h. h)
          (λ w last e h. h) attempt-Settled)
        finish-Settled 0 (build_fallback_chain route primary) none "" w
        (before, known, λ b. (refl, ground arith))

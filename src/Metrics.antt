-- ===== src/Metrics.antt =====
-- What the counters of the proxy show (internal/proxy/metrics.go) behind some calls of the recorder.
-- A vector is read at one choice of its labels.
use kortex.Common.{ℕ, suc, String, ◌&&◌, List, [], ◌∷◌, ◌==◌, string_eq, if◌then◌else◌}
use kortex.Common.Int.{ℤ, pos, negsuc, ◌+ℤ◌}
use kortex.Backend.Proxying.{
  MetricCall, fallback_from, inc_active, dec_active, request_done, request_failed, rate_limit_hit,
}

-- `IncActiveRequests` and `DecActiveRequests` on the gauge of a backend.
unfoldable pub gauge_step : String → ℤ → MetricCall → ℤ
gauge_step name g (inc_active b) = if b == name then g +ℤ pos 1 else g
gauge_step name g (dec_active b) = if b == name then g +ℤ negsuc 0 else g
gauge_step name g (fallback_from route a b) = g
gauge_step name g (request_done route b status) = g
gauge_step name g (request_failed route b) = g
gauge_step name g (rate_limit_hit route user) = g

unfoldable pub active_requests : String → ℤ → List MetricCall → ℤ
unfolding gauge_step
active_requests name g [] = g
active_requests name g (c ∷ cs) = active_requests name (gauge_step name g c) cs

-- `RecordRequest` on the counter of a route and a backend, over all statuses.
unfoldable pub counter_step : (route backend : String) → ℕ → MetricCall → ℕ
counter_step route backend n (request_done r b status) =
    if r == route && b == backend then suc n else n
counter_step route backend n (inc_active b) = n
counter_step route backend n (dec_active b) = n
counter_step route backend n (fallback_from r a b) = n
counter_step route backend n (request_failed r b) = n
counter_step route backend n (rate_limit_hit r user) = n

unfoldable pub requests_total : (route backend : String) → ℕ → List MetricCall → ℕ
unfolding counter_step
requests_total route backend n [] = n
requests_total route backend n (c ∷ cs) =
    requests_total route backend (counter_step route backend n c) cs

-- ===== src/Backend/Tests.antt =====
-- The theorems on the fallback chain at a concrete route, whose primary backend answers 500
-- (internal/proxy/backend.go).
use kortex.Common.{◌≡◌, refl, some, none, [], ◌∷◌, arith}
use kortex.Common.Int.{pos, ◌+ℤ◌}
use kortex.Cache.{get_backend_by_name}
use kortex.Breaker.{
  CircuitBreaker, state_half_open, default_circuit_breaker_config, new_circuit_breaker,
}
use kortex.Breaker.Manager.{CircuitBreakerManager}
use kortex.Breaker.Manager.Refinement.{view}
use kortex.Backend.Proxying.{not_found, World, Env, inc_active}
use kortex.Backend.Proxying.Status.{client_status}
use kortex.Backend.Fallback.{aborted, on, try_backend, execute_with_fallback}
use kortex.Backend.Fallback.Endings.{Answered, execute_with_fallback-Answered}
use kortex.Backend.Fallback.Status.{first_answer_decides}
use kortex.Backend.Fallback.Bodies.{Behind, later_attempts-NoBody}
use kortex.Backend.Fallback.Metering.{Leaves, execute_with_fallback-Leaves}
use kortex.Backend.Fallback.Slots.{missing_keeps_slot}
use kortex.Common.Dict.{lookup, insert}
use kortex.Cache.{get_backend, set_route, set_backend, new_store}
use kortex.Backend.Target.{build_target_url, target_text}
use kortex.Backend.Proxying.{director}
use kortex.Common.Text.{is_empty}
use kortex.Samples.{
  sample_env, sample_store, chat_route, chat_request, gpt_ref, external_backend, fresh_world,
}

Answered_example :
    Answered
      (execute_with_fallback sample_env sample_store chat_route chat_request gpt_ref
        (fresh_world none)).0
      (execute_with_fallback sample_env sample_store chat_route chat_request gpt_ref
        (fresh_world none)).1
Answered_example =
    execute_with_fallback-Answered sample_env sample_store chat_route chat_request gpt_ref
      (fresh_world none)

first_answer_example :
    client_status
      (execute_with_fallback sample_env sample_store chat_route chat_request gpt_ref
        (fresh_world none)).0
    ≡ some 500
unfolding build_target_url target_text get_backend_by_name get_backend set_route set_backend
    new_store insert lookup director is_empty
first_answer_example =
    first_answer_decides sample_env sample_store chat_route chat_request (external_backend "gpt")
      (record { scheme = "https"; host = "gpt"; path = "" })
      (record { status_code = 500; header = []; body = "" }) gpt_ref (fresh_world none) tt refl refl
      refl refl refl

NoBody_example :
    Behind
      (execute_with_fallback sample_env sample_store chat_route chat_request gpt_ref
        (fresh_world none)).0.sent
NoBody_example =
    later_attempts-NoBody sample_env sample_store chat_route chat_request gpt_ref (fresh_world none)
      refl refl

-- The recorder of the metrics is there, with nothing counted, and the answer of "gpt" breaks off.
abbrev metered : World
metered = record (fresh_world none) { metrics = some [] }

abbrev breaking_env : Env
breaking_env = record sample_env {
  attempt = λ i. record (sample_env.attempt i) { broken_off = some "hel" };
}

execute_with_fallback-Leaves_example :
    Leaves breaking_env sample_store chat_route chat_request []
      (execute_with_fallback breaking_env sample_store chat_route chat_request gpt_ref metered).0
      (execute_with_fallback breaking_env sample_store chat_route chat_request gpt_ref metered).1
execute_with_fallback-Leaves_example =
    execute_with_fallback-Leaves breaking_env sample_store chat_route chat_request [] gpt_ref
      metered refl

broken_off_test :
    ((execute_with_fallback breaking_env sample_store chat_route chat_request gpt_ref metered).1
      ≡ aborted "gpt")
    × ((execute_with_fallback breaking_env sample_store chat_route chat_request gpt_ref
          metered).0.metrics
        ≡ some (inc_active "gpt" ∷ []))
unfolding execute_with_fallback kortex.Backend.Fallback.run_chain
    kortex.Backend.Fallback.build_fallback_chain try_backend get_backend_by_name lookup set_route
    set_backend insert new_store kortex.Backend.Proxying.execute_request build_target_url is_empty
    kortex.Backend.Proxying.metric
broken_off_test = (refl, refl)

-- A half-open breaker of a backend that is not in the cache, with its slots free.
abbrev half_open_breaker : CircuitBreaker
half_open_breaker = record (new_circuit_breaker "gone" default_circuit_breaker_config) {
  state = state_half_open;
}

abbrev breakers : CircuitBreakerManager
breakers = record {
  breakers = ("gone", half_open_breaker) ∷ [];
  config = default_circuit_breaker_config;
}

missing_keeps_slot_example :
    (m' : CircuitBreakerManager) × (try_backend sample_env sample_store chat_route chat_request 0
        "gone"
        ("gpt" ∷ [])
        none
        ""
        (fresh_world (some breakers))
      ≡ on
          (record (fresh_world (some breakers)) { breakers = some m' })
          (some (not_found "gone"))
          "")
    × (view m' "gone" ≡ record (view breakers "gone") {
      half_open_requests = (view breakers "gone").half_open_requests +ℤ pos 1;
    })
unfolding get_backend_by_name get_backend set_route set_backend new_store insert lookup view
    new_circuit_breaker
missing_keeps_slot_example =
    missing_keeps_slot sample_env sample_store chat_route chat_request 0 "gone" ("gpt" ∷ []) none ""
      (fresh_world (some breakers)) breakers refl refl refl (omega arith)

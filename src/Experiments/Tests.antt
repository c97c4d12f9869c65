-- ===== src/Experiments/Tests.antt =====
-- The theorems on experiments at a concrete user (internal/proxy/experiments.go).
use kortex.Common.{◌≡◌, refl, some, [], ◌∷◌, arith}
use kortex.Common.Int.{pos}
use kortex.Experiments.{
  ExperimentManager, apply_experiment, calculate_bucket, get_backend, variant_treatment,
}
use kortex.Experiments.Assignment.{
  assigned_to, raise-keeps_treatment, Applied, apply_experiment-Applied,
}
use kortex.Common.Utf8.{bytes}
use kortex.Common.Text.{is_empty, fold_eq}
use kortex.Http.{header_get}
use kortex.Experiments.{get_user_id}
use kortex.Samples.{ramp_up, chat_request}

abbrev counting : ExperimentManager
counting = record { metrics = some [] }

bucket_test : calculate_bucket "ann" "ramp-up" ≡ 4
unfolding calculate_bucket bytes
bucket_test = refl

raise-keeps_treatment_example :
    (assigned_to (record ramp_up { traffic_percent = pos 80 }) chat_request counting).variant
    ≡ variant_treatment
unfolding get_backend calculate_bucket bytes get_user_id is_empty header_get fold_eq
raise-keeps_treatment_example =
    raise-keeps_treatment ramp_up (record ramp_up { traffic_percent = pos 80 }) chat_request
      chat_request counting counting refl refl (omega arith) (omega arith) refl

apply_experiment_example :
    Applied
      (ramp_up ∷ [])
      "gpt"
      counting
      (apply_experiment (ramp_up ∷ []) "gpt" chat_request counting)
apply_experiment_example = apply_experiment-Applied (ramp_up ∷ []) "gpt" chat_request counting

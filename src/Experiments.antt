-- ===== src/Experiments.antt =====
-- A/B experiments (internal/proxy/experiments.go): a user's bucket is the FNV-1a hash of the user
-- and the experiment's name, as hash/fnv computes it on 32 bits.
pub mod Assignment
mod Tests
use Prim.Native.Nat.{bit_xor}
use kortex.Common.{
  ℕ, ◌*◌, ◌%◌, ◌^◌, String, Bool, false, not, ◌||◌, ◌==◌, string_eq, Option, none, some, List, [],
  ◌∷◌, ◌++◌, if◌then◌else◌, ◌≡◌, refl,
}
use kortex.Common.Int.{ℤ, pos, leb_ℤ, ltb_ℤ}
use kortex.Common.Text.{◌<>◌, is_empty}
use kortex.Common.Utf8.{bytes}
use kortex.Api.{AbExperiment}
use kortex.Http.{Request, ResponseWriter, header_get, header_set}

abbrev pub variant_control : String
variant_control = "control"

abbrev pub variant_treatment : String
variant_treatment = "treatment"

abbrev default_user_id_header : String
default_user_id_header = "X-User-ID"

pub record ExperimentResult : Type 0 where
  pub backend : String
  pub variant : String
  pub experiment : String

-- The assignments that the recorder of the metrics has counted, unless there is none.
pub record ExperimentManager : Type 0 where
  pub metrics : Option (List (String × String))

fnv_from : ℕ → List ℕ → ℕ
fnv_from h [] = h
fnv_from h (b ∷ bs) = fnv_from (bit_xor h b * 16777619 % 2 ^ 32) bs

-- `fnv.New32a`, `Write` and `Sum32`.
unfoldable pub fnv32a : List ℕ → ℕ
unfolding fnv_from
fnv32a bs = fnv_from 2166136261 bs

unfoldable pub get_user_id : Request → String
get_user_id req =
    let user_id = header_get default_user_id_header req.header in
    let auth = header_get "Authorization" req.header in
    if not (is_empty user_id)
    then user_id
    else if not (is_empty auth)
    then auth
    else req.remote_addr

unfoldable pub calculate_bucket : (user_id experiment_name : String) → ℕ
unfolding fnv32a
calculate_bucket user_id experiment_name = fnv32a (bytes (user_id <> ":" <> experiment_name)) % 100

-- The percentage of the traffic that goes to the treatment.
unfoldable pub effective_percent : AbExperiment → ℤ
effective_percent exp = if leb_ℤ exp.traffic_percent (pos 0) then pos 10 else exp.traffic_percent

assign :
    Option (List (String × String))
    → (experiment variant : String) → Option (List (String × String))
assign none experiment variant = none
assign (some log) experiment variant = some (log ++ (experiment, variant) ∷ [])

assigned : AbExperiment → Bool → ExperimentManager → ExperimentManager × ExperimentResult
unfolding assign
assigned exp treated m =
    let variant = if treated then variant_treatment else variant_control in
    (
      record m { metrics = assign m.metrics exp.name variant },
      record {
        backend = if treated then exp.treatment else exp.control;
        variant = variant;
        experiment = exp.name;
      },
    )

unfoldable pub get_backend :
    Option AbExperiment → Request → ExperimentManager → ExperimentManager × ExperimentResult
unfolding assigned effective_percent
get_backend none req m = (m, record { backend = ""; variant = ""; experiment = "" })
get_backend (some exp) req m =
    assigned exp (ltb_ℤ (pos (calculate_bucket (get_user_id req) exp.name)) (effective_percent exp))
      m

unfoldable pub should_apply_experiment : Option AbExperiment → String → Bool
should_apply_experiment none selected = false
should_apply_experiment (some exp) selected = selected == exp.control || selected == exp.treatment

unfoldable pub find_applicable_experiment : List AbExperiment → String → Option AbExperiment
find_applicable_experiment [] selected = none
find_applicable_experiment (exp ∷ exps) selected =
    if should_apply_experiment (some exp) selected
    then some exp
    else find_applicable_experiment exps selected

unfoldable pub apply_found :
    Option AbExperiment
    → String
    → Request
    → ExperimentManager
    → ExperimentManager × String × Option ExperimentResult
apply_found none selected req m = (m, selected, none)
apply_found (some exp) selected req m =
    let (m', result) = get_backend (some exp) req m in (m', result.backend, some result)

unfoldable pub apply_experiment :
    List AbExperiment
    → String
    → Request
    → ExperimentManager
    → ExperimentManager × String × Option ExperimentResult
apply_experiment exps selected req m =
    apply_found (find_applicable_experiment exps selected) selected req m

unfoldable pub set_experiment_headers : Option ExperimentResult → ResponseWriter → ResponseWriter
set_experiment_headers none w = w
set_experiment_headers (some result) w = record w {
  header =
      header_set "X-Variant" result.variant (header_set "X-Experiment" result.experiment w.header);
}

-- The published test vectors of FNV-1a.
fnv32a_tests : (fnv32a [] ≡ 2166136261) × (fnv32a (97 ∷ []) ≡ 3826002220)
unfolding fnv32a
fnv32a_tests = (refl, refl)

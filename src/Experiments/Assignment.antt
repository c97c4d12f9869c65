-- ===== src/Experiments/Assignment.antt =====
-- What an assignment to an experiment depends on (internal/proxy/experiments.go).
use kortex.Common.{
  ◌++◌, ◌↔◌, Bool-cases, refl, none, List, String, [], ◌∷◌, true, All, inl, inr, ◌⊎◌, Option, ◌≡◌,
  ap, some, arith, string_eq,
}
use kortex.Common.Int.{pos, ◌≤ℤ◌, ◌<ℤ◌}
use kortex.Api.{AbExperiment}
use kortex.Http.{Request}
use text.Mathlib.TextEquality.{eq_iff}
use kortex.Common.{string_eq}
use kortex.Experiments.{
  should_apply_experiment, apply_found, find_applicable_experiment, apply_experiment,
  variant_control, ExperimentManager, ExperimentResult, get_backend, get_user_id, calculate_bucket,
  variant_treatment,
}

-- The result of an assignment, without the manager.
abbrev pub assigned_to : AbExperiment → Request → ExperimentManager → ExperimentResult
assigned_to exp req m = (get_backend (some exp) req m).1

-- A ramp-up keeps its users: who is in the treatment at one positive percentage stays in it when the
-- percentage is raised, whatever else the requests hold, as long as they name the same user.
pub raise-keeps_treatment :
    (exp raised : AbExperiment) (req req' : Request) (m m' : ExperimentManager)
    → raised.name ≡ exp.name
    → get_user_id req' ≡ get_user_id req
    → pos 0 <ℤ exp.traffic_percent
    → exp.traffic_percent ≤ℤ raised.traffic_percent
    → (assigned_to exp req m).variant ≡ variant_treatment
    → (assigned_to raised req' m').variant ≡ variant_treatment
unfolding get_backend
raise-keeps_treatment exp raised req req' m m' same user positive le h = ground (
  arith,
  ap (λ u. calculate_bucket u raised.name) user,
  ap (calculate_bucket (get_user_id req)) same,
)

-- An experiment that takes all the traffic, or more, has everyone in the treatment: a bucket is
-- below 100.
pub whole-treatment :
    (exp : AbExperiment) (req : Request) (m : ExperimentManager)
    → pos 100 ≤ℤ exp.traffic_percent
    → (assigned_to exp req m).backend ≡ exp.treatment
unfolding get_backend calculate_bucket
whole-treatment exp req m h = ground arith

-- The result names one of the two arms of the experiment.
abbrev pub Arm : AbExperiment → ExperimentResult → Type 0
Arm exp r =
    (r.experiment ≡ exp.name)
    × (((r.backend ≡ exp.control) × (r.variant ≡ variant_control))
        ⊎ ((r.backend ≡ exp.treatment) × (r.variant ≡ variant_treatment)))

abbrev pub Mentions : String → AbExperiment → Type 0
Mentions selected exp = (selected ≡ exp.control) ⊎ (selected ≡ exp.treatment)

-- What becomes of a selected backend: no experiment names it, and it stays; or an experiment that
-- names it, with none before it that does, moves it to the arm that the result names.
pub data Applied (exps : List AbExperiment) (selected : String) (m : ExperimentManager)
    : ExperimentManager × String × Option ExperimentResult → Type 0 where
  unaffected :
      All (λ exp. ¬ Mentions selected exp) exps → Applied exps selected m (m, selected, none)
  moved :
      (before after : List AbExperiment) (exp : AbExperiment) {r : ExperimentResult}
      {m' : ExperimentManager}
      → exps ≡ before ++ exp ∷ after
      → All (λ exp. ¬ Mentions selected exp) before
      → Mentions selected exp
      → Arm exp r
      → Applied exps selected m (m', r.backend, some r)

get_backend-Arm :
    (exp : AbExperiment) (req : Request) (m : ExperimentManager) → Arm exp (assigned_to exp req m)
unfolding get_backend
get_backend-Arm exp req m = ground arith

Mentions-iff :
    (exp : AbExperiment) (selected : String)
    → (should_apply_experiment (some exp) selected ≡ true) ↔ Mentions selected exp
unfolding should_apply_experiment
Mentions-iff exp selected =
    ground (arith, eq_iff selected exp.control, eq_iff selected exp.treatment)

-- The first experiment that names the backend.
data Found (exps : List AbExperiment) (selected : String) : Option AbExperiment → Type 0 where
  nowhere : All (λ exp. ¬ Mentions selected exp) exps → Found exps selected none
  here :
      (before after : List AbExperiment) {exp : AbExperiment}
      → exps ≡ before ++ exp ∷ after
      → All (λ exp. ¬ Mentions selected exp) before
      → Mentions selected exp
      → Found exps selected (some exp)

Found-behind :
    (exp : AbExperiment) (exps : List AbExperiment) (selected : String) (o : Option AbExperiment)
    → ¬ Mentions selected exp
    → Found exps selected o
    → Found (exp ∷ exps) selected o
Found-behind exp exps selected none missed (nowhere all) = nowhere (missed, all)
Found-behind exp exps selected (some x) missed (here before after e all found) =
    here (exp ∷ before) after (ap (λ es. exp ∷ es) e) (missed, all) found

find-Found :
    (exps : List AbExperiment) (selected : String)
    → Found exps selected (find_applicable_experiment exps selected)
unfolding find_applicable_experiment
find-Found [] selected = nowhere tt
find-Found (exp ∷ exps) selected = elim (Bool-cases (should_apply_experiment (some exp) selected)) [
  | inl applies ↦ rw applies (here [] exps refl tt ((Mentions-iff exp selected).0 applies))
  | inr misses ↦ rw misses (
      Found-behind exp exps selected (find_applicable_experiment exps selected)
        (ground (arith, Mentions-iff exp selected)) (find-Found exps selected))
]

apply_found-Applied :
    (exps : List AbExperiment) (selected : String) (req : Request) (m : ExperimentManager)
    (o : Option AbExperiment)
    → Found exps selected o
    → Applied exps selected m (apply_found o selected req m)
unfolding apply_found
apply_found-Applied exps selected req m none (nowhere all) = unaffected all
apply_found-Applied exps selected req m (some exp) (here before after e all found) =
    moved before after exp e all found (get_backend-Arm exp req m)

-- Every application is one of the two, and its result is an arm of the experiment.
pub apply_experiment-Applied :
    (exps : List AbExperiment) (selected : String) (req : Request) (m : ExperimentManager)
    → Applied exps selected m (apply_experiment exps selected req m)
unfolding apply_experiment
apply_experiment-Applied exps selected req m =
    apply_found-Applied exps selected req m (find_applicable_experiment exps selected)
      (find-Found exps selected)

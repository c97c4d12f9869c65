-- ===== src/Controller/Routes/Ordering.antt =====
-- The order in which a map gives the names of backends does not matter for the phase of a route
-- (`Reconcile` of internal/controller/inferenceroute_controller.go).
use kortex.Common.{◌≡◌, sym, ◌∙◌, inl, inr, String, Bool, true, false, List, length, arith}
use mathlib.Core.Path.{subst}
use text.Mathlib.TextEquality.{IsScalar-prop}
use mathlib.Core.Quot
use mathlib.Core.Quot.{Quot}
use kortex.Api.{InferenceRoute, InferenceBackend}
use kortex.Controller.{Fetched}
use kortex.Controller.Routes.{RouteCluster, has_name, tally, determine_phase, assessed_by}
use kortex.Controller.Routes.Naming.{references}
use kortex.Controller.Routes.Phases.{
  is_absent, is_healthy, absent-not_healthy, Phased, Phased-Failed, tallied-Phased,
  assessed_by-Phased,
}

module _ (named : String → Bool) (get : String → Fetched InferenceBackend) (phase : String) where
  only_pending : ((name : String) → named name ≡ false) → Phased named get phase → phase ≡ "Pending"
  only_pending empty (inl (e, rest)) = e
  only_pending empty (inr (inl (e, (name, at, gone)))) = let no = empty name in ground arith
  only_pending empty (inr (inr (inl (e, (name, at), down)))) = let no = empty name in ground arith
  only_pending empty (inr (inr (inr (inl (e, exist, (name, at, up), down))))) =
      let no = empty name in ground arith
  only_pending empty (inr (inr (inr (inr (e, (name, at), up))))) =
      let no = empty name in ground arith

  only_failed :
      (n : String)
      → named n ≡ true
      → ((name : String) → named name ≡ true → is_healthy (get name) ≡ false)
      → Phased named get phase
      → phase ≡ "Failed"
  only_failed n here down (inl (e, empty)) = let no = empty n in ground arith
  only_failed n here down (inr (inl (e, rest))) = e
  only_failed n here down (inr (inr (inl (e, rest, more)))) = e
  only_failed n here down (inr (inr (inr (inl (e, exist, (name, at, up), more))))) =
      let no = down name at in ground arith
  only_failed n here down (inr (inr (inr (inr (e, (name, at), up))))) =
      let no = down name at in let yes_up = up name at in ground arith

  only_degraded :
      ((name : String) → named name ≡ true → is_absent (get name) ≡ false)
      → (n m : String) → named n ≡ true
      → is_healthy (get n) ≡ true
      → named m ≡ true
      → is_healthy (get m) ≡ false
      → Phased named get phase
      → phase ≡ "Degraded"
  only_degraded exist n m at_n up at_m down (inl (e, empty)) = let no = empty n in ground arith
  only_degraded exist n m at_n up at_m down (inr (inl (e, (name, at, gone)))) =
      let no = exist name at in ground arith
  only_degraded exist n m at_n up at_m down (inr (inr (inl (e, rest, all_down)))) =
      let no = all_down n at_n in ground arith
  only_degraded exist n m at_n up at_m down (inr (inr (inr (inl (e, rest, more, others))))) = e
  only_degraded exist n m at_n up at_m down (inr (inr (inr (inr (e, rest, all_up))))) =
      let no = all_up m at_m in ground arith

  only_active :
      (n : String)
      → named n ≡ true
      → ((name : String) → named name ≡ true → is_healthy (get name) ≡ true)
      → Phased named get phase
      → phase ≡ "Active"
  only_active n here up (inl (e, empty)) = let no = empty n in ground arith
  only_active n here up (inr (inl (e, (name, at, gone)))) =
      let no = up name at in let off = absent-not_healthy (get name) gone in ground arith
  only_active n here up (inr (inr (inl (e, rest, down)))) =
      let no = down n here in let on = up n here in ground arith
  only_active n here up (inr (inr (inr (inl (e, exist, rest, (name, at, down)))))) =
      let no = up name at in ground arith
  only_active n here up (inr (inr (inr (inr (e, rest, more))))) = e

-- The backends explain one phase only.
pub Phased-unique :
    (named : String → Bool) (get : String → Fetched InferenceBackend) (p q : String)
    → Phased named get p
    → Phased named get q
    → q ≡ p
Phased-unique named get p q (inl (e, empty)) h = only_pending named get q empty h ∙ sym e
Phased-unique named get p q (inr (inl (e, (name, at, gone)))) h =
    Phased-Failed named get q name h at gone ∙ sym e
Phased-unique named get p q (inr (inr (inl (e, (name, at), down)))) h =
    only_failed named get q name at down h ∙ sym e
Phased-unique named get p q (inr (inr (inr (inl (e, exist, (n, at_n, up), (m, at_m, down)))))) h =
    only_degraded named get q exist n m at_n up at_m down h ∙ sym e
Phased-unique named get p q (inr (inr (inr (inr (e, (name, at), up))))) h =
    only_active named get q name at up h ∙ sym e

-- Sets of names: lists that hold the same names, in whatever order and however often.
abbrev pub SameNames : List String → List String → Type 0
SameNames ns ms = (name : String) → has_name name ns ≡ has_name name ms

abbrev pub NameSet : Type 0
NameSet = Quot SameNames

unfoldable pub phase_of_names : (String → Fetched InferenceBackend) → List String → String
phase_of_names get ns =
    determine_phase (length ns) (tally get ns).healthy (length (tally get ns).missing)

pub phase-SameNames :
    (get : String → Fetched InferenceBackend) (ns ms : List String)
    → SameNames ns ms
    → phase_of_names get ns ≡ phase_of_names get ms
unfolding phase_of_names
phase-SameNames get ns ms same =
    Phased-unique (λ name. has_name name ms) get (phase_of_names get ms) (phase_of_names get ns)
      (tallied-Phased get ms)
      (subst (λ (named : String → Bool). Phased named get (phase_of_names get ns))
        (λ i name. same name i) (tallied-Phased get ns))

-- The phase for a set of names.
unfoldable pub phase_of_set : (String → Fetched InferenceBackend) → NameSet → String
unfolding phase_of_names
phase_of_set get = Quot.lift (hlevel (IsScalar-prop)) (phase_of_names get) (phase-SameNames get)

-- The phase of a route is that of the set of the names to which it refers: whichever list of them
-- is looked up, in whatever order and however often a name stands in it, the phase is the same.
pub assessed_by-phase_of_set :
    (c : RouteCluster) (route : InferenceRoute) (ns : List String)
    → ((name : String) → has_name name ns ≡ references name route)
    → (assessed_by c route).status.phase
      ≡ phase_of_set
          (λ name. c.get_backend (record { namespace = route.namespace; name = name }))
          (Quot.mk ns)
unfolding phase_of_set phase_of_names
assessed_by-phase_of_set c route ns same =
    let get =
      λ (name : String). c.get_backend (record { namespace = route.namespace; name = name }) in
    Phased-unique (λ name. references name route) get (phase_of_names get ns)
      (assessed_by c route).status.phase
      (subst (λ (named : String → Bool). Phased named get (phase_of_names get ns))
        (λ i name. same name i) (tallied-Phased get ns))
      (assessed_by-Phased c route)

-- ===== src/Controller/Routes/Phases.antt =====
-- What the phase of a route says of its backends (`determinePhase` and `Reconcile` of
-- internal/controller/inferenceroute_controller.go).
use kortex.Common.{
  ℕ, suc, ◌<◌, ◌≤◌, ◌≡◌, refl, ap, ◌∙◌, ◌⊎◌, inl, inr, String, ◌==◌, string_eq, ==_refl, Bool, true,
  false, List, [], ◌∷◌, length, ltb, nat_beq, ltb→lt, if◌then◌else◌, Bool-cases, arith,
}
use mathlib.Core.Path.{subst, subst⁻¹}
use text.Mathlib.TextEquality.{eq_iff}
use kortex.Api.{InferenceRoute, InferenceBackend}
use kortex.Controller.{Fetched, present, absent, unavailable}
use kortex.Controller.Routes.{
  RouteCluster, Tally, has_name, collect_backend_names, count_fetched, tally, determine_phase,
  assessed_by, route_assessed,
}
use kortex.Controller.Routes.Naming.{references, has_name-collect_backend_names}

unfoldable pub is_absent : Fetched InferenceBackend → Bool
is_absent absent = true
is_absent (unavailable e) = false
is_absent (present b) = false

unfoldable pub is_healthy : Fetched InferenceBackend → Bool
is_healthy absent = false
is_healthy (unavailable e) = false
is_healthy (present b) = b.status.health == "Healthy"

count : (String → Bool) → List String → ℕ
count test [] = 0
count test (n ∷ ns) = let rest = count test ns in if test n then suc rest else rest

module _ (test : String → Bool) where
  count_le : (ns : List String) → count test ns ≤ length ns
  unfolding count
  count_le [] = omega arith
  count_le (n ∷ ns) = ground (arith, count_le ns)

  -- Nothing is counted: every name fails the test.
  count-none :
      (ns : List String)
      → count test ns ≡ 0
      → (name : String) → has_name name ns ≡ true
      → test name ≡ false
  unfolding count has_name
  count-none [] h name at = ground arith
  count-none (n ∷ ns) h name at = elim (Bool-cases (n == name)) [
    | inl here ↦
        let passes = subst (λ m. test m ≡ false) ((eq_iff n name).0 here) in passes (ground arith)
    | inr later ↦ count-none ns (ground arith) name (ground arith)
  ]

  count-some :
      (ns : List String)
      → 0 < count test ns
      → (name : String) × (has_name name ns ≡ true) × (test name ≡ true)
  unfolding count has_name
  count-some [] h = ground arith
  count-some (n ∷ ns) h = elim (Bool-cases (test n)) [
    | inl passes ↦ (n, rw (==_refl n) refl, passes)
    | inr fails ↦
        let (name, at, passes) = count-some ns (ground arith) in (name, ground arith, passes)
  ]

  -- All are counted: every name passes.
  count-all :
      (ns : List String)
      → length ns ≤ count test ns
      → (name : String) → has_name name ns ≡ true
      → test name ≡ true
  unfolding count has_name
  count-all [] h name at = ground arith
  count-all (n ∷ ns) h name at =
      let bound = count_le ns in
      elim (Bool-cases (n == name)) [
        | inl here ↦
            let passes = subst (λ m. test m ≡ true) ((eq_iff n name).0 here) in
            passes (ground arith)
        | inr later ↦ count-all ns (ground arith) name (ground arith)
      ]

  count-missed :
      (ns : List String)
      → count test ns < length ns
      → (name : String) × (has_name name ns ≡ true) × (test name ≡ false)
  unfolding count has_name
  count-missed [] h = ground arith
  count-missed (n ∷ ns) h = elim (Bool-cases (test n)) [
    | inl passes ↦
        let (name, at, fails) = count-missed ns (ground arith) in (name, ground arith, fails)
    | inr fails ↦ (n, rw (==_refl n) refl, fails)
  ]

healthy-count_fetched :
    (n : String) (f : Fetched InferenceBackend) (t : Tally)
    → (count_fetched n f t).healthy ≡ (if is_healthy f then suc t.healthy else t.healthy)
unfolding count_fetched is_healthy
healthy-count_fetched n absent t = refl
healthy-count_fetched n (unavailable e) t = refl
healthy-count_fetched n (present b) t = elim (Bool-cases (b.status.health == "Healthy")) [
  | inl healthy ↦ rw healthy refl
  | inr ailing ↦ rw ailing refl
]

absent-count_fetched :
    (n : String) (f : Fetched InferenceBackend) (t : Tally)
    → length (count_fetched n f t).missing
      ≡ (if is_absent f then suc (length t.missing) else length t.missing)
unfolding count_fetched is_absent
absent-count_fetched n absent t = refl
absent-count_fetched n (unavailable e) t = refl
absent-count_fetched n (present b) t = elim (Bool-cases (b.status.health == "Healthy")) [
  | inl healthy ↦ rw healthy refl
  | inr ailing ↦ rw ailing refl
]

contains_head : (n : String) (ns : List String) → has_name n (n ∷ ns) ≡ true
unfolding has_name
contains_head n ns = rw (==_refl n) refl

tally-healthy :
    (get : String → Fetched InferenceBackend) (ns : List String)
    → (tally get ns).healthy ≡ count (λ n. is_healthy (get n)) ns
unfolding tally count
tally-healthy get [] = refl
tally-healthy get (n ∷ ns) =
    healthy-count_fetched n (get n) (tally get ns)
    ∙ ap (λ k. if is_healthy (get n) then suc k else k) (tally-healthy get ns)

tally-absent :
    (get : String → Fetched InferenceBackend) (ns : List String)
    → length (tally get ns).missing ≡ count (λ n. is_absent (get n)) ns
unfolding tally count
tally-absent get [] = refl
tally-absent get (n ∷ ns) =
    absent-count_fetched n (get n) (tally get ns)
    ∙ ap (λ k. if is_absent (get n) then suc k else k) (tally-absent get ns)

-- The backends named, with what is found of each, explain a phase.
abbrev pub Phased : (named : String → Bool) → (String → Fetched InferenceBackend) → String → Type 0
Phased named get phase =
    ((phase ≡ "Pending") × ((name : String) → named name ≡ false))
    ⊎ ((phase ≡ "Failed") × ((name : String) × (named name ≡ true) × (is_absent (get name) ≡ true)))
    ⊎ ((phase ≡ "Failed")
        × ((name : String) × (named name ≡ true))
        × ((name : String) → named name ≡ true → is_healthy (get name) ≡ false))
    ⊎ ((phase ≡ "Degraded")
        × ((name : String) → named name ≡ true → is_absent (get name) ≡ false)
        × ((name : String) × (named name ≡ true) × (is_healthy (get name) ≡ true))
        × ((name : String) × (named name ≡ true) × (is_healthy (get name) ≡ false)))
    ⊎ ((phase ≡ "Active")
        × ((name : String) × (named name ≡ true))
        × ((name : String) → named name ≡ true → is_healthy (get name) ≡ true))

module _ (get : String → Fetched InferenceBackend) where
  up : String → Bool
  up n = is_healthy (get n)

  gone : String → Bool
  gone n = is_absent (get n)

  counted-Phased :
      (n : String) (rest : List String)
      → Phased
          (λ name. has_name name (n ∷ rest))
          get
          (determine_phase (length (n ∷ rest)) (count up (n ∷ rest)) (count gone (n ∷ rest)))
  unfolding determine_phase has_name up gone
  counted-Phased n rest =
      let ns = n ∷ rest in
      let positive : nat_beq (length ns) 0 ≡ false = ground arith in
      rw positive (elim (Bool-cases (ltb 0 (count gone ns))) [
        | inl some_gone ↦
            rw some_gone (inr (inl (refl, count-some gone ns (ltb→lt 0 (count gone ns) some_gone))))
        | inr none_gone ↦ rw none_gone (elim (Bool-cases (nat_beq (count up ns) 0)) [
          | inl none_up ↦
              rw none_up
                (inr (inr (inl (refl, (n, contains_head n rest), count-none up ns (ground arith)))))
          | inr some_up ↦ rw some_up (elim (Bool-cases (ltb (count up ns) (length ns))) [
            | inl fewer ↦ rw fewer (
                inr (
                  inr (
                    inr (
                      inl (
                        refl,
                        count-none gone ns (ground arith),
                        count-some up ns (ground arith),
                        count-missed up ns (ltb→lt (count up ns) (length ns) fewer),
                      )))))
            | inr not_fewer ↦ rw not_fewer (
                inr (
                  inr
                    (inr (inr (refl, (n, contains_head n rest), count-all up ns (ground arith))))))
          ])
        ])
      ])

pub tallied-Phased :
    (get : String → Fetched InferenceBackend) (ns : List String)
    → Phased
        (λ name. has_name name ns)
        get
        (determine_phase (length ns) (tally get ns).healthy (length (tally get ns).missing))
unfolding determine_phase has_name tally gone up
tallied-Phased get [] = inl (refl, λ name. refl)
tallied-Phased get (n ∷ rest) =
    let ns = n ∷ rest in
    subst⁻¹
      (λ k.
        Phased (λ name. has_name name ns) get
          (determine_phase (length ns) k (length (tally get ns).missing)))
      (tally-healthy get ns)
      (subst⁻¹
        (λ k.
          Phased (λ name. has_name name ns) get
            (determine_phase (length ns) (count (λ m. is_healthy (get m)) ns) k))
        (tally-absent get ns) (counted-Phased get n rest))

-- The phase that a reconciliation gives a route: Pending where it refers to no backend, Failed where
-- some backend to which it refers does not exist or none is healthy, Degraded where all exist, some
-- are healthy and some are not, and Active where all are healthy. A rule, the default, the fallback
-- chain and the experiments refer to backends, of the namespace of the route.
pub assessed_by-Phased :
    (c : RouteCluster) (route : InferenceRoute)
    → Phased
        (λ name. references name route)
        (λ name. c.get_backend (record { namespace = route.namespace; name = name }))
        (assessed_by c route).status.phase
unfolding assessed_by route_assessed
assessed_by-Phased c route =
    let get =
      λ (name : String). c.get_backend (record { namespace = route.namespace; name = name }) in
    let names = collect_backend_names route in
    subst (λ (named : String → Bool). Phased named get (assessed_by c route).status.phase)
      (λ i name. has_name-collect_backend_names name route i) (tallied-Phased get names)

pub absent-not_healthy : (f : Fetched InferenceBackend) → is_absent f ≡ true → is_healthy f ≡ false
unfolding is_absent is_healthy
absent-not_healthy absent h = refl
absent-not_healthy (unavailable e) h = refl
absent-not_healthy (present b) h = ground arith

-- One backend that does not exist makes a route fail.
pub Phased-Failed :
    (named : String → Bool) (get : String → Fetched InferenceBackend) (phase name : String)
    → Phased named get phase
    → named name ≡ true
    → is_absent (get name) ≡ true
    → phase ≡ "Failed"
Phased-Failed named get phase name (inl (e, none_named)) at gone =
    let no = none_named name in ground arith
Phased-Failed named get phase name (inr (inl (e, rest))) at gone = e
Phased-Failed named get phase name (inr (inr (inl (e, rest, more)))) at gone = e
Phased-Failed named get phase name (inr (inr (inr (inl (e, exist, up, down))))) at gone =
    let no = exist name at in ground arith
Phased-Failed named get phase name (inr (inr (inr (inr (e, some, well))))) at gone =
    let no = well name at in let ailing = absent-not_healthy (get name) gone in ground arith

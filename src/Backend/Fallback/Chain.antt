-- ===== src/Backend/Fallback/Chain.antt =====
-- The chain of names and the backoffs (`buildFallbackChain`, and the backoff of
-- `ExecuteWithFallback`, internal/proxy/backend.go).
use kortex.Common.{
  ◌≤◌, ◌+◌, ℕ, zero, suc, ◌*◌, ◌^◌, ◌<◌, ◌≡◌, ◌≢◌, ◌↔◌, inl, inr, refl, Bool, true, ◌&&◌, String,
  ◌==◌, string_eq, List, [], ◌∷◌, arith, In, leb, if◌then◌else◌, Bool-cases, nat_beq_iff,
}
use text.Mathlib.TextEquality.{eq_iff}
use kortex.Common.Int.{ℤ, pos, beq_ℤ, eq_of_parts, ◌<ℤ◌}
use kortex.Api.{InferenceRoute, BackendRef}
use kortex.Breaker.{second}
use kortex.Backend.Fallback.{others, build_fallback_chain, backoff, fallback_names}

abbrev pub configured : InferenceRoute → List String
configured route = fallback_names route.spec.fallback

In-others_iff :
    (primary x : String) (names : List String)
    → In x (others primary names) ↔ (In x names × (x ≢ primary))
unfolding others
In-others_iff primary x [] = ((λ h. absurd h), (λ h. absurd h.0))
In-others_iff primary x (name ∷ names) = elim (Bool-cases (name == primary)) [
  | inl same ↦
      let e : name ≡ primary = (eq_iff name primary).0 same in
      rw same (ground (arith, In-others_iff primary x names))
  | inr other ↦ rw other (ground (arith, In-others_iff primary x names, eq_iff name primary))
]

-- The chain starts with the primary backend and then holds exactly the configured names that are
-- not the primary's, so the primary is tried once.
pub build_fallback_chain_lem :
    (route : InferenceRoute) (primary : BackendRef)
    → (rest : List String) × (build_fallback_chain route primary ≡ primary.name ∷ rest)
      × ((x : String) → In x rest ↔ (In x (configured route) × (x ≢ primary.name)))
unfolding build_fallback_chain
build_fallback_chain_lem route primary = (
  others primary.name (configured route),
  refl,
  λ x. In-others_iff primary.name x (configured route),
)

-- A test passes at each of the `count` numbers from `i` on.
passes_from : (ℕ → Bool) → (i count : ℕ) → Bool
passes_from test i zero = true
passes_from test i (suc count) = test i && passes_from test (suc i) count

test_of_passes :
    (test : ℕ → Bool) (i count k : ℕ)
    → passes_from test i count ≡ true
    → i ≤ k
    → k < i + count
    → test k ≡ true
unfolding passes_from
test_of_passes test i zero k h lo hi = absurd (omega (arith, lo, hi))
test_of_passes test i (suc count) k h lo hi = ground (arith, test_of_passes test (suc i) count k)

-- 100 ms doubled `i` times, at most two seconds, in nanoseconds.
abbrev pub capped_double : ℕ → ℤ
capped_double i = if leb (100 * 2 ^ i) 2000 then pos (100 * 2 ^ i * 1_000_000) else pos (2 * second)

table : passes_from (λ i. beq_ℤ (backoff i) (capped_double i)) 0 37 ≡ true
unfolding passes_from backoff
table = refl

-- Behind one of the first 37 attempts the backoff is 100 ms doubled with each attempt and capped at
-- two seconds: the int64 products do not wrap.
pub backoff_lem : (i : ℕ) → i < 37 → backoff i ≡ capped_double i
backoff_lem i h = eq_of_parts (backoff i) (capped_double i) (
    (nat_beq_iff _ _).0 (
      test_of_passes (λ j. beq_ℤ (backoff j) (capped_double j)) 0 37 i table (omega arith)
        (omega arith)))

-- The 38th backoff wraps to a negative duration, which does not wait.
pub backoff_wraps : backoff 37 <ℤ pos 0
unfolding backoff
backoff_wraps = omega arith

-- ===== src/Retry/Attempts.antt =====
-- How often `Do` calls its function (internal/proxy/retry.go).
use kortex.Common.{
  ℕ, zero, suc, ◌+◌, ◌≤◌, ◌≡◌, refl, ap, String, Option, none, [], ◌∷◌, ◌++◌, arith,
}
use mathlib.Core.Path.{subst⁻¹}
use kortex.Common.Int.{ℤ, pos}
use kortex.Retry.{
  Floats, CallError, Moment, attempted, RetryResult, RetryConfig, Run, Next, returns, leaves,
  continues, judge, called, try_once, give_up, rounds, rounds_of, do_retries, count, waited,
}

-- The calls made up to the end of an attempt, as the world counts them, and what the result says.
abbrev Counted : {W : Type 0} → (W → ℕ) → (made attempts : ℕ) → Next W → Type 0
Counted calls made attempts (returns r x) = (calls r.world ≡ made) × (x.attempts ≡ attempts)
Counted calls made attempts (leaves r x) = (calls r.world ≡ made) × (x.attempts ≡ attempts)
Counted calls made attempts (continues r x) = (calls r.world ≡ made) × (x.attempts ≡ attempts)

module _ (f : Floats) {W : Type 0} (config : RetryConfig f) (moment : ℕ → Moment f.Float)
    (backend : String) (fn : ℕ → W → W × ℤ × Option CallError) (calls : W → ℕ) where
  judge-Counted :
      (attempt : ℕ) (r : Run W) (code : ℤ) (err : Option CallError)
      → Counted calls
          (calls r.world)
          (suc attempt)
          (judge f config moment backend fn attempt r code err)
  unfolding judge waited count
  judge-Counted attempt r code err = ground arith

  called-Counted :
      (attempt : ℕ) (r : Run W) (p : W × ℤ × Option CallError)
      → Counted calls (calls p.0) (suc attempt) (called f config moment backend fn attempt r p)
  unfolding called
  called-Counted attempt r (w, code, err) = judge-Counted attempt (record r { world = w }) code err

  try_once-Counted :
      (attempt : ℕ) (r : Run W)
      → Counted calls
          (calls (fn attempt r.world).0)
          (suc attempt)
          (try_once f config moment backend fn attempt r)
  unfolding try_once count
  try_once-Counted attempt r =
      called-Counted attempt (record r { events = r.events ++ attempted backend attempt ∷ [] })
        (fn attempt r.world)

  -- From some attempt on, at most the rounds that are left are made, and one if any is left.
  abbrev Within : (least most old : ℕ) → Run W × RetryResult → Type 0
  Within least most old (r, x) =
      (least ≤ x.attempts) × (x.attempts ≤ most) × (calls r.world ≡ old + x.attempts)

  give_up-Within :
      (least most old : ℕ) (r : Run W) (x : RetryResult)
      → Within least most old (r, x)
      → Within least most old (give_up f config moment backend fn r x)
  unfolding give_up count
  give_up-Within least most old r x h = h

  -- One more call, if a round is left.
  abbrev least_of : (left attempt : ℕ) → ℕ
  least_of zero attempt = attempt
  least_of (suc left) attempt = suc attempt

  least_of_ge : (left attempt : ℕ) → attempt ≤ least_of left attempt
  least_of_ge zero attempt = omega arith
  least_of_ge (suc left) attempt = omega arith

  -- `calls` counts the calls of the function.
  abbrev pub Counts : Type 0
  Counts = (attempt : ℕ) (w : W) → calls (fn attempt w).0 ≡ suc (calls w)

  rounds-Within :
      Counts
      → (left attempt old : ℕ) (r : Run W) (x : RetryResult) → x.attempts ≡ attempt
      → calls r.world ≡ old + attempt
      → Within
          (least_of left attempt)
          (attempt + left)
          old
          (rounds f config moment backend fn left attempt r x)
  unfolding rounds
  rounds-Within counts zero attempt old r x same e =
      give_up-Within attempt (attempt + 0) old r x
        (omega (arith, same), omega (arith, same), omega (arith, e, same))
  rounds-Within counts (suc left) attempt old r x same e =
      let start = counts attempt r.world in
      (elim (try_once f config moment backend fn attempt r)
          as (λ n.
            Counted calls (calls (fn attempt r.world).0) (suc attempt) n
            → Within (suc attempt) (attempt + suc left) old (elim n [
              | returns r' x' ↦ (r', x')
              | leaves r' x' ↦ give_up f config moment backend fn r' x'
              | continues r' x' ↦ rounds f config moment backend fn left (suc attempt) r' x'
            ])) [
              | returns r' x' ↦
                  λ h. (omega (arith, h), omega (arith, h), omega (arith, h, e, start))
              | leaves r' x' ↦ λ h.
                  give_up-Within (suc attempt) (attempt + suc left) old r' x'
                    (omega (arith, h), omega (arith, h), omega (arith, h, e, start))
              | continues r' x' ↦ λ h.
                  let (lo, hi, same') =
                    rounds-Within counts left (suc attempt) old r' x' h.1
                      (omega (arith, h, e, start)) in
                  (omega (arith, lo, least_of_ge left (suc attempt)), omega (arith, hi), same')
            ])
        (try_once-Counted attempt r)

  -- With a limit of `n` retries, `Do` calls its function at least once and at most `n + 1` times, and
  -- as often as the result says, by any count in the world that each call of the function raises by
  -- one.
  pub do_retries-attempts :
      (n : ℕ) (r : Run W)
      → config.max_retries ≡ pos n
      → Counts
      → (1 ≤ (do_retries f config moment backend fn r).1.attempts)
        × ((do_retries f config moment backend fn r).1.attempts ≤ n + 1)
        × (calls (do_retries f config moment backend fn r).0.world
            ≡ calls r.world + (do_retries f config moment backend fn r).1.attempts)
  unfolding do_retries rounds_of
  do_retries-attempts n r limit counts =
      let start : RetryResult = record { attempts = 0; last_error = none; status_code = pos 0 } in
      let (lo, hi, e) = rounds-Within counts (suc n) 0 (calls r.world) r start refl (omega arith) in
      subst⁻¹
        (λ k. Within 1 (n + 1) (calls r.world) (rounds f config moment backend fn k 0 r start))
        (ap (rounds_of f config moment backend fn) limit) (lo, omega (arith, hi), e)

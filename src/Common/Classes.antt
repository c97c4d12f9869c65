-- ===== src/Common/Classes.antt =====
-- Decidable equality as an instance argument, for texts and numbers.
use kortex.Common.Tests.{nat_beq, nat_beq_iff}
use text.Mathlib.TextEquality
use text.Mathlib.Text
use mathlib.Core.Bool.{Bool, true}
use mathlib.Core.Logic.{◌↔◌}
use mathlib.Core.Path.{◌≡◌}
use Prim.Native.Nat.{ℕ}
use Prim.Native.String.{String}

-- A test that is true of equal values alone.
pub record Eq {κ} (K : Type κ) : Type κ where
  pub same : K → K → Bool
  pub same_iff : (x y : K) → (same x y ≡ true) ↔ (x ≡ y)

instance abbrev pub string_eq : Eq String
string_eq = record { same = Text.◌==◌; same_iff = TextEquality.eq_iff }

infix 50 ◌==◌
abbrev pub ◌==◌ {κ} : {K : Type κ} ⦃test : Eq K⦄ → K → K → Bool
◌==◌ ⦃test⦄ x y = test.same x y

instance abbrev pub nat_eq : Eq ℕ
nat_eq = record { same = nat_beq; same_iff = nat_beq_iff }

pub ==_refl {κ} : {K : Type κ} ⦃test : Eq K⦄ (k : K) → (k == k) ≡ true
==_refl ⦃test⦄ k = (test.same_iff k k).1 (λ i. k)

-- ===== src/Common/Text.antt =====
-- Text as the code builds it: `+` and `fmt.Sprintf` with %s and %d, and the comparison of header
-- names, which does not look at case.
use Prim.Native.Char.{code}
use Prim.Native.String
use Prim.Native.String.{String}
use Prim.Native.Nat.{ℕ, zero, suc, ◌+◌, ◌/◌, ◌%◌}
use mathlib.Core.Path.{◌≡◌, refl}
use mathlib.Core.Bool.{Bool, true, false, ◌&&◌}
use kortex.Common.Tests.{leb, nat_beq, if◌then◌else◌}
use kortex.Common.Int.{ℤ, pos, negsuc}

infixr 65 ◌<>◌
abbrev pub ◌<>◌ : String → String → String
s <> t = String.◌++◌ s t

abbrev digit : ℕ → String
digit zero = "0"
digit (suc zero) = "1"
digit (suc (suc zero)) = "2"
digit (suc (suc (suc zero))) = "3"
digit (suc (suc (suc (suc zero)))) = "4"
digit (suc (suc (suc (suc (suc zero))))) = "5"
digit (suc (suc (suc (suc (suc (suc zero)))))) = "6"
digit (suc (suc (suc (suc (suc (suc (suc zero))))))) = "7"
digit (suc (suc (suc (suc (suc (suc (suc (suc zero)))))))) = "8"
digit (suc (suc (suc (suc (suc (suc (suc (suc (suc n))))))))) = "9"

-- Each round of the fuel divides by ten, so `suc n` rounds are enough for `n`.
decimal_from : ℕ → ℕ → String → String
decimal_from zero n tail = tail
decimal_from (suc fuel) n tail =
    let more = decimal_from fuel (n / 10) (digit (n % 10) <> tail) in
    if leb 10 n then more else digit n <> tail

unfoldable pub decimal : ℕ → String
unfolding decimal_from
decimal n = decimal_from (suc n) n ""

unfoldable pub decimal_ℤ : ℤ → String
unfolding decimal
decimal_ℤ (pos n) = decimal n
decimal_ℤ (negsuc n) = "-" <> decimal (suc n)

-- The ASCII letters in lower case.
lower : ℕ → ℕ
lower c = if leb b'A' c && leb c b'Z' then c + 32 else c

unfoldable pub fold_eq : String → String → Bool
unfolding lower
fold_eq String.[] String.[] = true
fold_eq (String.◌∷◌ c s) (String.◌∷◌ d t) = nat_beq (lower (code c)) (lower (code d)) && fold_eq s t
fold_eq _ _ = false

unfoldable pub is_empty : String → Bool
is_empty String.[] = true
is_empty (String.◌∷◌ c s) = false

decimal_tests : (decimal 0 ≡ "0") × (decimal 503 ≡ "503") × (decimal_ℤ (negsuc 41) ≡ "-42")
unfolding decimal_ℤ
decimal_tests = (refl, refl, refl)

fold_eq_tests : (fold_eq "X-User-ID" "x-user-id" ≡ true) × (fold_eq "X-Route" "X-Model" ≡ false)
unfolding fold_eq
fold_eq_tests = (refl, refl)

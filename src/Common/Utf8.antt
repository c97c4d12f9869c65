-- ===== src/Common/Utf8.antt =====
-- The bytes of a text in UTF-8, as `[]byte(s)` and `len(s)` see it, and `strings.Fields`.
use Prim.Native.Char.{code}
use Prim.Native.String.{String}
use Prim.Native.Nat.{ℕ, suc, ◌+◌, ◌/◌, ◌%◌}
use mathlib.Core.Path.{◌≡◌, refl}
use mathlib.Core.Bool.{Bool, true, false, ◌&&◌, ◌||◌}
use mathlib.Core.List.{List, [], ◌∷◌, ◌++◌}
use kortex.Common.Tests.{leb, ltb, nat_beq, if◌then◌else◌}
use kortex.Common.Lists.{length}

continuation : ℕ → ℕ
continuation n = 128 + n % 64

unfoldable pub char_bytes : ℕ → List ℕ
unfolding continuation
char_bytes c =
    if ltb c 128
    then c ∷ []
    else if ltb c 2048
    then (192 + c / 64) ∷ continuation c ∷ []
    else if ltb c 65536
    then (224 + c / 4096) ∷ continuation (c / 64) ∷ continuation c ∷ []
    else (240 + c / 262144) ∷ continuation (c / 4096) ∷ continuation (c / 64) ∷ continuation c ∷ []

unfoldable pub bytes : String → List ℕ
unfolding char_bytes
bytes String.[] = []
bytes (String.◌∷◌ c s) = char_bytes (code c) ++ bytes s

-- unicode.IsSpace
unfoldable pub is_space : ℕ → Bool
is_space c =
    (leb 9 c && leb c 13)
    || nat_beq c 32
    || nat_beq c 133
    || nat_beq c 160
    || nat_beq c 5760
    || (leb 8192 c && leb c 8202)
    || nat_beq c 8232
    || nat_beq c 8233
    || nat_beq c 8239
    || nat_beq c 8287
    || nat_beq c 12288

-- The number of the fields that begin in a text, behind a character of a field or not.
fields_from : Bool → String → ℕ
unfolding is_space
fields_from inside String.[] = 0
fields_from inside (String.◌∷◌ c s) =
    let behind_space = fields_from false s in
    let behind_char = fields_from true s in
    if is_space (code c) then behind_space else if inside then behind_char else suc behind_char

-- `len(strings.Fields(s))`
unfoldable pub field_count : String → ℕ
unfolding fields_from
field_count s = fields_from false s

bytes_tests : (bytes "aé" ≡ 97 ∷ 195 ∷ 169 ∷ []) × (length (bytes "€") ≡ 3)
unfolding bytes
bytes_tests = (refl, refl)

field_count_tests : (field_count "" ≡ 0) × (field_count "  tell me  more " ≡ 3)
unfolding field_count
field_count_tests = (refl, refl)

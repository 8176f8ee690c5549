-- ===== src/Base/Decimal.antt =====
-- `Display` of unsigned words, and the lower-case hexadecimal forms of bytes and words.
use Prim.Native.Nat.{ℕ, zero, suc, ◌+◌, ◌/◌, ◌%◌}
use mathlib.Core.List.{List, [], ◌∷◌}
use faber_runtime.Base.Tests.{ltb, if◌then◌else◌}
use faber_runtime.Base.Key.{Text}

decimal_digits : ℕ → ℕ → Text → Text
decimal_digits zero n out = out
decimal_digits (suc fuel) n out =
    let rest = decimal_digits fuel (n / 10) ((48 + n % 10) ∷ out) in
    if ltb n 10 then (48 + n) ∷ out else rest

-- A word of 64 bits has at most 20 digits.
unfoldable pub decimal : ℕ → Text
unfolding decimal_digits
decimal n = decimal_digits 20 n []

abbrev hex_digit : ℕ → ℕ
hex_digit d = if ltb d 10 then 48 + d else 87 + d

-- `{:02x}` of each byte.
unfoldable pub hex_bytes : List ℕ → Text
hex_bytes [] = []
hex_bytes (b ∷ bs) = hex_digit (b / 16 % 16) ∷ hex_digit (b % 16) ∷ hex_bytes bs

hex_digits : ℕ → ℕ → Text → Text
hex_digits zero n out = out
hex_digits (suc k) n out = hex_digits k (n / 16) (hex_digit (n % 16) ∷ out)

-- `{:016x}` of a word of 64 bits.
unfoldable pub hex64 : ℕ → Text
unfolding hex_digits
hex64 n = hex_digits 16 n []

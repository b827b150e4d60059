-- ===== src/Common/Decimal.antt =====
-- `format!("{n}")` and `format!("{n:02}")` of a whole number.
pub mod Digits
use Prim.Native.Char.{Char}
use Prim.Native.String.{String, ◌∷◌, ◌++◌}
use Prim.Native.Nat.{ℕ, zero, suc, ◌/◌, ◌%◌}
use mathlib.Core.Path.{◌≡◌, refl}
use konstantin.Common.Tests.{ltb, nat_beq, if◌then◌else◌}

unfoldable pub digit : ℕ → Char
digit n =
    if nat_beq n 0
    then "0"
    else if nat_beq n 1
    then "1"
    else if nat_beq n 2
    then "2"
    else if nat_beq n 3
    then "3"
    else if nat_beq n 4
    then "4"
    else if nat_beq n 5
    then "5"
    else if nat_beq n 6
    then "6"
    else if nat_beq n 7
    then "7"
    else if nat_beq n 8
    then "8"
    else "9"

-- The digits of `n` in front of `rest`; ten units of fuel hold every `u32`, twenty every `u64`.
unfoldable pub digits : ℕ → ℕ → String → String
unfolding digit
digits zero n rest = rest
digits (suc f) n rest =
    let more = digits f (n / 10) (digit (n % 10) ∷ rest) in
    if ltb n 10 then digit n ∷ rest else more

unfoldable pub decimal : ℕ → String
unfolding digits
decimal n = digits 20 n ""

-- Two places at least, with a leading zero.
unfoldable pub decimal_padded : ℕ → String
unfolding decimal
decimal_padded n = if ltb n 10 then "0" ++ decimal n else decimal n

decimal_test : decimal 4294967295 ≡ "4294967295"
unfolding decimal
decimal_test = refl

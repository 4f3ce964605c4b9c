-- ===== src/Base/Decimal.antt =====
-- str(n) of a natural number.
use Prim.Native.Nat.{ℕ, zero, suc, ◌/◌, ◌%◌}
use Prim.Native.String.{String, ◌++◌}
use superlily.Base.Tests.{ltb, eqb, if◌then◌else◌}

digit : ℕ → String
digit d =
    if eqb d 0
    then "0"
    else if eqb d 1
    then "1"
    else if eqb d 2
    then "2"
    else if eqb d 3
    then "3"
    else if eqb d 4
    then "4"
    else if eqb d 5
    then "5"
    else if eqb d 6
    then "6"
    else if eqb d 7
    then "7"
    else if eqb d 8
    then "8"
    else "9"

-- a number has fewer digits than `suc n`, which is the fuel
decimal_in : ℕ → ℕ → String
decimal_in zero n = digit n
decimal_in (suc fuel) n =
    let high = decimal_in fuel (n / 10) in if ltb n 10 then digit n else high ++ digit (n % 10)

unfoldable pub decimal : ℕ → String
unfolding decimal_in digit
decimal n = decimal_in n n

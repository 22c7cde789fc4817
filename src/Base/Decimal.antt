-- ===== src/Base/Decimal.antt =====
-- Decimal printing of natural numbers: `%d`, and the two-digit fields of time.Format.
use Prim.Native.Nat.{ℕ, zero, suc, ◌+◌, ◌/◌, ◌%◌}
use Prim.Native.String.{String, ◌++◌}
use mathlib.Core.Path.{◌≡◌, refl}
use chainmesh.Base.Tests.{eqb, ltb, if◌then◌else◌}

-- a digit below ten
abbrev digit : ℕ → String
digit n =
    if eqb n 0
    then "0"
    else if eqb n 1
    then "1"
    else if eqb n 2
    then "2"
    else if eqb n 3
    then "3"
    else if eqb n 4
    then "4"
    else if eqb n 5
    then "5"
    else if eqb n 6
    then "6"
    else if eqb n 7
    then "7"
    else if eqb n 8
    then "8"
    else "9"

-- The digits of n, in at most `fuel` steps; n has at most n + 1 digits.
decimal_fuel : ℕ → ℕ → String
decimal_fuel zero n = ""
decimal_fuel (suc f) n =
    let front = decimal_fuel f (n / 10) in if ltb n 10 then digit n else front ++ digit (n % 10)

-- fmt.Sprintf("%d", n)
unfoldable pub decimal : ℕ → String
unfolding decimal_fuel
decimal n = decimal_fuel (n + 1) n

-- two digits, zero padded: "01", "02", "15", "04" of a time layout
unfoldable pub pad2 : ℕ → String
pad2 n = digit (n / 10 % 10) ++ digit (n % 10)

decimal_runs : decimal 1705320000 ≡ "1705320000"
unfolding decimal
decimal_runs = refl

pad2_runs : pad2 7 ≡ "07"
unfolding pad2
pad2_runs = refl

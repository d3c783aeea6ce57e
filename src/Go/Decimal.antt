-- ===== src/Go/Decimal.antt =====
-- Numbers in decimal, as fmt prints them with "%d".
use Prim.Native.String.{◌++◌}
use go_health.Prelude.{ℕ, zero, suc, ◌/◌, ◌%◌, ◌≡◌, refl, String, ltb, if◌then◌else◌}

unfoldable pub digit : ℕ → String
digit n =
    if ltb n 1
    then "0"
    else if ltb n 2
    then "1"
    else if ltb n 3
    then "2"
    else if ltb n 4
    then "3"
    else if ltb n 5
    then "4"
    else if ltb n 6
    then "5"
    else if ltb n 7
    then "6"
    else if ltb n 8
    then "7"
    else if ltb n 9
    then "8"
    else "9"

-- A number has at most as many digits as its successor says, so that the fuel is enough.
digits : ℕ → ℕ → String
unfolding digit
digits zero n = ""
digits (suc fuel) n =
    let rest = digits fuel (n / 10) in if ltb n 10 then digit n else rest ++ digit (n % 10)

unfoldable pub decimal : ℕ → String
unfolding digits
decimal n = digits (suc n) n

decimal_test : decimal 404 ≡ "404"
unfolding decimal
decimal_test = refl

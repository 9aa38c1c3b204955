-- ===== src/Prelude/Text.antt =====
-- Go's string concatenation and the `%d` of a number that is not negative.
use Prim.Native.Nat.{ℕ, zero, suc, ◌/◌, ◌%◌}
use Prim.Native.String.{String, ◌++◌}
use durable_integrations.Prelude.Tests.{ltb, ◌==◌, if◌then◌else◌}

abbrev pub concat : String → String → String
concat a b = a ++ b

digit : ℕ → String
digit d =
    if d == 0
    then "0"
    else if d == 1
    then "1"
    else if d == 2
    then "2"
    else if d == 3
    then "3"
    else if d == 4
    then "4"
    else if d == 5
    then "5"
    else if d == 6
    then "6"
    else if d == 7
    then "7"
    else if d == 8
    then "8"
    else "9"

-- The fuel `n + 1` is enough, since a number has fewer digits than its value plus one.
digits_within : ℕ → ℕ → String
digits_within zero n = ""
digits_within (suc fuel) n =
    let front = digits_within fuel (n / 10) in if ltb n 10 then digit n else front ++ digit (n % 10)

unfoldable pub decimal : ℕ → String
unfolding digit digits_within
decimal n = digits_within (suc n) n

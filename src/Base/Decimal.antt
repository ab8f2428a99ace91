-- ===== src/Base/Decimal.antt =====
-- `std::to_string` of a number that is not negative.
use Prim.Native.Nat.{ℕ, zero, suc, ◌/◌, ◌%◌, compare, Ordering}
use Prim.Native.String.{String}
use mathlib.Core.Path.{◌≡◌, refl}
use ant_media_server_confere.Base.Text.{◌<>◌, if◌then◌else◌}
use mathlib.Core.Bool.{Bool, true, false}

abbrev pub ltb : ℕ → ℕ → Bool
ltb a b = elim (compare a b) [ Ordering.lt ↦ true | _ ↦ false ]

digit : ℕ → String
digit d =
    if ltb d 1
    then "0"
    else if ltb d 2
    then "1"
    else if ltb d 3
    then "2"
    else if ltb d 4
    then "3"
    else if ltb d 5
    then "4"
    else if ltb d 6
    then "5"
    else if ltb d 7
    then "6"
    else if ltb d 8
    then "7"
    else if ltb d 9
    then "8"
    else "9"

-- The fuel bounds the number of digits.
digits : ℕ → ℕ → String → String
digits zero n rest = rest
digits (suc fuel) n rest =
    let more = digits fuel (n / 10) (digit (n % 10) <> rest) in
    if ltb n 10 then digit n <> rest else more

-- A number has at most as many digits as its value and one.
unfoldable pub to_string : ℕ → String
unfolding digits digit
to_string n = digits (suc n) n ""

to_string_run : to_string 1200 ≡ "1200"
unfolding to_string
to_string_run = refl

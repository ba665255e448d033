-- ===== src/Prelude/Numerals.antt =====
-- Printing numbers in decimal, and the proleptic calendar of Python's `date`.
use Prim.Native.Nat.{ℕ, zero, suc, ◌+◌, ◌-◌, ◌*◌, ◌/◌, ◌%◌}
use Prim.Native.String.{String, ◌++◌}
use mathlib.Core.Bool.{Bool, ◌&&◌, ◌||◌, not}
use sopara.Prelude.Tests.{ltb, ◌==◌, if◌then◌else◌}

abbrev pub digit : ℕ → String
digit n =
    if n == 0
    then "0"
    else if n == 1
    then "1"
    else if n == 2
    then "2"
    else if n == 3
    then "3"
    else if n == 4
    then "4"
    else if n == 5
    then "5"
    else if n == 6
    then "6"
    else if n == 7
    then "7"
    else if n == 8
    then "8"
    else "9"

-- The digits of `n`, given as many rounds as `n` has digits.
unfoldable pub print_fuel : ℕ → ℕ → String
print_fuel zero n = ""
print_fuel (suc fuel) n =
    let more = print_fuel fuel (n / 10) ++ digit (n % 10) in if ltb n 10 then digit n else more

-- `str(n)`: a number has no more digits than its value plus one.
unfoldable pub print_ℕ : ℕ → String
unfolding print_fuel
print_ℕ n = print_fuel (suc n) n

-- `f"{n:02d}"`
unfoldable pub print_two : ℕ → String
unfolding print_ℕ
print_two n = if ltb n 10 then "0" ++ digit n else print_ℕ n

pub record Date : Type 0 where
  pub year : ℕ
  pub month : ℕ
  pub day : ℕ

abbrev pub is_leap : ℕ → Bool
is_leap y = y % 4 == 0 && (not (y % 100 == 0) || y % 400 == 0)

abbrev days_before_month : ℕ → ℕ → ℕ
days_before_month y m =
    (if m == 1
      then 0
      else if m == 2
      then 31
      else if m == 3
      then 59
      else if m == 4
      then 90
      else if m == 5
      then 120
      else if m == 6
      then 151
      else if m == 7
      then 181
      else if m == 8
      then 212
      else if m == 9
      then 243
      else if m == 10
      then 273
      else if m == 11
      then 304
      else 334)
    + (if is_leap y && ltb 2 m then 1 else 0)

-- `date.toordinal`
unfoldable pub toordinal : Date → ℕ
toordinal d =
    let y = d.year - 1 in
    y * 365 + y / 4 - y / 100 + y / 400 + days_before_month d.year d.month + d.day

-- `date.weekday`: Monday is 0.
unfoldable pub weekday : Date → ℕ
unfolding toordinal
weekday d = (toordinal d + 6) % 7

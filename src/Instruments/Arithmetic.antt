-- ===== src/Instruments/Arithmetic.antt =====
-- Python's `decimal.Decimal` under the default context: a result is rounded to 28 digits, a tie to the
-- even one. A finite decimal is a coefficient over a power of ten; where a result is rounded the
-- coefficient ends in zeros, and the exponent stays.
use sopara.Prelude.{
  ℕ, zero, suc, ◌+◌, ◌-◌, ◌*◌, ◌/◌, ◌%◌, ◌^◌, ◌≡◌, Bool, true, false, not, ltb, if◌then◌else◌, ◌==◌,
}
use sopara.Errors.{Result, ok, err, invalid_operation}
use sopara.Prelude.Int.{ℤ, pos, negsuc, ◌+ℤ◌, ◌-ℤ◌, ◌*ℤ◌, ltb_ℤ, leb_ℤ, ◌==ℤ◌, magnitude, sub_ℕ}
use Prim.Native.Nat.{max}

-- coefficient / 10 ^ scale
pub record Exact : Type 0 where
  pub coefficient : ℤ
  pub scale : ℕ

pub data Decimal : Type 0 where
  finite : Exact → Decimal
  infinity nan : Decimal

-- The two coefficients over the common denominator of both.
abbrev pub scaled : Exact → Exact → ℤ
scaled a b = a.coefficient *ℤ pos (10 ^ b.scale)

abbrev pub ltb_exact : Exact → Exact → Bool
ltb_exact a b = ltb_ℤ (scaled a b) (scaled b a)

abbrev pub leb_exact : Exact → Exact → Bool
leb_exact a b = leb_ℤ (scaled a b) (scaled b a)

abbrev pub eq_exact : Exact → Exact → Bool
eq_exact a b = scaled a b ==ℤ scaled b a

-- Equality of values, whatever the number of decimals.
infix 50 ◌≈◌
abbrev pub ◌≈◌ : Exact → Exact → Type 0
a ≈ b = scaled a b ≡ scaled b a

abbrev pub of_int : ℤ → Exact
of_int n = record { coefficient = n; scale = 0 }

-- The least number of more than 28 digits.
abbrev pub limit : ℕ
limit = 10000000000000000000000000000

-- How many digits a number has over the 28 of the context, on as much fuel as the number.
unfoldable excess : ℕ → ℕ → ℕ
excess zero n = 0
excess (suc fuel) n = elim (ltb n limit) [ true ↦ 0 | false ↦ suc (excess fuel (n / 10)) ]

-- `n` to the nearest multiple of `step`, and at a tie to the even one.
unfoldable half_even : ℕ → ℕ → ℕ
half_even n step =
    let q = n / step in
    let twice = 2 * (n % step) in
    if ltb twice step
    then q * step
    else if ltb step twice
    then suc q * step
    else if q % 2 == 0
    then q * step
    else suc q * step

unfoldable pub round_digits : ℕ → ℕ
unfolding excess half_even
round_digits n = elim (ltb n limit) [ true ↦ n | false ↦ half_even n (10 ^ excess n n) ]

abbrev pub round_coefficient : ℤ → ℤ
round_coefficient (pos n) = pos (round_digits n)
round_coefficient (negsuc n) = sub_ℕ 0 (round_digits (suc n))

unfoldable pub rounded : Exact → Exact
unfolding round_digits
rounded x = record { coefficient = round_coefficient x.coefficient; scale = x.scale }

-- The sum, the difference and the product before they are rounded.
abbrev pub exact_sum : Exact → Exact → Exact
exact_sum a b =
    let s = max a.scale b.scale in
    record {
      coefficient =
          a.coefficient *ℤ pos (10 ^ (s - a.scale)) +ℤ b.coefficient *ℤ pos (10 ^ (s - b.scale));
      scale = s;
    }

abbrev pub exact_difference : Exact → Exact → Exact
exact_difference a b =
    let s = max a.scale b.scale in
    record {
      coefficient =
          a.coefficient *ℤ pos (10 ^ (s - a.scale)) -ℤ b.coefficient *ℤ pos (10 ^ (s - b.scale));
      scale = s;
    }

abbrev pub exact_product : Exact → Exact → Exact
exact_product a b = record {
  coefficient = a.coefficient *ℤ b.coefficient;
  scale = a.scale + b.scale;
}

unfoldable pub add : Exact → Exact → Exact
add a b = rounded (exact_sum a b)

unfoldable pub sub : Exact → Exact → Exact
sub a b = rounded (exact_difference a b)

unfoldable pub mul : Exact → Exact → Exact
mul a b = rounded (exact_product a b)

-- |a| over |b|, without its fraction.
abbrev pub whole_quotient : Exact → Exact → ℕ
whole_quotient a b =
    magnitude a.coefficient * 10 ^ b.scale / (magnitude b.coefficient * 10 ^ a.scale)

-- `a % b == 0`: the remainder is refused where the whole quotient has more than 28 digits, and its
-- sign does not matter to this test.
unfoldable pub divides : Exact → Exact → Result Bool
divides b a =
    if not (ltb (whole_quotient a b) limit)
    then err invalid_operation
    else ok (magnitude a.coefficient * 10 ^ b.scale % (magnitude b.coefficient * 10 ^ a.scale) == 0)

-- `int(a / b)` where `a % b` is zero: the quotient is then a whole number of at most 28 digits, which
-- is not rounded.
unfoldable pub quotient : Exact → Exact → ℤ
quotient a b =
    let q = whole_quotient a b in
    if ltb_ℤ (a.coefficient *ℤ b.coefficient) (pos 0) then sub_ℕ 0 q else pos q

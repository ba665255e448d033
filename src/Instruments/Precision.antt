-- ===== src/Instruments/Precision.antt =====
-- domain/instruments.py: the results of decimal arithmetic that are not rounded.
use sopara.Prelude.{◌<◌, ◌≡◌, ℕ, ap, arith, suc}
use sopara.Prelude.Int.{ℤ, pos, negsuc, ◌*ℤ◌, ◌≤ℤ◌, magnitude}
use sopara.Instruments.Arithmetic.{
  Exact, limit, round_digits, round_coefficient, rounded, mul, sub, exact_product, exact_difference,
}

-- A number of at most 28 digits.
abbrev pub Fits : ℤ → Type 0
Fits c = magnitude c < limit

digits_kept : (n : ℕ) → n < limit → round_digits n ≡ n
unfolding round_digits
digits_kept n h = ground (arith, h)

coefficient_kept : (c : ℤ) → Fits c → round_coefficient c ≡ c
coefficient_kept (pos n) h = ap pos (digits_kept n (omega arith))
coefficient_kept (negsuc n) h = let kept = digits_kept (suc n) (omega arith) in ground (arith, kept)

pub rounded-Fits : (x : Exact) → Fits x.coefficient → rounded x ≡ x
unfolding rounded
rounded-Fits x h = λ i. record { coefficient = coefficient_kept x.coefficient h i; scale = x.scale }

pub mul-Fits : (a b : Exact) → Fits (a.coefficient *ℤ b.coefficient) → mul a b ≡ exact_product a b
unfolding mul
mul-Fits a b h = rounded-Fits (exact_product a b) h

pub sub-Fits :
    (a b : Exact) → Fits (exact_difference a b).coefficient → sub a b ≡ exact_difference a b
unfolding sub
sub-Fits a b h = rounded-Fits (exact_difference a b) h

nonneg_kept : (c : ℤ) → pos 0 ≤ℤ c → pos 0 ≤ℤ round_coefficient c
nonneg_kept (pos n) h = omega arith
nonneg_kept (negsuc n) h = absurd (omega arith)

-- Rounding keeps a number that is not negative so.
pub rounded-nonneg : (x : Exact) → pos 0 ≤ℤ x.coefficient → pos 0 ≤ℤ (rounded x).coefficient
unfolding rounded
rounded-nonneg x h = nonneg_kept x.coefficient h

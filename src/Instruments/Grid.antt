-- ===== src/Instruments/Grid.antt =====
-- domain/instruments.py: prices made from ticks, and the test of the grid.
use native.Mathlib.Nat.{mul-div_right, mul-mod_right, pow-suc}
use sopara.Prelude.{
  ℕ, ◌+◌, zero, suc, ◌*◌, ◌/◌, ◌%◌, ◌^◌, ◌<◌, ◌≡◌, refl, ap, ◌∙◌, true, false, arith,
}
use sopara.Prelude.Int.{ℤ, pos, negsuc, ◌*ℤ◌, leb_ℤ}
use sopara.Errors.{ok}
use sopara.Instruments.Precision.{Fits, mul-Fits}
use sopara.Instruments.Arithmetic.{limit, Exact, mul, divides, quotient, of_int}
use sopara.Instruments.{
  Price, InstrumentSpec, is_on_grid, ticks, price_from_ticks, new_price, check_spec,
}

pub pow10_pos : (k : ℕ) → 0 < 10 ^ k
pow10_pos zero = omega arith
pow10_pos (suc k) = rw pow-suc (omega (arith, pow10_pos k))

-- n whole ticks over one tick, at any common denominator.
whole_ticks : (c n d : ℕ) → 0 < c → 0 < d → (c * n * d / (c * d) ≡ n) × (c * n * d % (c * d) ≡ 0)
whole_ticks c n d hc hd =
    let regroup : c * n * d ≡ c * d * n = omega arith in
    let positive : 0 < c * d = grind arith in
    (rw regroup (mul-div_right n positive), rw regroup (mul-mod_right (c * d) n))

pub price_coefficient :
    (s : InstrumentSpec) (n : ℤ) {p : Price}
    → price_from_ticks s n ≡ ok p
    → (p.value ≡ mul s.tick_size (of_int n)) × (leb_ℤ n (pos 0) ≡ false)
unfolding price_from_ticks new_price
price_coefficient s n h = ground arith

pos-mul : (a b : ℕ) → pos a *ℤ pos b ≡ pos (a * b)
unfolding ◌*ℤ◌
pos-mul a b = ground arith

tick_multiple :
    (c n k : ℕ)
    → suc c * n < limit
    → mul (record { coefficient = pos (suc c); scale = k }) (of_int (pos n))
      ≡ record { coefficient = pos (suc c * n); scale = k }
tick_multiple c n k h =
    let tick : Exact = record { coefficient = pos (suc c); scale = k } in
    let product : pos (suc c) *ℤ pos n ≡ pos (suc c * n) = pos-mul (suc c) n in
    let small : Fits (pos (suc c) *ℤ pos n) = rw product (omega (arith, h)) in
    mul-Fits tick (of_int (pos n)) small
    ∙ (let bottom : k + 0 ≡ k = omega arith in
        λ i. record { coefficient = product i; scale = bottom i })

-- A whole multiple of a positive tick is on the grid, and is that multiple.
whole_on_grid :
    (c n k : ℕ)
    → suc c * n < limit
    → let tick : Exact = record { coefficient = pos (suc c); scale = k } in
      (divides tick (mul tick (of_int (pos n))) ≡ ok true)
      × (quotient (mul tick (of_int (pos n))) tick ≡ pos n)
unfolding divides quotient
whole_on_grid c n k h =
    let (q, r) = whole_ticks (suc c) n (10 ^ k) (omega arith) (pow10_pos k) in
    let few : n < limit = omega (arith, h) in
    rw (tick_multiple c n k h) (ground (arith, q, r, few, pos-mul (suc c * n) (suc c)))

pub positive_suc : (z : ℤ) → leb_ℤ z (pos 0) ≡ false → (c : ℕ) × (z ≡ pos (suc c))
positive_suc (pos zero) h = cc
positive_suc (pos (suc c)) h = (c, refl)
positive_suc (negsuc n) h = absurd (ground arith)

tick_positive :
    (s : InstrumentSpec) → check_spec s ≡ ok s → leb_ℤ s.tick_size.coefficient (pos 0) ≡ false
unfolding check_spec
tick_positive s h = ground arith

-- For every accepted specification, a price made from ticks is on the grid, and `ticks` gives the
-- number of ticks that it was made from, where the price has at most 28 digits.
pub ticks-price_from_ticks :
    (s : InstrumentSpec) (n : ℤ) {p : Price}
    → check_spec s ≡ ok s
    → price_from_ticks s n ≡ ok p
    → Fits (s.tick_size.coefficient *ℤ n)
    → (is_on_grid s p ≡ ok true) × (ticks s p ≡ ok n)
unfolding ticks is_on_grid
ticks-price_from_ticks s n {p} valid made fits =
    let (value, above) = price_coefficient s n made in
    let (m, en) = positive_suc n above in
    let (c, ec) = positive_suc s.tick_size.coefficient (tick_positive s valid) in
    let small : suc c * suc m < limit = ground (arith, ec, en, fits, pos-mul (suc c) (suc m)) in
    let (g, q) = whole_on_grid c (suc m) s.tick_size.scale small in
    let tick : s.tick_size ≡ record { coefficient = pos (suc c); scale = s.tick_size.scale } =
      ap (λ (z : ℤ). let e : Exact = record { coefficient = z; scale = s.tick_size.scale } in e)
        ec in
    let made' : p.value
        ≡ mul (record { coefficient = pos (suc c); scale = s.tick_size.scale })
            (of_int (pos (suc m))) =
      cc in
    ground (arith, g, q, made', tick, en)

-- ===== src/Instruments/Gross.antt =====
-- domain/instruments.py: the gross result between two prices made from ticks.
use sopara.Prelude.{ℕ, zero, suc, ◌*◌, ◌<◌, ◌≤◌, ◌∙◌, sym, refl, ◌+◌, ◌-◌, ◌^◌, ◌≡◌, ap, arith}
use Prim.Native.Nat.{max}
use mathlib.Core.Path.{subst}
use sopara.Prelude.Ring.{mul-sub, mul-one, *ℤ_assoc, mul_left_comm}
use sopara.Prelude.Int.{◌<ℤ◌, ℤ, pos, negsuc, magnitude, ◌-ℤ◌, ◌*ℤ◌}
use sopara.Errors.{ok}
use sopara.Instruments.Arithmetic.{Exact, mul, sub, of_int, exact_product, exact_difference}
use sopara.Instruments.Precision.{Fits, mul-Fits, sub-Fits}
use sopara.Instruments.{
  Price, Direction, long, short, InstrumentSpec, sign, tick_value, price_from_ticks, gross_pnl,
  check_spec,
}
use sopara.Instruments.Grid.{price_coefficient, ticks-price_from_ticks}

-- The money that the code computes.
abbrev pub gross_of : InstrumentSpec → Exact → Exact → Direction → ℤ → Exact
gross_of s entry exit_price d q =
    mul (mul (mul (sub exit_price entry) (of_int (sign d))) s.multiplier) (of_int q)

-- Both prices have the decimals of the tick, so the difference is at the same scale.
same_scale : (k : ℕ) → pos (10 ^ (max (k + 0) (k + 0) - (k + 0))) ≡ pos 1
same_scale k =
    let zero_gap : max (k + 0) (k + 0) - (k + 0) ≡ 0 = omega arith in
    ap (λ (t : ℕ). pos (10 ^ t)) zero_gap

regroup : (c x e sg m q : ℤ) → (c *ℤ x -ℤ c *ℤ e) *ℤ sg *ℤ m *ℤ q ≡ c *ℤ m *ℤ ((x -ℤ e) *ℤ sg *ℤ q)
regroup c x e sg m q =
    rw (← mul-sub)
      (simp *ℤ_assoc (ap (λ t. c *ℤ t) (simp (mul_left_comm m (x -ℤ e), mul_left_comm m sg))))

-- The difference of two prices made from ticks, at the scale of the tick.
price_difference :
    (t : Exact) (e x : ℤ)
    → exact_difference (exact_product t (of_int x)) (exact_product t (of_int e))
      ≡ record { coefficient = t.coefficient *ℤ x -ℤ t.coefficient *ℤ e; scale = t.scale }
price_difference t e x =
    let one = same_scale t.scale in
    let bottom : max (t.scale + 0) (t.scale + 0) ≡ t.scale = omega arith in
    let at_one : (y : ℤ)
        → t.coefficient *ℤ y *ℤ pos (10 ^ (max (t.scale + 0) (t.scale + 0) - (t.scale + 0)))
          ≡ t.coefficient *ℤ y =
      λ y. ap (λ (k : ℤ). t.coefficient *ℤ y *ℤ k) one ∙ mul-one (t.coefficient *ℤ y) in
    λ i. record { coefficient = at_one x i -ℤ at_one e i; scale = bottom i }

grow : (a k : ℕ) → 0 < k → a ≤ a * k
grow a zero h = absurd (omega arith)
grow a (suc k) h = omega arith

pub magnitude-sign : (d : Direction) → magnitude (sign d) ≡ 1
unfolding sign
magnitude-sign long = refl
magnitude-sign short = refl

pub magnitude-mul : (a b : ℤ) → magnitude (a *ℤ b) ≡ magnitude a * magnitude b
unfolding ◌*ℤ◌
magnitude-mul (pos a) (pos b) = ground arith
magnitude-mul (pos a) (negsuc b) = ground arith
magnitude-mul (negsuc a) (pos b) = ground arith
magnitude-mul (negsuc a) (negsuc b) = ground arith

-- The whole amount, before anything is rounded.
abbrev pub whole_amount : InstrumentSpec → ℤ → ℤ → Direction → ℤ → ℤ
whole_amount s e x d q =
    s.tick_size.coefficient *ℤ s.multiplier.coefficient *ℤ ((x -ℤ e) *ℤ sign d *ℤ q)

module _ (s : InstrumentSpec) (e x q : ℤ) (d : Direction)
    (multiplied : 0 < magnitude s.multiplier.coefficient) (some_quantity : 0 < magnitude q)
    (amount_fits : Fits (whole_amount s e x d q)) where
  -- What is computed on the way to the amount has no more digits than the amount.
  on_the_way :
      let a = s.tick_size.coefficient *ℤ x -ℤ s.tick_size.coefficient *ℤ e in
      Fits a
      × Fits (a *ℤ sign d)
      × Fits (a *ℤ sign d *ℤ s.multiplier.coefficient)
      × Fits (a *ℤ sign d *ℤ s.multiplier.coefficient *ℤ q)
  on_the_way =
      let c = s.tick_size.coefficient in
      let m = s.multiplier.coefficient in
      let a = c *ℤ x -ℤ c *ℤ e in
      let n = magnitude a in
      let total : magnitude (whole_amount s e x d q) ≡ n * magnitude m * magnitude q =
        ap magnitude (sym (regroup c x e (sign d) m q))
        ∙ magnitude-mul (a *ℤ sign d *ℤ m) q
        ∙ ap (λ (t : ℕ). t * magnitude q)
            (magnitude-mul (a *ℤ sign d) m
              ∙ ap (λ (t : ℕ). t * magnitude m)
                  (magnitude-mul a (sign d)
                    ∙ ap (λ (t : ℕ). n * t) (magnitude-sign d)
                    ∙ (omega arith))) in
      let signed : magnitude (a *ℤ sign d) ≡ n =
        magnitude-mul a (sign d) ∙ ap (λ (t : ℕ). n * t) (magnitude-sign d) ∙ (omega arith) in
      let third : magnitude (a *ℤ sign d *ℤ m) ≡ n * magnitude m =
        magnitude-mul (a *ℤ sign d) m ∙ ap (λ (t : ℕ). t * magnitude m) signed in
      let last : magnitude (a *ℤ sign d *ℤ m *ℤ q) ≡ n * magnitude m * magnitude q =
        magnitude-mul (a *ℤ sign d *ℤ m) q ∙ ap (λ (t : ℕ). t * magnitude q) third in
      let first_step = grow n (magnitude m) multiplied in
      let second_step = grow (n * magnitude m) (magnitude q) some_quantity in
      (
        omega (arith, amount_fits, total, first_step, second_step),
        omega (arith, amount_fits, total, signed, first_step, second_step),
        omega (arith, amount_fits, total, third, second_step),
        omega (arith, amount_fits, total, last),
      )

  -- A gross result between whole ticks is that many tick values, exactly.
  gross_of_ticks :
      Fits (s.tick_size.coefficient *ℤ s.multiplier.coefficient)
      → gross_of s (exact_product s.tick_size (of_int e)) (exact_product s.tick_size (of_int x)) d q
        ≡ mul (tick_value s).value (of_int ((x -ℤ e) *ℤ sign d *ℤ q))
  unfolding tick_value
  gross_of_ticks value_fits =
      let t = s.tick_size in
      let m = s.multiplier in
      let (f1, f2, f3, f4) = on_the_way in
      let a = t.coefficient *ℤ x -ℤ t.coefficient *ℤ e in
      let whole = (x -ℤ e) *ℤ sign d *ℤ q in
      let points : Exact = record { coefficient = a; scale = t.scale } in
      let p1 = exact_product points (of_int (sign d)) in
      let p2 = exact_product p1 m in
      let difference = price_difference t e x in
      let e1 : sub (exact_product t (of_int x)) (exact_product t (of_int e)) ≡ points =
        sub-Fits (exact_product t (of_int x)) (exact_product t (of_int e))
          (subst (λ (z : Exact). Fits z.coefficient) (sym difference) f1)
        ∙ difference in
      let bottom : t.scale + 0 + m.scale + 0 ≡ t.scale + m.scale + 0 = omega arith in
      let regrouped : exact_product p2 (of_int q)
          ≡ exact_product (exact_product t m) (of_int whole) =
        λ i. record {
          coefficient = regroup t.coefficient x e (sign d) m.coefficient q i;
          scale = bottom i;
        } in
      ap (λ (z : Exact). mul (mul (mul z (of_int (sign d))) m) (of_int q)) e1
      ∙ ap (λ (z : Exact). mul (mul z m) (of_int q)) (mul-Fits points (of_int (sign d)) f2)
      ∙ ap (λ (z : Exact). mul z (of_int q)) (mul-Fits p1 m f3)
      ∙ mul-Fits p2 (of_int q) f4
      ∙ regrouped
      ∙ sym (mul-Fits (exact_product t m) (of_int whole) amount_fits)
      ∙ ap (λ (z : Exact). mul z (of_int whole)) (sym (mul-Fits t m value_fits))

multiplier_positive :
    (s : InstrumentSpec) → check_spec s ≡ ok s → 0 < magnitude s.multiplier.coefficient
unfolding check_spec
multiplier_positive s h = ground arith

-- For every accepted specification, the gross result of a positive quantity between two prices made
-- from ticks is the tick value times the ticks gained, the sign of the direction and the quantity,
-- where the prices, the tick value and the result have at most 28 digits.
pub gross_pnl-ticks :
    (s : InstrumentSpec) (e x q : ℤ) (d : Direction) {p r : Price}
    → check_spec s ≡ ok s
    → price_from_ticks s e ≡ ok p
    → price_from_ticks s x ≡ ok r
    → pos 0 <ℤ q
    → Fits (s.tick_size.coefficient *ℤ e)
    → Fits (s.tick_size.coefficient *ℤ x)
    → Fits (s.tick_size.coefficient *ℤ s.multiplier.coefficient)
    → Fits (whole_amount s e x d q)
    → gross_pnl s p r d q
      ≡ ok (record { value = mul (tick_value s).value (of_int ((x -ℤ e) *ℤ sign d *ℤ q)) })
unfolding gross_pnl
gross_pnl-ticks s e x q d {p} {r} valid made_p made_r above fits_e fits_x fits_v fits_a =
    let on_p = (ticks-price_from_ticks s e valid made_p fits_e).1 in
    let on_r = (ticks-price_from_ticks s x valid made_r fits_x).1 in
    let ep = (price_coefficient s e made_p).0 ∙ mul-Fits s.tick_size (of_int e) fits_e in
    let er = (price_coefficient s x made_r).0 ∙ mul-Fits s.tick_size (of_int x) fits_x in
    let total : gross_of s p.value r.value d q
        ≡ mul (tick_value s).value (of_int ((x -ℤ e) *ℤ sign d *ℤ q)) =
      rw (ep, er)
        (gross_of_ticks s e x q d (multiplier_positive s valid) (omega arith) fits_a fits_v) in
    ground (arith, on_p, on_r, total)

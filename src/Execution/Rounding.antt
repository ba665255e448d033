-- ===== src/Execution/Rounding.antt =====
-- domain/execution.py: an aligned price is the nearest price of the NES grid on the chosen side.
use native.Mathlib.Nat.{div-add-mod, mod-lt}
use sopara.Prelude.{
  ℕ, zero, suc, ◌+◌, ◌-◌, ◌*◌, ◌/◌, ◌^◌, ◌≤◌, ◌<◌, ◌≡◌, refl, ap, ◌∙◌, true, arith, leb, ltb,
}
use sopara.Prelude.Int.{ℤ, pos, ◌<ℤ◌, ◌*ℤ◌, pos_part}
use sopara.Errors.{ok}
use sopara.Instruments.Arithmetic.{
  Exact, leb_exact, ltb_exact, limit, mul, of_int, scaled, exact_product,
}
use sopara.Instruments.Precision.{Fits, mul-Fits, rounded-Fits}
use sopara.Instruments.{Price, new_price}
use sopara.Instruments.Grid.{pow10_pos, positive_suc}
use sopara.Instruments.Align.{pos-mul}
use sopara.Execution.{
  PriceAlignment, TickRounding, down, up, nes_contract_tick, half_quotient, round_ticks,
  align_nes_price,
}

div_bounds : (n d : ℕ) → 0 < d → (d * (n / d) ≤ n) × (n < d * (n / d) + d)
div_bounds n d h = omega (arith, div-add-mod n d, mod-lt n h)

-- The price of so many ticks.
abbrev pub grid_price : ℕ → Exact
grid_price f = exact_product nes_contract_tick (of_int (pos f))

-- A grid price and a positive price over their common denominator.
scaled_grid : (f s : ℕ) → (grid_price f).coefficient *ℤ pos (10 ^ s) ≡ pos (5 * f * 10 ^ s)
scaled_grid f s = simp pos-mul

scaled_price :
    (x : Exact) (c f : ℕ) → x.coefficient ≡ pos c → scaled x (grid_price f) ≡ pos (c * 10)
scaled_price x c f e = rw (e, pos-mul) refl

-- The two orders between a positive price and a grid price, as orders of numbers.
grid-le_iff :
    (x : Exact) (c f : ℕ)
    → x.coefficient ≡ pos c
    → (leb_exact (grid_price f) x ≡ leb (5 * f * 10 ^ x.scale) (c * 10))
      × (ltb_exact (grid_price f) x ≡ ltb (5 * f * 10 ^ x.scale) (c * 10))
      × (leb_exact x (grid_price f) ≡ leb (c * 10) (5 * f * 10 ^ x.scale))
      × (ltb_exact x (grid_price f) ≡ ltb (c * 10) (5 * f * 10 ^ x.scale))
grid-le_iff x c f e =
    let g = scaled_grid f x.scale in
    let p = scaled_price x c f e in
    (ground (arith, g, p), ground (arith, g, p), ground (arith, g, p), ground (arith, g, p))

-- A price whose tenfold has at most 28 digits is neither rounded when it is halved nor when it is made
-- of ticks again.
abbrev pub IsShort : Price → Type 0
IsShort price = Fits (price.value.coefficient *ℤ pos 10)

few_ticks :
    (price : Price) (n : ℕ) → price.value.coefficient ≡ pos n → IsShort price → n * 10 < limit
few_ticks price n e short =
    let ten : price.value.coefficient *ℤ pos 10 ≡ pos (n * 10) =
      ap (λ (c : ℤ). c *ℤ pos 10) e ∙ pos-mul n 10 in
    let few : Fits (pos (n * 10)) = rw ten at short in omega (arith, few)

half_kept :
    (price : Price) (n : ℕ)
    → price.value.coefficient ≡ pos n
    → IsShort price
    → pos_part (half_quotient price.value).coefficient ≡ n * 2
half_kept price n e short =
    let x = price.value in
    let twice : x.coefficient *ℤ pos 2 ≡ pos (n * 2) = ap (λ (c : ℤ). c *ℤ pos 2) e ∙ pos-mul n 2 in
    let few = few_ticks price n e short in
    let fits : Fits (x.coefficient *ℤ pos 2) = rw twice (omega (arith, few)) in
    let kept =
      rounded-Fits (record { coefficient = x.coefficient *ℤ pos 2; scale = x.scale }) fits in
    ap (λ (y : Exact). pos_part y.coefficient) kept ∙ ap pos_part twice

aligned_value :
    (price : Price) (r : TickRounding) (a : PriceAlignment) (f : ℕ)
    → align_nes_price price r ≡ ok a
    → round_ticks price.value r ≡ f
    → 5 * f < limit
    → a.aligned.value ≡ grid_price f
unfolding align_nes_price new_price
aligned_value price r a f h e small =
    let product : pos 5 *ℤ pos f ≡ pos (5 * f) = pos-mul 5 f in
    let fits : Fits (pos 5 *ℤ pos f) = rw product (omega (arith, small)) in
    let kept = mul-Fits nes_contract_tick (of_int (pos f)) fits in
    let made : a.aligned.value ≡ mul nes_contract_tick (of_int (pos (round_ticks price.value r))) =
      ground arith in
    made ∙ ap (λ (t : ℕ). mul nes_contract_tick (of_int (pos t))) e ∙ kept

le_times : (d f : ℕ) → 0 < d → f ≤ d * f
le_times zero f h = absurd (omega arith)
le_times (suc d) f h = omega arith

-- Rounding down gives the greatest grid price that is not above the requested price: the next one is.
-- The price has at most 27 digits, so that its half and the aligned price are not rounded.
pub align_down_lem :
    (price : Price) (a : PriceAlignment)
    → pos 0 <ℤ price.value.coefficient
    → IsShort price
    → align_nes_price price down ≡ ok a
    → (f : ℕ) × (a.aligned.value ≡ grid_price f)
      × (leb_exact a.aligned.value price.value ≡ true)
      × (ltb_exact price.value (grid_price (suc f)) ≡ true)
unfolding round_ticks
align_down_lem price a above short h =
    let x = price.value in
    let (n, e) = positive_suc x.coefficient (ground arith) in
    let d = 10 ^ x.scale in
    let f : ℕ = suc n * 2 / d in
    let bounds = div_bounds (suc n * 2) d (pow10_pos x.scale) in
    let few = few_ticks price (suc n) e short in
    let small : 5 * f < limit = omega (arith, bounds, few, le_times d f (pow10_pos x.scale)) in
    let rounded_down : round_ticks x down ≡ f =
      ap (λ (t : ℕ). t / d) (half_kept price (suc n) e short) in
    let value : a.aligned.value ≡ grid_price f =
      aligned_value price down a f h rounded_down small in
    let low = (grid-le_iff x (suc n) f e).0 in
    let high = (grid-le_iff x (suc n) (suc f) e).3 in
    let under : 5 * f * d ≤ suc n * 10 = omega (arith, bounds.0) in
    let over : suc n * 10 < 5 * suc f * d = omega (arith, bounds.1) in
    (f, value, rw (value, low) (ground (arith, under)), rw high (ground (arith, over)))

not_below : (n d q : ℕ) → 0 < n → 0 < d → n + (d - 1) < d * q + d → 0 < q
not_below n d zero hn hd h = absurd (omega arith)
not_below n d (suc q) hn hd h = omega arith

up_pos : (n d : ℕ) → 0 < n → 0 < d → 0 < (n + (d - 1)) / d
up_pos n d hn hd = not_below n d ((n + (d - 1)) / d) hn hd (div_bounds (n + (d - 1)) d hd).1

up_over : (n d f : ℕ) → 0 < d → (n + (d - 1)) / d ≡ suc f → (n ≤ d * suc f) × (d * f < n)
up_over n d f h e =
    let b = div_bounds (n + (d - 1)) d h in
    let b' : (d * suc f ≤ n + (d - 1)) × (n + (d - 1) < d * suc f + d) = rw e at b in
    omega (arith, b')

-- Rounding up gives the least grid price that is not below the requested price: the one before it is.
-- The price has at most 27 digits, so that its half and the aligned price are not rounded.
align_up_lem :
    (price : Price) (a : PriceAlignment)
    → pos 0 <ℤ price.value.coefficient
    → IsShort price
    → align_nes_price price up ≡ ok a
    → (f : ℕ) × (a.aligned.value ≡ grid_price (suc f))
      × (leb_exact price.value a.aligned.value ≡ true)
      × (ltb_exact (grid_price f) price.value ≡ true)
unfolding round_ticks
align_up_lem price a above short h =
    let x = price.value in
    let (n, e) = positive_suc x.coefficient (ground arith) in
    let d = 10 ^ x.scale in
    let top : ℕ = suc n * 2 + (d - 1) in
    let some_tick : 0 < top / d = up_pos (suc n * 2) d (omega arith) (pow10_pos x.scale) in
    let f : ℕ = top / d - 1 in
    let back : top / d ≡ suc f = omega arith in
    let bounds = up_over (suc n * 2) d f (pow10_pos x.scale) back in
    let few = few_ticks price (suc n) e short in
    let small : 5 * suc f < limit =
      omega (arith, bounds.1, few, le_times d f (pow10_pos x.scale)) in
    let rounded_up : round_ticks x up ≡ suc f =
      ap (λ (t : ℕ). (t + (d - 1)) / d) (half_kept price (suc n) e short) ∙ back in
    let value : a.aligned.value ≡ grid_price (suc f) =
      aligned_value price up a (suc f) h rounded_up small in
    let high = (grid-le_iff x (suc n) (suc f) e).2 in
    let low = (grid-le_iff x (suc n) f e).1 in
    let over : suc n * 10 ≤ 5 * suc f * d = omega (arith, bounds.0) in
    let under : 5 * f * d < suc n * 10 = omega (arith, bounds.1) in
    (f, value, rw (value, high) (ground (arith, over)), rw low (ground (arith, under)))

-- ===== src/Examples/Prices.antt =====
-- Prices, amounts and results at concrete values.
use sopara.Instruments.Precision.{Fits}
use sopara.Prelude.{ℕ, suc, ◌≡◌, refl, true, arith}
use sopara.Prelude.Int.{ℤ, pos, negsuc, ◌-ℤ◌, ◌*ℤ◌, ◌+ℤ◌}
use sopara.Errors.{ok, err, invalid_operation}
use sopara.Instruments.Arithmetic.{
  mul, of_int, leb_exact, ltb_exact, rounded, round_digits, exact_difference, add,
}
use sopara.Instruments.{
  Price, Money, long, short, nes_spec, sign, tick_value, is_on_grid, ticks, price_from_ticks,
  gross_pnl, check_spec, add_money,
}
use sopara.Instruments.Grid.{ticks-price_from_ticks}
use sopara.Instruments.Gross.{gross_pnl-ticks, whole_amount}
use sopara.Execution.{
  PriceAlignment, TickRounding, down, up, align_nes_price, resolve_gap_trigger, stop, PnlBreakdown,
  check_pnl, net, costs,
}
use sopara.Execution.Rounding.{align_down_lem, grid_price, IsShort}
use sopara.Execution.Orders.{NotBetter, resolve_gap_trigger_conservative, fill_price}
use sopara.Execution.Costs.{net-le-gross}

abbrev price : ℤ → ℕ → Price
price n k = record { value = record { coefficient = n; scale = k } }

nes_checked : check_spec nes_spec ≡ ok nes_spec
unfolding check_spec
nes_checked = refl

entry_made : price_from_ticks nes_spec (pos 13001) ≡ ok (price (pos 65005) 1)
unfolding price_from_ticks ◌*ℤ◌ rounded
entry_made = refl

exit_made : price_from_ticks nes_spec (pos 13003) ≡ ok (price (pos 65015) 1)
unfolding price_from_ticks ◌*ℤ◌ rounded
exit_made = refl

entry-Fits : Fits (pos 5 *ℤ pos 13001)
unfolding ◌*ℤ◌
entry-Fits = omega arith

exit-Fits : Fits (pos 5 *ℤ pos 13003)
unfolding ◌*ℤ◌
exit-Fits = omega arith

value-Fits : Fits (pos 5 *ℤ pos 50)
unfolding ◌*ℤ◌
value-Fits = omega arith

amount-Fits : Fits (whole_amount nes_spec (pos 13001) (pos 13003) short (pos 2))
unfolding ◌*ℤ◌ ◌-ℤ◌ sign
amount-Fits = omega arith

price-IsShort : IsShort (price (pos 650073) 2)
unfolding ◌*ℤ◌
price-IsShort = omega arith

ticks-price_from_ticks_example :
    (is_on_grid nes_spec (price (pos 65005) 1) ≡ ok true)
    × (ticks nes_spec (price (pos 65005) 1) ≡ ok (pos 13001))
ticks-price_from_ticks_example =
    ticks-price_from_ticks nes_spec (pos 13001) nes_checked entry_made entry-Fits

gross_pnl-ticks_example :
    gross_pnl nes_spec (price (pos 65005) 1) (price (pos 65015) 1) short (pos 2)
    ≡ ok (record {
      value =
          mul
            (tick_value nes_spec).value
            (of_int ((pos 13003 -ℤ pos 13001) *ℤ sign short *ℤ pos 2));
    })
gross_pnl-ticks_example =
    gross_pnl-ticks nes_spec (pos 13001) (pos 13003) (pos 2) short nes_checked entry_made exit_made
      (omega arith) entry-Fits exit-Fits value-Fits amount-Fits

abbrev aligned : Price → TickRounding → PriceAlignment
aligned a rounding = record { requested = price (pos 650073) 2; aligned = a; rounding = rounding }

aligned_down : align_nes_price (price (pos 650073) 2) down ≡ ok (aligned (price (pos 65005) 1) down)
unfolding align_nes_price ◌*ℤ◌ rounded
aligned_down = refl

aligned_up : align_nes_price (price (pos 650073) 2) up ≡ ok (aligned (price (pos 65010) 1) up)
unfolding align_nes_price ◌*ℤ◌ rounded
aligned_up = refl

align_down_lem_example :
    (f : ℕ) × ((price (pos 65005) 1).value ≡ grid_price f)
    × (leb_exact (price (pos 65005) 1).value (price (pos 650073) 2).value ≡ true)
    × (ltb_exact (price (pos 650073) 2).value (grid_price (suc f)) ≡ true)
align_down_lem_example =
    align_down_lem (price (pos 650073) 2) (aligned (price (pos 65005) 1) down) (omega arith)
      price-IsShort aligned_down

stopped_out :
    resolve_gap_trigger long stop (price (pos 6500) 0) (price (pos 6490) 0)
    ≡ ok (price (pos 6490) 0)
unfolding resolve_gap_trigger ◌*ℤ◌
stopped_out = refl

resolve_gap_trigger_conservative_example :
    (price (pos 6490) 0 ≡ fill_price stop (price (pos 6500) 0) (price (pos 6490) 0))
    × NotBetter long (price (pos 6490) 0) (price (pos 6500) 0)
    × NotBetter long (price (pos 6490) 0) (price (pos 6490) 0)
resolve_gap_trigger_conservative_example =
    resolve_gap_trigger_conservative long stop (price (pos 6500) 0) (price (pos 6490) 0)
      (price (pos 6490) 0) stopped_out

abbrev cents : ℤ → Money
cents n = record { value = record { coefficient = n; scale = 2 } }

abbrev losing_day : PnlBreakdown
losing_day = record {
  gross = cents (negsuc 49);
  spread = cents (pos 12);
  latency = cents (pos 2);
  slippage = cents (pos 0);
  exchange_fees = cents (pos 4);
  broker_fees = cents (pos 2);
  data_allocation = cents (pos 5);
  inference_allocation = record { value = of_int (pos 1) };
}

losing_day_checked : check_pnl losing_day ≡ ok losing_day
unfolding check_pnl
losing_day_checked = refl

day-Fits : Fits (exact_difference losing_day.gross.value (costs losing_day).value).coefficient
unfolding costs add_money add rounded round_digits ◌*ℤ◌ ◌+ℤ◌ ◌-ℤ◌
day-Fits = omega arith

net-le-gross_example : leb_exact (net losing_day).value losing_day.gross.value ≡ true
net-le-gross_example = net-le-gross losing_day losing_day_checked day-Fits

-- A price of 29 digits is rounded when it is halved: it is aligned down to a price above it.
rounded_up :
    align_nes_price (price (pos 99999999999999999999999999999) 29) down
    ≡ ok (record {
      requested = price (pos 99999999999999999999999999999) 29;
      aligned = price (pos 10) 1;
      rounding = down;
    })
unfolding align_nes_price ◌*ℤ◌ rounded
rounded_up = refl

-- A price of 10 ^ 30 is too many ticks for the test of the grid.
unmeasured :
    is_on_grid nes_spec (price (pos 1000000000000000000000000000000) 0) ≡ err invalid_operation
unfolding is_on_grid
unmeasured = refl

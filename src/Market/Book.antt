-- ===== src/Market/Book.antt =====
-- domain/market.py: when the execution book lets an order through.
use sopara.Prelude.{◌≡◌, refl, ◌↔◌, true, false, Option, none, some, arith}
use sopara.Prelude.Int.{pos, ◌<ℤ◌}
use sopara.Errors.{ok}
use sopara.Instruments.Arithmetic.{scaled}
use sopara.Instruments.{Price, nes, is_on_grid, spec}
use sopara.Market.{BookState, blocking_reason, blocking_prices, off_grid}

-- A book that orders can be filled from.
pub record IsOpen (b : BookState) : Type 0 where
  pub contract : b.contract.product ≡ nes
  pub fresh : b.stale ≡ false
  pub trading : b.halted ≡ false
  pub unlimited : b.price_limited ≡ false
  pub bid : Price
  pub ask : Price
  pub has_bid : b.bid ≡ some bid
  pub has_ask : b.ask ≡ some ask
  pub bid_size : pos 0 <ℤ b.bid_size
  pub ask_size : pos 0 <ℤ b.ask_size
  pub uncrossed : scaled bid.value ask.value <ℤ scaled ask.value bid.value
  pub traded : pos 0 <ℤ b.last_trade_size
  pub bid_grid : is_on_grid (spec b.contract) bid ≡ ok true
  pub ask_grid : is_on_grid (spec b.contract) ask ≡ ok true

book-IsOpen :
    (b : BookState) (bid ask : Option Price)
    → b.bid ≡ bid
    → b.ask ≡ ask
    → b.contract.product ≡ nes
    → b.stale ≡ false
    → b.halted ≡ false
    → b.price_limited ≡ false
    → blocking_prices b bid ask ≡ ok none
    → IsOpen b
unfolding blocking_prices off_grid
book-IsOpen b none ask eb ea c s h l p = cc
book-IsOpen b (some bid) none eb ea c s h l p = cc
book-IsOpen b (some bid) (some ask) eb ea c s h l p = record {
  contract = c;
  fresh = s;
  trading = h;
  unlimited = l;
  bid = bid;
  ask = ask;
  has_bid = eb;
  has_ask = ea;
  bid_size = ground arith;
  ask_size = ground arith;
  uncrossed = ground arith;
  traded = ground arith;
  bid_grid = ground arith;
  ask_grid = ground arith;
}

-- The book blocks for no reason exactly if it is the open, uncrossed, traded, on-grid book of an NES
-- contract.
pub blocking_reason-none_iff : (b : BookState) → (blocking_reason b ≡ ok none) ↔ IsOpen b
unfolding blocking_reason blocking_prices off_grid
blocking_reason-none_iff b = (
  λ h.
      book-IsOpen b b.bid b.ask refl refl (ground arith) (ground arith) (ground arith)
        (ground arith) (ground arith),
  λ o. ground (
    arith, o.contract, o.fresh, o.trading, o.unlimited, o.has_bid, o.has_ask, o.bid_size,
    o.ask_size, o.uncrossed, o.traded, o.bid_grid, o.ask_grid,
  ),
)

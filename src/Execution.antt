-- ===== src/Execution.antt =====
-- domain/execution.py: tick alignment, gap triggers, simulated orders and fills, positions and P&L.
pub mod Rounding
pub mod Orders
pub mod Costs
use sopara.Prelude.{
  ℕ, suc, ◌+◌, ◌-◌, ◌*◌, ◌/◌, ◌^◌, String, ◌≡◌, Bool, true, false, not, ◌&&◌, ◌||◌, Option, none,
  some, List, [], ◌∷◌, any, if◌then◌else◌,
}
use sopara.Prelude.Int.{ℤ, pos, ◌*ℤ◌, ltb_ℤ, leb_ℤ, ◌==ℤ◌, pos_part}
use sopara.Errors.{Result, ok, err, domain_error, raise_if, ◌>>=◌, ◌>>◌}
use sopara.ReasonCodes
use sopara.ReasonCodes.{ReasonCode}
use sopara.States.Enums.{OrderState, ProposalState}
use sopara.Versions.{VersionRef}
use sopara.Evidence.{EvidenceSelection}
use sopara.Instruments.Arithmetic.{Exact, leb_exact, eq_exact, mul, of_int, rounded}
use sopara.Instruments.{
  ContractId, Direction, long, short, Money, Price, new_price, add_money, sub_money, is_nes,
  is_on_grid, spec,
}
use sopara.Market.{BookState, blocking_reason}
use sopara.Decisions.{EligibilityDecision, Proposal}

pub data TickRounding : Type 0 where
  down up : TickRounding

pub data TriggerKind : Type 0 where
  stop target : TriggerKind

pub record PriceAlignment : Type 0 where
  pub requested : Price
  pub aligned : Price
  pub rounding : TickRounding

unfoldable pub transformed : PriceAlignment → Bool
transformed a = not (eq_exact a.requested.value a.aligned.value)

abbrev pub nes_contract_tick : Exact
nes_contract_tick = record { coefficient = pos 5; scale = 1 }

-- `price / 0.5`, which is twice the price, rounded.
abbrev pub half_quotient : Exact → Exact
half_quotient x = rounded (record { coefficient = x.coefficient *ℤ pos 2; scale = x.scale })

-- `int(quotient.to_integral_value(rounding))`, of the quotient of a price, which is positive.
unfoldable pub round_ticks : Exact → TickRounding → ℕ
round_ticks x down = pos_part (half_quotient x).coefficient / 10 ^ x.scale
round_ticks x up = (pos_part (half_quotient x).coefficient + (10 ^ x.scale - 1)) / 10 ^ x.scale

unfoldable pub align_nes_price : Price → TickRounding → Result PriceAlignment
unfolding round_ticks new_price mul
align_nes_price price rounding = do
  aligned ← new_price (mul nes_contract_tick (of_int (pos (round_ticks price.value rounding))))
  ok (record { requested = price; aligned = aligned; rounding = rounding })

abbrev pub crossed : Direction → Price → Price → Bool
crossed long trigger first_trade = leb_exact first_trade.value trigger.value
crossed short trigger first_trade = leb_exact trigger.value first_trade.value

abbrev pub reached : Direction → Price → Price → Bool
reached long trigger first_trade = leb_exact trigger.value first_trade.value
reached short trigger first_trade = leb_exact first_trade.value trigger.value

unfoldable pub resolve_gap_trigger : Direction → TriggerKind → Price → Price → Result Price
resolve_gap_trigger d stop trigger first_trade =
    if not (crossed d trigger first_trade)
    then err (domain_error "first trade did not cross the stop")
    else ok first_trade
resolve_gap_trigger d target trigger first_trade =
    if not (reached d trigger first_trade)
    then err (domain_error "first trade did not reach the target")
    else ok trigger

pub record SimulatedOrder : Type 0 where
  pub order_id : String
  pub proposal_id : String
  pub contract : ContractId
  pub direction : Direction
  pub quantity : ℤ
  pub limit_price : Price
  pub state : OrderState

unfoldable pub check_order : SimulatedOrder → Result SimulatedOrder
check_order o = do
  raise_if (not (is_nes o.contract.product)) "simulated execution orders require an NES contract"
  raise_if (leb_ℤ o.quantity (pos 0)) "simulated order quantity and NES price must be valid"
  on_grid ← is_on_grid (spec o.contract) o.limit_price
  raise_if (not on_grid) "simulated order quantity and NES price must be valid"
  ok o

abbrev pub is_accepted : ProposalState → Bool
is_accepted ProposalState.sim_accepted = true
is_accepted _ = false

unfoldable pub create_simulated_order :
    String → Proposal → ContractId → EligibilityDecision → Result SimulatedOrder
unfolding check_order
create_simulated_order order_id p execution_contract d = do
  raise_if (not (is_accepted d.outcome))
      "an order cannot be created before every eligibility and risk gate passes"
  check_order (record {
    order_id = order_id;
    proposal_id = p.proposal_id;
    contract = execution_contract;
    direction = p.direction;
    quantity = p.quantity;
    limit_price = p.reference_price;
    state = OrderState.created;
  })

pub record FillAssumptions : Type 0 where
  pub simulator_version : VersionRef
  pub cost_model_version : VersionRef
  pub latency_ns : ℤ
  pub queue_ahead : ℤ
  pub slippage_ticks : ℤ
  pub passive_requires_trade_through : Bool

unfoldable pub check_assumptions : FillAssumptions → Result FillAssumptions
check_assumptions a = do
  raise_if
      (ltb_ℤ a.latency_ns (pos 0) || ltb_ℤ a.queue_ahead (pos 0) || ltb_ℤ a.slippage_ticks (pos 0))
      "fill assumptions cannot be negative"
  ok a

pub record SimulatedFill : Type 0 where
  pub fill_id : String
  pub order_id : String
  pub contract : ContractId
  pub price : Price
  pub quantity : ℤ
  pub occurred_at_ns : ℤ
  pub evidence : EvidenceSelection
  pub assumptions : FillAssumptions

unfoldable pub check_fill : SimulatedFill → Result SimulatedFill
check_fill f = do
  raise_if (not (is_nes f.contract.product)) "fills require an on-grid NES execution price"
  on_grid ← is_on_grid (spec f.contract) f.price
  raise_if (not on_grid) "fills require an on-grid NES execution price"
  raise_if (leb_ℤ f.quantity (pos 0) || ltb_ℤ f.occurred_at_ns (pos 0))
      "fill quantity and time are invalid"
  ok f

-- `passive_fill_reason` once the book has answered.
abbrev pub passive_reason :
    BookState
    → Price
    → Bool
    → Bool
    → FillAssumptions
    → Option ReasonCode
    → Result (Option ReasonCode)
passive_reason b limit_price touched traded_through a (some blocked) = ok (some blocked)
passive_reason b limit_price touched traded_through a none = do
  on_grid ← is_on_grid (spec b.contract) limit_price
  ok (
      if not on_grid
      then some ReasonCode.nes_off_grid
      else if not touched
      then some ReasonCode.passive_touch_insufficient
      else if a.passive_requires_trade_through && not traded_through
      then some ReasonCode.passive_touch_insufficient
      else none)

unfoldable pub passive_fill_reason :
    BookState → Price → Bool → Bool → FillAssumptions → Result (Option ReasonCode)
passive_fill_reason b limit_price touched traded_through a = do
  blocked ← blocking_reason b
  passive_reason b limit_price touched traded_through a blocked

pub record Position : Type 0 where
  pub contract : ContractId
  pub quantity : ℤ
  pub average_price : Option Price

abbrev pub has_price : Option Price → Bool
has_price none = false
has_price (some p) = true

unfoldable pub check_position_state : Position → Result Position
check_position_state p = do
  raise_if (not (is_nes p.contract.product)) "positions require an NES contract"
  raise_if (p.quantity ==ℤ pos 0 && has_price p.average_price)
      "flat positions cannot retain an average price"
  raise_if (not (p.quantity ==ℤ pos 0) && not (has_price p.average_price))
      "open positions require an average price"
  ok p

pub record PnlBreakdown : Type 0 where
  pub gross : Money
  pub spread : Money
  pub latency : Money
  pub slippage : Money
  pub exchange_fees : Money
  pub broker_fees : Money
  pub data_allocation : Money
  pub inference_allocation : Money

unfoldable pub check_pnl : PnlBreakdown → Result PnlBreakdown
check_pnl p = do
  raise_if
      (any (λ (cost : Money). ltb_ℤ cost.value.coefficient (pos 0))
        (p.spread ∷ p.latency ∷ p.slippage ∷ p.exchange_fees ∷ p.broker_fees ∷ p.data_allocation
          ∷ p.inference_allocation ∷ []))
      "P&L cost components cannot be negative"
  ok p

unfoldable pub costs : PnlBreakdown → Money
costs p =
    add_money
      (add_money
        (add_money (add_money (add_money (add_money p.spread p.latency) p.slippage) p.exchange_fees)
          p.broker_fees)
        p.data_allocation)
      p.inference_allocation

-- `PnlBreakdown.net`
unfoldable pub net : PnlBreakdown → Money
unfolding costs
net p = sub_money p.gross (costs p)

unfoldable pub research_allocation : PnlBreakdown → Money
research_allocation p = add_money p.data_allocation p.inference_allocation

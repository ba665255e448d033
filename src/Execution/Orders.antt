-- ===== src/Execution/Orders.antt =====
-- domain/execution.py: an order exists only for a proposal that every gate accepted; exits never take
-- a better price than the market gave; passive fills.
use sopara.Prelude.{String, ◌≡◌, ◌↔◌, ◌⊎◌, Bool, true, false, none, arith}
use sopara.Prelude.Int.{pos, ◌<ℤ◌}
use sopara.Errors.{ok}
use sopara.States.Enums.{OrderState, ProposalState}
use sopara.Instruments.Arithmetic.{leb_exact}
use sopara.Instruments.{ContractId, Direction, long, short, Price, nes, is_on_grid, spec}
use sopara.Market.{BookState}
use sopara.Market.Book.{IsOpen, blocking_reason-none_iff}
use sopara.Decisions.{Proposal, EligibilityContext, EligibilityDecision, evaluate_eligibility}
use sopara.Decisions.Eligibility.{IsEligible, evaluate-accepted_iff}
use sopara.Execution.{
  SimulatedOrder, FillAssumptions, TriggerKind, stop, target, create_simulated_order,
  resolve_gap_trigger, passive_fill_reason,
}

-- What an order takes from its proposal.
pub record IsOrderOf (order_id : String) (p : Proposal) (k : ContractId) (o : SimulatedOrder)
    : Type 0 where
  pub identity : o.order_id ≡ order_id
  pub proposal : o.proposal_id ≡ p.proposal_id
  pub contract : o.contract ≡ k
  pub product : k.product ≡ nes
  pub direction : o.direction ≡ p.direction
  pub quantity : o.quantity ≡ p.quantity
  pub positive : pos 0 <ℤ o.quantity
  pub price : o.limit_price ≡ p.reference_price
  pub on_grid : is_on_grid (spec k) o.limit_price ≡ ok true
  pub state : o.state ≡ OrderState.created

created_accepted :
    (order_id : String) (p : Proposal) (k : ContractId) (d : EligibilityDecision)
    (o : SimulatedOrder)
    → create_simulated_order order_id p k d ≡ ok o
    → (d.outcome ≡ ProposalState.sim_accepted) × IsOrderOf order_id p k o
unfolding create_simulated_order
created_accepted order_id p k d o h = (
  ground arith,
  record {
    identity = ground arith;
    proposal = ground arith;
    contract = ground arith;
    product = ground arith;
    direction = ground arith;
    quantity = ground arith;
    positive = ground arith;
    price = ground arith;
    on_grid = ground arith;
    state = ground arith;
  },
)

-- From a decision of the gates, an order comes only for a proposal that is eligible in its context,
-- and it is the proposal's order: an NES order in the state CREATED, of positive quantity, on the
-- grid, at the proposal's price.
pub order_requires_gates :
    (order_id : String) (p : Proposal) (c : EligibilityContext) (k : ContractId)
    (d : EligibilityDecision) (o : SimulatedOrder)
    → evaluate_eligibility p c ≡ ok d
    → create_simulated_order order_id p k d ≡ ok o
    → IsEligible p c × IsOrderOf order_id p k o
order_requires_gates order_id p c k d o decided made =
    let (accepted, shape) = created_accepted order_id p k d o made in
    ((evaluate-accepted_iff p c d decided).0 accepted, shape)

-- One price is not better than another for whoever closes a position: lower when selling out of a
-- long position, higher when buying back a short one.
abbrev pub NotBetter : Direction → Price → Price → Type 0
NotBetter long a b = leb_exact a.value b.value ≡ true
NotBetter short a b = leb_exact b.value a.value ≡ true

abbrev pub fill_price : TriggerKind → Price → Price → Price
fill_price stop trigger first_trade = first_trade
fill_price target trigger first_trade = trigger

-- A triggered exit is filled, for a stop, at the first trade, and for a target at the trigger: of the
-- two the worse one for whoever closes the position, so that a fill through a gap is better than
-- neither.
pub resolve_gap_trigger_conservative :
    (d : Direction) (kind : TriggerKind) (trigger first_trade r : Price)
    → resolve_gap_trigger d kind trigger first_trade ≡ ok r
    → (r ≡ fill_price kind trigger first_trade) × NotBetter d r trigger × NotBetter d r first_trade
unfolding resolve_gap_trigger
resolve_gap_trigger_conservative long stop t f r h = (ground arith, ground arith, ground arith)
resolve_gap_trigger_conservative long target t f r h = (ground arith, ground arith, ground arith)
resolve_gap_trigger_conservative short stop t f r h = (ground arith, ground arith, ground arith)
resolve_gap_trigger_conservative short target t f r h = (ground arith, ground arith, ground arith)

-- A passive order is filled exactly in an open book, on the grid, at a price that was touched, and
-- traded through where the assumptions ask for that.
pub passive_fill-none_iff :
    (b : BookState) (limit_price : Price) (touched traded_through : Bool) (a : FillAssumptions)
    → (passive_fill_reason b limit_price touched traded_through a ≡ ok none) ↔ (
        IsOpen b
        × (is_on_grid (spec b.contract) limit_price ≡ ok true)
        × (touched ≡ true)
        × ((a.passive_requires_trade_through ≡ false) ⊎ (traded_through ≡ true)))
unfolding passive_fill_reason
passive_fill-none_iff b limit_price touched traded_through a =
    let book = blocking_reason-none_iff b in
    (
      λ h. (book.0 (ground arith), ground arith, ground arith, ground arith),
      λ h. ground (arith, book.1 h.0, h.1, h.2, h.3),
    )

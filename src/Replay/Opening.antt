-- ===== src/Replay/Opening.antt =====
-- domain/replay.py: the branch that opens a position does so on every two-sided book.
use sopara.Prelude.{some, String, ◌≡◌, refl, true, false, arith, is_empty}
use sopara.Prelude.Int.{ℤ, pos, negsuc, leb_ℤ, ◌<ℤ◌, ◌≤ℤ◌, ◌+ℤ◌, ◌*ℤ◌, magnitude, +ℤ_parts}
use sopara.Errors.{ok}
use sopara.Evidence.{EvidenceSelection}
use sopara.States.Enums.{ProposalState, OrderState}
use sopara.Instruments.Arithmetic.{of_int, exact_product, scaled}
use sopara.Instruments.Precision.{Fits, mul-Fits}
use sopara.Instruments.Align.{pos-mul}
use sopara.Instruments.{
  ContractId, Direction, long, short, Price, es, nes, nes_spec, sign, spec, price_from_ticks,
  is_on_grid, check_spec, new_price,
}
use sopara.Instruments.Grid.{ticks-price_from_ticks}
use sopara.Market.Book.{IsOpen, blocking_reason-none_iff}
use sopara.Decisions.{EligibilityDecision, check_proposal}
use sopara.Decisions.Eligibility.{IsEligible}
use sopara.Decisions.Totality.{IsReadable, IsMeasured, on_grid-IsMeasured}
use mathlib.Core.Path.{subst}
use sopara.Execution.{SimulatedOrder, check_assumptions, check_fill, create_simulated_order}
use sopara.Replay.Event.{ReplayEvent, BookTuple, check_replay_event}
use sopara.Replay.Dataset.{ReplayDataset, ReplayConfiguration, check_configuration}
use sopara.Replay.Entry.{
  watermark, mark_of, proposal_of, book_of, fill_of, latest_book, reference_ticks, propose,
  execution_book, replay_context, fill_assumptions,
}
use sopara.Replay.Inputs.{IsTwoSided, tick_limit, event_times, configuration_bounds}

abbrev pub nes_price : ℤ → Price
nes_price n = record { value = exact_product nes_spec.tick_size (of_int n) }

-- Ticks of which a price is made: positive, and below the limit.
abbrev pub IsPrice : ℤ → Type 0
IsPrice n = (pos 0 <ℤ n) × (n <ℤ pos tick_limit)

pub nes-Fits : (n : ℤ) → IsPrice n → Fits (pos 5 *ℤ n)
nes-Fits (pos n) h = let product = pos-mul 5 n in rw product (omega (arith, h))
nes-Fits (negsuc n) h = absurd (omega (arith, h))

five_above : (n : ℤ) → pos 0 <ℤ n → leb_ℤ (pos 5 *ℤ n) (pos 0) ≡ false
unfolding ◌*ℤ◌
five_above n h = ground arith

pub made_price : (n : ℤ) → IsPrice n → price_from_ticks nes_spec n ≡ ok (nes_price n)
unfolding price_from_ticks new_price
made_price n h =
    let kept = mul-Fits nes_spec.tick_size (of_int n) (nes-Fits n h) in
    let above : leb_ℤ (pos 5 *ℤ n) (pos 0) ≡ false = five_above n h.0 in
    ground (arith, kept, h.0, above)

price_on_grid : (n : ℤ) → IsPrice n → is_on_grid nes_spec (nes_price n) ≡ ok true
unfolding check_spec
price_on_grid n h = (ticks-price_from_ticks nes_spec n refl (made_price n h) (nes-Fits n h)).0

price_order :
    (m n : ℤ)
    → m <ℤ n
    → scaled (nes_price m).value (nes_price n).value
      <ℤ scaled (nes_price n).value (nes_price m).value
unfolding ◌*ℤ◌
price_order m n h = ground arith

one_contract :
    (direction : Direction) (maximum : ℤ)
    → pos 1 ≤ℤ maximum
    → pos (magnitude (pos 0 +ℤ sign direction *ℤ pos 1)) ≤ℤ maximum
unfolding sign ◌+ℤ◌ ◌*ℤ◌
one_contract long maximum h = h
one_contract short maximum h = h

marked : (e : ReplayEvent) → check_replay_event e ≡ ok e → watermark e ≡ ok (mark_of e)
unfolding watermark
marked e h = let (time, sequence) = event_times e h in ground (arith, time, sequence)

-- What opening a position needs: a checked trade event with a two-sided book and an earlier checked
-- book event, in a checked configuration, on ES and NES contracts.
pub record CanOpen (d : ReplayDataset) (c : ReplayConfiguration) (e : ReplayEvent) (b : BookTuple)
    : Type 0 where
  pub event : check_replay_event e ≡ ok e
  pub configuration : check_configuration c ≡ ok c
  pub es_product : d.es_contract.product ≡ es
  pub nes_product : d.nes_contract.product ≡ nes
  pub book : IsTwoSided b
  pub earlier : ReplayEvent
  pub found : latest_book d e ≡ ok earlier
  pub earlier_event : check_replay_event earlier ≡ ok earlier

pub bid_price : (b : BookTuple) → IsTwoSided b → IsPrice b.bid_ticks
bid_price b t = (t.bid, omega (arith, t.uncrossed, t.bounded))

pub ask_price : (b : BookTuple) → IsTwoSided b → IsPrice b.ask_ticks
ask_price b t = (t.ask, t.bounded)

pub reference_price :
    (direction : Direction) (b : BookTuple) → IsTwoSided b → IsPrice (reference_ticks direction b)
reference_price long b t = ask_price b t
reference_price short b t = bid_price b t

same_price : {p q : Price} → some p ≡ some q → p ≡ q
same_price h = cc

same_contract : {k m : ContractId} → some k ≡ some m → k ≡ m
same_contract h = cc

module _ (d : ReplayDataset) (c : ReplayConfiguration) (e : ReplayEvent) (b : BookTuple)
    (can : CanOpen d c e b) where
  nes_made : (n : ℤ) → IsPrice n → price_from_ticks (spec d.nes_contract) n ≡ ok (nes_price n)
  nes_made n h = rw can.nes_product (made_price n h)

  grid_at : (n : ℤ) → IsPrice n → is_on_grid (spec d.nes_contract) (nes_price n) ≡ ok true
  grid_at n h = rw can.nes_product (price_on_grid n h)

  pub booked : execution_book d b ≡ ok (book_of d b (nes_price b.bid_ticks) (nes_price b.ask_ticks))
  unfolding execution_book
  booked = ground (
    arith,
    nes_made b.bid_ticks (bid_price b can.book),
    nes_made b.ask_ticks (ask_price b can.book),
  )

  pub proposed :
      (direction : Direction) (feature_id proposal_id : String) (evidence : EvidenceSelection)
      → is_empty feature_id ≡ false
      → is_empty proposal_id ≡ false
      → propose d c e direction b feature_id proposal_id evidence
        ≡ ok (
            proposal_of c e direction feature_id proposal_id evidence
              (mark_of e)
              (mark_of can.earlier)
              (nes_price (reference_ticks direction b)))
  unfolding propose check_proposal
  proposed direction feature_id proposal_id evidence hf hp =
      let price = nes_made (reference_ticks direction b) (reference_price direction b can.book) in
      let bounds = configuration_bounds c can.configuration in
      let times = event_times e can.event in
      ground (
        arith,
        marked e can.event,
        can.found,
        marked can.earlier can.earlier_event,
        price,
        hf,
        hp,
        bounds,
        times,
        +ℤ_parts e.source_time_ns c.holding_ns,
      )

  pub is_open : IsOpen (book_of d b (nes_price b.bid_ticks) (nes_price b.ask_ticks))
  is_open = record {
    contract = can.nes_product;
    fresh = refl;
    trading = refl;
    unlimited = refl;
    bid = nes_price b.bid_ticks;
    ask = nes_price b.ask_ticks;
    has_bid = refl;
    has_ask = refl;
    bid_size = can.book.bid_size;
    ask_size = can.book.ask_size;
    uncrossed = price_order b.bid_ticks b.ask_ticks can.book.uncrossed;
    traded = can.book.traded;
    bid_grid = grid_at b.bid_ticks (bid_price b can.book);
    ask_grid = grid_at b.ask_ticks (ask_price b can.book);
  }

  pub readable : IsReadable (book_of d b (nes_price b.bid_ticks) (nes_price b.ask_ticks))
  readable = record {
    contract = can.nes_product;
    bid = λ price h. subst (IsMeasured d.nes_contract) (same_price h) (
        on_grid-IsMeasured d.nes_contract (nes_price b.bid_ticks)
          (grid_at b.bid_ticks (bid_price b can.book)));
    ask = λ price h. subst (IsMeasured d.nes_contract) (same_price h) (
        on_grid-IsMeasured d.nes_contract (nes_price b.ask_ticks)
          (grid_at b.ask_ticks (ask_price b can.book)));
  }

  pub reference-IsMeasured :
      (direction : Direction) (k : ContractId)
      → some d.nes_contract ≡ some k
      → IsMeasured k (nes_price (reference_ticks direction b))
  reference-IsMeasured direction k h =
      let grid : is_on_grid (spec d.nes_contract) (nes_price (reference_ticks direction b))
          ≡ ok true =
        grid_at (reference_ticks direction b) (reference_price direction b can.book) in
      subst (λ (k : ContractId). IsMeasured k (nes_price (reference_ticks direction b)))
        (same_contract h)
        (on_grid-IsMeasured d.nes_contract (nes_price (reference_ticks direction b)) grid)

  pub eligible :
      (direction : Direction) (feature_id proposal_id : String) (evidence : EvidenceSelection)
      → IsEligible
          (proposal_of c e direction feature_id proposal_id evidence
            (mark_of e)
            (mark_of can.earlier)
            (nes_price (reference_ticks direction b)))
          (replay_context d c e
            (pos 0)
            (book_of d b (nes_price b.bid_ticks) (nes_price b.ask_ticks)))
  unfolding replay_context
  eligible direction feature_id proposal_id evidence =
      let (maximum, holding, _, _, _) = configuration_bounds c can.configuration in
      record {
        lease = refl;
        operability = refl;
        entitlement = refl;
        window = refl;
        source = d.es_contract;
        has_source = refl;
        source_product = can.es_product;
        execution = d.nes_contract;
        has_execution = refl;
        execution_product = can.nes_product;
        es_health = refl;
        nes_health = refl;
        book = book_of d b (nes_price b.bid_ticks) (nes_price b.ask_ticks);
        has_book = refl;
        book_open =
            (blocking_reason-none_iff
                (book_of d b (nes_price b.bid_ticks) (nes_price b.ask_ticks))).1
              is_open;
        evidence = refl;
        started = omega arith;
        unexpired = omega (arith, holding, +ℤ_parts e.source_time_ns c.holding_ns);
        on_grid = grid_at (reference_ticks direction b) (reference_price direction b can.book);
        no_duplicate = refl;
        current = pos 0;
        has_current = refl;
        maximum = c.maximum_position;
        has_maximum = refl;
        bounded = one_contract direction c.maximum_position maximum;
        loss_limit = refl;
        exit = refl;
      }

  abbrev pub order_of : String → Direction → String → SimulatedOrder
  order_of order_id direction proposal_id = record {
    order_id = order_id;
    proposal_id = proposal_id;
    contract = d.nes_contract;
    direction = direction;
    quantity = pos 1;
    limit_price = nes_price (reference_ticks direction b);
    state = OrderState.created;
  }

  pub ordered :
      (order_id : String) (direction : Direction) (feature_id proposal_id : String)
      (evidence : EvidenceSelection) (decision : EligibilityDecision)
      → decision.outcome ≡ ProposalState.sim_accepted
      → create_simulated_order order_id
          (proposal_of c e direction feature_id proposal_id evidence
            (mark_of e)
            (mark_of can.earlier)
            (nes_price (reference_ticks direction b)))
          d.nes_contract
          decision
        ≡ ok (order_of order_id direction proposal_id)
  unfolding create_simulated_order
  ordered order_id direction feature_id proposal_id evidence decision accepted =
      let grid : is_on_grid (spec d.nes_contract) (nes_price (reference_ticks direction b))
          ≡ ok true =
        grid_at (reference_ticks direction b) (reference_price direction b can.book) in
      ground (arith, accepted, can.nes_product, grid)

  pub filled :
      (direction : Direction) (order_id proposal_id fill_id : String) (evidence : EvidenceSelection)
      → check_fill (
          fill_of d c e evidence
            (order_of order_id direction proposal_id)
            fill_id
            (fill_assumptions c))
        ≡ ok (
            fill_of d c e evidence
              (order_of order_id direction proposal_id)
              fill_id
              (fill_assumptions c))
  unfolding check_fill
  filled direction order_id proposal_id fill_id evidence =
      let grid : is_on_grid (spec d.nes_contract) (nes_price (reference_ticks direction b))
          ≡ ok true =
        grid_at (reference_ticks direction b) (reference_price direction b can.book) in
      let bounds = configuration_bounds c can.configuration in
      let times = event_times e can.event in
      ground (arith, can.nes_product, grid, bounds, times, +ℤ_parts e.source_time_ns c.latency_ns)

  pub assumed : check_assumptions (fill_assumptions c) ≡ ok (fill_assumptions c)
  unfolding check_assumptions
  assumed =
      let (_, _, latency, queue, slippage) = configuration_bounds c can.configuration in
      ground (arith, latency, queue, slippage)

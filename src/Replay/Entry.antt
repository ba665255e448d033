-- ===== src/Replay/Entry.antt =====
-- domain/replay.py: the branch of `advance_replay` that opens a position.
use sopara.Prelude.Search.{reversed}
use sopara.Prelude.{String, true, false, Option, none, some, List, find, take, if◌then◌else◌}
use sopara.Prelude.Int.{ℤ, pos, pos_part, ◌+ℤ◌, ltb_ℤ}
use sopara.Errors.{Result, ok, err, stop_iteration, ◌>>=◌}
use sopara.ReasonCodes.{ReasonCode}
use sopara.States.Enums.{OperabilityState}
use sopara.Evidence.{EvidenceClass, EvidenceSelection, check_selection}
use sopara.Instruments.{
  Direction, long, short, direction_value, sign, spec, price_from_ticks, Price,
}
use sopara.Market.{BookState, Completeness, SourceWatermark, StreamHealth, check_watermark}
use sopara.Decisions.{
  EligibilityContext, EligibilityDecision, Proposal, check_proposal, evaluate_eligibility,
  reason_codes,
}
use sopara.Execution.{
  FillAssumptions, SimulatedFill, SimulatedOrder, check_assumptions, check_fill,
  create_simulated_order,
}
use sopara.Canonical.{Object, Attributes, canonical_sha256}
use sopara.Replay.Event.{ReplayEvent, BookTuple}
use sopara.Replay.Dataset.{ReplayDataset, ReplayConfiguration, is_book}
use sopara.Replay.Encoding.{◌::◌}
use sopara.Replay.State.{FillEntry, FillKind, OrderEntry, PositionEntry}

abbrev pub mark_of : ReplayEvent → SourceWatermark
mark_of e = record {
  source_id = e.source_id;
  channel_id = e.channel_id;
  source_session_id = e.source_session_id;
  last_contiguous_sequence = e.source_sequence;
  max_exchange_time_ns = e.source_time_ns;
  max_receive_time_ns = some e.receive_time_ns;
  completeness = Completeness.contiguous;
}

-- `_watermark`
unfoldable pub watermark : ReplayEvent → Result SourceWatermark
unfolding check_watermark
watermark e = check_watermark (mark_of e)

-- `next(...)` over the reversed events before an index, which raises where there is no book.
abbrev pub first_of : Option ReplayEvent → Result ReplayEvent
first_of none = err stop_iteration
first_of (some e) = ok e

unfoldable pub latest_book : ReplayDataset → ReplayEvent → Result ReplayEvent
unfolding reversed
latest_book d e = first_of (find is_book (reversed (take (pos_part e.global_index) d.events)))

abbrev pub direction_of : ℤ → Direction
direction_of delta = if ltb_ℤ (pos 0) delta then long else short

abbrev pub reference_ticks : Direction → BookTuple → ℤ
reference_ticks long b = b.ask_ticks
reference_ticks short b = b.bid_ticks

-- `EvidenceSelection(EvidenceClass.SYNTHETIC_NES_PROXY, dataset.trade_date, proxy_opt_in=True)`
unfoldable pub replay_evidence : ReplayDataset → Result EvidenceSelection
unfolding check_selection
replay_evidence d = check_selection (record {
  evidence_class = EvidenceClass.synthetic_nes_proxy;
  first_trade_date = d.trade_date;
  proxy_opt_in = true;
})

abbrev pub proposal_of :
    ReplayConfiguration
    → ReplayEvent
    → Direction
    → String
    → String
    → EvidenceSelection
    → SourceWatermark
    → SourceWatermark
    → Price
    → Proposal
proposal_of c e direction feature_id proposal_id evidence es_mark nes_mark reference_price =
    record {
      proposal_id = proposal_id;
      direction = direction;
      quantity = pos 1;
      reference_price = reference_price;
      valid_from_ns = e.source_time_ns;
      valid_through_ns = e.source_time_ns +ℤ c.holding_ns;
      stop_policy = "SESSION_END";
      exit_policy = "TERMINAL_BOOK";
      maximum_holding_ns = c.holding_ns;
      feature_snapshot_id = feature_id;
      es_watermark = es_mark;
      nes_watermark = nes_mark;
      evidence = evidence;
    }

unfoldable pub propose :
    ReplayDataset
    → ReplayConfiguration
    → ReplayEvent
    → Direction
    → BookTuple
    → String
    → String
    → EvidenceSelection
    → Result Proposal
unfolding watermark latest_book price_from_ticks check_proposal
propose d c e direction b feature_id proposal_id evidence = do
  es_mark ← watermark e
  nes_event ← latest_book d e
  nes_mark ← watermark nes_event
  reference_price ← price_from_ticks (spec d.nes_contract) (reference_ticks direction b)
  check_proposal
      (proposal_of c e direction feature_id proposal_id evidence es_mark nes_mark reference_price)

abbrev pub book_of : ReplayDataset → BookTuple → Price → Price → BookState
book_of d b bid ask = record {
  contract = d.nes_contract;
  bid = some bid;
  ask = some ask;
  bid_size = b.bid_size;
  ask_size = b.ask_size;
  last_trade_size = b.last_trade_size;
  stale = false;
  halted = false;
  price_limited = false;
}

unfoldable pub execution_book : ReplayDataset → BookTuple → Result BookState
unfolding price_from_ticks
execution_book d b = do
  bid ← price_from_ticks (spec d.nes_contract) b.bid_ticks
  ask ← price_from_ticks (spec d.nes_contract) b.ask_ticks
  ok (book_of d b bid ask)

unfoldable pub replay_context :
    ReplayDataset → ReplayConfiguration → ReplayEvent → ℤ → BookState → EligibilityContext
replay_context d c e position book = record {
  lease_current = some true;
  operability = some OperabilityState.healthy;
  entitlement_permitted = some true;
  within_approved_window = some true;
  source_contract = some d.es_contract;
  execution_contract = some d.nes_contract;
  es_health = some StreamHealth.healthy;
  nes_health = some StreamHealth.healthy;
  nes_book = some book;
  evidence_class_permitted = some true;
  now_ns = e.source_time_ns;
  duplicate_intent = some false;
  current_position = some position;
  maximum_position = some c.maximum_position;
  within_loss_limit = some true;
  exit_feasible = some true;
}

abbrev pub fill_assumptions : ReplayConfiguration → FillAssumptions
fill_assumptions c = record {
  simulator_version = c.simulator_version;
  cost_model_version = c.cost_model_version;
  latency_ns = c.latency_ns;
  queue_ahead = c.queue_ahead;
  slippage_ticks = c.slippage_ticks;
  passive_requires_trade_through = c.passive_requires_trade_through;
}

abbrev pub fill_of :
    ReplayDataset
    → ReplayConfiguration
    → ReplayEvent
    → EvidenceSelection
    → SimulatedOrder
    → String
    → FillAssumptions
    → SimulatedFill
fill_of d c e evidence order fill_id assumptions = record {
  fill_id = fill_id;
  order_id = order.order_id;
  contract = d.nes_contract;
  price = order.limit_price;
  quantity = pos 1;
  occurred_at_ns = e.source_time_ns +ℤ c.latency_ns;
  evidence = evidence;
  assumptions = assumptions;
}

-- What the branch assigns and appends.
pub record Entry : Type 0 where
  pub proposal_id : String
  pub direction : Direction
  pub reason_codes : List ReasonCode
  pub position : ℤ
  pub entry_ticks : ℤ
  pub order : OrderEntry
  pub fill : FillEntry
  pub position_entry : PositionEntry

abbrev pub entry_of :
    ReplayConfiguration
    → ReplayEvent
    → Direction
    → BookTuple
    → String
    → EvidenceSelection
    → EligibilityDecision
    → SimulatedOrder
    → SimulatedFill
    → Entry
entry_of c e direction b proposal_id evidence eligibility order fill = record {
  proposal_id = proposal_id;
  direction = direction;
  reason_codes = reason_codes eligibility;
  position = sign direction;
  entry_ticks = reference_ticks direction b;
  order = record {
    order_id = order.order_id;
    proposal_id = proposal_id;
    direction = direction;
    quantity = pos 1;
    limit_ticks = reference_ticks direction b;
    kind = none;
  };
  fill = record {
    fill_id = fill.fill_id;
    order_id = order.order_id;
    kind = FillKind.entry;
    price_ticks = reference_ticks direction b;
    quantity = pos 1;
    occurred_at_ns = fill.occurred_at_ns;
    evidence_class = evidence.evidence_class;
    assumptions = fill_assumptions c;
  };
  position_entry = record {
    after_event = e.global_index;
    quantity = sign direction;
    price_ticks = some (reference_ticks direction b);
  };
}

abbrev pub feature_object : ReplayEvent → ℤ → Object
feature_object e delta = Object.mapping (
    ("event", Object.integer e.global_index)
    :: ("delta_es_ticks", Object.integer delta)
    :: ("as_of_ns", Object.integer e.source_time_ns)
    :: Attributes.end)

abbrev pub proposal_object : String → Direction → Object
proposal_object feature_id direction = Object.mapping (
    ("feature", Object.string feature_id)
    :: ("direction", Object.string (direction_value direction))
    :: ("quantity", Object.integer (pos 1))
    :: Attributes.end)

-- One identity, under its name, and a kind.
abbrev pub kind_object : String → String → String → Object
kind_object name identity kind =
    Object.mapping
      ((name, Object.string identity) :: ("kind", Object.string kind) :: Attributes.end)

module _ (sha256 : String → String) where
  unfoldable pub feature_digest : ReplayEvent → ℤ → Result String
  unfolding canonical_sha256
  feature_digest e delta = canonical_sha256 sha256 (feature_object e delta)

  unfoldable pub proposal_digest : String → Direction → Result String
  unfolding canonical_sha256
  proposal_digest feature_id direction =
      canonical_sha256 sha256 (proposal_object feature_id direction)

  unfoldable pub kind_digest : String → String → String → Result String
  unfolding canonical_sha256
  kind_digest name identity kind = canonical_sha256 sha256 (kind_object name identity kind)

  unfoldable pub simulate_fill :
      ReplayDataset
      → ReplayConfiguration
      → ReplayEvent
      → EvidenceSelection
      → SimulatedOrder
      → Result SimulatedFill
  unfolding check_assumptions kind_digest check_fill
  simulate_fill d c e evidence order = do
    assumptions ← check_assumptions (fill_assumptions c)
    fill_id ← kind_digest "order_id" order.order_id "ENTRY"
    check_fill (fill_of d c e evidence order fill_id assumptions)

  unfoldable pub open_entry :
      ReplayDataset → ReplayConfiguration → ReplayEvent → ℤ → ℤ → BookTuple → Result Entry
  unfolding feature_digest proposal_digest replay_evidence propose execution_book
      evaluate_eligibility replay_context kind_digest create_simulated_order simulate_fill
      reason_codes sign
  open_entry d c e position delta b =
      let direction = direction_of delta in
      do
        feature_id ← feature_digest e delta
        proposal_id ← proposal_digest feature_id direction
        evidence ← replay_evidence d
        proposal ← propose d c e direction b feature_id proposal_id evidence
        book ← execution_book d b
        eligibility ← evaluate_eligibility proposal (replay_context d c e position book)
        order_id ← kind_digest "proposal_id" proposal_id "ENTRY"
        order ← create_simulated_order order_id proposal d.nes_contract eligibility
        fill ← simulate_fill d c e evidence order
        ok (entry_of c e direction b proposal_id evidence eligibility order fill)

-- ===== src/Replay/Finish.antt =====
-- domain/replay.py: `finish_replay`. The P&L of the result holds the amounts, not their texts.
use sopara.Prelude.{
  ℕ, ◌/◌, String, not, Option, none, some, List, [], ◌∷◌, ◌++◌, length, ◌==◌, if◌then◌else◌,
}
use sopara.Prelude.Int.{ℤ, pos, ◌+ℤ◌, ◌*ℤ◌, ltb_ℤ, ◌==ℤ◌, magnitude}
use sopara.Errors.{Result, ok, err, domain_error, index_error, raise_if, ◌>>=◌, ◌>>◌}
use sopara.Evidence.{EvidenceClass}
use sopara.Instruments.Arithmetic.{of_int, rounded}
use sopara.Instruments.{Direction, long, short, Money, gross_pnl, price_from_ticks, spec}
use sopara.Execution.{PnlBreakdown, check_pnl}
use sopara.Replay.Event.{BookTuple}
use sopara.Replay.Dataset.{ReplayDataset, ReplayConfiguration}
use sopara.Replay.Encoding.{configuration_fingerprint, input_hash}
use sopara.Replay.Entry.{fill_assumptions, kind_digest}
use sopara.Replay.State.{ReplayState, DecisionEntry, OrderEntry, FillEntry, FillKind, PositionEntry}

pub record ReplayResult : Type 0 where
  pub schema_version : String
  pub dataset_hash : String
  pub configuration_hash : String
  pub runtime_manifest_hash : String
  pub evidence_class : EvidenceClass
  pub accepted_input_hashes : List String
  pub decisions : List DecisionEntry
  pub orders : List OrderEntry
  pub fills : List FillEntry
  pub positions : List PositionEntry
  pub pnl : PnlBreakdown
  -- The decisions of the `NO_TRADE` counterfactual.
  pub decision_count : ℕ

-- `_money`: a number of millionths, rounded.
unfoldable pub money_of : ℤ → Money
money_of microdollars = record {
  value = rounded (record { coefficient = microdollars; scale = 6 });
}

-- What the branch of an open position appends, and its gross profit.
pub record Exit : Type 0 where
  pub orders : List OrderEntry
  pub fills : List FillEntry
  pub positions : List PositionEntry
  pub gross : Money

abbrev pub no_exit : ReplayState → Exit
no_exit s = record {
  orders = s.orders;
  fills = s.fills;
  positions = s.positions;
  gross = record { value = of_int (pos 0) };
}

abbrev pub last_order : List OrderEntry → Result OrderEntry
last_order [] = err index_error
last_order (o ∷ []) = ok o
last_order (o ∷ p ∷ os) = last_order (p ∷ os)

abbrev pub held_direction : ℤ → Direction
held_direction position = if ltb_ℤ (pos 0) position then long else short

abbrev pub opposite : Direction → Direction
opposite long = short
opposite short = long

abbrev pub exit_ticks : Direction → BookTuple → ℤ
exit_ticks long b = b.bid_ticks
exit_ticks short b = b.ask_ticks

-- What the branch leaves: the orders, fills and positions with one more of each.
abbrev pub closed :
    ReplayDataset
    → ReplayConfiguration
    → ReplayState
    → Direction
    → ℤ
    → String
    → OrderEntry
    → String
    → Money
    → Exit
closed d c s direction ticks exit_order_id last fill_id gross = record {
  orders =
      s.orders
      ++ record {
        order_id = exit_order_id;
        proposal_id = last.proposal_id;
        direction = opposite direction;
        quantity = pos (magnitude s.position);
        limit_ticks = ticks;
        kind = some "TERMINAL_EXIT";
      }
        ∷ [];
  fills =
      s.fills
      ++ record {
        fill_id = fill_id;
        order_id = exit_order_id;
        kind = FillKind.exit;
        price_ticks = ticks;
        quantity = pos (magnitude s.position);
        occurred_at_ns = s.logical_time_ns +ℤ c.latency_ns;
        evidence_class = d.evidence_class;
        assumptions = fill_assumptions c;
      }
        ∷ [];
  positions =
      s.positions
      ++ record { after_event = pos (length d.events); quantity = pos 0; price_ticks = none } ∷ [];
  gross = gross;
}

-- The costs of a number of fills; two fills are a trade.
abbrev pub pnl_of : ReplayConfiguration → Money → ℕ → PnlBreakdown
pnl_of c gross fill_count =
    let trade_count = pos (fill_count / 2) in
    record {
      gross = gross;
      spread = money_of (c.spread_cost_microdollars *ℤ trade_count);
      latency = money_of (c.latency_cost_microdollars *ℤ trade_count);
      slippage = money_of (c.slippage_cost_microdollars *ℤ trade_count);
      exchange_fees = money_of (c.exchange_fee_microdollars *ℤ pos fill_count);
      broker_fees = money_of (c.broker_fee_microdollars *ℤ pos fill_count);
      data_allocation = money_of c.data_allocation_microdollars;
      inference_allocation = money_of c.inference_allocation_microdollars;
    }

unfoldable pub breakdown : ReplayConfiguration → Money → ℕ → Result PnlBreakdown
unfolding money_of check_pnl
breakdown c gross fill_count = check_pnl (pnl_of c gross fill_count)

abbrev pub result_of :
    ReplayDataset
    → ReplayState
    → String
    → List String
    → Exit
    → PnlBreakdown
    → String
    → String
    → ReplayResult
result_of d s runtime_manifest_hash accepted_input_hashes exit pnl dataset_hash configuration_hash =
    record {
      schema_version = "sopara.replay-result.v1";
      dataset_hash = dataset_hash;
      configuration_hash = configuration_hash;
      runtime_manifest_hash = runtime_manifest_hash;
      evidence_class = d.evidence_class;
      accepted_input_hashes = accepted_input_hashes;
      decisions = s.decisions;
      orders = exit.orders;
      fills = exit.fills;
      positions = exit.positions;
      pnl = pnl;
      decision_count = length s.decisions;
    }

module _ (sha256 : String → String) where
  -- The branch of an open position, with its terminal book and its entry.
  unfoldable pub close_position :
      ReplayDataset → ReplayConfiguration → ReplayState → Option BookTuple → Option ℤ → Result Exit
  unfolding input_hash kind_digest price_from_ticks gross_pnl
  close_position d c s (some b) (some entry_ticks) =
      let direction = held_direction s.position in
      let quantity = pos (magnitude s.position) in
      let ticks = exit_ticks direction b in
      do
        hash ← input_hash sha256 d
        exit_order_id ← kind_digest sha256 "dataset" hash "TERMINAL_EXIT"
        last ← last_order s.orders
        fill_id ← kind_digest sha256 "order_id" exit_order_id "EXIT"
        entry_price ← price_from_ticks (spec d.nes_contract) entry_ticks
        exit_price ← price_from_ticks (spec d.nes_contract) ticks
        gross ← gross_pnl (spec d.nes_contract) entry_price exit_price direction quantity
        ok (closed d c s direction ticks exit_order_id last fill_id gross)
  close_position d c s (some b) none =
      err (domain_error "open replay position has no terminal book or entry")
  close_position d c s none entry =
      err (domain_error "open replay position has no terminal book or entry")

  unfoldable pub settle : ReplayDataset → ReplayConfiguration → ReplayState → Result Exit
  unfolding close_position
  settle d c s =
      if s.position ==ℤ pos 0 then ok (no_exit s) else close_position d c s s.nes_book s.entry_ticks

  unfoldable pub finish_replay :
      ReplayDataset → ReplayConfiguration → String → ReplayState → List String → Result ReplayResult
  unfolding settle breakdown input_hash configuration_fingerprint
  finish_replay d c runtime_manifest_hash s accepted_input_hashes = do
    raise_if (not (s.next_input_index == length d.events))
        "replay cannot finish before all bounded input is consumed"
    exit ← settle d c s
    pnl ← breakdown c exit.gross (length exit.fills)
    dataset_hash ← input_hash sha256 d
    configuration_hash ← configuration_fingerprint sha256 c
    ok (
        result_of d s runtime_manifest_hash accepted_input_hashes exit pnl dataset_hash
          configuration_hash)

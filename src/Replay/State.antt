-- ===== src/Replay/State.antt =====
-- domain/replay.py: the replay state. The mappings it holds are records with the mappings' keys.
use sopara.Prelude.{ℕ, String, Option, none, List, []}
use sopara.Prelude.Int.{ℤ, pos}
use sopara.ReasonCodes.{ReasonCode}
use sopara.Evidence.{EvidenceClass}
use sopara.Instruments.{Direction}
use sopara.Execution.{FillAssumptions}
use sopara.Replay.Event.{BookTuple}

pub data Outcome : Type 0 where
  no_trade propose : Outcome

abbrev pub outcome_value : Outcome → String
outcome_value no_trade = "NO_TRADE"
outcome_value propose = "PROPOSE"

pub record DecisionEntry : Type 0 where
  pub decision_id : String
  pub event_index : ℤ
  pub outcome : Outcome
  pub proposal_id : Option String
  pub direction : Option Direction
  pub delta_es_ticks : Option ℤ
  pub as_of_ns : ℤ
  pub reason_codes : List ReasonCode

pub record OrderEntry : Type 0 where
  pub order_id : String
  pub proposal_id : String
  pub direction : Direction
  pub quantity : ℤ
  pub limit_ticks : ℤ
  -- Only the terminal order has a kind.
  pub kind : Option String

pub data FillKind : Type 0 where
  entry exit : FillKind

abbrev pub fill_kind_value : FillKind → String
fill_kind_value entry = "ENTRY"
fill_kind_value exit = "EXIT"

pub record FillEntry : Type 0 where
  pub fill_id : String
  pub order_id : String
  pub kind : FillKind
  pub price_ticks : ℤ
  pub quantity : ℤ
  pub occurred_at_ns : ℤ
  pub evidence_class : EvidenceClass
  pub assumptions : FillAssumptions

pub record PositionEntry : Type 0 where
  pub after_event : ℤ
  pub quantity : ℤ
  pub price_ticks : Option ℤ

-- The index is a natural number: `check_replay_event` refuses a negative one.
pub record ReplayState : Type 0 where
  pub next_input_index : ℕ
  pub logical_time_ns : ℤ
  pub previous_es_ticks : Option ℤ
  pub current_es_ticks : Option ℤ
  pub nes_book : Option BookTuple
  pub position : ℤ
  pub entry_ticks : Option ℤ
  pub decisions : List DecisionEntry
  pub orders : List OrderEntry
  pub fills : List FillEntry
  pub positions : List PositionEntry

-- `ReplayState.initial`
abbrev pub initial : ReplayState
initial = record {
  next_input_index = 0;
  logical_time_ns = pos 0;
  previous_es_ticks = none;
  current_es_ticks = none;
  nes_book = none;
  position = pos 0;
  entry_ticks = none;
  decisions = [];
  orders = [];
  fills = [];
  positions = [];
}

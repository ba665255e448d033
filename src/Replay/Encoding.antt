-- ===== src/Replay/Encoding.antt =====
-- domain/replay.py: the canonical objects of datasets, configurations and states, which their hashes
-- and fingerprints are taken of.
use sopara.Prelude.{String, Option, none, some, List, [], ◌∷◌}
use sopara.Prelude.Int.{ℤ, pos}
use sopara.Errors.{Result}
use sopara.ReasonCodes.{reason_code}
use sopara.Evidence.{evidence_class}
use sopara.Versions.{VersionRef}
use sopara.Instruments.{ContractId, Direction, direction_value, product_value}
use sopara.Execution.{FillAssumptions}
use sopara.Canonical.{Object, Objects, Attributes, canonical_sha256}
use sopara.Replay.Event.{ReplayEvent, BookTuple, event_type_value}
use sopara.Replay.Dataset.{ReplayDataset, ReplayConfiguration}
use sopara.Replay.State.{
  DecisionEntry, OrderEntry, FillEntry, PositionEntry, ReplayState, outcome_value, fill_kind_value,
}

infixr 20 ◌::◌
abbrev pub ◌::◌ : String × Object → Attributes → Attributes
(k, x) :: fs = Attributes.attribute k x fs

abbrev pub optional_integer : Option ℤ → Object
optional_integer none = Object.none
optional_integer (some n) = Object.integer n

abbrev pub optional_text : Option String → Object
optional_text none = Object.none
optional_text (some s) = Object.string s

module _ {A : Type 0} (f : A → Object) where
  abbrev pub objects : List A → Objects
  objects [] = Objects.nil
  objects (x ∷ xs) = Objects.cons (f x) (objects xs)

unfoldable pub contract_object : ContractId → Object
contract_object c = Object.dataclass (
    ("product", Object.string (product_value c.product))
    :: ("expiry", Object.date c.expiry)
    :: Attributes.end)

unfoldable pub event_object : ReplayEvent → Object
event_object e = Object.dataclass (
    ("global_index", Object.integer e.global_index)
    :: ("event_type", Object.string (event_type_value e.event_type))
    :: ("source_id", Object.string e.source_id)
    :: ("channel_id", Object.string e.channel_id)
    :: ("source_session_id", Object.string e.source_session_id)
    :: ("source_sequence", Object.integer e.source_sequence)
    :: ("message_index", Object.integer e.message_index)
    :: ("contract_id", Object.string e.contract_id)
    :: ("source_time_ns", Object.integer e.source_time_ns)
    :: ("receive_time_ns", Object.integer e.receive_time_ns)
    :: ("price_ticks", optional_integer e.price_ticks)
    :: ("quantity", optional_integer e.quantity)
    :: ("bid_ticks", optional_integer e.bid_ticks)
    :: ("ask_ticks", optional_integer e.ask_ticks)
    :: ("bid_size", optional_integer e.bid_size)
    :: ("ask_size", optional_integer e.ask_size)
    :: ("last_trade_size", optional_integer e.last_trade_size)
    :: Attributes.end)

unfoldable pub dataset_object : ReplayDataset → Object
unfolding contract_object event_object evidence_class
dataset_object d = Object.dataclass (
    ("schema_version", Object.string d.schema_version)
    :: ("evidence_class", Object.string (evidence_class.value d.evidence_class))
    :: ("trade_date", Object.date d.trade_date)
    :: ("es_contract", contract_object d.es_contract)
    :: ("nes_contract", contract_object d.nes_contract)
    :: ("events", Object.sequence (objects event_object d.events))
    :: Attributes.end)

unfoldable pub version_object : VersionRef → Object
version_object v = Object.dataclass (
    ("component", Object.string v.component)
    :: ("version", Object.string v.version)
    :: ("sha256", Object.string v.sha256)
    :: Attributes.end)

unfoldable pub configuration_object : ReplayConfiguration → Object
unfolding version_object
configuration_object c = Object.dataclass (
    ("threshold_es_ticks", Object.integer c.threshold_es_ticks)
    :: ("maximum_position", Object.integer c.maximum_position)
    :: ("holding_ns", Object.integer c.holding_ns)
    :: ("latency_ns", Object.integer c.latency_ns)
    :: ("queue_ahead", Object.integer c.queue_ahead)
    :: ("slippage_ticks", Object.integer c.slippage_ticks)
    :: ("passive_requires_trade_through", Object.boolean c.passive_requires_trade_through)
    :: ("spread_cost_microdollars", Object.integer c.spread_cost_microdollars)
    :: ("latency_cost_microdollars", Object.integer c.latency_cost_microdollars)
    :: ("slippage_cost_microdollars", Object.integer c.slippage_cost_microdollars)
    :: ("exchange_fee_microdollars", Object.integer c.exchange_fee_microdollars)
    :: ("broker_fee_microdollars", Object.integer c.broker_fee_microdollars)
    :: ("data_allocation_microdollars", Object.integer c.data_allocation_microdollars)
    :: ("inference_allocation_microdollars", Object.integer c.inference_allocation_microdollars)
    :: ("simulator_version", version_object c.simulator_version)
    :: ("cost_model_version", version_object c.cost_model_version)
    :: Attributes.end)

abbrev pub optional_direction : Option Direction → Object
optional_direction none = Object.none
optional_direction (some d) = Object.string (direction_value d)

-- The mapping that `advance_replay` appends to the decisions.
unfoldable pub decision_object : DecisionEntry → Object
unfolding reason_code
decision_object d = Object.mapping (
    ("decision_id", Object.string d.decision_id)
    :: ("event_index", Object.integer d.event_index)
    :: ("outcome", Object.string (outcome_value d.outcome))
    :: ("proposal_id", optional_text d.proposal_id)
    :: ("direction", optional_direction d.direction)
    :: (
      "feature",
      Object.mapping (
          ("delta_es_ticks", optional_integer d.delta_es_ticks)
          :: ("as_of_ns", Object.integer d.as_of_ns)
          :: Attributes.end),
    )
    :: (
      "reason_codes",
      Object.sequence (objects (λ r. Object.string (reason_code.value r)) d.reason_codes),
    )
    :: Attributes.end)

abbrev pub kind_attribute : Option String → Attributes
kind_attribute none = Attributes.end
kind_attribute (some k) = ("kind", Object.string k) :: Attributes.end

unfoldable pub order_object : OrderEntry → Object
order_object o = Object.mapping (
    ("order_id", Object.string o.order_id)
    :: ("proposal_id", Object.string o.proposal_id)
    :: ("direction", Object.string (direction_value o.direction))
    :: ("quantity", Object.integer o.quantity)
    :: ("limit_ticks", Object.integer o.limit_ticks)
    :: kind_attribute o.kind)

unfoldable pub assumptions_object : FillAssumptions → Object
assumptions_object a = Object.mapping (
    ("simulator_version", Object.string a.simulator_version.version)
    :: ("simulator_hash", Object.string a.simulator_version.sha256)
    :: ("cost_model_version", Object.string a.cost_model_version.version)
    :: ("cost_model_hash", Object.string a.cost_model_version.sha256)
    :: ("latency_ns", Object.integer a.latency_ns)
    :: ("queue_ahead", Object.integer a.queue_ahead)
    :: ("slippage_ticks", Object.integer a.slippage_ticks)
    :: ("passive_requires_trade_through", Object.boolean a.passive_requires_trade_through)
    :: Attributes.end)

unfoldable pub fill_object : FillEntry → Object
unfolding evidence_class assumptions_object
fill_object f = Object.mapping (
    ("fill_id", Object.string f.fill_id)
    :: ("order_id", Object.string f.order_id)
    :: ("kind", Object.string (fill_kind_value f.kind))
    :: ("price_ticks", Object.integer f.price_ticks)
    :: ("quantity", Object.integer f.quantity)
    :: ("occurred_at_ns", Object.integer f.occurred_at_ns)
    :: ("evidence_class", Object.string (evidence_class.value f.evidence_class))
    :: ("assumptions", assumptions_object f.assumptions)
    :: Attributes.end)

unfoldable pub position_object : PositionEntry → Object
position_object p = Object.mapping (
    ("after_event", Object.integer p.after_event)
    :: ("quantity", Object.integer p.quantity)
    :: ("price_ticks", optional_integer p.price_ticks)
    :: Attributes.end)

abbrev pub book_object : Option BookTuple → Object
book_object none = Object.none
book_object (some b) = Object.sequence (
    objects (λ n. Object.integer n)
      (b.bid_ticks ∷ b.ask_ticks ∷ b.bid_size ∷ b.ask_size ∷ b.last_trade_size ∷ []))

unfoldable pub state_object : ReplayState → Object
unfolding decision_object order_object fill_object position_object
state_object s = Object.dataclass (
    ("next_input_index", Object.integer (pos s.next_input_index))
    :: ("logical_time_ns", Object.integer s.logical_time_ns)
    :: ("previous_es_ticks", optional_integer s.previous_es_ticks)
    :: ("current_es_ticks", optional_integer s.current_es_ticks)
    :: ("nes_book", book_object s.nes_book)
    :: ("position", Object.integer s.position)
    :: ("entry_ticks", optional_integer s.entry_ticks)
    :: ("decisions", Object.sequence (objects decision_object s.decisions))
    :: ("orders", Object.sequence (objects order_object s.orders))
    :: ("fills", Object.sequence (objects fill_object s.fills))
    :: ("positions", Object.sequence (objects position_object s.positions))
    :: Attributes.end)

module _ (sha256 : String → String) where
  -- `ReplayDataset.input_hash`
  unfoldable pub input_hash : ReplayDataset → Result String
  unfolding canonical_sha256 dataset_object
  input_hash d = canonical_sha256 sha256 (dataset_object d)

  -- `ReplayConfiguration.fingerprint`
  unfoldable pub configuration_fingerprint : ReplayConfiguration → Result String
  unfolding canonical_sha256 configuration_object
  configuration_fingerprint c = canonical_sha256 sha256 (configuration_object c)

  -- `ReplayState.fingerprint`
  unfoldable pub state_fingerprint : ReplayState → Result String
  unfolding canonical_sha256 state_object
  state_fingerprint s = canonical_sha256 sha256 (state_object s)

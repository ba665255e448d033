-- ===== src/Replay/Dataset.antt =====
-- domain/replay.py: replay datasets and configurations.
use sopara.Prelude.{
  ℕ, suc, String, Bool, true, false, not, ◌&&◌, ◌||◌, List, [], ◌∷◌, any, map, null, str_eq, Date,
  if◌then◌else◌,
}
use sopara.Prelude.Int.{ℤ, pos, ◌+ℤ◌, ltb_ℤ, leb_ℤ, ◌==ℤ◌}
use sopara.Errors.{Result, ok, raise_if, ◌>>=◌, ◌>>◌}
use sopara.Evidence.{EvidenceClass, is_synthetic}
use sopara.Versions.{VersionRef}
use sopara.Instruments.{ContractId, is_nes, canonical}
use sopara.Replay.Event.{ReplayEvent, es_trade, nes_book}

pub record ReplayDataset : Type 0 where
  pub schema_version : String
  pub evidence_class : EvidenceClass
  pub trade_date : Date
  pub es_contract : ContractId
  pub nes_contract : ContractId
  pub events : List ReplayEvent

-- `tuple(item.global_index for item in events) == tuple(range(len(events)))`, from an index on.
unfoldable pub indices_from : ℕ → List ReplayEvent → Bool
indices_from i [] = true
indices_from i (e ∷ es) = e.global_index ==ℤ pos i && indices_from (suc i) es

-- Python's `sorted`, and equality of tuples of integers.
unfoldable pub insert : ℤ → List ℤ → List ℤ
insert x [] = x ∷ []
insert x (y ∷ ys) = if ltb_ℤ y x then y ∷ insert x ys else x ∷ y ∷ ys

unfoldable pub sorted : List ℤ → List ℤ
unfolding insert
sorted [] = []
sorted (x ∷ xs) = insert x (sorted xs)

unfoldable pub same : List ℤ → List ℤ → Bool
same [] [] = true
same (x ∷ xs) (y ∷ ys) = x ==ℤ y && same xs ys
same _ _ = false

-- The keys of `streams`.
pub record StreamKey : Type 0 where
  pub source_id : String
  pub channel_id : String
  pub source_session_id : String
  pub contract_id : String

abbrev pub key_of : ReplayEvent → StreamKey
key_of e = record {
  source_id = e.source_id;
  channel_id = e.channel_id;
  source_session_id = e.source_session_id;
  contract_id = e.contract_id;
}

abbrev pub same_key : StreamKey → StreamKey → Bool
same_key a b =
    str_eq a.source_id b.source_id
    && str_eq a.channel_id b.channel_id
    && str_eq a.source_session_id b.source_session_id
    && str_eq a.contract_id b.contract_id

-- `streams.get(key, 0)`: the newest entry of a key stands first.
unfoldable pub last_sequence : List (StreamKey × ℤ) → StreamKey → ℤ
last_sequence [] k = pos 0
last_sequence ((j, n) ∷ streams) k = if same_key j k then n else last_sequence streams k

abbrev pub expected_contract : ReplayDataset → ReplayEvent → String
expected_contract d e = elim e.event_type [
  | es_trade ↦ canonical d.es_contract
  | nes_book ↦ canonical d.nes_contract
]

-- The loop over the events, from the streams seen so far.
unfoldable pub check_streams :
    ReplayDataset → List (StreamKey × ℤ) → List ReplayEvent → Result (Unit {0})
unfolding last_sequence canonical
check_streams d streams [] = ok tt
check_streams d streams (e ∷ es) = do
  raise_if (not (str_eq e.contract_id (expected_contract d e)))
      "event contract does not match fixture contract"
  raise_if (not (e.source_sequence ==ℤ last_sequence streams (key_of e) +ℤ pos 1))
      "source sequence is incomplete or out of order"
  check_streams d ((key_of e, e.source_sequence) ∷ streams) es

abbrev pub is_trade : ReplayEvent → Bool
is_trade e = elim e.event_type [ es_trade ↦ true | nes_book ↦ false ]

abbrev pub is_book : ReplayEvent → Bool
is_book e = elim e.event_type [ es_trade ↦ false | nes_book ↦ true ]

-- `ReplayDataset.__post_init__`
unfoldable pub check_dataset : ReplayDataset → Result ReplayDataset
unfolding indices_from sorted same check_streams
check_dataset d =
    let times = map (λ (e : ReplayEvent). e.source_time_ns) d.events in
    do
      raise_if (not (str_eq d.schema_version "sopara.synthetic-replay-fixture.v1"))
          "unsupported replay fixture schema"
      raise_if (not (is_synthetic d.evidence_class)) "MIXED_EVIDENCE"
      raise_if (is_nes d.es_contract.product || not (is_nes d.nes_contract.product))
          "replay requires explicit ES and NES contracts"
      raise_if (null d.events) "replay fixture is incomplete"
      raise_if (not (indices_from 0 d.events))
          "replay global indices must be contiguous and ordered"
      raise_if (not (same times (sorted times))) "replay events are out of time order"
      _ ← check_streams d [] d.events
      raise_if (not (any is_trade d.events && any is_book d.events))
          "replay fixture requires both ES and NES evidence"
      ok d

pub record ReplayConfiguration : Type 0 where
  pub threshold_es_ticks : ℤ
  pub maximum_position : ℤ
  pub holding_ns : ℤ
  pub latency_ns : ℤ
  pub queue_ahead : ℤ
  pub slippage_ticks : ℤ
  pub passive_requires_trade_through : Bool
  pub spread_cost_microdollars : ℤ
  pub latency_cost_microdollars : ℤ
  pub slippage_cost_microdollars : ℤ
  pub exchange_fee_microdollars : ℤ
  pub broker_fee_microdollars : ℤ
  pub data_allocation_microdollars : ℤ
  pub inference_allocation_microdollars : ℤ
  pub simulator_version : VersionRef
  pub cost_model_version : VersionRef

abbrev pub numeric : ReplayConfiguration → List ℤ
numeric c =
    c.threshold_es_ticks ∷ c.maximum_position ∷ c.holding_ns ∷ c.latency_ns ∷ c.queue_ahead
    ∷ c.slippage_ticks ∷ c.spread_cost_microdollars ∷ c.latency_cost_microdollars
    ∷ c.slippage_cost_microdollars ∷ c.exchange_fee_microdollars ∷ c.broker_fee_microdollars
    ∷ c.data_allocation_microdollars ∷ c.inference_allocation_microdollars ∷ []

-- `ReplayConfiguration.__post_init__`; the second test is reached where no value is negative.
unfoldable pub check_configuration : ReplayConfiguration → Result ReplayConfiguration
check_configuration c = do
  raise_if
      (any (λ n. ltb_ℤ n (pos 0)) (numeric c)
        || any (λ n. leb_ℤ n (pos 0))
            (c.threshold_es_ticks ∷ c.maximum_position ∷ c.holding_ns ∷ []))
      "replay configuration values are invalid"
  ok c

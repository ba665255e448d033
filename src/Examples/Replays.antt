-- ===== src/Examples/Replays.antt =====
-- A replay of four events under the default configuration, and a canonical object.
use sopara.Market.{blocking_reason}
use sopara.Prelude.{
  ℕ, suc, ◌<◌, ◌≤◌, String, ◌≡◌, refl, ◌⊎◌, ◌↔◌, true, none, some, [], ◌∷◌, arith, length, take,
  zero, print_ℕ, print_two, is_blank,
}
use sopara.Prelude.Int.{ℤ, pos, ◌+ℤ◌, ◌-ℤ◌, ◌*ℤ◌}
use sopara.Errors.{Result, ok, err}
use sopara.Evidence.{EvidenceClass}
use sopara.Versions.{VersionRef, is_sha256}
use sopara.Instruments.{es, nes, canonical, is_on_grid}
use sopara.Instruments.Arithmetic.{infinity, rounded}
use sopara.Canonical.{Object, Attributes, canonical_value}
use sopara.Canonical.Support.{Succeeds, IsSupported, canonical_value-ok_iff}
use sopara.Replay.Event.{ReplayEvent, es_trade, nes_book, check_replay_event}
use sopara.Replay.Dataset.{
  ReplayDataset, ReplayConfiguration, check_dataset, check_configuration, indices_from,
}
use sopara.Replay.State.{ReplayState, initial}
use sopara.Replay.Advance.{advance_replay}
use sopara.Replay.Finish.{Exit, ReplayResult, settle, no_exit, finish_replay}
use sopara.Replay.Stages.{IsStaged, IsFlat}
use sopara.Replay.Reach.{Reaches, start, next, Reaches-IsStaged}
use sopara.Replay.Ledger.{Reaches-decisions, trade_indices, event_indices}
use sopara.Replay.Inputs.{IsDigest}
use sopara.Replay.Total.{IsReplayable, advance_replay-Succeeds}
use sopara.Replay.Settlement.{IsRoundTrip, Reaches-settles, finish_replay-Succeeds}

abbrev digest : String → String
digest s = "0123456789abcdef0123456789abcdef0123456789abcdef0123456789abcdef"

digest-IsDigest : IsDigest digest
unfolding is_sha256
digest-IsDigest s = refl

abbrev book : ℤ → ℤ → ℤ → ℤ → ℤ → ReplayEvent
book index sequence now bid ask = record {
  global_index = index;
  event_type = nes_book;
  source_id = "fixture";
  channel_id = "nes";
  source_session_id = "s1";
  source_sequence = sequence;
  message_index = pos 0;
  contract_id = "NES-2026-12";
  source_time_ns = now;
  receive_time_ns = now;
  price_ticks = none;
  quantity = none;
  bid_ticks = some bid;
  ask_ticks = some ask;
  bid_size = some (pos 3);
  ask_size = some (pos 4);
  last_trade_size = some (pos 1);
}

abbrev trade : ℤ → ℤ → ℤ → ℤ → ReplayEvent
trade index sequence now price = record {
  global_index = index;
  event_type = es_trade;
  source_id = "fixture";
  channel_id = "es";
  source_session_id = "s1";
  source_sequence = sequence;
  message_index = pos 0;
  contract_id = "ES-2026-12";
  source_time_ns = now;
  receive_time_ns = now;
  price_ticks = some price;
  quantity = some (pos 1);
  bid_ticks = none;
  ask_ticks = none;
  bid_size = none;
  ask_size = none;
  last_trade_size = none;
}

abbrev dataset : ReplayDataset
dataset = record {
  schema_version = "sopara.synthetic-replay-fixture.v1";
  evidence_class = EvidenceClass.synthetic_nes_proxy;
  trade_date = record { year = 2026; month = 9; day = 1 };
  es_contract = record { product = es; expiry = record { year = 2026; month = 12; day = 1 } };
  nes_contract = record { product = nes; expiry = record { year = 2026; month = 12; day = 1 } };
  events =
      book (pos 0) (pos 1) (pos 10) (pos 13000) (pos 13001)
      ∷ trade (pos 1) (pos 1) (pos 20) (pos 26000)
      ∷ trade (pos 2) (pos 2) (pos 30) (pos 26004)
      ∷ book (pos 3) (pos 2) (pos 40) (pos 13003) (pos 13004)
      ∷ [];
}

abbrev version : VersionRef
version = record {
  component = "simulator";
  version = "v1";
  sha256 = "0123456789abcdef0123456789abcdef0123456789abcdef0123456789abcdef";
}

abbrev configuration : ReplayConfiguration
configuration = record {
  threshold_es_ticks = pos 2;
  maximum_position = pos 1;
  holding_ns = pos 60000000000;
  latency_ns = pos 1000000;
  queue_ahead = pos 0;
  slippage_ticks = pos 0;
  passive_requires_trade_through = true;
  spread_cost_microdollars = pos 125000;
  latency_cost_microdollars = pos 25000;
  slippage_cost_microdollars = pos 0;
  exchange_fee_microdollars = pos 20000;
  broker_fee_microdollars = pos 10000;
  data_allocation_microdollars = pos 50000;
  inference_allocation_microdollars = pos 0;
  simulator_version = version;
  cost_model_version = version;
}

input : IsReplayable dataset configuration
unfolding check_dataset check_replay_event check_configuration canonical print_ℕ print_two ◌+ℤ◌
    is_blank
input = record {
  dataset = refl;
  events = (refl, (refl, (refl, (refl, tt))));
  configuration = refl;
  priced = (
    λ b h. ground arith,
    (λ b h. ground arith, (λ b h. ground arith, (λ b h. ground arith, tt))),
  );
}

abbrev state_or_initial : Result ReplayState → ReplayState
state_or_initial (ok s) = s
state_or_initial (err e) = initial

unfoldable after : ℕ → ReplayState
unfolding advance_replay
after zero = initial
after (suc n) = state_or_initial (advance_replay digest dataset configuration (after n))

reached_1 : Reaches digest dataset configuration (after 1)
unfolding after advance_replay
reached_1 = next start refl

reached_2 : Reaches digest dataset configuration (after 2)
unfolding after advance_replay
reached_2 = next reached_1 refl

reached_3 : Reaches digest dataset configuration (after 3)
unfolding after advance_replay ◌-ℤ◌ ◌*ℤ◌ ◌+ℤ◌ blocking_reason is_on_grid rounded
reached_3 = next reached_2 refl

reached_4 : Reaches digest dataset configuration (after 4)
unfolding after advance_replay ◌-ℤ◌ ◌*ℤ◌ ◌+ℤ◌ blocking_reason is_on_grid rounded
reached_4 = next reached_3 refl

two_consumed : (after 2).next_input_index < length dataset.events
unfolding after advance_replay
two_consumed = omega arith

all_consumed : (after 4).next_input_index ≡ length dataset.events
unfolding after advance_replay ◌-ℤ◌ ◌*ℤ◌ ◌+ℤ◌ blocking_reason is_on_grid rounded
all_consumed = refl

contiguous : indices_from 0 dataset.events ≡ true
unfolding indices_from
contiguous = refl

advance_replay-Succeeds_example : Succeeds (advance_replay digest dataset configuration (after 2))
advance_replay-Succeeds_example =
    advance_replay-Succeeds digest dataset configuration input digest-IsDigest (after 2) reached_2
      two_consumed

Reaches-IsStaged_example : IsStaged (after 4)
Reaches-IsStaged_example = Reaches-IsStaged digest dataset configuration (after 4) reached_4

Reaches-decisions_example :
    ((after 4).next_input_index ≤ length dataset.events)
    × (event_indices (after 4).decisions
        ≡ trade_indices (take (after 4).next_input_index dataset.events))
Reaches-decisions_example =
    Reaches-decisions digest dataset configuration contiguous (after 4) reached_4

Reaches-settles_example :
    (x : Exit) × (settle digest dataset configuration (after 4) ≡ ok x)
    × ((IsFlat (after 4) × (x ≡ no_exit (after 4))) ⊎ IsRoundTrip dataset (after 4) x)
Reaches-settles_example = Reaches-settles digest dataset configuration input (after 4) reached_4

finish_replay-Succeeds_example :
    (r : ReplayResult) × (finish_replay digest dataset configuration "manifest" (after 4) [] ≡ ok r)
    × (r.decisions ≡ (after 4).decisions)
finish_replay-Succeeds_example =
    finish_replay-Succeeds digest dataset configuration input "manifest" (after 4) [] reached_4
      all_consumed

canonical_value-ok_iff_example :
    Succeeds (
      canonical_value
        (Object.mapping (Attributes.attribute "a" (Object.decimal infinity) Attributes.end)))
    ↔ IsSupported
        (Object.mapping (Attributes.attribute "a" (Object.decimal infinity) Attributes.end))
canonical_value-ok_iff_example =
    canonical_value-ok_iff
      (Object.mapping (Attributes.attribute "a" (Object.decimal infinity) Attributes.end))

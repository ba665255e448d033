-- ===== src/Replay/Inputs.antt =====
-- domain/replay.py: what the checks of events, datasets and configurations give the replay.
use mathlib.Core.Path.{subst}
use sopara.Prelude.{
  ℕ, String, ◌≡◌, refl, inl, inr, true, false, Option, none, some, arith, is_empty, eq_iff,
  Bool-cases,
}
use sopara.Prelude.Int.{ℤ, pos, ◌<ℤ◌, ◌≤ℤ◌}
use sopara.Errors.{ok}
use sopara.Versions.{is_sha256}
use sopara.Instruments.{es, nes}
use sopara.Replay.Event.{
  ReplayEvent, es_trade, nes_book, BookTuple, book_fields, check_replay_event, check_fields,
  check_trade, check_book_fields,
}
use sopara.Replay.Dataset.{
  ReplayDataset, ReplayConfiguration, check_dataset, check_configuration, indices_from,
}

-- Ticks below it, and amounts made of them, have at most 28 digits.
abbrev pub tick_limit : ℕ
tick_limit = 10000000000000000000000000

abbrev pub IsPriced : ReplayEvent → Type 0
IsPriced e = (b : BookTuple) → book_fields e ≡ some b → b.ask_ticks <ℤ pos tick_limit

-- A book of positive prices and sizes, with the bid below the ask, and the ask below the limit.
pub record IsTwoSided (b : BookTuple) : Type 0 where
  pub bid : pos 0 <ℤ b.bid_ticks
  pub ask : pos 0 <ℤ b.ask_ticks
  pub bid_size : pos 0 <ℤ b.bid_size
  pub ask_size : pos 0 <ℤ b.ask_size
  pub traded : pos 0 <ℤ b.last_trade_size
  pub uncrossed : b.bid_ticks <ℤ b.ask_ticks
  pub bounded : b.ask_ticks <ℤ pos tick_limit

pub event_times :
    (e : ReplayEvent)
    → check_replay_event e ≡ ok e
    → (pos 0 ≤ℤ e.source_time_ns) × (pos 0 ≤ℤ e.source_sequence)
unfolding check_replay_event
event_times e h = (ground arith, ground arith)

event_kind : (e : ReplayEvent) → check_replay_event e ≡ ok e → check_fields e e.event_type ≡ ok e
unfolding check_replay_event
event_kind e h = ground arith

two_sided :
    (e : ReplayEvent) (o : Option BookTuple)
    → check_book_fields e o ≡ ok e
    → ((b : BookTuple) → o ≡ some b → b.ask_ticks <ℤ pos tick_limit)
    → (b : BookTuple) × (o ≡ some b) × IsTwoSided b
unfolding check_book_fields
two_sided e none h priced = cc
two_sided e (some b) h priced = (
  b,
  refl,
  record {
    bid = ground arith;
    ask = ground arith;
    bid_size = ground arith;
    ask_size = ground arith;
    traded = ground arith;
    uncrossed = ground arith;
    bounded = priced b refl;
  },
)

-- A checked book event with a price below the limit has a two-sided book.
pub event_book :
    (e : ReplayEvent)
    → check_replay_event e ≡ ok e
    → e.event_type ≡ nes_book
    → IsPriced e
    → (b : BookTuple) × (book_fields e ≡ some b) × IsTwoSided b
unfolding check_fields
event_book e h k priced =
    two_sided e (book_fields e) (subst (λ k. check_fields e k ≡ ok e) k (event_kind e h)) priced

has_price : (e : ReplayEvent) (p q : Option ℤ) → check_trade e p q ≡ ok e → (n : ℤ) × (p ≡ some n)
unfolding check_trade
has_price e none q h = cc
has_price e (some n) q h = (n, refl)

-- A checked trade has a price.
pub event_price :
    (e : ReplayEvent)
    → check_replay_event e ≡ ok e
    → e.event_type ≡ es_trade
    → (n : ℤ) × (e.price_ticks ≡ some n)
unfolding check_fields
event_price e h k =
    has_price e e.price_ticks e.quantity (subst (λ k. check_fields e k ≡ ok e) k (event_kind e h))

pub dataset_contracts :
    (d : ReplayDataset)
    → check_dataset d ≡ ok d
    → (d.es_contract.product ≡ es)
      × (d.nes_contract.product ≡ nes)
      × (indices_from 0 d.events ≡ true)
unfolding check_dataset
dataset_contracts d h = (ground arith, ground arith, ground arith)

pub configuration_bounds :
    (c : ReplayConfiguration)
    → check_configuration c ≡ ok c
    → (pos 1 ≤ℤ c.maximum_position)
      × (pos 0 <ℤ c.holding_ns)
      × (pos 0 ≤ℤ c.latency_ns)
      × (pos 0 ≤ℤ c.queue_ahead)
      × (pos 0 ≤ℤ c.slippage_ticks)
unfolding check_configuration
configuration_bounds c h = (ground arith, ground arith, ground arith, ground arith, ground arith)

pub configuration_costs :
    (c : ReplayConfiguration)
    → check_configuration c ≡ ok c
    → (pos 0 ≤ℤ c.spread_cost_microdollars)
      × (pos 0 ≤ℤ c.latency_cost_microdollars)
      × (pos 0 ≤ℤ c.slippage_cost_microdollars)
      × (pos 0 ≤ℤ c.exchange_fee_microdollars)
      × (pos 0 ≤ℤ c.broker_fee_microdollars)
      × (pos 0 ≤ℤ c.data_allocation_microdollars)
      × (pos 0 ≤ℤ c.inference_allocation_microdollars)
unfolding check_configuration
configuration_costs c h = (
  ground arith,
  ground arith,
  ground arith,
  ground arith,
  ground arith,
  ground arith,
  ground arith,
)

-- The documented form of a SHA-256 hex digest.
abbrev pub IsDigest : (String → String) → Type 0
IsDigest sha256 = (s : String) → is_sha256 (sha256 s) ≡ true

pub digest_not_empty :
    (sha256 : String → String) → IsDigest sha256 → (s : String) → is_empty (sha256 s) ≡ false
unfolding is_sha256
digest_not_empty sha256 digest s = elim (Bool-cases (is_empty (sha256 s))) [
  | inr h ↦ h
  | inl h ↦
      let blank : sha256 s ≡ "" = (eq_iff (sha256 s) "").0 h in
      let impossible : is_sha256 "" ≡ true = subst (λ t. is_sha256 t ≡ true) blank (digest s) in cc
]

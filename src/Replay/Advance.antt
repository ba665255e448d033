-- ===== src/Replay/Advance.antt =====
-- domain/replay.py: `advance_replay`.
use sopara.Prelude.{suc, String, not, Option, none, some, [], ◌∷◌, ◌++◌, get_elem?, if◌then◌else◌}
use sopara.Prelude.Int.{ℤ, pos, pos_part, ◌-ℤ◌, ltb_ℤ, ◌==ℤ◌, magnitude}
use sopara.Errors.{Result, ok, err, domain_error, ◌>>=◌}
use sopara.ReasonCodes.{ReasonCode}
use sopara.Canonical.{Object, Attributes, canonical_sha256}
use sopara.Replay.Event.{ReplayEvent, BookTuple, es_trade, nes_book, book_fields}
use sopara.Replay.Dataset.{ReplayDataset, ReplayConfiguration}
use sopara.Replay.Encoding.{◌::◌, input_hash}
use sopara.Replay.Entry.{Entry, open_entry}
use sopara.Replay.State.{ReplayState, DecisionEntry, no_trade, propose}

-- `None if previous_es is None else current_es - previous_es`
abbrev pub es_delta : Option ℤ → ℤ → Option ℤ
es_delta none current = none
es_delta (some previous) current = some (current -ℤ previous)

-- The tests on a trade: a reason to abstain, or the change and the book to trade on.
pub data Signal : Type 0 where
  abstain : ReasonCode → Signal
  trade : ℤ → BookTuple → Signal

unfoldable pub signal_of : ReplayConfiguration → ℤ → Option ℤ → Option BookTuple → Signal
signal_of c position (some delta) (some b) =
    if not (position ==ℤ pos 0)
    then abstain ReasonCode.position_limit
    else if ltb_ℤ (pos (magnitude delta)) c.threshold_es_ticks
    then abstain ReasonCode.signal_below_threshold
    else trade delta b
signal_of c position (some delta) none = abstain ReasonCode.missing_required_state
signal_of c position none book = abstain ReasonCode.missing_required_state

-- `ReplayState(next_input_index=event.global_index + 1, logical_time_ns=event.source_time_ns, ...)`
-- with the other fields as they were.
abbrev pub moved : ReplayState → ReplayEvent → ReplayState
moved s e = record s {
  next_input_index = suc (pos_part e.global_index);
  logical_time_ns = e.source_time_ns;
}

abbrev pub with_book : ReplayState → ReplayEvent → BookTuple → ReplayState
with_book s e b = record (moved s e) { nes_book = some b }

-- The state after a trade at which nothing is opened.
abbrev pub abstained : ReplayState → ReplayEvent → ℤ → DecisionEntry → ReplayState
abstained s e price decision = record (moved s e) {
  previous_es_ticks = s.current_es_ticks;
  current_es_ticks = some price;
  decisions = s.decisions ++ decision ∷ [];
}

-- The state after a trade at which a position is opened.
abbrev pub entered : ReplayState → ReplayEvent → ℤ → Entry → DecisionEntry → ReplayState
entered s e price n decision = record (abstained s e price decision) {
  position = n.position;
  entry_ticks = some n.entry_ticks;
  orders = s.orders ++ n.order ∷ [];
  fills = s.fills ++ n.fill ∷ [];
  positions = s.positions ++ n.position_entry ∷ [];
}

abbrev pub abstention : String → ReplayEvent → Option ℤ → ReasonCode → DecisionEntry
abstention decision_id e delta reason = record {
  decision_id = decision_id;
  event_index = e.global_index;
  outcome = no_trade;
  proposal_id = none;
  direction = none;
  delta_es_ticks = delta;
  as_of_ns = e.source_time_ns;
  reason_codes = reason ∷ [];
}

abbrev pub proposed : String → ReplayEvent → Option ℤ → Entry → DecisionEntry
proposed decision_id e delta n = record {
  decision_id = decision_id;
  event_index = e.global_index;
  outcome = propose;
  proposal_id = some n.proposal_id;
  direction = some n.direction;
  delta_es_ticks = delta;
  as_of_ns = e.source_time_ns;
  reason_codes = n.reason_codes;
}

unfoldable pub advance_book : ReplayState → ReplayEvent → Option BookTuple → Result ReplayState
advance_book s e none = err (domain_error "validated NES event lost required book fields")
advance_book s e (some b) = ok (with_book s e b)

-- What the identity of a decision is the hash of.
abbrev pub decision_key : String → ReplayEvent → Object
decision_key hash e = Object.mapping (
    ("dataset", Object.string hash)
    :: ("event", Object.integer e.global_index)
    :: ("authority", Object.string "CANONICAL")
    :: Attributes.end)

module _ (sha256 : String → String) where
  unfoldable pub decision_digest : ReplayDataset → ReplayEvent → Result String
  unfolding input_hash canonical_sha256
  decision_digest d e = do hash ← input_hash sha256 d; canonical_sha256 sha256 (decision_key hash e)

  -- A trade at a price, once its signal is known.
  unfoldable pub act :
      ReplayDataset
      → ReplayConfiguration
      → ReplayState
      → ReplayEvent
      → ℤ
      → Option ℤ
      → Signal
      → Result ReplayState
  unfolding open_entry decision_digest
  act d c s e price delta (abstain reason) = do
    decision_id ← decision_digest d e
    ok (abstained s e price (abstention decision_id e delta reason))
  act d c s e price delta (trade change b) = do
    n ← open_entry sha256 d c e s.position change b
    decision_id ← decision_digest d e
    ok (entered s e price n (proposed decision_id e delta n))

  unfoldable pub advance_trade :
      ReplayDataset
      → ReplayConfiguration
      → ReplayState
      → ReplayEvent
      → Option ℤ
      → Result ReplayState
  unfolding signal_of act
  advance_trade d c s e none = err (domain_error "validated ES event lost its price")
  advance_trade d c s e (some price) =
      let delta = es_delta s.current_es_ticks price in
      act d c s e price delta (signal_of c s.position delta s.nes_book)

  unfoldable pub advance_event :
      ReplayDataset → ReplayConfiguration → ReplayState → ReplayEvent → Result ReplayState
  unfolding advance_book advance_trade
  advance_event d c s e = elim e.event_type [
    | nes_book ↦ advance_book s e (book_fields e)
    | es_trade ↦ advance_trade d c s e e.price_ticks
  ]

  abbrev pub advance_at :
      ReplayDataset → ReplayConfiguration → ReplayState → Option ReplayEvent → Result ReplayState
  advance_at d c s none = err (domain_error "replay is already at the end of its input")
  advance_at d c s (some e) = advance_event d c s e

  unfoldable pub advance_replay :
      ReplayDataset → ReplayConfiguration → ReplayState → Result ReplayState
  unfolding advance_event
  advance_replay d c s = advance_at d c s (get_elem? d.events s.next_input_index)

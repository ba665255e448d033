-- ===== src/Serialization.antt =====
-- adapters/replay/serialization.py: replay events as rows of a Parquet file. pyarrow is a parameter.
pub mod Events
pub mod Artifacts
use Prim.Native.String.{◌++◌ as str_append}
use sopara.Prelude.{
  ℕ, ◌^◌, ◌-◌, String, ◌≡◌, refl, Bool, true, Option, none, some, List, [], ◌∷◌, map, all, ◌&&◌,
  str_eq, if◌then◌else◌, leb, ltb,
}
use sopara.Prelude.Int.{ℤ, pos, negsuc}
use sopara.Errors.{Result, ok, err, value_error, ◌>>=◌, ◌>>◌}
use sopara.Evidence.{EvidenceClass, evidence_class}
use sopara.Replay.Event.{
  ReplayEvent, ReplayEventType, es_trade, nes_book, event_type_value, check_replay_event,
}

-- The schema's fields; a nullable one is an Option.
pub record EventRow : Type 0 where
  pub global_index : ℤ
  pub event_type : String
  pub source_id : String
  pub channel_id : String
  pub source_session_id : String
  pub source_sequence : ℤ
  pub message_index : ℤ
  pub contract_id : String
  pub source_time_ns : ℤ
  pub receive_time_ns : ℤ
  pub price_ticks : Option ℤ
  pub quantity : Option ℤ
  pub bid_ticks : Option ℤ
  pub ask_ticks : Option ℤ
  pub bid_size : Option ℤ
  pub ask_size : Option ℤ
  pub last_trade_size : Option ℤ
  pub evidence_class : String

-- A value of pyarrow's signed integer type of this width.
abbrev fits : ℕ → ℤ → Bool
fits width (pos n) = ltb n (2 ^ (width - 1))
fits width (negsuc n) = ltb n (2 ^ (width - 1))

abbrev fits_nullable : ℕ → Option ℤ → Bool
fits_nullable width none = true
fits_nullable width (some n) = fits width n

-- Whether a row fits the types of `REPLAY_EVENT_SCHEMA`.
unfoldable pub fits_schema : EventRow → Bool
fits_schema r =
    all (fits 32) (r.global_index ∷ r.message_index ∷ [])
    && all (fits 64) (r.source_sequence ∷ r.source_time_ns ∷ r.receive_time_ns ∷ [])
    && all (fits_nullable 64) (
        r.price_ticks ∷ r.quantity ∷ r.bid_ticks ∷ r.ask_ticks ∷ r.bid_size ∷ r.ask_size
        ∷ r.last_trade_size ∷ [])

unfoldable pub row_of : EvidenceClass → ReplayEvent → EventRow
unfolding evidence_class
row_of c e = record {
  global_index = e.global_index;
  event_type = event_type_value e.event_type;
  source_id = e.source_id;
  channel_id = e.channel_id;
  source_session_id = e.source_session_id;
  source_sequence = e.source_sequence;
  message_index = e.message_index;
  contract_id = e.contract_id;
  source_time_ns = e.source_time_ns;
  receive_time_ns = e.receive_time_ns;
  price_ticks = e.price_ticks;
  quantity = e.quantity;
  bid_ticks = e.bid_ticks;
  ask_ticks = e.ask_ticks;
  bid_size = e.bid_size;
  ask_size = e.ask_size;
  last_trade_size = e.last_trade_size;
  evidence_class = evidence_class.value c;
}

-- `ReplayEventType(text)`, with the message for a text that has no quotes in it.
unfoldable pub event_type_of : String → Result ReplayEventType
event_type_of text =
    if str_eq text "ES_TRADE"
    then ok es_trade
    else if str_eq text "NES_BOOK"
    then ok nes_book
    else err (value_error (str_append "'" (str_append text "' is not a valid ReplayEventType")))

unfoldable pub decode_row : EventRow → Result ReplayEvent
unfolding event_type_of check_replay_event
decode_row r = do
  event_type ← event_type_of r.event_type
  check_replay_event (record {
    global_index = r.global_index;
    event_type = event_type;
    source_id = r.source_id;
    channel_id = r.channel_id;
    source_session_id = r.source_session_id;
    source_sequence = r.source_sequence;
    message_index = r.message_index;
    contract_id = r.contract_id;
    source_time_ns = r.source_time_ns;
    receive_time_ns = r.receive_time_ns;
    price_ticks = r.price_ticks;
    quantity = r.quantity;
    bid_ticks = r.bid_ticks;
    ask_ticks = r.ask_ticks;
    bid_size = r.bid_size;
    ask_size = r.ask_size;
    last_trade_size = r.last_trade_size;
  })

unfoldable pub decode_rows : List EventRow → Result (List ReplayEvent)
unfolding decode_row
decode_rows [] = ok []
decode_rows (r ∷ rest) = do event ← decode_row r; events ← decode_rows rest; ok (event ∷ events)

-- `Table.from_pylist` with `write_table`, `read_metadata`, and `read_table` with `to_pylist`, of
-- pyarrow, all with the schema.
pub record Parquet {ℓ} (Bytes : Type ℓ) : Type ℓ where
  pub write : List EventRow → Result Bytes
  pub read_metadata : Bytes → Result (Unit {0})
  pub read : Bytes → Result (List EventRow)

module _ {ℓ} {Bytes : Type ℓ} (parquet : Parquet Bytes) where
  unfoldable pub encode_events : List ReplayEvent → EvidenceClass → Result Bytes
  unfolding row_of
  encode_events events c = do
    payload ← parquet.write (map (row_of c) events)
    parquet.read_metadata payload
    ok payload

  unfoldable pub decode_events : Bytes → Result (List ReplayEvent)
  unfolding decode_rows
  decode_events payload = do rows ← parquet.read payload; decode_rows rows

-- ===== src/Examples/Payloads.antt =====
-- A run of the encoding of replay events.
use sopara.Prelude.{
  ◌≡◌, refl, true, none, some, List, [], ◌∷◌, map, all, if◌then◌else◌, arith, Bool-cases, inl, inr,
  is_blank,
}
use sopara.Prelude.Int.{pos}
use sopara.Errors.{ok, err, overflow_error}
use sopara.Evidence.{synthetic_nes_proxy}
use sopara.Replay.Event.{ReplayEvent, es_trade, check_replay_event}
use sopara.Serialization.{EventRow, Parquet, fits_schema, row_of, encode_events, decode_events}
use sopara.Serialization.Events.{IsParquet, AreChecked, decode-encode}

-- Files that are their rows.
abbrev rows_file : Parquet (List EventRow)
rows_file = record {
  write = λ rows. if all fits_schema rows then ok rows else err overflow_error;
  read_metadata = λ rows. ok tt;
  read = λ rows. ok rows;
}

rows_file-IsParquet : IsParquet rows_file
rows_file-IsParquet = record {
  writes = λ rows fitting. (rows, ground (arith, fitting));
  has_metadata = λ rows written. refl;
  reads = λ rows {payload} written. elim (Bool-cases (all fits_schema rows)) [
    | inl fitting ↦ ground (arith, fitting)
    | inr wide ↦ absurd (ground (arith, wide))
  ];
}

abbrev one_trade : List ReplayEvent
one_trade =
    record {
      global_index = pos 0;
      event_type = es_trade;
      source_id = "fixture";
      channel_id = "es";
      source_session_id = "s1";
      source_sequence = pos 1;
      message_index = pos 0;
      contract_id = "ES-2026-12";
      source_time_ns = pos 9223372036854775807;
      receive_time_ns = pos 9223372036854775807;
      price_ticks = some (pos 20000);
      quantity = some (pos 2);
      bid_ticks = none;
      ask_ticks = none;
      bid_size = none;
      ask_size = none;
      last_trade_size = none;
    }
    ∷ []

one_trade-AreChecked : AreChecked one_trade
unfolding check_replay_event is_blank
one_trade-AreChecked = (refl, tt)

one_trade-fits : all fits_schema (map (row_of synthetic_nes_proxy) one_trade) ≡ true
unfolding fits_schema row_of
one_trade-fits = refl

decode-encode_example :
    (payload : List EventRow) × (encode_events rows_file one_trade synthetic_nes_proxy ≡ ok payload)
    × (decode_events rows_file payload ≡ ok one_trade)
decode-encode_example =
    decode-encode rows_file-IsParquet one_trade synthetic_nes_proxy one_trade-AreChecked
      one_trade-fits

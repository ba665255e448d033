-- ===== src/Serialization/Events.antt =====
-- adapters/replay/serialization.py: what is decoded from the encoded events.
use sopara.Prelude.{◌≡◌, refl, true, List, [], ◌∷◌, map, all, arith}
use sopara.Errors.{ok, >>=-returned, >>-returned}
use sopara.Evidence.{EvidenceClass}
use sopara.Replay.Event.{
  ReplayEvent, ReplayEventType, es_trade, nes_book, event_type_value, check_replay_event,
}
use sopara.Serialization.{
  EventRow, Parquet, fits_schema, row_of, event_type_of, decode_row, decode_rows, encode_events,
  decode_events,
}

-- pyarrow writes rows that fit the schema to a file that it can read, and reads back what it wrote.
pub record IsParquet {ℓ} {Bytes : Type ℓ} (parquet : Parquet Bytes) : Type ℓ where
  pub writes :
      (rows : List EventRow)
      → all fits_schema rows ≡ true
      → (payload : Bytes) × (parquet.write rows ≡ ok payload)
  pub has_metadata :
      (rows : List EventRow) {payload : Bytes}
      → parquet.write rows ≡ ok payload
      → parquet.read_metadata payload ≡ ok tt
  pub reads :
      (rows : List EventRow) {payload : Bytes}
      → parquet.write rows ≡ ok payload
      → parquet.read payload ≡ ok rows

-- Every event is as its constructor checks it.
abbrev pub AreChecked : List ReplayEvent → Type 0
AreChecked [] = Unit
AreChecked (e ∷ rest) = (check_replay_event e ≡ ok e) × AreChecked rest

event_type_of-value : (t : ReplayEventType) → event_type_of (event_type_value t) ≡ ok t
unfolding event_type_of
event_type_of-value es_trade = refl
event_type_of-value nes_book = refl

decode_row-row_of :
    (c : EvidenceClass) (e : ReplayEvent)
    → check_replay_event e ≡ ok e
    → decode_row (row_of c e) ≡ ok e
unfolding decode_row row_of
decode_row-row_of c e h = ground (arith, event_type_of-value e.event_type, h)

decode_rows-row_of :
    (c : EvidenceClass) (events : List ReplayEvent)
    → AreChecked events
    → decode_rows (map (row_of c) events) ≡ ok events
unfolding decode_rows
decode_rows-row_of c [] h = refl
decode_rows-row_of c (e ∷ rest) (h, later) =
    ground (arith, decode_row-row_of c e h, decode_rows-row_of c rest later)

-- Bytes that were encoded are decoded to the events.
pub encode_events-decodes {ℓ} :
    {Bytes : Type ℓ} {parquet : Parquet Bytes} (law : IsParquet parquet) (events : List ReplayEvent)
    (c : EvidenceClass) {payload : Bytes}
    → AreChecked events
    → encode_events parquet events c ≡ ok payload
    → decode_events parquet payload ≡ ok events
unfolding encode_events decode_events
encode_events-decodes {parquet} law events c checked h =
    let (written, w, h1) = >>=-returned (parquet.write (map (row_of c) events)) _ h in
    let (r, k) = >>-returned (parquet.read_metadata written) _ h1 in
    ground (arith, k, law.reads (map (row_of c) events) w, decode_rows-row_of c events checked)

-- Events that their constructor accepts, and whose numbers fit the schema, are encoded, and the bytes
-- are decoded to the same events, whatever their evidence class.
pub decode-encode {ℓ} :
    {Bytes : Type ℓ} {parquet : Parquet Bytes} (law : IsParquet parquet) (events : List ReplayEvent)
    (c : EvidenceClass)
    → AreChecked events
    → all fits_schema (map (row_of c) events) ≡ true
    → (payload : Bytes) × (encode_events parquet events c ≡ ok payload)
      × (decode_events parquet payload ≡ ok events)
unfolding encode_events decode_events
decode-encode law events c checked fitting =
    let (payload, written) = law.writes (map (row_of c) events) fitting in
    (
      payload,
      ground (arith, written, law.has_metadata (map (row_of c) events) written),
      ground
          (arith, law.reads (map (row_of c) events) written, decode_rows-row_of c events checked),
    )

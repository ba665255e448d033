-- ===== src/Serialization/Artifacts.antt =====
-- adapters/replay/artifacts.py: the sealing of events into an object store.
use Prim.Native.String.{◌++◌ as str_append}
use sopara.Prelude.{
  String, ◌≡◌, refl, sym, false, not, List, [], ◌∷◌, length, Dict, str_eq, print_ℕ, arith, eq_iff,
}
use sopara.Errors.{
  Result, ok, value_error, raise_when, ◌>>=◌, ◌>>◌, >>=-returned, raise_when-returned,
}
use sopara.Evidence.{EvidenceClass, evidence_class}
use sopara.Stores.{Bytes, ObjectStore, replace_created}
use sopara.Stores.Laws.{IsObjectStore}
use sopara.Runs.Repository.{ReplayArtifact}
use sopara.Replay.Event.{ReplayEvent}
use sopara.Serialization.{Parquet, encode_events, decode_events}
use sopara.Serialization.Events.{IsParquet, AreChecked, encode_events-decodes}

abbrev schema_id : String
schema_id = "sopara.replay-event.parquet.v1"

abbrev joined : List String → String
joined [] = ""
joined (s ∷ rest) = str_append s (joined rest)

unfoldable event_key : EvidenceClass → String → String → String → String
unfolding evidence_class
event_key c trade_date instrument digest = joined (
    "objects/replay/schema=v1/evidence="
    ∷ evidence_class.value c
    ∷ "/trade_date="
    ∷ trade_date
    ∷ "/instrument="
    ∷ instrument
    ∷ "/"
    ∷ digest
    ∷ ".parquet"
    ∷ [])

unfoldable event_metadata :
    String → EvidenceClass → String → String → List ReplayEvent → Dict String
unfolding evidence_class print_ℕ
event_metadata dataset_id c digest instrument events =
    ("dataset_id", dataset_id)
    ∷ ("evidence_class", evidence_class.value c)
    ∷ ("schema_id", schema_id)
    ∷ ("sha256", digest)
    ∷ ("row_count", print_ℕ (length events))
    ∷ ("instrument", instrument)
    ∷ []

module _ {S : Type 0} (sha256 : Bytes → String) (parquet : Parquet Bytes) (o : ObjectStore S)
    (s : S) (dataset_id trade_date instrument : String) (c : EvidenceClass)
    (events : List ReplayEvent) where
  unfoldable seal_replay_events : Result (S × ReplayArtifact)
  unfolding encode_events event_key event_metadata
  seal_replay_events = do
    payload ← encode_events parquet events c
    let digest = sha256 payload
    let key = event_key c trade_date instrument digest
    let metadata = event_metadata dataset_id c digest instrument events
    (next, stored) ← o.put_if_absent s key payload "application/vnd.apache.parquet" metadata
    raise_when (not (str_eq stored.sha256 digest))
        (value_error "replay event artifact checksum mismatch")
    ok (next, record { instrument = instrument; row_count = length events; stored = stored })

  -- What a sealed artifact is: bytes under the key of their hash, which decode to the events.
  record Sealed (next : S) (artifact : ReplayArtifact) : Type 0 where
    payload : Bytes
    readable : o.read next (event_key c trade_date instrument (sha256 payload)) ≡ ok payload
    found :
        o.stat next (event_key c trade_date instrument (sha256 payload))
        ≡ ok (replace_created artifact.stored false)
    hashed : artifact.stored.sha256 ≡ sha256 payload
    decoded : decode_events parquet payload ≡ ok events
    counted : artifact.row_count ≡ length events

  -- On any object store, events that were sealed are there under the key of their hash: the bytes read
  -- at the key decode to the same events, the object found there is that of the artifact, its hash is
  -- that of the bytes, and the artifact counts the events.
  seal_replay_events-Sealed :
      IsObjectStore o
      → IsParquet parquet
      → AreChecked events
      → {next : S} {artifact : ReplayArtifact} → seal_replay_events ≡ ok (next, artifact)
      → Sealed next artifact
  unfolding seal_replay_events
  seal_replay_events-Sealed store law checked {next} {artifact} h =
      let (payload, encoded, h1) = >>=-returned (encode_events parquet events c) _ h in
      let ((after, stored), put, h2) =
        >>=-returned
          (o.put_if_absent s (event_key c trade_date instrument (sha256 payload)) payload
            "application/vnd.apache.parquet"
            (event_metadata dataset_id c (sha256 payload) instrument events))
          _ h1 in
      let (same, h3) = raise_when-returned (not (str_eq stored.sha256 (sha256 payload))) _ _ h2 in
      let hashed : stored.sha256 ≡ sha256 payload =
        ground (arith, same, eq_iff stored.sha256 (sha256 payload)) in
      let now : after ≡ next = ground (arith, h3) in
      let made : record { instrument = instrument; row_count = length events; stored = stored }
          ≡ artifact =
        ground (arith, h3) in
      rw (sym now, sym made)
        (record {
          payload = payload;
          readable = store.read-put s _ payload _ _ put;
          found = store.stat-put s _ payload _ _ put;
          hashed = hashed;
          decoded = encode_events-decodes law events c checked encoded;
          counted = refl;
        })

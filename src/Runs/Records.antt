-- ===== src/Runs/Records.antt =====
-- adapters/database/historical.py: inserts that skip the rows which are there, and the record tables.
-- application/identities.py: UUIDs from hashes, where the constructor `UUID` is a parameter.
use sopara.Prelude.{
  ℕ, zero, suc, String, Bool, not, ◌&&◌, none, some, List, [], ◌∷◌, any, str_eq, lookup, insert,
  mem_str, if◌then◌else◌,
}
use sopara.Errors.{Result, ok, err, integrity_error, key_error, ◌>>=◌}
use sopara.Evidence.{EvidenceClass}
use sopara.Canonical.{Object, canonical_sha256, mapping, string, end, attribute}
use sopara.Runs.{RecordRow, Tables}

abbrev pub record_table_names : List String
record_table_names =
    "feature_snapshot" ∷ "decision" ∷ "policy_check" ∷ "sim_order_event" ∷ "sim_fill"
    ∷ "position_projection" ∷ "cost_projection" ∷ "export_manifest" ∷ []

-- `record_type in EVIDENCE_RECORDS`
abbrev pub is_evidence_record : String → Bool
is_evidence_record name = mem_str name record_table_names && not (str_eq name "policy_check")

-- `s[:n]`
unfoldable pub prefix : ℕ → String → String
prefix zero s = ""
prefix (suc n) String.[] = ""
prefix (suc n) (String.◌∷◌ c s) = String.◌∷◌ c (prefix n s)

-- `insert … on conflict do nothing` on a record table: a row of the same aggregate and hash is left,
-- and a row with the same record id but not of the same aggregate and hash is an error.
unfoldable pub insert_record : RecordRow → List RecordRow → Result (List RecordRow)
insert_record new rows =
    if any (λ r. str_eq r.aggregate_id new.aggregate_id && str_eq r.payload_hash new.payload_hash)
      rows
    then ok rows
    else if any (λ r. str_eq r.record_id new.record_id) rows
    then err integrity_error
    else ok (new ∷ rows)

-- The rows of a record table.
abbrev pub table_rows : Tables → String → List RecordRow
table_rows tables name = elim (lookup name tables.record_tables) [ none ↦ [] | some rows ↦ rows ]

-- A select of the payloads of an aggregate, in the order of their hashes.
unfoldable pub payloads_of : String → List RecordRow → List RecordRow
payloads_of aggregate_id [] = []
payloads_of aggregate_id (r ∷ rest) =
    let others = payloads_of aggregate_id rest in
    if str_eq r.aggregate_id aggregate_id then r ∷ others else others

module _ (sha256 uuid : String → String) where
  unfoldable pub uuid_from_hash : String → String
  unfolding prefix
  uuid_from_hash digest = uuid (prefix 32 digest)

  unfoldable pub stable_uuid : String → Object → Result String
  unfolding uuid_from_hash
  stable_uuid namespace value = do
    digest ←
        canonical_sha256 sha256
          (mapping (attribute "namespace" (string namespace) (attribute "value" value end)))
    ok (uuid_from_hash digest)

  abbrev pub record_row : String → String → EvidenceClass → Object → String → String → RecordRow
  record_row name run_id c payload payload_hash record_id = record {
    record_id = record_id;
    aggregate_id = run_id;
    evidence_class = if is_evidence_record name then some c else none;
    payload = payload;
    payload_hash = payload_hash;
  }

  -- The loop over the items of one record type.
  unfoldable pub save_items :
      String → String → EvidenceClass → List Object → List RecordRow → Result (List RecordRow)
  unfolding stable_uuid insert_record
  save_items name run_id c [] rows = ok rows
  save_items name run_id c (payload ∷ rest) rows = do
    payload_hash ← canonical_sha256 sha256 payload
    record_id ← stable_uuid name (string payload_hash)
    next ← insert_record (record_row name run_id c payload payload_hash record_id) rows
    save_items name run_id c rest next

  -- The loop over the record types: a name that is no table is a KeyError.
  unfoldable pub save_records :
      String → EvidenceClass → List (String × List Object) → Tables → Result Tables
  unfolding save_items
  save_records run_id c [] tables = ok tables
  save_records run_id c ((name, items) ∷ rest) tables =
      if not (mem_str name record_table_names) then err (key_error name) else do
        rows ← save_items name run_id c items (table_rows tables name)
        save_records run_id c rest
            (record tables { record_tables = insert name rows tables.record_tables })

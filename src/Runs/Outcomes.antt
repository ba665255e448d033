-- ===== src/Runs/Outcomes.antt =====
-- adapters/database/historical.py: the methods that end a run, and the reads of its checkpoints and
-- records.
use sopara.Prelude.{
  ◌+◌, String, Bool, true, false, not, ◌||◌, Option, none, some, List, [], ◌∷◌, find, str_eq,
  insert, map, if◌then◌else◌,
}
use text.Mathlib.Text.{is_lt}
use Prim.Native.String.{compare}
use sopara.Prelude.Int.{leb_ℤ}
use sopara.Errors.{Result, ok, value_error, raise_when, ◌>>=◌, ◌>>◌}
use sopara.Evidence.{EvidenceClass}
use sopara.Stores.{StoredObject}
use sopara.Canonical.{Object, canonical_sha256, string}
use sopara.Runs.{
  RunState, running, interrupted, completed, reconciled, failed, RunRow, ReplayRun, CheckpointRow,
  RecordRow, Tables, one, has_id, update_run,
}
use sopara.Runs.Records.{
  stable_uuid, insert_record, table_rows, save_records, payloads_of, record_table_names,
}
use sopara.Runs.Repository.{
  run, is_state, in_state, with_run, always, schema_id_of, market_row, insert_market_object,
}

abbrev pub expects : Option RunState → ReplayRun → Bool
expects none r = true
expects (some s) r = is_state r.row.state s

abbrev pub set_values : RunState → Option String → ReplayRun → ReplayRun
set_values s reason r = record (in_state s r) { error_reason = reason }

-- `_set_state`
unfoldable pub set_state :
    Tables → String → Option RunState → RunState → Option String → Result (Tables × RunRow)
unfolding update_run
set_state tables run_id expected s reason = do
  changed ← one (update_run run_id (expects expected) (set_values s reason) tables.runs)
  ok (with_run tables changed)

unfoldable pub interrupt : Tables → String → Result (Tables × RunRow)
unfolding set_state
interrupt tables run_id = set_state tables run_id (some running) interrupted none

unfoldable pub fail : Tables → String → String → Result (Tables × RunRow)
unfolding set_state
fail tables run_id reason = set_state tables run_id none failed (some reason)

-- `order_by(input_index)`
unfoldable pub insert_checkpoint : CheckpointRow → List CheckpointRow → List CheckpointRow
insert_checkpoint new [] = new ∷ []
insert_checkpoint new (c ∷ rest) =
    if leb_ℤ new.input_index c.input_index then new ∷ (c ∷ rest) else c ∷ insert_checkpoint new rest

unfoldable pub checkpoints_of : String → List CheckpointRow → List CheckpointRow
unfolding insert_checkpoint
checkpoints_of run_id [] = []
checkpoints_of run_id (c ∷ rest) =
    let others = checkpoints_of run_id rest in
    if str_eq c.run_id run_id then insert_checkpoint c others else others

unfoldable pub checkpoints : Tables → String → List CheckpointRow
unfolding checkpoints_of
checkpoints tables run_id = checkpoints_of run_id tables.checkpoints

abbrev pub last_of : List CheckpointRow → Option CheckpointRow
last_of [] = none
last_of (c ∷ []) = some c
last_of (c ∷ d ∷ rest) = last_of (d ∷ rest)

-- `order_by(input_index.desc()).limit(1)`: the last in the order of the indices.
unfoldable pub latest_checkpoint : Tables → String → Option CheckpointRow
unfolding checkpoints
latest_checkpoint tables run_id = last_of (checkpoints tables run_id)

abbrev pub completed_values : StoredObject → String → ReplayRun → ReplayRun
completed_values result_object result_hash r = record r {
  row = record r.row {
    state = completed;
    result_object_key = some result_object.key;
    result_generation = some result_object.generation;
    result_hash = some result_hash;
    row_version = r.row.row_version + 1;
  };
}

abbrev pub reconciled_values : Bool → ReplayRun → ReplayRun
reconciled_values true r = set_values reconciled none r
reconciled_values false r = set_values failed (some "RECONCILIATION_MISMATCH") r

-- `order_by(payload_hash)`
unfoldable pub insert_by_hash : RecordRow → List RecordRow → List RecordRow
insert_by_hash new [] = new ∷ []
insert_by_hash new (r ∷ rest) =
    if is_lt (compare r.payload_hash new.payload_hash)
    then r ∷ insert_by_hash new rest
    else new ∷ (r ∷ rest)

unfoldable pub sort_by_hash : List RecordRow → List RecordRow
unfolding insert_by_hash
sort_by_hash [] = []
sort_by_hash (r ∷ rest) = insert_by_hash r (sort_by_hash rest)

unfoldable pub records : Tables → String → List (String × List Object)
unfolding payloads_of sort_by_hash
records tables run_id =
    map
      (λ name.
        (name, map (λ r. r.payload) (sort_by_hash (payloads_of run_id (table_rows tables name)))))
      record_table_names

-- A refused reconciliation always fails the run; an accepted one closes it if it is final.
unfoldable pub reconcile_run : Tables → String → Bool → Bool → Result (Tables × RunRow)
unfolding run update_run
reconcile_run saved run_id accepted finalize =
    if finalize || not accepted
    then (do
      changed ← one (update_run run_id always (reconciled_values accepted) saved.runs)
      ok (with_run saved changed))
    else (do row ← run saved run_id; ok (saved, row))

module _ (sha256 uuid : String → String) where
  unfoldable pub complete :
      Tables
      → String
      → EvidenceClass
      → StoredObject
      → String
      → List (String × List Object)
      → Result (Tables × RunRow)
  unfolding update_run insert_market_object save_records
  complete tables run_id c result_object result_hash items = do
    locked ← one (find (has_id run_id) tables.runs)
    raise_when (not (is_state locked.row.state running))
        (value_error "completion requires a running replay")
    object_id ← stable_uuid sha256 uuid "replay-result-object" (string result_object.key)
    schema ← schema_id_of result_object
    objects ←
        insert_market_object (market_row object_id result_object schema c) tables.market_objects
    saved ← save_records sha256 uuid run_id c items (record tables { market_objects = objects })
    changed ← one (update_run run_id always (completed_values result_object result_hash) saved.runs)
    ok (with_run saved changed)

  unfoldable pub record_reconciliation :
      Tables → String → EvidenceClass → Object → Bool → Bool → Result (Tables × RunRow)
  unfolding reconcile_run insert_record
  record_reconciliation tables run_id c payload accepted finalize = do
    payload_hash ← canonical_sha256 sha256 payload
    record_id ← stable_uuid sha256 uuid "reconciliation" (string payload_hash)
    rows ←
        insert_record
          (record {
            record_id = record_id;
            aggregate_id = run_id;
            evidence_class = some c;
            payload = payload;
            payload_hash = payload_hash;
          })
          (table_rows tables "reconciliation")
    let saved : Tables = record tables {
      record_tables = insert "reconciliation" rows tables.record_tables;
    }
    reconcile_run saved run_id accepted finalize

-- ===== src/Runs/Repository.antt =====
-- adapters/database/historical.py: the methods of `HistoricalRepository`. A method gives the next tables
-- and its result; an error leaves the tables as they were.
use Prim.Native.String.{◌++◌ as str_append}
use sopara.Prelude.{
  ℕ, ◌+◌, String, Bool, true, not, ◌&&◌, ◌||◌, none, some, List, ◌∷◌, any, find, str_eq, lookup,
  if◌then◌else◌, ltb,
}
use sopara.Prelude.Int.{ℤ, pos, negsuc, ◌+ℤ◌, ◌==ℤ◌, ltb_ℤ}
use sopara.Errors.{
  Result, ok, err, value_error, key_error, integrity_error, raise_when, ◌>>=◌, ◌>>◌,
}
use sopara.Evidence.{EvidenceClass}
use sopara.Stores.{StoredObject}
use sopara.Canonical.{string}
use sopara.Canonical.Json.{Value}
use sopara.Runs.{
  RunState, created, running, interrupted, state_text, RunRow, ReplayRun, CheckpointRow,
  MarketObjectRow, Tables, one, has_id, update_run,
}
use sopara.Runs.Records.{stable_uuid}

pub record ReplayArtifact : Type 0 where
  pub instrument : String
  pub row_count : ℕ
  pub stored : StoredObject

-- `metadata["schema_id"]`
abbrev pub schema_id_of : StoredObject → Result String
schema_id_of stored = elim (lookup "schema_id" stored.metadata) [
  | none ↦ err (key_error "schema_id")
  | some schema ↦ ok schema
]

abbrev pub market_row : String → StoredObject → String → EvidenceClass → MarketObjectRow
market_row object_id stored schema c = record {
  object_id = object_id;
  object_key = stored.key;
  generation = stored.generation;
  metageneration = stored.metageneration;
  size_bytes = stored.size;
  crc32c = stored.crc32c;
  sha256 = stored.sha256;
  schema_id = schema;
  evidence_class = c;
}

-- `on_conflict_do_nothing(constraint="uq_market_object_key")`; any other conflict is an error.
unfoldable pub insert_market_object :
    MarketObjectRow → List MarketObjectRow → Result (List MarketObjectRow)
insert_market_object new rows =
    if any (λ r. str_eq r.object_key new.object_key) rows
    then ok rows
    else if any (λ r. str_eq r.object_id new.object_id) rows
        || not (ltb 0 new.generation && ltb 0 new.metageneration)
    then err integrity_error
    else ok (new ∷ rows)

-- `_run`
abbrev pub run_of : ReplayRun → RunRow
run_of r = r.row

unfoldable pub run : Tables → String → Result RunRow
run tables run_id = do r ← one (find (has_id run_id) tables.runs); ok (run_of r)

abbrev pub has_identity : String → String → String → ReplayRun → Bool
has_identity dataset_hash experiment_hash runtime_hash r =
    str_eq r.row.dataset_manifest_hash dataset_hash
    && (str_eq r.row.experiment_hash experiment_hash
        && str_eq r.row.runtime_manifest_hash runtime_hash)

unfoldable pub run_by_identity : Tables → String → String → String → Result RunRow
run_by_identity tables dataset_hash experiment_hash runtime_hash = do
  r ← one (find (has_identity dataset_hash experiment_hash runtime_hash) tables.runs)
  ok (run_of r)

abbrev pub new_run : String → String → String → String → EvidenceClass → ReplayRun
new_run run_id dataset_hash experiment_hash runtime_hash c = record {
  row = record {
    run_id = run_id;
    dataset_manifest_hash = dataset_hash;
    experiment_hash = experiment_hash;
    runtime_manifest_hash = runtime_hash;
    evidence_class = c;
    state = created;
    last_input_index = negsuc 0;
    checkpoint_hash = none;
    result_object_key = none;
    result_generation = none;
    result_hash = none;
    row_version = 1;
  };
  error_reason = none;
}

unfoldable pub create_run :
    Tables → String → String → String → String → EvidenceClass → Result (Tables × RunRow)
unfolding run_by_identity
create_run tables run_id dataset_hash experiment_hash runtime_hash c =
    if any (has_identity dataset_hash experiment_hash runtime_hash) tables.runs
    then (do
      row ← run_by_identity tables dataset_hash experiment_hash runtime_hash
      ok (tables, row))
    else if any (has_id run_id) tables.runs
    then err integrity_error
    else let next : Tables = record tables {
      runs = new_run run_id dataset_hash experiment_hash runtime_hash c ∷ tables.runs;
    } in
      (do row ← run_by_identity next dataset_hash experiment_hash runtime_hash; ok (next, row))

-- `row_version = row_version + 1` with the new values.
abbrev pub in_state : RunState → ReplayRun → ReplayRun
in_state s r = record r { row = record r.row { state = s; row_version = r.row.row_version + 1 } }

abbrev pub is_state : RunState → RunState → Bool
is_state s t = str_eq (state_text s) (state_text t)

abbrev pub may_begin : Bool → ReplayRun → Bool
may_begin allow_resume r =
    is_state r.row.state created || (allow_resume && is_state r.row.state interrupted)

-- The tables and the row after an update of runs.
abbrev pub with_run : Tables → ReplayRun × List ReplayRun → Tables × RunRow
with_run tables (r, runs) = (record tables { runs = runs }, run_of r)

unfoldable pub begin : Tables → String → Bool → Result (Tables × RunRow)
unfolding run update_run
begin tables run_id allow_resume =
    elim (update_run run_id (may_begin allow_resume) (in_state running) tables.runs) [
      | some changed ↦ ok (with_run tables changed)
      | none ↦ do
        current ← run tables run_id
        err (value_error (str_append "run cannot begin from " (state_text current.state)))
    ]

abbrev pub at_checkpoint : ℤ → String → ReplayRun → ReplayRun
at_checkpoint input_index checkpoint_hash r = record r {
  row = record r.row {
    last_input_index = input_index;
    checkpoint_hash = some checkpoint_hash;
    row_version = r.row.row_version + 1;
  };
}

abbrev pub always : ReplayRun → Bool
always r = true

abbrev pub checkpoint_row :
    String → String → ℤ → String → Value → Value → String → String → String → String → CheckpointRow
checkpoint_row checkpoint_id run_id input_index input_key source_watermarks engine_state
      engine_state_hash preceding_output_hash runtime_manifest_hash checkpoint_hash =
    record {
      checkpoint_id = checkpoint_id;
      run_id = run_id;
      input_index = input_index;
      input_key = input_key;
      source_watermarks = source_watermarks;
      engine_state = engine_state;
      engine_state_hash = engine_state_hash;
      preceding_output_hash = preceding_output_hash;
      runtime_manifest_hash = runtime_manifest_hash;
      task_index = 0;
      checkpoint_hash = checkpoint_hash;
    }

-- The primary key and the unique columns of `replay_checkpoint`, and its check of the index.
abbrev pub admits_checkpoint : List CheckpointRow → CheckpointRow → Bool
admits_checkpoint rows new =
    not (
      any
        (λ c.
          str_eq c.checkpoint_id new.checkpoint_id
          || (str_eq c.checkpoint_hash new.checkpoint_hash
              || (str_eq c.run_id new.run_id && c.input_index ==ℤ new.input_index)))
        rows)
    && not (ltb_ℤ new.input_index (pos 0))

-- The insert of the checkpoint and the update of its run.
unfoldable pub add_checkpoint : Tables → CheckpointRow → Result Tables
unfolding update_run
add_checkpoint tables new = do
  raise_when (not (admits_checkpoint tables.checkpoints new)) integrity_error
  (changed, runs) ←
      one (
        update_run new.run_id always (at_checkpoint new.input_index new.checkpoint_hash)
          tables.runs)
  ok (record tables { runs = runs; checkpoints = new ∷ tables.checkpoints })

module _ (sha256 uuid : String → String) where
  unfoldable pub save_checkpoint :
      Tables
      → String
      → ℤ
      → String
      → Value
      → Value
      → String
      → String
      → String
      → String
      → Result Tables
  unfolding add_checkpoint
  save_checkpoint tables run_id input_index input_key source_watermarks engine_state
        engine_state_hash preceding_output_hash runtime_manifest_hash checkpoint_hash =
      do
        checkpoint_id ← stable_uuid sha256 uuid "replay-checkpoint" (string checkpoint_hash)
        locked ← one (find (has_id run_id) tables.runs)
        raise_when (not (is_state locked.row.state running))
            (value_error "checkpoint requires a running replay")
        raise_when (not (input_index ==ℤ locked.row.last_input_index +ℤ pos 1))
            (value_error "checkpoint input index is not the next durable event")
        add_checkpoint tables (
            checkpoint_row checkpoint_id run_id input_index input_key source_watermarks engine_state
              engine_state_hash preceding_output_hash runtime_manifest_hash checkpoint_hash)

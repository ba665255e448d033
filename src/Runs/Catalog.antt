-- ===== src/Runs/Catalog.antt =====
-- adapters/database/historical.py: the datasets and the experiments of the repository.
use sopara.Prelude.{
  String, Bool, ◌||◌, none, some, List, [], ◌∷◌, any, find, str_eq, insert, length, if◌then◌else◌,
  not, ltb,
}
use sopara.Errors.{Result, ok, err, integrity_error, no_result_found, ◌>>=◌}
use sopara.Evidence.{EvidenceClass}
use sopara.Stores.{StoredObject}
use sopara.Canonical.{Object, string}
use sopara.Runs.{RecordRow, MarketObjectRow, ManifestRow, DatasetRow, ExperimentRow, Tables, one}
use sopara.Runs.Records.{stable_uuid, insert_record, table_rows}
use sopara.Runs.Repository.{ReplayArtifact, schema_id_of, market_row, insert_market_object}

abbrev has_hash : String → ManifestRow → Bool
has_hash manifest_hash m = str_eq m.manifest_hash manifest_hash

abbrev dataset_row : ManifestRow → DatasetRow
dataset_row m = record {
  dataset_id = m.dataset_id;
  manifest_hash = m.manifest_hash;
  manifest_key = m.manifest_key;
  generation = m.generation;
  evidence_class = m.evidence_class;
}

unfoldable pub dataset : Tables → String → Result DatasetRow
dataset tables manifest_hash = do
  m ← one (find (has_hash manifest_hash) tables.manifests)
  ok (dataset_row m)

-- `on_conflict_do_nothing(constraint="uq_dataset_manifest_hash")`
unfoldable pub insert_manifest : ManifestRow → List ManifestRow → Result (List ManifestRow)
insert_manifest new rows =
    if any (has_hash new.manifest_hash) rows
    then ok rows
    else if any
          (λ m. str_eq m.manifest_id new.manifest_id || str_eq m.manifest_key new.manifest_key) rows
        || not (ltb 0 new.generation)
    then err integrity_error
    else ok (new ∷ rows)

abbrev experiment_row : RecordRow → Result ExperimentRow
experiment_row r = elim r.evidence_class [
  | none ↦ err no_result_found
  | some c ↦ ok (record {
    experiment_id = r.aggregate_id;
    experiment_hash = r.payload_hash;
    evidence_class = c;
    payload = r.payload;
  })
]

unfoldable pub experiment : Tables → String → Result ExperimentRow
experiment tables experiment_hash = do
  r ← one (find (λ r. str_eq r.payload_hash experiment_hash) (table_rows tables "experiment"))
  experiment_row r

unfoldable pub create_experiment :
    Tables → String → String → EvidenceClass → Object → Result (Tables × ExperimentRow)
unfolding experiment insert_record
create_experiment tables experiment_id experiment_hash c payload = do
  rows ←
      insert_record
        (record {
          record_id = experiment_id;
          aggregate_id = experiment_id;
          evidence_class = some c;
          payload = payload;
          payload_hash = experiment_hash;
        })
        (table_rows tables "experiment")
  let next : Tables = record tables {
    record_tables = insert "experiment" rows tables.record_tables;
  }
  row ← experiment next experiment_hash
  ok (next, row)

module _ (sha256 uuid : String → String) where
  -- The loop over the artifacts.
  unfoldable pub register_objects :
      EvidenceClass → List ReplayArtifact → List MarketObjectRow → Result (List MarketObjectRow)
  unfolding insert_market_object stable_uuid
  register_objects c [] rows = ok rows
  register_objects c (a ∷ rest) rows = do
    object_id ← stable_uuid sha256 uuid "market-object" (string a.stored.key)
    schema ← schema_id_of a.stored
    next ← insert_market_object (market_row object_id a.stored schema c) rows
    register_objects c rest next

  unfoldable pub register_dataset :
      Tables
      → String
      → String
      → StoredObject
      → EvidenceClass
      → List ReplayArtifact
      → Result (Tables × DatasetRow)
  unfolding register_objects insert_manifest dataset
  register_dataset tables dataset_id manifest_id manifest c artifacts = do
    objects ← register_objects c artifacts tables.market_objects
    manifests ←
        insert_manifest
          (record {
            manifest_id = manifest_id;
            dataset_id = dataset_id;
            manifest_key = manifest.key;
            manifest_hash = manifest.sha256;
            generation = manifest.generation;
            evidence_class = c;
            object_count = length artifacts;
          })
          tables.manifests
    let next : Tables = record tables { market_objects = objects; manifests = manifests }
    row ← dataset next manifest.sha256
    ok (next, row)

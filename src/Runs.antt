-- ===== src/Runs.antt =====
-- adapters/database/historical.py: the repository of datasets, experiments and replay runs, over the
-- tables of adapters/database/schema.py. UUIDs are texts, and a method's statements are one transaction.
pub mod Records
pub mod Repository
pub mod Outcomes
pub mod Catalog
pub mod Moves
pub mod Methods
pub mod Saving
pub mod Passages
pub mod Calls
pub mod Linked
pub mod Chain
pub mod Order
pub mod Sharing
use sopara.Prelude.{
  ℕ, ◌+◌, String, ◌≡◌, Bool, true, false, not, ◌&&◌, ◌||◌, Option, none, some, List, [], ◌∷◌, find,
  str_eq, if◌then◌else◌,
}
use sopara.Prelude.Int.{ℤ, pos, negsuc}
use sopara.Errors.{Result, ok, err, no_result_found}
use sopara.Evidence.{EvidenceClass}
use sopara.States.StrEnum.{StrEnum}
use sopara.Canonical.Json.{Value}
use sopara.Canonical.{Object}

-- The states that `ck_replay_run_state` admits.
pub data RunState : Type 0 where
  created running interrupted completed reconciled failed : RunState

abbrev pub state_text : RunState → String
state_text created = "CREATED"
state_text running = "RUNNING"
state_text interrupted = "INTERRUPTED"
state_text completed = "COMPLETED"
state_text reconciled = "RECONCILED"
state_text failed = "FAILED"

pub record RunRow : Type 0 where
  pub run_id : String
  pub dataset_manifest_hash : String
  pub experiment_hash : String
  pub runtime_manifest_hash : String
  pub evidence_class : EvidenceClass
  pub state : RunState
  pub last_input_index : ℤ
  pub checkpoint_hash : Option String
  pub result_object_key : Option String
  pub result_generation : Option ℕ
  pub result_hash : Option String
  pub row_version : ℕ

-- A row of `replay_run`.
pub record ReplayRun : Type 0 where
  pub row : RunRow
  pub error_reason : Option String

pub record CheckpointRow : Type 0 where
  pub checkpoint_id : String
  pub run_id : String
  pub input_index : ℤ
  pub input_key : String
  pub source_watermarks : Value
  pub engine_state : Value
  pub engine_state_hash : String
  pub preceding_output_hash : String
  pub runtime_manifest_hash : String
  pub task_index : ℕ
  pub checkpoint_hash : String

-- A row of one of the record tables.
pub record RecordRow : Type 0 where
  pub record_id : String
  pub aggregate_id : String
  pub evidence_class : Option EvidenceClass
  pub payload : Object
  pub payload_hash : String

pub record MarketObjectRow : Type 0 where
  pub object_id : String
  pub object_key : String
  pub generation : ℕ
  pub metageneration : ℕ
  pub size_bytes : ℕ
  pub crc32c : String
  pub sha256 : String
  pub schema_id : String
  pub evidence_class : EvidenceClass

pub record ManifestRow : Type 0 where
  pub manifest_id : String
  pub dataset_id : String
  pub manifest_key : String
  pub manifest_hash : String
  pub generation : ℕ
  pub evidence_class : EvidenceClass
  pub object_count : ℕ

pub record DatasetRow : Type 0 where
  pub dataset_id : String
  pub manifest_hash : String
  pub manifest_key : String
  pub generation : ℕ
  pub evidence_class : EvidenceClass

pub record ExperimentRow : Type 0 where
  pub experiment_id : String
  pub experiment_hash : String
  pub evidence_class : EvidenceClass
  pub payload : Object

-- The tables, the newest row first; the record tables by their names.
pub record Tables : Type 0 where
  pub runs : List ReplayRun
  pub checkpoints : List CheckpointRow
  pub market_objects : List MarketObjectRow
  pub manifests : List ManifestRow
  pub record_tables : List (String × List RecordRow)

-- `.one()` after a select by a key.
abbrev pub one {ℓ} : {A : Type ℓ} → Option A → Result A
one none = err no_result_found
one (some row) = ok row

abbrev pub has_id : String → ReplayRun → Bool
has_id run_id r = str_eq r.row.run_id run_id

-- `UPDATE replay_run SET … WHERE run_id = … AND …`: the key admits one row at most. It gives the row
-- that it leaves, if there is one.
unfoldable pub update_run :
    String
    → (ReplayRun → Bool)
    → (ReplayRun → ReplayRun)
    → List ReplayRun
    → Option (ReplayRun × List ReplayRun)
update_run run_id test change [] = none
update_run run_id test change (r ∷ rest) =
    let others = update_run run_id test change rest in
    if has_id run_id r
    then (if test r then some (change r, change r ∷ rest) else none)
    else elim others [ none ↦ none | some (row, changed) ↦ some (row, r ∷ changed) ]

-- ===== src/Runs/Calls.antt =====
-- adapters/database/historical.py: sequences of calls, and what they never undo.
use sopara.Runs.Passages.{
  create_run-Change, save_checkpoint-Change, complete-Change, record_reconciliation-Change,
}
use sopara.Prelude.{
  String, ◌≡◌, refl, Bool, true, false, Option, some, List, [], ◌∷◌, find, arith, inl, inr, ◌≤◌,
}
use sopara.Prelude.Int.{ℤ}
use sopara.Errors.{Result, ok, err, Result-cases}
use sopara.Evidence.{EvidenceClass}
use sopara.Stores.{StoredObject}
use sopara.Canonical.{Object}
use sopara.Canonical.Json.{Value}
use sopara.Runs.{
  RunState, created, running, interrupted, completed, reconciled, failed, RunRow, ReplayRun, Tables,
  has_id,
}
use sopara.Runs.Repository.{begin, save_checkpoint, create_run}
use sopara.Runs.Outcomes.{interrupt, fail, complete, record_reconciliation}
use sopara.Runs.Moves.{Moves, Change, may_save}
use sopara.Runs.Methods.{begin-Change, interrupt-Change, fail-Change}

-- A call of one of the methods that write to `replay_run`.
pub data Method : Type 0 where
  creating :
      (run_id dataset_hash experiment_hash runtime_hash : String) (c : EvidenceClass) → Method
  beginning : (run_id : String) (allow_resume : Bool) → Method
  saving :
      (run_id : String) (input_index : ℤ) (input_key : String) (watermarks engine_state : Value)
      (engine_state_hash preceding runtime checkpoint_hash : String)
      → Method
  interrupting : (run_id : String) → Method
  failing : (run_id reason : String) → Method
  completing :
      (run_id : String) (c : EvidenceClass) (result_object : StoredObject) (result_hash : String)
      (items : List (String × List Object))
      → Method
  reconciling :
      (run_id : String) (c : EvidenceClass) (payload : Object) (accepted finalize : Bool) → Method

abbrev tables_of : Result (Tables × RunRow) → Result Tables
tables_of (err raised) = err raised
tables_of (ok (tables, row)) = ok tables

pub tables_of-ok :
    (r : Result (Tables × RunRow)) {next : Tables}
    → tables_of r ≡ ok next
    → (row : RunRow) × (r ≡ ok (next, row))
tables_of-ok (err raised) h = cc
tables_of-ok (ok (tables, row)) h = (row, ground arith)

module _ (sha256 uuid : String → String) where
  unfoldable pub call : Tables → Method → Result Tables
  unfolding create_run begin save_checkpoint interrupt fail complete record_reconciliation
  call tables (creating run_id dataset_hash experiment_hash runtime_hash c) =
      tables_of (create_run tables run_id dataset_hash experiment_hash runtime_hash c)
  call tables (beginning run_id allow_resume) = tables_of (begin tables run_id allow_resume)
  call tables
        (saving run_id input_index input_key watermarks engine_state engine_state_hash preceding
          runtime checkpoint_hash) =
      save_checkpoint sha256 uuid tables run_id input_index input_key watermarks engine_state
        engine_state_hash preceding runtime checkpoint_hash
  call tables (interrupting run_id) = tables_of (interrupt tables run_id)
  call tables (failing run_id reason) = tables_of (fail tables run_id reason)
  call tables (completing run_id c result_object result_hash items) =
      tables_of (complete sha256 uuid tables run_id c result_object result_hash items)
  call tables (reconciling run_id c payload accepted finalize) =
      tables_of (record_reconciliation sha256 uuid tables run_id c payload accepted finalize)

  call-Change :
      (tables : Tables) (m : Method) {next : Tables}
      → call tables m ≡ ok next
      → (j : String) → Change true (find (has_id j) tables.runs) (find (has_id j) next.runs)
  unfolding call
  call-Change tables (creating run_id dataset_hash experiment_hash runtime_hash c) h =
      let (row, e) =
        tables_of-ok (create_run tables run_id dataset_hash experiment_hash runtime_hash c) h in
      λ j.
        may_save (
          (create_run-Change tables run_id dataset_hash experiment_hash runtime_hash c e).changes j)
  call-Change tables (beginning run_id allow_resume) h =
      let (row, e) = tables_of-ok (begin tables run_id allow_resume) h in
      λ j. may_save ((begin-Change tables run_id allow_resume e).changes j)
  call-Change tables
        (saving run_id input_index input_key watermarks engine_state engine_state_hash preceding
          runtime checkpoint_hash)
        h =
      save_checkpoint-Change sha256 uuid tables run_id input_index input_key watermarks engine_state
        engine_state_hash preceding runtime checkpoint_hash h
  call-Change tables (interrupting run_id) h =
      let (row, e) = tables_of-ok (interrupt tables run_id) h in
      λ j. may_save ((interrupt-Change tables run_id e).changes j)
  call-Change tables (failing run_id reason) h =
      let (row, e) = tables_of-ok (fail tables run_id reason) h in
      λ j. may_save ((fail-Change tables run_id reason e).changes j)
  call-Change tables (completing run_id c result_object result_hash items) h =
      let (row, e) =
        tables_of-ok (complete sha256 uuid tables run_id c result_object result_hash items) h in
      λ j.
        may_save (
          (complete-Change sha256 uuid tables run_id c result_object result_hash items e).changes j)
  call-Change tables (reconciling run_id c payload accepted finalize) h =
      let (row, e) =
        tables_of-ok (record_reconciliation sha256 uuid tables run_id c payload accepted finalize)
          h in
      λ j. may_save (
        (record_reconciliation-Change sha256 uuid tables run_id c payload accepted finalize
            e).changes
          j)

  -- The tables after a sequence of calls: a call that raises is rolled back.
  unfoldable pub calls : Tables → List Method → Tables
  unfolding call
  calls tables [] = tables
  calls tables (m ∷ rest) = elim (call tables m) [
    | err raised ↦ calls tables rest
    | ok next ↦ calls next rest
  ]

-- The run is over: it has a result, or it has failed.
unfoldable pub is_settled : RunState → Bool
is_settled created = false
is_settled running = false
is_settled interrupted = false
is_settled completed = true
is_settled reconciled = true
is_settled failed = true

Moves-settled : {s t : RunState} → Moves s t → is_settled s ≡ true → is_settled t ≡ true
unfolding is_settled
Moves-settled Moves.begins h = cc
Moves-settled Moves.resumes h = cc
Moves-settled Moves.goes_on h = cc
Moves-settled Moves.interrupts h = cc
Moves-settled Moves.completes h = cc
Moves-settled (Moves.fails s) h = refl
Moves-settled (Moves.reconciles s) h = refl

-- The run is there, no earlier in its history, and over if it was.
record Succeeding (old : ReplayRun) (found : Option ReplayRun) : Type 0 where
  new : ReplayRun
  there : found ≡ some new
  version : old.row.row_version ≤ new.row.row_version
  settled : is_settled old.row.state ≡ true → is_settled new.row.state ≡ true

Change-Succeeding :
    (old : ReplayRun) {before after : Option ReplayRun}
    → Change true before after
    → before ≡ some old
    → Succeeding old after
Change-Succeeding old (Change.kept o) h = record {
  new = old;
  there = h;
  version = omega arith;
  settled = λ s. s;
}
Change-Succeeding old (Change.made new s v i c) h = cc
Change-Succeeding old (Change.saved before new may m v) h =
    let same : before ≡ old = ground arith in
    record {
      new = new;
      there = refl;
      version = ground (arith, v, same);
      settled = λ s. Moves-settled m (rw same s);
    }
Change-Succeeding old (Change.moved before new m v n i c) h =
    let same : before ≡ old = ground arith in
    record {
      new = new;
      there = refl;
      version = ground (arith, v, same);
      settled = λ s. Moves-settled m (rw same s);
    }

calls-Succeeding :
    (sha256 uuid : String → String) (ms : List Method) (tables : Tables) (j : String)
    (old : ReplayRun)
    → find (has_id j) tables.runs ≡ some old
    → Succeeding old (find (has_id j) (calls sha256 uuid tables ms).runs)
unfolding calls
calls-Succeeding sha256 uuid [] tables j old h = record {
  new = old;
  there = h;
  version = omega arith;
  settled = λ s. s;
}
calls-Succeeding sha256 uuid (m ∷ ms) tables j old h =
    elim (Result-cases (call sha256 uuid tables m)) [
      | inl (raised, e) ↦
          let rolled : calls sha256 uuid tables (m ∷ ms) ≡ calls sha256 uuid tables ms =
            ground (arith, e) in
          rw rolled (calls-Succeeding sha256 uuid ms tables j old h)
      | inr (next, e) ↦
          let first = Change-Succeeding old (call-Change sha256 uuid tables m e j) h in
          let rest = calls-Succeeding sha256 uuid ms next j first.new first.there in
          let done : calls sha256 uuid tables (m ∷ ms) ≡ calls sha256 uuid next ms =
            ground (arith, e) in
          rw done (record {
            new = rest.new;
            there = rest.there;
            version = omega (arith, first.version, rest.version);
            settled = λ s. rest.settled (first.settled s);
          })
    ]

-- Whatever the methods are called with, and in whatever order, a run stays in the table, its
-- version never falls, and once it is completed, reconciled or failed it is never created, running
-- or interrupted again.
pub calls-settled :
    (sha256 uuid : String → String) (ms : List Method) (tables : Tables) (j : String)
    (old : ReplayRun)
    → find (has_id j) tables.runs ≡ some old
    → (new : ReplayRun) × (find (has_id j) (calls sha256 uuid tables ms).runs ≡ some new)
      × (old.row.row_version ≤ new.row.row_version)
      × (is_settled old.row.state ≡ true → is_settled new.row.state ≡ true)
calls-settled sha256 uuid ms tables j old h =
    let s = calls-Succeeding sha256 uuid ms tables j old h in (s.new, s.there, s.version, s.settled)

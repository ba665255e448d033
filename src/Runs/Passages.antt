-- ===== src/Runs/Passages.antt =====
-- adapters/database/historical.py: whatever method is called, a run's state goes only by the passages,
-- and its version counts the changes.
use sopara.Prelude.{
  String, ◌≡◌, refl, sym, ap, ◌∙◌, Bool, true, false, not, ◌||◌, none, some, List, [], ◌∷◌, any,
  find, str_eq, mem_str, insert, arith, eq_iff, Bool-cases, inl, inr,
}
use sopara.Prelude.Int.{ℤ}
use sopara.Errors.{ok, >>=-returned, raise_when-returned, value_error}
use sopara.Evidence.{EvidenceClass}
use sopara.Stores.{StoredObject}
use sopara.Canonical.{Object, string, canonical_sha256}
use sopara.Canonical.Json.{Value}
use sopara.Runs.{running, RunRow, ReplayRun, Tables, one, has_id, update_run}
use sopara.Runs.Records.{
  stable_uuid, save_records, save_items, table_rows, insert_record, record_table_names,
}
use sopara.Runs.Repository.{
  run, save_checkpoint, create_run, is_state, with_run, at_checkpoint, always, new_run,
  has_identity, run_by_identity, schema_id_of, market_row, insert_market_object,
}
use sopara.Runs.Outcomes.{
  complete, record_reconciliation, reconcile_run, completed_values, reconciled_values,
}
use sopara.Runs.Moves.{one-ok, Moves, Change, update_run-Change, update_run-find, Touches}
use sopara.Runs.Methods.{is_state-eq}
use sopara.Runs.Saving.{save_checkpoint-Saved}

reconciled_values-Moves :
    (accepted : Bool) (r : ReplayRun) → Moves r.row.state (reconciled_values accepted r).row.state
reconciled_values-Moves true r = Moves.reconciles r.row.state
reconciled_values-Moves false r = Moves.fails r.row.state

reconcile_run-Change :
    (tables : Tables) (run_id : String) (accepted finalize : Bool) {next : Tables} {row : RunRow}
    → reconcile_run tables run_id accepted finalize ≡ ok (next, row)
    → Touches tables next
unfolding reconcile_run
reconcile_run-Change tables run_id accepted finalize {next} {row} h =
    elim (Bool-cases (finalize || not accepted)) [
      | inr open_ ↦
          let (found, e, done) =
            >>=-returned {W = Tables × RunRow} (run tables run_id) (λ row. ok (tables, row))
              {w = (next, row)} (ground (arith, open_)) in
          let same : next ≡ tables = ground (arith, done) in
          record {
            unsaved = ground (arith, same);
            changes = λ j. rw same (Change.kept (find (has_id j) tables.runs));
          }
      | inl settles ↦
          let ((r, runs), e, done) =
            >>=-returned {W = Tables × RunRow}
              (one (update_run run_id always (reconciled_values accepted) tables.runs))
              (λ changed. ok (with_run tables changed)) {w = (next, row)}
              (ground (arith, settles)) in
          let left : next.runs ≡ runs = ground (arith, done) in
          record {
            unsaved = ground (arith, done);
            changes = λ j. rw left (
                update_run-Change run_id always (reconciled_values accepted) tables.runs
                  (record {
                    named = λ r. ground arith;
                    indexed = λ r. ground arith;
                    hashed = λ r. ground arith;
                    counted = λ r. ground arith;
                    moves = λ old found fits. reconciled_values-Moves accepted old;
                  })
                  (one-ok _ e) j);
          }
    ]

find-none : {A : Type 0} (p : A → Bool) (xs : List A) → any p xs ≡ false → find p xs ≡ none
find-none p [] h = refl
find-none p (x ∷ xs) h = ground (arith, find-none p xs)

pub create_run-Change :
    (tables : Tables) (run_id dataset_hash experiment_hash runtime_hash : String)
    (c : EvidenceClass) {next : Tables} {row : RunRow}
    → create_run tables run_id dataset_hash experiment_hash runtime_hash c ≡ ok (next, row)
    → Touches tables next
unfolding create_run
create_run-Change tables run_id dataset_hash experiment_hash runtime_hash c {next} {row} h =
    elim (Bool-cases (any (has_identity dataset_hash experiment_hash runtime_hash) tables.runs)) [
      | inl there ↦
          let (found, e, done) =
            >>=-returned {W = Tables × RunRow}
              (run_by_identity tables dataset_hash experiment_hash runtime_hash)
              (λ row. ok (tables, row)) {w = (next, row)} (ground (arith, there)) in
          let same : next ≡ tables = ground (arith, done) in
          record {
            unsaved = ground (arith, same);
            changes = λ j. rw same (Change.kept (find (has_id j) tables.runs));
          }
      | inr absent ↦ elim (Bool-cases (any (has_id run_id) tables.runs)) [
        | inl taken ↦ absurd (ground (arith, absent, taken))
        | inr free ↦
            let new = new_run run_id dataset_hash experiment_hash runtime_hash c in
            let (found, e, done) =
              >>=-returned {W = Tables × RunRow}
                (run_by_identity (record tables { runs = new ∷ tables.runs }) dataset_hash
                  experiment_hash runtime_hash)
                (λ row. ok (record tables { runs = new ∷ tables.runs }, row)) {w = (next, row)}
                (ground (arith, absent, free)) in
            let left : next.runs ≡ new ∷ tables.runs = ground (arith, done) in
            record {
              unsaved = ground (arith, done);
              changes = λ j. elim (Bool-cases (str_eq run_id j)) [
                | inr other ↦
                    let same : find (has_id j) next.runs ≡ find (has_id j) tables.runs =
                      ground (arith, left, other) in
                    rw same (Change.kept (find (has_id j) tables.runs))
                | inl mine ↦
                    let id : run_id ≡ j = (eq_iff run_id j).0 mine in
                    let before : find (has_id j) tables.runs ≡ none =
                      ap (λ (k : String). find (has_id k) tables.runs) (sym id)
                      ∙ find-none (has_id run_id) tables.runs free in
                    let after : find (has_id j) next.runs ≡ some new = ground (arith, left, mine) in
                    rw (before, after) (Change.made new refl refl refl refl)
              ];
            }
      ]
    ]

module _ (sha256 uuid : String → String) where
  pub save_checkpoint-Change :
      (tables : Tables) (run_id : String) (input_index : ℤ) (input_key : String)
      (watermarks engine_state : Value)
      (engine_state_hash preceding runtime checkpoint_hash : String) {next : Tables}
      → save_checkpoint sha256 uuid tables run_id input_index input_key watermarks engine_state
          engine_state_hash preceding runtime checkpoint_hash
        ≡ ok next
      → (j : String) → Change true (find (has_id j) tables.runs) (find (has_id j) next.runs)
  save_checkpoint-Change tables run_id input_index input_key watermarks engine_state
        engine_state_hash preceding runtime checkpoint_hash {next} h j =
      let s =
        save_checkpoint-Saved sha256 uuid tables run_id input_index input_key watermarks
          engine_state engine_state_hash preceding runtime checkpoint_hash h in
      let (old, found, fits, same, finds) =
        update_run-find run_id always (at_checkpoint input_index checkpoint_hash) tables.runs
          (λ r. refl) s.updated in
      elim (Bool-cases (str_eq run_id j)) [
        | inr other ↦
            let e : find (has_id j) next.runs ≡ find (has_id j) tables.runs =
              ground (arith, s.left_runs, finds j, other) in
            rw e (Change.kept (find (has_id j) tables.runs))
        | inl mine ↦
            let new = at_checkpoint input_index checkpoint_hash old in
            let id : run_id ≡ j = (eq_iff run_id j).0 mine in
            let before : find (has_id j) tables.runs ≡ some old =
              ap (λ (k : String). find (has_id k) tables.runs) (sym id) ∙ found in
            let after : find (has_id j) next.runs ≡ some new =
              ground (arith, s.left_runs, finds j, mine, same) in
            let going : old.row.state ≡ running = ground (arith, s.found, s.going, found) in
            rw (before, after) (Change.saved old new refl (rw going Moves.goes_on) refl)
      ]

  save_records-runs :
      (run_id : String) (c : EvidenceClass) (items : List (String × List Object)) (tables : Tables)
      {next : Tables}
      → save_records sha256 uuid run_id c items tables ≡ ok next
      → (next.runs ≡ tables.runs) × (next.checkpoints ≡ tables.checkpoints)
  unfolding save_records
  save_records-runs run_id c [] tables h = ground arith
  save_records-runs run_id c ((name, objects) ∷ rest) tables {next} h =
      elim (Bool-cases (mem_str name record_table_names)) [
        | inr unknown ↦ absurd (ground (arith, unknown))
        | inl known ↦
            let (rows, saved, more) =
              >>=-returned (save_items sha256 uuid name run_id c objects (table_rows tables name))
                (λ rows.
                  save_records sha256 uuid run_id c rest
                    (record tables { record_tables = insert name rows tables.record_tables }))
                {w = next} (ground (arith, known)) in
            save_records-runs run_id c rest
              (record tables { record_tables = insert name rows tables.record_tables }) more
      ]

  pub complete-Change :
      (tables : Tables) (run_id : String) (c : EvidenceClass) (result_object : StoredObject)
      (result_hash : String) (items : List (String × List Object)) {next : Tables} {row : RunRow}
      → complete sha256 uuid tables run_id c result_object result_hash items ≡ ok (next, row)
      → Touches tables next
  unfolding complete
  complete-Change tables run_id c result_object result_hash items {next} {row} h =
      let (locked, at, h1) = >>=-returned (one (find (has_id run_id) tables.runs)) _ h in
      let (going, h2) =
        raise_when-returned (not (is_state locked.row.state running))
          (value_error "completion requires a running replay") _ h1 in
      let (object_id, named, h3) =
        >>=-returned (stable_uuid sha256 uuid "replay-result-object" (string result_object.key)) _
          h2 in
      let (schema, e3, h4) = >>=-returned (schema_id_of result_object) _ h3 in
      let (objects, e4, h5) =
        >>=-returned
          (insert_market_object (market_row object_id result_object schema c) tables.market_objects)
          _ h4 in
      let (saved, e5, h6) =
        >>=-returned
          (save_records sha256 uuid run_id c items (record tables { market_objects = objects })) _
          h5 in
      let ((r, runs), e, done) =
        >>=-returned
          (one (update_run run_id always (completed_values result_object result_hash) saved.runs)) _
          h6 in
      let left : next.runs ≡ runs = ground (arith, done) in
      let (same, unsaved) =
        save_records-runs run_id c items (record tables { market_objects = objects }) e5 in
      let locked_found = one-ok _ at in
      let updated : update_run run_id always (completed_values result_object result_hash)
            tables.runs
          ≡ some (r, runs) =
        rw same at (one-ok _ e) in
      record {
        unsaved = ground (arith, done, unsaved);
        changes = λ j. rw left (
            update_run-Change run_id always (completed_values result_object result_hash) tables.runs
              (record {
                named = λ r. refl;
                indexed = λ r. refl;
                hashed = λ r. refl;
                counted = λ r. refl;
                moves = λ old found fits.
                    let going_eq = is_state-eq locked.row.state running (ground arith) in
                    let s : old.row.state ≡ running = ground (arith, locked_found, going_eq) in
                    rw s Moves.completes;
              })
              updated j);
      }

  pub record_reconciliation-Change :
      (tables : Tables) (run_id : String) (c : EvidenceClass) (payload : Object)
      (accepted finalize : Bool) {next : Tables} {row : RunRow}
      → record_reconciliation sha256 uuid tables run_id c payload accepted finalize ≡ ok (next, row)
      → Touches tables next
  unfolding record_reconciliation
  record_reconciliation-Change tables run_id c payload accepted finalize {next} {row} h =
      let (payload_hash, e1, h1) = >>=-returned (canonical_sha256 sha256 payload) _ h in
      let (record_id, e2, h2) =
        >>=-returned (stable_uuid sha256 uuid "reconciliation" (string payload_hash)) _ h1 in
      let (rows, e3, h3) =
        >>=-returned
          (insert_record
            (record {
              record_id = record_id;
              aggregate_id = run_id;
              evidence_class = some c;
              payload = payload;
              payload_hash = payload_hash;
            })
            (table_rows tables "reconciliation"))
          _ h2 in
      let t =
        reconcile_run-Change
          (record tables { record_tables = insert "reconciliation" rows tables.record_tables })
          run_id accepted finalize h3 in
      record { unsaved = t.unsaved; changes = t.changes }

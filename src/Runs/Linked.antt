-- ===== src/Runs/Linked.antt =====
-- adapters/database/historical.py: the checkpoints of the runs, whatever methods are called.
use sopara.Prelude.{
  String, ◌≡◌, refl, sym, ap, ◌∙◌, false, Option, none, some, List, [], ◌∷◌, find, str_eq, arith,
  Bool-cases, inl, inr,
}
use sopara.Prelude.Int.{ℤ}
use sopara.Errors.{Result-cases, ok}
use sopara.Canonical.Json.{Value}
use sopara.Runs.{ReplayRun, CheckpointRow, Tables, has_id}
use sopara.Runs.Repository.{begin, save_checkpoint, create_run, at_checkpoint, always}
use sopara.Runs.Outcomes.{interrupt, fail, complete, record_reconciliation}
use sopara.Runs.Moves.{Change, Touches, update_run-find}
use sopara.Runs.Methods.{begin-Change, interrupt-Change, fail-Change}
use sopara.Runs.Passages.{create_run-Change, complete-Change, record_reconciliation-Change}
use sopara.Runs.Saving.{save_checkpoint-Saved}
use sopara.Runs.Chain.{saved_of, IsChained, AreChained, find-run_id, save_checkpoint-AreChained}
use sopara.Runs.Calls.{
  Method, creating, beginning, saving, interrupting, failing, completing, reconciling, call, calls,
  tables_of-ok,
}

-- The runs are chained, and a run that is not there has no checkpoints.
pub record AreLinked (tables : Tables) : Type 0 where
  pub linked : AreChained tables
  pub unborn :
      (j : String) → find (has_id j) tables.runs ≡ none → saved_of j tables.checkpoints ≡ []

Change-IsChained :
    (tables next : Tables) (j : String) {before after : Option ReplayRun} (r : ReplayRun)
    → AreLinked tables
    → next.checkpoints ≡ tables.checkpoints
    → r.row.run_id ≡ j
    → Change false before after
    → find (has_id j) tables.runs ≡ before
    → after ≡ some r
    → IsChained next r
Change-IsChained tables next j r v same id (Change.kept o) b a =
    let c = v.linked.chained j r (b ∙ a) in
    record {
      count = c.count;
      last = c.last;
      counts = rw same (c.counts);
      named = rw same (c.named);
    }
Change-IsChained tables next j r v same id (Change.made new s version last hash) b a =
    let e : new ≡ r = ground arith in
    let bare : saved_of r.row.run_id next.checkpoints ≡ [] =
      ap (λ (cs : List CheckpointRow). saved_of r.row.run_id cs) same
      ∙ ap (λ (k : String). saved_of k tables.checkpoints) id
      ∙ v.unborn j b in
    record {
      count = 0;
      last = ground (arith, last, e);
      counts = rw bare tt;
      named = ground (arith, bare, hash, e);
    }
Change-IsChained tables next j r v same id (Change.moved old new m version n last hash) b a =
    let e : new ≡ r = ground arith in
    let c = v.linked.chained j old b in
    let keyed : old.row.run_id ≡ r.row.run_id = ground (arith, n, e) in
    let whole : saved_of r.row.run_id next.checkpoints
        ≡ saved_of old.row.run_id tables.checkpoints =
      ap (λ (cs : List CheckpointRow). saved_of r.row.run_id cs) same
      ∙ ap (λ (k : String). saved_of k tables.checkpoints) (sym keyed) in
    record {
      count = c.count;
      last = ground (arith, c.last, last, e);
      counts = rw whole (c.counts);
      named = ground (arith, c.named, hash, e, whole);
    }
Change-IsChained tables next j r v same id (Change.saved old new never m version) b a = cc

Change-none :
    {before after : Option ReplayRun} → Change false before after → after ≡ none → before ≡ none
Change-none (Change.kept o) h = h
Change-none (Change.made new s v i c) h = refl
Change-none (Change.moved old new m v n i c) h = cc
Change-none (Change.saved old new never m v) h = cc

Touches-AreLinked : (tables next : Tables) → AreLinked tables → Touches tables next → AreLinked next
Touches-AreLinked tables next v t = record {
  linked = record {
    chained = λ j r found.
        Change-IsChained tables next j r v t.unsaved (find-run_id next.runs j found) (t.changes j)
          refl found;
  };
  unborn = λ j h.
      ap (λ (cs : List CheckpointRow). saved_of j cs) t.unsaved
      ∙ v.unborn j (Change-none (t.changes j) h);
}

module _ (sha256 uuid : String → String) where
  save_checkpoint-AreLinked :
      (tables : Tables) (run_id : String) (input_index : ℤ) (input_key : String)
      (watermarks engine_state : Value)
      (engine_state_hash preceding runtime checkpoint_hash : String) {next : Tables}
      → AreLinked tables
      → save_checkpoint sha256 uuid tables run_id input_index input_key watermarks engine_state
          engine_state_hash preceding runtime checkpoint_hash
        ≡ ok next
      → AreLinked next
  unfolding saved_of
  save_checkpoint-AreLinked tables run_id input_index input_key watermarks engine_state
        engine_state_hash preceding runtime checkpoint_hash {next} v h =
      let s =
        save_checkpoint-Saved sha256 uuid tables run_id input_index input_key watermarks
          engine_state engine_state_hash preceding runtime checkpoint_hash h in
      let (old, found, fits, same, finds) =
        update_run-find run_id always (at_checkpoint input_index checkpoint_hash) tables.runs
          (λ r. refl) s.updated in
      record {
        linked =
            save_checkpoint-AreChained sha256 uuid tables run_id input_index input_key watermarks
              engine_state engine_state_hash preceding runtime checkpoint_hash v.linked h;
        unborn = λ j absent. elim (Bool-cases (str_eq run_id j)) [
          | inl mine ↦ absurd (ground (arith, absent, s.left_runs, finds j, mine))
          | inr other ↦
              let before : find (has_id j) tables.runs ≡ none =
                ground (arith, absent, s.left_runs, finds j, other) in
              ground (arith, s.left_checkpoints, other, v.unborn j before)
        ];
      }

  call-AreLinked :
      (tables : Tables) (m : Method) {next : Tables}
      → AreLinked tables
      → call sha256 uuid tables m ≡ ok next
      → AreLinked next
  unfolding call
  call-AreLinked tables (creating run_id dataset_hash experiment_hash runtime_hash c) {next} v h =
      let (row, e) =
        tables_of-ok (create_run tables run_id dataset_hash experiment_hash runtime_hash c) h in
      Touches-AreLinked tables next v
        (create_run-Change tables run_id dataset_hash experiment_hash runtime_hash c e)
  call-AreLinked tables (beginning run_id allow_resume) {next} v h =
      let (row, e) = tables_of-ok (begin tables run_id allow_resume) h in
      Touches-AreLinked tables next v (begin-Change tables run_id allow_resume e)
  call-AreLinked tables
        (saving run_id input_index input_key watermarks engine_state engine_state_hash preceding
          runtime checkpoint_hash)
        v h =
      save_checkpoint-AreLinked tables run_id input_index input_key watermarks engine_state
        engine_state_hash preceding runtime checkpoint_hash v h
  call-AreLinked tables (interrupting run_id) {next} v h =
      let (row, e) = tables_of-ok (interrupt tables run_id) h in
      Touches-AreLinked tables next v (interrupt-Change tables run_id e)
  call-AreLinked tables (failing run_id reason) {next} v h =
      let (row, e) = tables_of-ok (fail tables run_id reason) h in
      Touches-AreLinked tables next v (fail-Change tables run_id reason e)
  call-AreLinked tables (completing run_id c result_object result_hash items) {next} v h =
      let (row, e) =
        tables_of-ok (complete sha256 uuid tables run_id c result_object result_hash items) h in
      Touches-AreLinked tables next v
        (complete-Change sha256 uuid tables run_id c result_object result_hash items e)
  call-AreLinked tables (reconciling run_id c payload accepted finalize) {next} v h =
      let (row, e) =
        tables_of-ok (record_reconciliation sha256 uuid tables run_id c payload accepted finalize)
          h in
      Touches-AreLinked tables next v
        (record_reconciliation-Change sha256 uuid tables run_id c payload accepted finalize e)

  -- Whatever the methods are called with, and in whatever order, the tables stay linked: the
  -- checkpoints of every run are numbered from 0 with no gap, the run's last input index and
  -- checkpoint hash are those of the newest, or -1 and none, and a run that is not in the table has no
  -- checkpoints.
  pub calls-AreLinked :
      (ms : List Method) (tables : Tables)
      → AreLinked tables
      → AreLinked (calls sha256 uuid tables ms)
  unfolding calls
  calls-AreLinked [] tables v = v
  calls-AreLinked (m ∷ ms) tables v = elim (Result-cases (call sha256 uuid tables m)) [
    | inl (raised, e) ↦
        let rolled : calls sha256 uuid tables (m ∷ ms) ≡ calls sha256 uuid tables ms =
          ground (arith, e) in
        rw rolled (calls-AreLinked ms tables v)
    | inr (next, e) ↦
        let done : calls sha256 uuid tables (m ∷ ms) ≡ calls sha256 uuid next ms =
          ground (arith, e) in
        rw done (calls-AreLinked ms next (call-AreLinked tables m v e))
  ]

-- ===== src/Runs/Saving.antt =====
-- adapters/database/historical.py: what `save_checkpoint` has checked and left when it returns.
use sopara.Prelude.{String, ◌≡◌, not, some, List, ◌∷◌, find, arith}
use sopara.Prelude.Int.{ℤ, pos, ◌+ℤ◌, ◌==ℤ◌, ==ℤ_iff}
use sopara.Errors.{ok, >>=-returned, raise_when-returned, value_error, integrity_error}
use sopara.Canonical.{string}
use sopara.Canonical.Json.{Value}
use sopara.Runs.{running, ReplayRun, Tables, one, has_id, update_run}
use sopara.Runs.Records.{stable_uuid}
use sopara.Runs.Repository.{
  save_checkpoint, is_state, at_checkpoint, always, admits_checkpoint, checkpoint_row,
}
use sopara.Runs.Moves.{one-ok}
use sopara.Runs.Methods.{is_state-eq}

module _ (sha256 uuid : String → String) (tables : Tables) (run_id : String) (input_index : ℤ)
    (input_key : String) (watermarks engine_state : Value)
    (engine_state_hash preceding runtime checkpoint_hash : String) where
  pub record Saved (next : Tables) : Type 0 where
    pub checkpoint_id : String
    pub locked : ReplayRun
    pub found : find (has_id run_id) tables.runs ≡ some locked
    pub going : locked.row.state ≡ running
    pub follows : input_index ≡ locked.row.last_input_index +ℤ pos 1
    pub row : ReplayRun
    pub runs : List ReplayRun
    pub updated :
        update_run run_id always (at_checkpoint input_index checkpoint_hash) tables.runs
        ≡ some (row, runs)
    pub left_runs : next.runs ≡ runs
    pub left_checkpoints :
        next.checkpoints
        ≡ checkpoint_row checkpoint_id run_id input_index input_key watermarks engine_state
            engine_state_hash preceding runtime checkpoint_hash
          ∷ tables.checkpoints

  pub save_checkpoint-Saved :
      {next : Tables}
      → save_checkpoint sha256 uuid tables run_id input_index input_key watermarks engine_state
          engine_state_hash preceding runtime checkpoint_hash
        ≡ ok next
      → Saved next
  unfolding save_checkpoint
  save_checkpoint-Saved {next} h =
      let (checkpoint_id, named, h1) =
        >>=-returned (stable_uuid sha256 uuid "replay-checkpoint" (string checkpoint_hash)) _ h in
      let (locked, at, h2) = >>=-returned (one (find (has_id run_id) tables.runs)) _ h1 in
      let (going, h3) =
        raise_when-returned (not (is_state locked.row.state running))
          (value_error "checkpoint requires a running replay") _ h2 in
      let (follows, h4) =
        raise_when-returned (not (input_index ==ℤ locked.row.last_input_index +ℤ pos 1))
          (value_error "checkpoint input index is not the next durable event") _ h3 in
      let (admitted, h5) =
        raise_when-returned
          (not (
            admits_checkpoint tables.checkpoints (
              checkpoint_row checkpoint_id run_id input_index input_key watermarks engine_state
                engine_state_hash preceding runtime checkpoint_hash)))
          integrity_error _ h4 in
      let ((r, runs), e, done) =
        >>=-returned
          (one (update_run run_id always (at_checkpoint input_index checkpoint_hash) tables.runs)) _
          h5 in
      record {
        checkpoint_id = checkpoint_id;
        locked = locked;
        found = one-ok _ at;
        going = is_state-eq locked.row.state running (ground arith);
        follows = ground (arith, ==ℤ_iff input_index (locked.row.last_input_index +ℤ pos 1));
        row = r;
        runs = runs;
        updated = one-ok _ e;
        left_runs = ground (arith, done);
        left_checkpoints = ground (arith, done);
      }

-- ===== src/Runs/Moves.antt =====
-- adapters/database/historical.py: how the methods change the runs.
use sopara.Prelude.Int.{negsuc}
use sopara.Prelude.{
  ◌+◌, String, ◌≡◌, Bool, true, Option, none, some, List, [], ◌∷◌, find, str_eq, if◌then◌else◌,
  arith, eq_iff, Bool-cases, Option-cases, inl, inr, ap, sym, ◌∙◌, false,
}
use sopara.Errors.{ok}
use sopara.Runs.{
  RunState, created, running, interrupted, completed, reconciled, failed, ReplayRun, one, has_id,
  update_run, Tables,
}

pub one-ok : {A : Type 0} (o : Option A) {a : A} → one o ≡ ok a → o ≡ some a
one-ok none h = cc
one-ok (some b) h = ground arith

-- An update changes the run that it names, where the run passes the test, and no other.
pub update_run-find :
    (run_id : String) (test : ReplayRun → Bool) (change : ReplayRun → ReplayRun)
    (runs : List ReplayRun) {row : ReplayRun} {changed : List ReplayRun}
    → ((r : ReplayRun) → (change r).row.run_id ≡ r.row.run_id)
    → update_run run_id test change runs ≡ some (row, changed)
    → (old : ReplayRun) × (find (has_id run_id) runs ≡ some old)
      × (test old ≡ true)
      × (row ≡ change old)
      × ((j : String)
          → find (has_id j) changed ≡ (if str_eq run_id j then some row else find (has_id j) runs))
unfolding update_run
update_run-find run_id test change [] named h = cc
update_run-find run_id test change (r ∷ rest) {row} {changed} named h =
    elim (Bool-cases (has_id run_id r)) [
      | inl mine ↦ elim (Bool-cases (test r)) [
        | inr refused ↦ absurd (ground (arith, mine, refused))
        | inl fits ↦ (
          r,
          ground (arith, mine),
          fits,
          ground (arith, mine, fits),
          λ j. ground (
            arith,
            mine,
            fits,
            named r,
            eq_iff r.row.run_id run_id,
            eq_iff run_id j,
            eq_iff r.row.run_id j,
            eq_iff (change r).row.run_id j,
          ),
        )
      ]
      | inr other ↦ elim (Option-cases (update_run run_id test change rest)) [
        | inl stuck ↦ absurd (ground (arith, other, stuck))
        | inr ((row', later), e) ↦
            let (old, found, fits, same, finds) =
              update_run-find run_id test change rest {row = row'} {changed = later} named e in
            (
              old,
              ground (arith, other),
              fits,
              ground (arith, other, e),
              λ j. ground (
                arith,
                other,
                e,
                finds j,
                eq_iff r.row.run_id run_id,
                eq_iff run_id j,
                eq_iff r.row.run_id j,
              ),
            )
      ]
    ]

-- The passages of a run's state. The repository fails and reconciles a run in any state.
pub data Moves : RunState → RunState → Type 0 where
  begins : Moves created running
  resumes : Moves interrupted running
  goes_on : Moves running running
  interrupts : Moves running interrupted
  completes : Moves running completed
  fails : (s : RunState) → Moves s failed
  reconciles : (s : RunState) → Moves s reconciled

-- The run under an id before and after a method; only a checkpoint that is saved changes what the run
-- says of its checkpoints.
pub data Change (saving : Bool) : Option ReplayRun → Option ReplayRun → Type 0 where
  kept : (o : Option ReplayRun) → Change saving o o
  made :
      (new : ReplayRun)
      → new.row.state ≡ created
      → new.row.row_version ≡ 1
      → new.row.last_input_index ≡ negsuc 0
      → new.row.checkpoint_hash ≡ none
      → Change saving none (some new)
  moved :
      (old new : ReplayRun)
      → Moves old.row.state new.row.state
      → new.row.row_version ≡ old.row.row_version + 1
      → new.row.run_id ≡ old.row.run_id
      → new.row.last_input_index ≡ old.row.last_input_index
      → new.row.checkpoint_hash ≡ old.row.checkpoint_hash
      → Change saving (some old) (some new)
  saved :
      (old new : ReplayRun)
      → saving ≡ true
      → Moves old.row.state new.row.state
      → new.row.row_version ≡ old.row.row_version + 1
      → Change saving (some old) (some new)

-- The tables after a method that saves no checkpoint.
pub record Touches (tables next : Tables) : Type 0 where
  pub unsaved : next.checkpoints ≡ tables.checkpoints
  pub changes :
      (j : String) → Change false (find (has_id j) tables.runs) (find (has_id j) next.runs)

-- What an update must be for each row that it changes.
pub record IsMove (run_id : String) (runs : List ReplayRun) (test : ReplayRun → Bool)
    (change : ReplayRun → ReplayRun) : Type 0 where
  pub named : (r : ReplayRun) → (change r).row.run_id ≡ r.row.run_id
  pub indexed : (r : ReplayRun) → (change r).row.last_input_index ≡ r.row.last_input_index
  pub hashed : (r : ReplayRun) → (change r).row.checkpoint_hash ≡ r.row.checkpoint_hash
  pub counted : (r : ReplayRun) → (change r).row.row_version ≡ r.row.row_version + 1
  pub moves :
      (old : ReplayRun)
      → find (has_id run_id) runs ≡ some old
      → test old ≡ true
      → Moves old.row.state (change old).row.state

pub update_run-Change :
    (run_id : String) (test : ReplayRun → Bool) (change : ReplayRun → ReplayRun)
    (runs : List ReplayRun) {row : ReplayRun} {changed : List ReplayRun}
    → IsMove run_id runs test change
    → update_run run_id test change runs ≡ some (row, changed)
    → (j : String) → Change false (find (has_id j) runs) (find (has_id j) changed)
update_run-Change run_id test change runs {row} {changed} m h j =
    let (old, found, fits, same, finds) = update_run-find run_id test change runs m.named h in
    elim (Bool-cases (str_eq run_id j)) [
      | inr other ↦
          let e : find (has_id j) changed ≡ find (has_id j) runs = ground (arith, finds j, other) in
          rw e (kept (find (has_id j) runs))
      | inl mine ↦
          let e : find (has_id j) changed ≡ some (change old) =
            ground (arith, finds j, mine, same) in
          let id : run_id ≡ j = (eq_iff run_id j).0 mine in
          let f : find (has_id j) runs ≡ some old =
            ap (λ (k : String). find (has_id k) runs) (sym id) ∙ found in
          rw (e, f)
            (moved old (change old) (m.moves old found fits) (m.counted old) (m.named old)
              (m.indexed old) (m.hashed old))
    ]

-- A change that saves no checkpoint is one that may save one.
pub may_save :
    {before after : Option ReplayRun} → Change false before after → Change true before after
may_save (Change.kept o) = Change.kept o
may_save (Change.made new s v i c) = Change.made new s v i c
may_save (Change.moved old new m v n i c) = Change.moved old new m v n i c
may_save (Change.saved old new never m v) = cc

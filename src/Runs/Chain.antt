-- ===== src/Runs/Chain.antt =====
-- adapters/database/historical.py: the checkpoints of a run are numbered from 0 with no gap, and the run
-- names the last of them.
use sopara.Prelude.{
  ℕ, zero, suc, String, ◌≡◌, refl, Option, none, some, List, [], ◌∷◌, find, str_eq, if◌then◌else◌,
  arith, eq_iff, Bool-cases, inl, inr,
}
use sopara.Prelude.Int.{ℤ, pos, negsuc, ◌+ℤ◌}
use sopara.Errors.{ok}
use sopara.Canonical.Json.{Value}
use sopara.Runs.{ReplayRun, CheckpointRow, Tables, has_id}
use sopara.Runs.Repository.{save_checkpoint, at_checkpoint, always, checkpoint_row}
use sopara.Runs.Moves.{update_run-find}
use sopara.Runs.Saving.{save_checkpoint-Saved}

-- The checkpoints of a run, the newest first.
unfoldable pub saved_of : String → List CheckpointRow → List CheckpointRow
saved_of run_id [] = []
saved_of run_id (c ∷ rest) =
    let others = saved_of run_id rest in if str_eq c.run_id run_id then c ∷ others else others

-- Numbered n - 1, …, 0.
abbrev pub CountsDown : ℕ → List CheckpointRow → Type 0
CountsDown zero [] = Unit
CountsDown zero (c ∷ rest) = ⊥
CountsDown (suc n) [] = ⊥
CountsDown (suc n) (c ∷ rest) = (c.input_index ≡ pos n) × CountsDown n rest

-- The index before the n-th: -1 for n = 0.
abbrev pub index_before : ℕ → ℤ
index_before zero = negsuc 0
index_before (suc n) = pos n

abbrev pub newest_hash : List CheckpointRow → Option String
newest_hash [] = none
newest_hash (c ∷ rest) = some c.checkpoint_hash

-- What the run says of its checkpoints.
pub record IsChained (tables : Tables) (r : ReplayRun) : Type 0 where
  pub count : ℕ
  pub last : r.row.last_input_index ≡ index_before count
  pub counts : CountsDown count (saved_of r.row.run_id tables.checkpoints)
  pub named : r.row.checkpoint_hash ≡ newest_hash (saved_of r.row.run_id tables.checkpoints)

pub record AreChained (tables : Tables) : Type 0 where
  pub chained :
      (j : String) (r : ReplayRun) → find (has_id j) tables.runs ≡ some r → IsChained tables r

after_index : (n : ℕ) → index_before n +ℤ pos 1 ≡ pos n
unfolding ◌+ℤ◌
after_index zero = refl
after_index (suc n) = ground arith

pub find-run_id :
    (runs : List ReplayRun) (j : String) {r : ReplayRun}
    → find (has_id j) runs ≡ some r
    → r.row.run_id ≡ j
find-run_id [] j h = cc
find-run_id (q ∷ runs) j {r} h = elim (Bool-cases (has_id j q)) [
  | inl mine ↦ ground (arith, mine, eq_iff q.row.run_id j)
  | inr other ↦ find-run_id runs j {r = r} (ground (arith, other))
]

module _ (sha256 uuid : String → String) (tables : Tables) (run_id : String) (input_index : ℤ)
    (input_key : String) (watermarks engine_state : Value)
    (engine_state_hash preceding runtime checkpoint_hash : String) where
  pub save_checkpoint-AreChained :
      {next : Tables}
      → AreChained tables
      → save_checkpoint sha256 uuid tables run_id input_index input_key watermarks engine_state
          engine_state_hash preceding runtime checkpoint_hash
        ≡ ok next
      → AreChained next
  unfolding saved_of
  save_checkpoint-AreChained {next} v h =
      let s =
        save_checkpoint-Saved sha256 uuid tables run_id input_index input_key watermarks
          engine_state engine_state_hash preceding runtime checkpoint_hash h in
      let (old, found, fits, same, finds) =
        update_run-find run_id always (at_checkpoint input_index checkpoint_hash) tables.runs
          (λ r. refl) s.updated in
      record {
        chained = λ j r there. elim (Bool-cases (str_eq run_id j)) [
          | inr other ↦
              let before : find (has_id j) tables.runs ≡ some r =
                ground (arith, s.left_runs, finds j, other) in
              let c = v.chained j r before in
              let id = find-run_id tables.runs j before in
              let e : saved_of r.row.run_id next.checkpoints
                  ≡ saved_of r.row.run_id tables.checkpoints =
                ground (arith, s.left_checkpoints, other, id) in
              record {
                count = c.count;
                last = c.last;
                counts = rw e (c.counts);
                named = rw e (c.named);
              }
          | inl mine ↦
              let now : r ≡ at_checkpoint input_index checkpoint_hash old =
                ground (arith, s.left_runs, finds j, mine, same) in
              let c = v.chained run_id old found in
              let id = find-run_id tables.runs run_id found in
              let e : saved_of r.row.run_id next.checkpoints
                  ≡ checkpoint_row s.checkpoint_id run_id input_index input_key watermarks
                      engine_state engine_state_hash preceding runtime checkpoint_hash
                    ∷ saved_of old.row.run_id tables.checkpoints =
                ground (arith, s.left_checkpoints, now, id, eq_iff run_id old.row.run_id) in
              let locked : s.locked ≡ old = ground (arith, s.found, found) in
              let index : input_index ≡ pos c.count =
                ground (arith, s.follows, locked, c.last, after_index c.count) in
              record {
                count = suc c.count;
                last = ground (arith, now, index);
                counts = rw e (index, c.counts);
                named = ground (arith, now, e);
              }
        ];
      }

-- ===== src/Runs/Order.antt =====
-- adapters/database/historical.py: the checkpoints are read in the order in which they were saved.
use sopara.Prelude.{
  ℕ, zero, suc, ◌<◌, String, ◌≡◌, refl, ap, ◌∙◌, Option, none, some, List, [], ◌∷◌, ◌++◌, find,
  str_eq, arith, Bool-cases, inl, inr, All,
}
use sopara.Prelude.Search.{reversed, All-reversed}
use sopara.Prelude.Int.{pos}
use sopara.Runs.{ReplayRun, CheckpointRow, Tables, has_id}
use sopara.Runs.Outcomes.{
  insert_checkpoint, checkpoints_of, checkpoints, latest_checkpoint, last_of,
}
use sopara.Runs.Chain.{saved_of, CountsDown, AreChained}

abbrev Below : ℕ → CheckpointRow → Type 0
Below n c = (k : ℕ) × (c.input_index ≡ pos k) × (k < n)

insert-last :
    (n : ℕ) (c : CheckpointRow) (cs : List CheckpointRow)
    → c.input_index ≡ pos n
    → All (Below n) cs
    → insert_checkpoint c cs ≡ cs ++ c ∷ []
unfolding insert_checkpoint
insert-last n c [] at b = refl
insert-last n c (d ∷ cs) at ((k, e, lt), b) = ground (arith, at, e, lt, insert-last n c cs at b)

weaken : (n : ℕ) (cs : List CheckpointRow) → All (Below n) cs → All (Below (suc n)) cs
weaken n [] b = tt
weaken n (c ∷ cs) ((k, e, lt), b) = ((k, e, omega arith), weaken n cs b)

CountsDown-Below : (n : ℕ) (cs : List CheckpointRow) → CountsDown n cs → All (Below n) cs
CountsDown-Below zero [] d = tt
CountsDown-Below zero (c ∷ cs) d = absurd d
CountsDown-Below (suc n) [] d = tt
CountsDown-Below (suc n) (c ∷ cs) (e, d) =
    ((n, e, omega arith), weaken n cs (CountsDown-Below n cs d))

checkpoints_of-reversed :
    (n : ℕ) (run_id : String) (cs : List CheckpointRow)
    → CountsDown n (saved_of run_id cs)
    → checkpoints_of run_id cs ≡ reversed (saved_of run_id cs)
unfolding checkpoints_of saved_of reversed
checkpoints_of-reversed n run_id [] d = refl
checkpoints_of-reversed zero run_id (c ∷ cs) d = elim (Bool-cases (str_eq c.run_id run_id)) [
  | inl mine ↦ absurd (rw mine at d)
  | inr other ↦ ground (arith, other, checkpoints_of-reversed zero run_id cs (rw other at d))
]
checkpoints_of-reversed (suc m) run_id (c ∷ cs) d = elim (Bool-cases (str_eq c.run_id run_id)) [
  | inr other ↦ ground (arith, other, checkpoints_of-reversed (suc m) run_id cs (rw other at d))
  | inl mine ↦
      let (at, e) : CountsDown (suc m) (c ∷ saved_of run_id cs) = rw mine at d in
      let rest = checkpoints_of-reversed m run_id cs e in
      let last =
        insert-last m c (reversed (saved_of run_id cs)) at (
          All-reversed (Below m) (saved_of run_id cs)
            (CountsDown-Below m (saved_of run_id cs) e)) in
      ground (arith, mine, rest, last)
]

unfoldable pub head_of : List CheckpointRow → Option CheckpointRow
head_of [] = none
head_of (c ∷ cs) = some c

last_of-append : (cs : List CheckpointRow) (c : CheckpointRow) → last_of (cs ++ c ∷ []) ≡ some c
last_of-append [] c = refl
last_of-append (d ∷ []) c = refl
last_of-append (d ∷ e ∷ cs) c = last_of-append (e ∷ cs) c

last_of-reversed : (cs : List CheckpointRow) → last_of (reversed cs) ≡ head_of cs
unfolding reversed head_of
last_of-reversed [] = refl
last_of-reversed (c ∷ cs) = last_of-append (reversed cs) c

-- Where the runs are chained, the checkpoints of a run are read in the order in which they were
-- saved, and its latest checkpoint is the one that was saved last.
pub checkpoints-reversed :
    (tables : Tables) (run_id : String) (r : ReplayRun)
    → AreChained tables
    → find (has_id run_id) tables.runs ≡ some r
    → r.row.run_id ≡ run_id
    → (checkpoints tables run_id ≡ reversed (saved_of run_id tables.checkpoints))
      × (latest_checkpoint tables run_id ≡ head_of (saved_of run_id tables.checkpoints))
unfolding checkpoints latest_checkpoint
checkpoints-reversed tables run_id r v found id =
    let c = v.chained run_id r found in
    let e = checkpoints_of-reversed c.count run_id tables.checkpoints (rw id at (c.counts)) in
    (e, ap last_of e ∙ last_of-reversed (saved_of run_id tables.checkpoints))

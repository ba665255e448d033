-- ===== src/Examples/Checkpoints.antt =====
-- Runs of the repository of replay runs.
use sopara.Prelude.{
  ◌≤◌, ◌≢◌, String, ◌≡◌, refl, true, some, [], ◌∷◌, find, arith, eq_iff, str_eq, Bool-cases, inl,
  inr, false,
}
use sopara.Prelude.Search.{reversed}
use sopara.Prelude.Int.{pos, ◌+ℤ◌}
use sopara.Errors.{Error, ok, err}
use sopara.Evidence.{synthetic_nes_proxy}
use sopara.Canonical.{Object, canonical_sha256}
use sopara.Canonical.Json.{Value}
use sopara.Runs.{running, completed, ReplayRun, RecordRow, CheckpointRow, Tables, has_id}
use sopara.Runs.Records.{save_items, stable_uuid, record_row}
use sopara.Runs.Repository.{save_checkpoint, checkpoint_row, new_run, in_state, at_checkpoint}
use sopara.Runs.Outcomes.{checkpoints, latest_checkpoint}
use sopara.Runs.Calls.{
  creating, beginning, saving, interrupting, failing, calls, is_settled, calls-settled,
}
use sopara.Runs.Chain.{AreChained, IsChained, saved_of, save_checkpoint-AreChained}
use sopara.Runs.Linked.{AreLinked, calls-AreLinked}
use sopara.Runs.Order.{head_of, checkpoints-reversed}
use sopara.Runs.Sharing.{save_items-shared}

abbrev hash : String → String
hash s = "hash"

abbrev going : ReplayRun
going = in_state running (new_run "r1" "d" "e" "m" synthetic_nes_proxy)

abbrev started : Tables
started = record {
  runs = going ∷ [];
  checkpoints = [];
  market_objects = [];
  manifests = [];
  record_tables = [];
}

abbrev first_checkpoint : CheckpointRow
first_checkpoint = checkpoint_row "hash" "r1" (pos 0) "key" Value.null Value.null "s" "d" "m" "c"

abbrev checkpointed : Tables
checkpointed = record started {
  runs = at_checkpoint (pos 0) "c" going ∷ [];
  checkpoints = first_checkpoint ∷ [];
}

saved :
    save_checkpoint hash hash started "r1" (pos 0) "key" Value.null Value.null "s" "d" "m" "c"
    ≡ ok checkpointed
unfolding save_checkpoint stable_uuid canonical_sha256 ◌+ℤ◌
saved = refl

going-IsChained : IsChained started going
unfolding saved_of
going-IsChained = record { count = 0; last = refl; counts = tt; named = refl }

started-AreChained : AreChained started
started-AreChained = record {
  chained = λ j r there. elim (Bool-cases (str_eq "r1" j)) [
    | inl named ↦ let same : r ≡ going = ground (arith, named) in rw same going-IsChained
    | inr other ↦ absurd (ground (arith, other))
  ];
}

apart : ◌≢◌ {A = String} "r1" "r2"
apart e = let same : str_eq "r1" "r2" ≡ true = (eq_iff "r1" "r2").1 e in cc

nothing-AreLinked : AreLinked (record started { runs = [] })
unfolding saved_of
nothing-AreLinked = record {
  linked = record { chained = λ j r there. cc };
  unborn = λ j absent. refl;
}

calls-AreLinked_example : AreLinked (
    calls hash hash
      (record started { runs = [] })
      (creating "r1" "d" "e" "m" synthetic_nes_proxy
        ∷ beginning "r1" false
        ∷ saving "r1" (pos 0) "key" Value.null Value.null "s" "d" "m" "c"
        ∷ saving "r1" (pos 0) "key" Value.null Value.null "s" "d" "m" "c"
        ∷ interrupting "r1"
        ∷ []))
calls-AreLinked_example =
    calls-AreLinked hash hash
      (creating "r1" "d" "e" "m" synthetic_nes_proxy
        ∷ beginning "r1" false
        ∷ saving "r1" (pos 0) "key" Value.null Value.null "s" "d" "m" "c"
        ∷ saving "r1" (pos 0) "key" Value.null Value.null "s" "d" "m" "c"
        ∷ interrupting "r1"
        ∷ [])
      (record started { runs = [] }) nothing-AreLinked

checkpointed-AreChained : AreChained checkpointed
checkpointed-AreChained =
    save_checkpoint-AreChained hash hash started "r1" (pos 0) "key" Value.null Value.null "s" "d"
      "m" "c" started-AreChained saved

checkpoints-reversed_example :
    (checkpoints checkpointed "r1" ≡ reversed (saved_of "r1" checkpointed.checkpoints))
    × (latest_checkpoint checkpointed "r1" ≡ head_of (saved_of "r1" checkpointed.checkpoints))
checkpoints-reversed_example =
    checkpoints-reversed checkpointed "r1" (at_checkpoint (pos 0) "c" going) checkpointed-AreChained
      refl refl

abbrev over : ReplayRun
over = in_state completed going

abbrev finished : Tables
finished = record started { runs = over ∷ [] }

calls-settled_example :
    (new : ReplayRun) × (find
        (has_id "r1")
        (calls hash hash finished
          (beginning "r1" true ∷ failing "r1" "late" ∷ interrupting "r1" ∷ [])).runs
      ≡ some new)
    × (over.row.row_version ≤ new.row.row_version)
    × (is_settled over.row.state ≡ true → is_settled new.row.state ≡ true)
calls-settled_example =
    calls-settled hash hash (beginning "r1" true ∷ failing "r1" "late" ∷ interrupting "r1" ∷ [])
      finished "r1" over refl

abbrev fill : RecordRow
fill = record_row hash hash "sim_fill" "r1" synthetic_nes_proxy (Object.string "x") "hash" "hash"

fill_saved :
    save_items hash hash "sim_fill" "r1" synthetic_nes_proxy (Object.string "x" ∷ []) []
    ≡ ok (fill ∷ [])
unfolding save_items canonical_sha256
fill_saved = refl

save_items-shared_example :
    (raised : Error) × (save_items hash hash "sim_fill" "r2" synthetic_nes_proxy
        (Object.string "x" ∷ [])
        (fill ∷ [])
      ≡ err raised)
save_items-shared_example =
    save_items-shared hash hash "sim_fill" "r1" "r2" synthetic_nes_proxy synthetic_nes_proxy
      (Object.string "x") (Object.string "x" ∷ []) (Object.string "x" ∷ []) [] refl refl apart
      (inl refl) (inl refl) fill_saved

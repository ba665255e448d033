-- ===== src/Runs/Methods.antt =====
-- adapters/database/historical.py: every method changes the runs by passages of their states.
use Prim.Native.String.{◌++◌ as str_append}
use sopara.Prelude.{
  String, ◌≡◌, refl, Bool, true, none, some, [], ◌∷◌, arith, eq_iff, Bool-cases, Option-cases, inl,
  inr,
}
use sopara.Errors.{Result, ok, err, ◌>>=◌, >>=-returned, value_error, Error}
use sopara.States.StrEnum.{StrEnum, IsStrEnum, value-injective}
use sopara.Runs.{
  RunState, created, running, interrupted, completed, reconciled, failed, state_text, RunRow,
  Tables, one, update_run,
}
use sopara.Runs.Repository.{run, begin, may_begin, in_state, is_state}
use sopara.Runs.Outcomes.{set_state, interrupt, fail, set_values, expects}
use sopara.Runs.Moves.{one-ok, Moves, update_run-Change, Touches}

abbrev run_state : StrEnum RunState
run_state = record {
  type_name = "state";
  members = created ∷ running ∷ interrupted ∷ completed ∷ reconciled ∷ failed ∷ [];
  value = state_text;
}

run_state-IsStrEnum : IsStrEnum run_state
run_state-IsStrEnum = record {
  of_value-value = elim [
    | created ↦ refl
    | running ↦ refl
    | interrupted ↦ refl
    | completed ↦ refl
    | reconciled ↦ refl
    | failed ↦ refl
  ];
}

pub is_state-eq : (s t : RunState) → is_state s t ≡ true → s ≡ t
is_state-eq s t h =
    value-injective run_state-IsStrEnum s t ((eq_iff (state_text s) (state_text t)).0 h)

-- A body that ends by raising does not return.
never-returns :
    {A B : Type 0} (m : Result A) (raised : A → Error) {w : B}
    → (m >>= λ a. err (raised a)) ≡ ok w
    → ⊥
never-returns (err e) raised h = cc
never-returns (ok a) raised h = cc

pub begin-Change :
    (tables : Tables) (run_id : String) (allow_resume : Bool) {next : Tables} {row : RunRow}
    → begin tables run_id allow_resume ≡ ok (next, row)
    → Touches tables next
unfolding begin
begin-Change tables run_id allow_resume {next} {row} h =
    elim (Option-cases
      (update_run run_id (may_begin allow_resume) (in_state running) tables.runs)) [
        | inl refused ↦ absurd (
            never-returns {B = Tables × RunRow} (run tables run_id)
              (λ current.
                value_error (str_append "run cannot begin from " (state_text current.state)))
              {w = (next, row)} (ground (arith, refused)))
        | inr ((r, runs), e) ↦
            let left : next.runs ≡ runs = ground (arith, e) in
            record {
              unsaved = ground (arith, e);
              changes = λ j. rw left (
                  update_run-Change run_id (may_begin allow_resume) (in_state running) tables.runs
                    (record {
                      named = λ r. refl;
                      indexed = λ r. refl;
                      hashed = λ r. refl;
                      counted = λ r. refl;
                      moves = λ old found fits. elim (Bool-cases (is_state old.row.state created)) [
                        | inl fresh ↦ rw (is_state-eq old.row.state created fresh) Moves.begins
                        | inr other ↦
                            rw (is_state-eq old.row.state interrupted (ground (arith, other)))
                              Moves.resumes
                      ];
                    })
                    e j);
            }
      ]

pub interrupt-Change :
    (tables : Tables) (run_id : String) {next : Tables} {row : RunRow}
    → interrupt tables run_id ≡ ok (next, row)
    → Touches tables next
unfolding interrupt set_state
interrupt-Change tables run_id {next} {row} h =
    let ((r, runs), e, done) =
      >>=-returned
        (one (update_run run_id (expects (some running)) (set_values interrupted none) tables.runs))
        _ h in
    let left : next.runs ≡ runs = ground (arith, done) in
    record {
      unsaved = ground (arith, done);
      changes = λ j. rw left (
          update_run-Change run_id (expects (some running)) (set_values interrupted none)
            tables.runs
            (record {
              named = λ r. refl;
              indexed = λ r. refl;
              hashed = λ r. refl;
              counted = λ r. refl;
              moves =
                  λ old found fits. rw (is_state-eq old.row.state running fits) Moves.interrupts;
            })
            (one-ok _ e) j);
    }

pub fail-Change :
    (tables : Tables) (run_id reason : String) {next : Tables} {row : RunRow}
    → fail tables run_id reason ≡ ok (next, row)
    → Touches tables next
unfolding fail set_state
fail-Change tables run_id reason {next} {row} h =
    let ((r, runs), e, done) =
      >>=-returned
        (one (update_run run_id (expects none) (set_values failed (some reason)) tables.runs)) _
        h in
    let left : next.runs ≡ runs = ground (arith, done) in
    record {
      unsaved = ground (arith, done);
      changes = λ j. rw left (
          update_run-Change run_id (expects none) (set_values failed (some reason)) tables.runs
            (record {
              named = λ r. refl;
              indexed = λ r. refl;
              hashed = λ r. refl;
              counted = λ r. refl;
              moves = λ old found fits. Moves.fails old.row.state;
            })
            (one-ok _ e) j);
    }

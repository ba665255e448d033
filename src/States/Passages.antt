-- ===== src/States/Passages.antt =====
-- domain/states.py: states that no history of the program's tables can go round.
use sopara.Prelude.{◌≡◌, refl, ◌⊎◌, Bool, true, false, List, arith, All, In}
use sopara.Errors.{ok}
use sopara.States.Enums.{
  OrderState, order_state, order_state-IsStrEnum, OperabilityState, operability_state,
  operability_state-IsStrEnum, ExperimentState, experiment_state, experiment_state-IsStrEnum,
  LiveSessionState, live_session_state, live_session_state-IsStrEnum,
}
use sopara.States.Rules.{
  order_transitions, operability_transitions, experiment_transitions, live_session_transitions,
}
use sopara.States.Machine.{StateTransition, fold_transitions}
use sopara.States.Reach.{IsRecorded, Visits, fold_passes}

-- The states that an order can be in before it has been accepted, and before it has been opened.
abbrev unaccepted : OrderState → Bool
unaccepted OrderState.proposed = true
unaccepted OrderState.expired = true
unaccepted OrderState.invalid = true
unaccepted OrderState.risk_rejected = true
unaccepted _ = false

unaccepted_closed :
    (s t : OrderState)
    → unaccepted s ≡ true
    → In t (order_transitions s)
    → (unaccepted t ≡ true) ⊎ (t ≡ OrderState.sim_accepted)
unfolding order_transitions
unaccepted_closed s t inside edge = ground arith

abbrev unopened : OrderState → Bool
unopened OrderState.sim_accepted = true
unopened OrderState.created = true
unopened OrderState.rejected = true
unopened s = unaccepted s

unopened_closed :
    (s t : OrderState)
    → unopened s ≡ true
    → In t (order_transitions s)
    → (unopened t ≡ true) ⊎ (t ≡ OrderState.opened)
unfolding order_transitions
unopened_closed s t inside edge = ground arith

-- A recorded history of an order that starts in PROPOSED and ends in FILLED goes through SIM_ACCEPTED
-- and through OPEN.
pub filled_after_acceptance :
    (history : List StateTransition)
    → All (IsRecorded order_state order_state-IsStrEnum order_transitions) history
    → fold_transitions "PROPOSED" history ≡ ok "FILLED"
    → Visits "SIM_ACCEPTED" history × Visits "OPEN" history
unfolding order_state
filled_after_acceptance history all h = (
  fold_passes order_state order_state-IsStrEnum order_transitions unaccepted OrderState.sim_accepted
      unaccepted_closed OrderState.proposed OrderState.filled history refl refl all h,
  fold_passes order_state order_state-IsStrEnum order_transitions unopened OrderState.opened
      unopened_closed OrderState.proposed OrderState.filled history refl refl all h,
)

-- The states between a halt and the next review, and those before the next start.
abbrev unreviewed : OperabilityState → Bool
unreviewed OperabilityState.halted = true
unreviewed OperabilityState.reconciling = true
unreviewed _ = false

unreviewed_closed :
    (s t : OperabilityState)
    → unreviewed s ≡ true
    → In t (operability_transitions s)
    → (unreviewed t ≡ true) ⊎ (t ≡ OperabilityState.recovery_review)
unfolding operability_transitions
unreviewed_closed s t inside edge = ground arith

abbrev unreconciled : OperabilityState → Bool
unreconciled OperabilityState.halted = true
unreconciled _ = false

unreconciled_closed :
    (s t : OperabilityState)
    → unreconciled s ≡ true
    → In t (operability_transitions s)
    → (unreconciled t ≡ true) ⊎ (t ≡ OperabilityState.reconciling)
unfolding operability_transitions
unreconciled_closed s t inside edge = ground arith

-- From a halt the system is healthy again only after a reconciliation and a recovery review.
pub healthy_after_review :
    (history : List StateTransition)
    → All (IsRecorded operability_state operability_state-IsStrEnum operability_transitions) history
    → fold_transitions "HALTED" history ≡ ok "HEALTHY"
    → Visits "RECONCILING" history × Visits "RECOVERY_REVIEW" history
unfolding operability_state
healthy_after_review history all h = (
  fold_passes operability_state operability_state-IsStrEnum operability_transitions unreconciled
      OperabilityState.reconciling unreconciled_closed OperabilityState.halted
      OperabilityState.healthy history refl refl all h,
  fold_passes operability_state operability_state-IsStrEnum operability_transitions unreviewed
      OperabilityState.recovery_review unreviewed_closed OperabilityState.halted
      OperabilityState.healthy history refl refl all h,
)

-- Everything an experiment can be in without having completed, and without a review.
abbrev incomplete : ExperimentState → Bool
incomplete ExperimentState.completed = false
incomplete ExperimentState.reviewed = false
incomplete ExperimentState.evidence_ready_for_future_shadow_review = false
incomplete ExperimentState.rejected = false
incomplete ExperimentState.inconclusive = false
incomplete _ = true

incomplete_closed :
    (s t : ExperimentState)
    → incomplete s ≡ true
    → In t (experiment_transitions s)
    → (incomplete t ≡ true) ⊎ (t ≡ ExperimentState.completed)
unfolding experiment_transitions
incomplete_closed s t inside edge = ground arith

abbrev unexamined : ExperimentState → Bool
unexamined ExperimentState.completed = true
unexamined s = incomplete s

unexamined_closed :
    (s t : ExperimentState)
    → unexamined s ≡ true
    → In t (experiment_transitions s)
    → (unexamined t ≡ true) ⊎ (t ≡ ExperimentState.reviewed)
unfolding experiment_transitions
unexamined_closed s t inside edge = ground arith

-- Evidence is ready for a future shadow review only after the experiment completed and was reviewed.
pub evidence_after_review :
    (history : List StateTransition)
    → All (IsRecorded experiment_state experiment_state-IsStrEnum experiment_transitions) history
    → fold_transitions "DRAFT" history ≡ ok "EVIDENCE_READY_FOR_FUTURE_SHADOW_REVIEW"
    → Visits "COMPLETED" history × Visits "REVIEWED" history
unfolding experiment_state
evidence_after_review history all h = (
  fold_passes experiment_state experiment_state-IsStrEnum experiment_transitions incomplete
      ExperimentState.completed incomplete_closed ExperimentState.draft
      ExperimentState.evidence_ready_for_future_shadow_review history refl refl all h,
  fold_passes experiment_state experiment_state-IsStrEnum experiment_transitions unexamined
      ExperimentState.reviewed unexamined_closed ExperimentState.draft
      ExperimentState.evidence_ready_for_future_shadow_review history refl refl all h,
)

abbrev unhalted : LiveSessionState → Bool
unhalted LiveSessionState.halted = false
unhalted LiveSessionState.reconciling = false
unhalted LiveSessionState.closed = false
unhalted _ = true

unhalted_closed :
    (s t : LiveSessionState)
    → unhalted s ≡ true
    → In t (live_session_transitions s)
    → (unhalted t ≡ true) ⊎ (t ≡ LiveSessionState.halted)
unfolding live_session_transitions
unhalted_closed s t inside edge = ground arith

abbrev open_session : LiveSessionState → Bool
open_session LiveSessionState.halted = true
open_session s = unhalted s

open_session_closed :
    (s t : LiveSessionState)
    → open_session s ≡ true
    → In t (live_session_transitions s)
    → (open_session t ≡ true) ⊎ (t ≡ LiveSessionState.reconciling)
unfolding live_session_transitions
open_session_closed s t inside edge = ground arith

-- A session closes only after it was halted and reconciled.
pub closed_after_reconciliation :
    (history : List StateTransition)
    → All
        (IsRecorded live_session_state live_session_state-IsStrEnum live_session_transitions)
        history
    → fold_transitions "SCHEDULED" history ≡ ok "CLOSED"
    → Visits "HALTED" history × Visits "RECONCILING" history
unfolding live_session_state
closed_after_reconciliation history all h = (
  fold_passes live_session_state live_session_state-IsStrEnum live_session_transitions unhalted
      LiveSessionState.halted unhalted_closed LiveSessionState.scheduled LiveSessionState.closed
      history refl refl all h,
  fold_passes live_session_state live_session_state-IsStrEnum live_session_transitions open_session
      LiveSessionState.reconciling open_session_closed LiveSessionState.scheduled
      LiveSessionState.closed history refl refl all h,
)

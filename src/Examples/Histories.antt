-- ===== src/Examples/Histories.antt =====
-- Recorded histories of an order, of a recovery, of a session and of an experiment.
use sopara.Prelude.{◌≡◌, refl, ◌↔◌, List, [], ◌∷◌, All, In}
use sopara.Prelude.Int.{ℤ, pos}
use sopara.Errors.{ok}
use sopara.ReasonCodes.{ReasonCode}
use sopara.States.Enums.{
  OrderState, order_state, order_state-IsStrEnum, OperabilityState, operability_state,
  operability_state-IsStrEnum, ExperimentState, experiment_state, experiment_state-IsStrEnum,
  LiveSessionState, live_session_state, live_session_state-IsStrEnum,
}
use sopara.States.Rules.{
  order_transitions, operability_transitions, experiment_transitions, live_session_transitions,
}
use sopara.States.Machine.{
  Attribution, StateTransition, check_transition, fold_transitions, move, transition,
}
use sopara.States.History.{IsAttributed, IsChain, fold_transitions_iff, transition-ok_iff}
use sopara.States.Reach.{IsRecorded, Visits}
use sopara.States.Passages.{
  closed_after_reconciliation, filled_after_acceptance, healthy_after_review,
}

abbrev numbered : ℤ → Attribution
numbered n = record {
  aggregate_id = "a1";
  sequence = n;
  occurred_at_ns = pos 5;
  actor = "engine";
  reason = ReasonCode.missing_required_state;
}

unfoldable order_history : List StateTransition
unfolding order_state
order_history =
    move order_state OrderState.proposed OrderState.sim_accepted (numbered (pos 1))
    ∷ move order_state OrderState.sim_accepted OrderState.created (numbered (pos 2))
    ∷ move order_state OrderState.created OrderState.opened (numbered (pos 3))
    ∷ move order_state OrderState.opened OrderState.filled (numbered (pos 4))
    ∷ []

order-IsRecorded :
    All (IsRecorded order_state order_state-IsStrEnum order_transitions) order_history
unfolding order_history order_state order_transitions transition check_transition
order-IsRecorded = (
  (OrderState.proposed, OrderState.sim_accepted, numbered (pos 1), refl),
  (
    (OrderState.sim_accepted, OrderState.created, numbered (pos 2), refl),
    (
      (OrderState.created, OrderState.opened, numbered (pos 3), refl),
      ((OrderState.opened, OrderState.filled, numbered (pos 4), refl), tt),
    ),
  ),
)

order_folds : fold_transitions "PROPOSED" order_history ≡ ok "FILLED"
unfolding order_history order_state fold_transitions
order_folds = refl

unfoldable recovery_history : List StateTransition
unfolding operability_state
recovery_history =
    move operability_state OperabilityState.halted OperabilityState.reconciling (numbered (pos 1))
    ∷ move operability_state OperabilityState.reconciling OperabilityState.recovery_review
        (numbered (pos 2))
    ∷ move operability_state OperabilityState.recovery_review OperabilityState.starting
        (numbered (pos 3))
    ∷ move operability_state OperabilityState.starting OperabilityState.healthy (numbered (pos 4))
    ∷ []

recovery-IsRecorded :
    All
      (IsRecorded operability_state operability_state-IsStrEnum operability_transitions)
      recovery_history
unfolding recovery_history operability_state operability_transitions transition check_transition
recovery-IsRecorded = (
  (OperabilityState.halted, OperabilityState.reconciling, numbered (pos 1), refl),
  (
    (OperabilityState.reconciling, OperabilityState.recovery_review, numbered (pos 2), refl),
    (
      (OperabilityState.recovery_review, OperabilityState.starting, numbered (pos 3), refl),
      ((OperabilityState.starting, OperabilityState.healthy, numbered (pos 4), refl), tt),
    ),
  ),
)

recovery_folds : fold_transitions "HALTED" recovery_history ≡ ok "HEALTHY"
unfolding recovery_history operability_state fold_transitions
recovery_folds = refl

unfoldable session_history : List StateTransition
unfolding live_session_state
session_history =
    move live_session_state LiveSessionState.scheduled LiveSessionState.preflight (numbered (pos 1))
    ∷ move live_session_state LiveSessionState.preflight LiveSessionState.halted (numbered (pos 2))
    ∷ move live_session_state LiveSessionState.halted LiveSessionState.reconciling
        (numbered (pos 3))
    ∷ move live_session_state LiveSessionState.reconciling LiveSessionState.closed
        (numbered (pos 4))
    ∷ []

session-IsRecorded :
    All
      (IsRecorded live_session_state live_session_state-IsStrEnum live_session_transitions)
      session_history
unfolding session_history live_session_state live_session_transitions transition check_transition
session-IsRecorded = (
  (LiveSessionState.scheduled, LiveSessionState.preflight, numbered (pos 1), refl),
  (
    (LiveSessionState.preflight, LiveSessionState.halted, numbered (pos 2), refl),
    (
      (LiveSessionState.halted, LiveSessionState.reconciling, numbered (pos 3), refl),
      ((LiveSessionState.reconciling, LiveSessionState.closed, numbered (pos 4), refl), tt),
    ),
  ),
)

session_folds : fold_transitions "SCHEDULED" session_history ≡ ok "CLOSED"
unfolding session_history live_session_state fold_transitions
session_folds = refl

unfoldable experiment_history : List StateTransition
unfolding experiment_state
experiment_history =
    move experiment_state ExperimentState.draft ExperimentState.validating (numbered (pos 1))
    ∷ move experiment_state ExperimentState.validating ExperimentState.queued (numbered (pos 2))
    ∷ move experiment_state ExperimentState.queued ExperimentState.running (numbered (pos 3))
    ∷ move experiment_state ExperimentState.running ExperimentState.completed (numbered (pos 4))
    ∷ move experiment_state ExperimentState.completed ExperimentState.reviewed (numbered (pos 5))
    ∷ move experiment_state ExperimentState.reviewed
        ExperimentState.evidence_ready_for_future_shadow_review (numbered (pos 6))
    ∷ []

experiment-IsRecorded :
    All
      (IsRecorded experiment_state experiment_state-IsStrEnum experiment_transitions)
      experiment_history
unfolding experiment_history experiment_state experiment_transitions transition check_transition
experiment-IsRecorded = (
  (ExperimentState.draft, ExperimentState.validating, numbered (pos 1), refl),
  (
    (ExperimentState.validating, ExperimentState.queued, numbered (pos 2), refl),
    (
      (ExperimentState.queued, ExperimentState.running, numbered (pos 3), refl),
      (
        (ExperimentState.running, ExperimentState.completed, numbered (pos 4), refl),
        (
          (ExperimentState.completed, ExperimentState.reviewed, numbered (pos 5), refl),
          (
            (
              ExperimentState.reviewed,
              ExperimentState.evidence_ready_for_future_shadow_review,
              numbered (pos 6),
              refl,
            ),
            tt,
          ),
        ),
      ),
    ),
  ),
)

experiment_folds :
    fold_transitions "DRAFT" experiment_history ≡ ok "EVIDENCE_READY_FOR_FUTURE_SHADOW_REVIEW"
unfolding experiment_history experiment_state fold_transitions
experiment_folds = refl

filled_after_acceptance_example : Visits "SIM_ACCEPTED" order_history × Visits "OPEN" order_history
filled_after_acceptance_example = filled_after_acceptance order_history order-IsRecorded order_folds

healthy_after_review_example :
    Visits "RECONCILING" recovery_history × Visits "RECOVERY_REVIEW" recovery_history
healthy_after_review_example =
    healthy_after_review recovery_history recovery-IsRecorded recovery_folds

closed_after_reconciliation_example :
    Visits "HALTED" session_history × Visits "RECONCILING" session_history
closed_after_reconciliation_example =
    closed_after_reconciliation session_history session-IsRecorded session_folds

transition-ok_iff_example :
    (transition order_state OrderState.created OrderState.opened order_transitions
        (numbered (pos 3))
      ≡ ok (move order_state OrderState.created OrderState.opened (numbered (pos 3))))
    ↔ (In OrderState.opened (order_transitions OrderState.created)
        × IsAttributed (move order_state OrderState.created OrderState.opened (numbered (pos 3)))
        × (move order_state OrderState.created OrderState.opened (numbered (pos 3))
            ≡ move order_state OrderState.created OrderState.opened (numbered (pos 3))))
transition-ok_iff_example =
    transition-ok_iff order_state order_state-IsStrEnum order_transitions OrderState.created
      OrderState.opened (numbered (pos 3))
      (move order_state OrderState.created OrderState.opened (numbered (pos 3)))

fold_transitions_iff_example :
    (fold_transitions "PROPOSED" order_history ≡ ok "FILLED")
    ↔ IsChain 1 "PROPOSED" order_history "FILLED"
fold_transitions_iff_example = fold_transitions_iff "PROPOSED" order_history "FILLED"

order_folds_as_value :
    fold_transitions (order_state.value OrderState.proposed) order_history
    ≡ ok (order_state.value OrderState.filled)
unfolding order_history order_state fold_transitions
order_folds_as_value = refl

closed_has_no_target : order_transitions OrderState.closed ≡ []
unfolding order_transitions
closed_has_no_target = refl

abbrev no_history : List StateTransition
no_history = []

closed_folds : fold_transitions (order_state.value OrderState.closed) no_history ≡ ok "CLOSED"
unfolding order_state fold_transitions
closed_folds = refl

abbrev opening : StateTransition
opening = record {
  aggregate_id = "a1";
  aggregate_type = "OrderState";
  sequence = pos 3;
  from_state = "CREATED";
  to_state = "OPEN";
  occurred_at_ns = pos 5;
  actor = "engine";
  reason = ReasonCode.missing_required_state;
}

opening_checked : check_transition opening ≡ ok opening
unfolding check_transition
opening_checked = refl

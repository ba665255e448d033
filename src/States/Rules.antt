-- ===== src/States/Rules.antt =====
-- domain/states.py, the transition tables. A table is a function from a state to the targets that
-- `rules.get(current, frozenset())` gives: a state with no entry has no target.
use sopara.Prelude.{List, [], ◌∷◌}
use sopara.States.Enums.{
  DatasetState, ExperimentState, StrategyState, OperabilityState, OrderState, LiveSessionState,
  WindowState, ReconciliationState, RecoveryState, IncidentState,
}

unfoldable pub dataset_transitions : DatasetState → List DatasetState
dataset_transitions DatasetState.discovered = DatasetState.ingesting ∷ []
dataset_transitions DatasetState.ingesting = DatasetState.validating ∷ []
dataset_transitions DatasetState.validating = DatasetState.ready ∷ DatasetState.quarantined ∷ []
dataset_transitions DatasetState.ready = DatasetState.superseded ∷ []
dataset_transitions DatasetState.quarantined = DatasetState.validating ∷ []
dataset_transitions _ = []

unfoldable pub experiment_transitions : ExperimentState → List ExperimentState
experiment_transitions ExperimentState.draft = ExperimentState.validating ∷ []
experiment_transitions ExperimentState.validating =
    ExperimentState.draft ∷ ExperimentState.queued ∷ []
experiment_transitions ExperimentState.queued =
    ExperimentState.running ∷ ExperimentState.cancelled ∷ []
experiment_transitions ExperimentState.running =
    ExperimentState.completed ∷ ExperimentState.failed ∷ ExperimentState.invalid
    ∷ ExperimentState.cancelled ∷ []
experiment_transitions ExperimentState.completed = ExperimentState.reviewed ∷ []
experiment_transitions ExperimentState.reviewed =
    ExperimentState.evidence_ready_for_future_shadow_review ∷ ExperimentState.rejected
    ∷ ExperimentState.inconclusive ∷ []
experiment_transitions _ = []

unfoldable pub strategy_transitions : StrategyState → List StrategyState
strategy_transitions StrategyState.draft = StrategyState.registered ∷ []
strategy_transitions StrategyState.registered =
    StrategyState.backtested ∷ StrategyState.rejected ∷ []
strategy_transitions StrategyState.backtested =
    StrategyState.walk_forward_eligible ∷ StrategyState.rejected ∷ []
strategy_transitions StrategyState.walk_forward_eligible =
    StrategyState.live_sim_eligible ∷ StrategyState.rejected ∷ []
strategy_transitions StrategyState.live_sim_eligible = StrategyState.retired ∷ []
strategy_transitions _ = []

unfoldable pub operability_transitions : OperabilityState → List OperabilityState
operability_transitions OperabilityState.offline = OperabilityState.starting ∷ []
operability_transitions OperabilityState.starting =
    OperabilityState.healthy ∷ OperabilityState.halted ∷ []
operability_transitions OperabilityState.healthy =
    OperabilityState.degraded ∷ OperabilityState.halting ∷ []
operability_transitions OperabilityState.degraded =
    OperabilityState.healthy ∷ OperabilityState.halting ∷ []
operability_transitions OperabilityState.halting = OperabilityState.halted ∷ []
operability_transitions OperabilityState.halted = OperabilityState.reconciling ∷ []
operability_transitions OperabilityState.reconciling =
    OperabilityState.recovery_review ∷ OperabilityState.halted ∷ []
operability_transitions OperabilityState.recovery_review =
    OperabilityState.starting ∷ OperabilityState.halted ∷ []

unfoldable pub order_transitions : OrderState → List OrderState
order_transitions OrderState.proposed =
    OrderState.expired ∷ OrderState.invalid ∷ OrderState.risk_rejected ∷ OrderState.sim_accepted
    ∷ []
order_transitions OrderState.sim_accepted = OrderState.created ∷ []
order_transitions OrderState.created = OrderState.opened ∷ OrderState.rejected ∷ []
order_transitions OrderState.opened =
    OrderState.partially_filled ∷ OrderState.filled ∷ OrderState.cancel_pending ∷ OrderState.expired
    ∷ []
order_transitions OrderState.partially_filled =
    OrderState.filled ∷ OrderState.cancel_pending ∷ OrderState.exit_pending ∷ []
order_transitions OrderState.filled = OrderState.exit_pending ∷ []
order_transitions OrderState.cancel_pending = OrderState.cancelled ∷ OrderState.filled ∷ []
order_transitions OrderState.exit_pending = OrderState.closed ∷ []
order_transitions _ = []

unfoldable pub live_session_transitions : LiveSessionState → List LiveSessionState
live_session_transitions LiveSessionState.scheduled = LiveSessionState.preflight ∷ []
live_session_transitions LiveSessionState.preflight =
    LiveSessionState.running ∷ LiveSessionState.halted ∷ []
live_session_transitions LiveSessionState.running =
    LiveSessionState.degraded ∷ LiveSessionState.halting ∷ []
live_session_transitions LiveSessionState.degraded =
    LiveSessionState.running ∷ LiveSessionState.halting ∷ []
live_session_transitions LiveSessionState.halting = LiveSessionState.halted ∷ []
live_session_transitions LiveSessionState.halted = LiveSessionState.reconciling ∷ []
live_session_transitions LiveSessionState.reconciling =
    LiveSessionState.closed ∷ LiveSessionState.halted ∷ []
live_session_transitions _ = []

unfoldable pub window_transitions : WindowState → List WindowState
window_transitions WindowState.scheduled = WindowState.preflight ∷ []
window_transitions WindowState.preflight = WindowState.running ∷ WindowState.halted ∷ []
window_transitions WindowState.running = WindowState.degraded ∷ WindowState.halting ∷ []
window_transitions WindowState.degraded = WindowState.running ∷ WindowState.halting ∷ []
window_transitions WindowState.halting = WindowState.halted ∷ []
window_transitions WindowState.halted = WindowState.reconciling ∷ []
window_transitions WindowState.reconciling = WindowState.closed ∷ WindowState.halted ∷ []
window_transitions _ = []

unfoldable pub reconciliation_transitions : ReconciliationState → List ReconciliationState
reconciliation_transitions ReconciliationState.requested = ReconciliationState.running ∷ []
reconciliation_transitions ReconciliationState.running =
    ReconciliationState.matched ∷ ReconciliationState.mismatched ∷ ReconciliationState.failed ∷ []
reconciliation_transitions _ = []

unfoldable pub recovery_transitions : RecoveryState → List RecoveryState
recovery_transitions RecoveryState.pending_reconciliation =
    RecoveryState.pending_owner_review ∷ RecoveryState.rejected ∷ []
recovery_transitions RecoveryState.pending_owner_review =
    RecoveryState.approved ∷ RecoveryState.rejected ∷ []
recovery_transitions _ = []

unfoldable pub incident_transitions : IncidentState → List IncidentState
incident_transitions IncidentState.opened =
    IncidentState.acknowledged ∷ IncidentState.mitigated ∷ []
incident_transitions IncidentState.acknowledged =
    IncidentState.mitigated ∷ IncidentState.resolved ∷ []
incident_transitions IncidentState.mitigated = IncidentState.resolved ∷ []
incident_transitions IncidentState.resolved = IncidentState.reopened ∷ []
incident_transitions IncidentState.reopened = IncidentState.acknowledged ∷ []

-- ===== src/States/Enums.antt =====
-- domain/states.py, the state enumerations. A member of a Python `StrEnum` is its text: each data
-- type has a value of the interface `StrEnum`, which gives a member its text.
use sopara.Prelude.{refl, [], ◌∷◌}
use sopara.States.StrEnum.{StrEnum, IsStrEnum}

pub data DatasetState : Type 0 where
  discovered ingesting validating ready quarantined superseded : DatasetState

unfoldable pub dataset_state : StrEnum DatasetState
dataset_state = record {
  type_name = "DatasetState";
  members =
      DatasetState.discovered ∷ DatasetState.ingesting ∷ DatasetState.validating
      ∷ DatasetState.ready ∷ DatasetState.quarantined ∷ DatasetState.superseded ∷ [];
  value = elim [
    | DatasetState.discovered ↦ "DISCOVERED"
    | DatasetState.ingesting ↦ "INGESTING"
    | DatasetState.validating ↦ "VALIDATING"
    | DatasetState.ready ↦ "READY"
    | DatasetState.quarantined ↦ "QUARANTINED"
    | DatasetState.superseded ↦ "SUPERSEDED"
  ];
}

pub dataset_state-IsStrEnum : IsStrEnum dataset_state
unfolding dataset_state
dataset_state-IsStrEnum = record {
  of_value-value = elim [
    | DatasetState.discovered ↦ refl
    | DatasetState.ingesting ↦ refl
    | DatasetState.validating ↦ refl
    | DatasetState.ready ↦ refl
    | DatasetState.quarantined ↦ refl
    | DatasetState.superseded ↦ refl
  ];
}

pub data ExperimentState : Type 0 where
  draft validating queued running completed failed invalid cancelled reviewed
        evidence_ready_for_future_shadow_review rejected inconclusive :
      ExperimentState

unfoldable pub experiment_state : StrEnum ExperimentState
experiment_state = record {
  type_name = "ExperimentState";
  members =
      ExperimentState.draft ∷ ExperimentState.validating ∷ ExperimentState.queued
      ∷ ExperimentState.running ∷ ExperimentState.completed ∷ ExperimentState.failed
      ∷ ExperimentState.invalid ∷ ExperimentState.cancelled ∷ ExperimentState.reviewed
      ∷ ExperimentState.evidence_ready_for_future_shadow_review ∷ ExperimentState.rejected
      ∷ ExperimentState.inconclusive ∷ [];
  value = elim [
    | ExperimentState.draft ↦ "DRAFT"
    | ExperimentState.validating ↦ "VALIDATING"
    | ExperimentState.queued ↦ "QUEUED"
    | ExperimentState.running ↦ "RUNNING"
    | ExperimentState.completed ↦ "COMPLETED"
    | ExperimentState.failed ↦ "FAILED"
    | ExperimentState.invalid ↦ "INVALID"
    | ExperimentState.cancelled ↦ "CANCELLED"
    | ExperimentState.reviewed ↦ "REVIEWED"
    | ExperimentState.evidence_ready_for_future_shadow_review ↦
        "EVIDENCE_READY_FOR_FUTURE_SHADOW_REVIEW"
    | ExperimentState.rejected ↦ "REJECTED"
    | ExperimentState.inconclusive ↦ "INCONCLUSIVE"
  ];
}

pub experiment_state-IsStrEnum : IsStrEnum experiment_state
unfolding experiment_state
experiment_state-IsStrEnum = record {
  of_value-value = elim [
    | ExperimentState.draft ↦ refl
    | ExperimentState.validating ↦ refl
    | ExperimentState.queued ↦ refl
    | ExperimentState.running ↦ refl
    | ExperimentState.completed ↦ refl
    | ExperimentState.failed ↦ refl
    | ExperimentState.invalid ↦ refl
    | ExperimentState.cancelled ↦ refl
    | ExperimentState.reviewed ↦ refl
    | ExperimentState.evidence_ready_for_future_shadow_review ↦ refl
    | ExperimentState.rejected ↦ refl
    | ExperimentState.inconclusive ↦ refl
  ];
}

pub data StrategyState : Type 0 where
  draft registered backtested walk_forward_eligible live_sim_eligible rejected retired :
      StrategyState

unfoldable pub strategy_state : StrEnum StrategyState
strategy_state = record {
  type_name = "StrategyState";
  members =
      StrategyState.draft ∷ StrategyState.registered ∷ StrategyState.backtested
      ∷ StrategyState.walk_forward_eligible ∷ StrategyState.live_sim_eligible
      ∷ StrategyState.rejected ∷ StrategyState.retired ∷ [];
  value = elim [
    | StrategyState.draft ↦ "DRAFT"
    | StrategyState.registered ↦ "REGISTERED"
    | StrategyState.backtested ↦ "BACKTESTED"
    | StrategyState.walk_forward_eligible ↦ "WALK_FORWARD_ELIGIBLE"
    | StrategyState.live_sim_eligible ↦ "LIVE_SIM_ELIGIBLE"
    | StrategyState.rejected ↦ "REJECTED"
    | StrategyState.retired ↦ "RETIRED"
  ];
}

pub strategy_state-IsStrEnum : IsStrEnum strategy_state
unfolding strategy_state
strategy_state-IsStrEnum = record {
  of_value-value = elim [
    | StrategyState.draft ↦ refl
    | StrategyState.registered ↦ refl
    | StrategyState.backtested ↦ refl
    | StrategyState.walk_forward_eligible ↦ refl
    | StrategyState.live_sim_eligible ↦ refl
    | StrategyState.rejected ↦ refl
    | StrategyState.retired ↦ refl
  ];
}

pub data OperabilityState : Type 0 where
  offline starting healthy degraded halting halted reconciling recovery_review : OperabilityState

unfoldable pub operability_state : StrEnum OperabilityState
operability_state = record {
  type_name = "OperabilityState";
  members =
      OperabilityState.offline ∷ OperabilityState.starting ∷ OperabilityState.healthy
      ∷ OperabilityState.degraded ∷ OperabilityState.halting ∷ OperabilityState.halted
      ∷ OperabilityState.reconciling ∷ OperabilityState.recovery_review ∷ [];
  value = elim [
    | OperabilityState.offline ↦ "OFFLINE"
    | OperabilityState.starting ↦ "STARTING"
    | OperabilityState.healthy ↦ "HEALTHY"
    | OperabilityState.degraded ↦ "DEGRADED"
    | OperabilityState.halting ↦ "HALTING"
    | OperabilityState.halted ↦ "HALTED"
    | OperabilityState.reconciling ↦ "RECONCILING"
    | OperabilityState.recovery_review ↦ "RECOVERY_REVIEW"
  ];
}

pub operability_state-IsStrEnum : IsStrEnum operability_state
unfolding operability_state
operability_state-IsStrEnum = record {
  of_value-value = elim [
    | OperabilityState.offline ↦ refl
    | OperabilityState.starting ↦ refl
    | OperabilityState.healthy ↦ refl
    | OperabilityState.degraded ↦ refl
    | OperabilityState.halting ↦ refl
    | OperabilityState.halted ↦ refl
    | OperabilityState.reconciling ↦ refl
    | OperabilityState.recovery_review ↦ refl
  ];
}

pub data OrderState : Type 0 where
  proposed expired invalid risk_rejected sim_accepted created opened rejected partially_filled
        filled cancel_pending cancelled exit_pending closed :
      OrderState

unfoldable pub order_state : StrEnum OrderState
order_state = record {
  type_name = "OrderState";
  members =
      OrderState.proposed ∷ OrderState.expired ∷ OrderState.invalid ∷ OrderState.risk_rejected
      ∷ OrderState.sim_accepted ∷ OrderState.created ∷ OrderState.opened ∷ OrderState.rejected
      ∷ OrderState.partially_filled ∷ OrderState.filled ∷ OrderState.cancel_pending
      ∷ OrderState.cancelled ∷ OrderState.exit_pending ∷ OrderState.closed ∷ [];
  value = elim [
    | OrderState.proposed ↦ "PROPOSED"
    | OrderState.expired ↦ "EXPIRED"
    | OrderState.invalid ↦ "INVALID"
    | OrderState.risk_rejected ↦ "RISK_REJECTED"
    | OrderState.sim_accepted ↦ "SIM_ACCEPTED"
    | OrderState.created ↦ "CREATED"
    | OrderState.opened ↦ "OPEN"
    | OrderState.rejected ↦ "REJECTED"
    | OrderState.partially_filled ↦ "PARTIALLY_FILLED"
    | OrderState.filled ↦ "FILLED"
    | OrderState.cancel_pending ↦ "CANCEL_PENDING"
    | OrderState.cancelled ↦ "CANCELLED"
    | OrderState.exit_pending ↦ "EXIT_PENDING"
    | OrderState.closed ↦ "CLOSED"
  ];
}

pub order_state-IsStrEnum : IsStrEnum order_state
unfolding order_state
order_state-IsStrEnum = record {
  of_value-value = elim [
    | OrderState.proposed ↦ refl
    | OrderState.expired ↦ refl
    | OrderState.invalid ↦ refl
    | OrderState.risk_rejected ↦ refl
    | OrderState.sim_accepted ↦ refl
    | OrderState.created ↦ refl
    | OrderState.opened ↦ refl
    | OrderState.rejected ↦ refl
    | OrderState.partially_filled ↦ refl
    | OrderState.filled ↦ refl
    | OrderState.cancel_pending ↦ refl
    | OrderState.cancelled ↦ refl
    | OrderState.exit_pending ↦ refl
    | OrderState.closed ↦ refl
  ];
}

pub data ProposalState : Type 0 where
  generated invalid expired ineligible risk_rejected sim_accepted : ProposalState

unfoldable pub proposal_state : StrEnum ProposalState
proposal_state = record {
  type_name = "ProposalState";
  members =
      ProposalState.generated ∷ ProposalState.invalid ∷ ProposalState.expired
      ∷ ProposalState.ineligible ∷ ProposalState.risk_rejected ∷ ProposalState.sim_accepted ∷ [];
  value = elim [
    | ProposalState.generated ↦ "GENERATED"
    | ProposalState.invalid ↦ "INVALID"
    | ProposalState.expired ↦ "EXPIRED"
    | ProposalState.ineligible ↦ "INELIGIBLE"
    | ProposalState.risk_rejected ↦ "RISK_REJECTED"
    | ProposalState.sim_accepted ↦ "SIM_ACCEPTED"
  ];
}

pub proposal_state-IsStrEnum : IsStrEnum proposal_state
unfolding proposal_state
proposal_state-IsStrEnum = record {
  of_value-value = elim [
    | ProposalState.generated ↦ refl
    | ProposalState.invalid ↦ refl
    | ProposalState.expired ↦ refl
    | ProposalState.ineligible ↦ refl
    | ProposalState.risk_rejected ↦ refl
    | ProposalState.sim_accepted ↦ refl
  ];
}

pub data LiveSessionState : Type 0 where
  scheduled preflight running degraded halting halted reconciling closed : LiveSessionState

unfoldable pub live_session_state : StrEnum LiveSessionState
live_session_state = record {
  type_name = "LiveSessionState";
  members =
      LiveSessionState.scheduled ∷ LiveSessionState.preflight ∷ LiveSessionState.running
      ∷ LiveSessionState.degraded ∷ LiveSessionState.halting ∷ LiveSessionState.halted
      ∷ LiveSessionState.reconciling ∷ LiveSessionState.closed ∷ [];
  value = elim [
    | LiveSessionState.scheduled ↦ "SCHEDULED"
    | LiveSessionState.preflight ↦ "PREFLIGHT"
    | LiveSessionState.running ↦ "RUNNING"
    | LiveSessionState.degraded ↦ "DEGRADED"
    | LiveSessionState.halting ↦ "HALTING"
    | LiveSessionState.halted ↦ "HALTED"
    | LiveSessionState.reconciling ↦ "RECONCILING"
    | LiveSessionState.closed ↦ "CLOSED"
  ];
}

pub live_session_state-IsStrEnum : IsStrEnum live_session_state
unfolding live_session_state
live_session_state-IsStrEnum = record {
  of_value-value = elim [
    | LiveSessionState.scheduled ↦ refl
    | LiveSessionState.preflight ↦ refl
    | LiveSessionState.running ↦ refl
    | LiveSessionState.degraded ↦ refl
    | LiveSessionState.halting ↦ refl
    | LiveSessionState.halted ↦ refl
    | LiveSessionState.reconciling ↦ refl
    | LiveSessionState.closed ↦ refl
  ];
}

pub data WindowState : Type 0 where
  scheduled preflight running degraded halting halted reconciling closed : WindowState

unfoldable pub window_state : StrEnum WindowState
window_state = record {
  type_name = "WindowState";
  members =
      WindowState.scheduled ∷ WindowState.preflight ∷ WindowState.running ∷ WindowState.degraded
      ∷ WindowState.halting ∷ WindowState.halted ∷ WindowState.reconciling ∷ WindowState.closed
      ∷ [];
  value = elim [
    | WindowState.scheduled ↦ "SCHEDULED"
    | WindowState.preflight ↦ "PREFLIGHT"
    | WindowState.running ↦ "RUNNING"
    | WindowState.degraded ↦ "DEGRADED"
    | WindowState.halting ↦ "HALTING"
    | WindowState.halted ↦ "HALTED"
    | WindowState.reconciling ↦ "RECONCILING"
    | WindowState.closed ↦ "CLOSED"
  ];
}

pub window_state-IsStrEnum : IsStrEnum window_state
unfolding window_state
window_state-IsStrEnum = record {
  of_value-value = elim [
    | WindowState.scheduled ↦ refl
    | WindowState.preflight ↦ refl
    | WindowState.running ↦ refl
    | WindowState.degraded ↦ refl
    | WindowState.halting ↦ refl
    | WindowState.halted ↦ refl
    | WindowState.reconciling ↦ refl
    | WindowState.closed ↦ refl
  ];
}

pub data ReconciliationState : Type 0 where
  requested running matched mismatched failed : ReconciliationState

unfoldable pub reconciliation_state : StrEnum ReconciliationState
reconciliation_state = record {
  type_name = "ReconciliationState";
  members =
      ReconciliationState.requested ∷ ReconciliationState.running ∷ ReconciliationState.matched
      ∷ ReconciliationState.mismatched ∷ ReconciliationState.failed ∷ [];
  value = elim [
    | ReconciliationState.requested ↦ "REQUESTED"
    | ReconciliationState.running ↦ "RUNNING"
    | ReconciliationState.matched ↦ "MATCHED"
    | ReconciliationState.mismatched ↦ "MISMATCHED"
    | ReconciliationState.failed ↦ "FAILED"
  ];
}

pub reconciliation_state-IsStrEnum : IsStrEnum reconciliation_state
unfolding reconciliation_state
reconciliation_state-IsStrEnum = record {
  of_value-value = elim [
    | ReconciliationState.requested ↦ refl
    | ReconciliationState.running ↦ refl
    | ReconciliationState.matched ↦ refl
    | ReconciliationState.mismatched ↦ refl
    | ReconciliationState.failed ↦ refl
  ];
}

pub data RecoveryState : Type 0 where
  pending_reconciliation pending_owner_review approved rejected : RecoveryState

unfoldable pub recovery_state : StrEnum RecoveryState
recovery_state = record {
  type_name = "RecoveryState";
  members =
      RecoveryState.pending_reconciliation ∷ RecoveryState.pending_owner_review
      ∷ RecoveryState.approved ∷ RecoveryState.rejected ∷ [];
  value = elim [
    | RecoveryState.pending_reconciliation ↦ "PENDING_RECONCILIATION"
    | RecoveryState.pending_owner_review ↦ "PENDING_OWNER_REVIEW"
    | RecoveryState.approved ↦ "APPROVED"
    | RecoveryState.rejected ↦ "REJECTED"
  ];
}

pub recovery_state-IsStrEnum : IsStrEnum recovery_state
unfolding recovery_state
recovery_state-IsStrEnum = record {
  of_value-value = elim [
    | RecoveryState.pending_reconciliation ↦ refl
    | RecoveryState.pending_owner_review ↦ refl
    | RecoveryState.approved ↦ refl
    | RecoveryState.rejected ↦ refl
  ];
}

pub data IncidentState : Type 0 where
  opened acknowledged mitigated resolved reopened : IncidentState

unfoldable pub incident_state : StrEnum IncidentState
incident_state = record {
  type_name = "IncidentState";
  members =
      IncidentState.opened ∷ IncidentState.acknowledged ∷ IncidentState.mitigated
      ∷ IncidentState.resolved ∷ IncidentState.reopened ∷ [];
  value = elim [
    | IncidentState.opened ↦ "OPEN"
    | IncidentState.acknowledged ↦ "ACKNOWLEDGED"
    | IncidentState.mitigated ↦ "MITIGATED"
    | IncidentState.resolved ↦ "RESOLVED"
    | IncidentState.reopened ↦ "REOPENED"
  ];
}

pub incident_state-IsStrEnum : IsStrEnum incident_state
unfolding incident_state
incident_state-IsStrEnum = record {
  of_value-value = elim [
    | IncidentState.opened ↦ refl
    | IncidentState.acknowledged ↦ refl
    | IncidentState.mitigated ↦ refl
    | IncidentState.resolved ↦ refl
    | IncidentState.reopened ↦ refl
  ];
}

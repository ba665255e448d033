-- ===== src/Decisions.antt =====
-- domain/decisions.py: proposals, strategy evaluations and the eligibility gates. The gates of
-- `evaluate_eligibility` stand in a list in the order of the code, and `run_gates` does what the code
-- does after each: it appends the step and returns at the first that did not pass.
pub mod Gates
pub mod Meanings
pub mod Eligibility
pub mod Totality
use sopara.Prelude.{
  ℕ, String, ◌≡◌, Bool, true, false, not, ◌&&◌, ◌||◌, Option, none, some, List, [], ◌∷◌, ◌++◌, null,
  is_empty, if◌then◌else◌,
}
use sopara.Prelude.Int.{ℤ, pos, ◌+ℤ◌, ◌*ℤ◌, ltb_ℤ, leb_ℤ, magnitude}
use sopara.Errors.{Result, ok, err, domain_error, raise_if, ◌>>=◌, ◌>>◌}
use sopara.ReasonCodes
use sopara.ReasonCodes.{ReasonCode}
use sopara.States.Enums.{OperabilityState, ProposalState}
use sopara.Evidence.{EvidenceSelection}
use sopara.Instruments.{
  ContractId, Direction, Money, Price, Product, es, nes, is_nes, is_on_grid, sign, spec,
}
use sopara.Market.{BookState, SourceWatermark, StreamHealth, blocking_reason}

pub data StrategyOutcome : Type 0 where
  propose no_trade ineligible : StrategyOutcome

pub record Proposal : Type 0 where
  pub proposal_id : String
  pub direction : Direction
  pub quantity : ℤ
  pub reference_price : Price
  pub valid_from_ns : ℤ
  pub valid_through_ns : ℤ
  pub stop_policy : String
  pub exit_policy : String
  pub maximum_holding_ns : ℤ
  pub feature_snapshot_id : String
  pub es_watermark : SourceWatermark
  pub nes_watermark : SourceWatermark
  pub evidence : EvidenceSelection

unfoldable pub check_proposal : Proposal → Result Proposal
check_proposal p = do
  raise_if (is_empty p.proposal_id || is_empty p.stop_policy || is_empty p.exit_policy)
      "proposal identity, stop policy, and exit policy are required"
  raise_if (is_empty p.feature_snapshot_id) "proposal feature snapshot is required"
  raise_if (leb_ℤ p.quantity (pos 0) || leb_ℤ p.maximum_holding_ns (pos 0))
      "proposal quantity and holding time must be positive"
  raise_if (ltb_ℤ p.valid_from_ns (pos 0) || leb_ℤ p.valid_through_ns p.valid_from_ns)
      "proposal validity interval is invalid"
  ok p

pub record StrategyEvaluation : Type 0 where
  pub outcome : StrategyOutcome
  pub reason_codes : List ReasonCode
  pub proposal : Option Proposal

abbrev pub is_propose : StrategyOutcome → Bool
is_propose propose = true
is_propose _ = false

abbrev pub has_proposal : Option Proposal → Bool
has_proposal none = false
has_proposal (some p) = true

unfoldable pub check_evaluation : StrategyEvaluation → Result StrategyEvaluation
check_evaluation e = do
  raise_if (is_propose e.outcome && not (has_proposal e.proposal)) "PROPOSE requires a proposal"
  raise_if (not (is_propose e.outcome) && has_proposal e.proposal)
      "only PROPOSE may include a proposal"
  raise_if (not (is_propose e.outcome) && null e.reason_codes)
      "abstention and ineligibility require reason codes"
  ok e

pub record EligibilityContext : Type 0 where
  pub lease_current : Option Bool
  pub operability : Option OperabilityState
  pub entitlement_permitted : Option Bool
  pub within_approved_window : Option Bool
  pub source_contract : Option ContractId
  pub execution_contract : Option ContractId
  pub es_health : Option StreamHealth
  pub nes_health : Option StreamHealth
  pub nes_book : Option BookState
  pub evidence_class_permitted : Option Bool
  pub now_ns : ℤ
  pub duplicate_intent : Option Bool
  pub current_position : Option ℤ
  pub maximum_position : Option ℤ
  pub within_loss_limit : Option Bool
  pub exit_feasible : Option Bool

pub record EvaluationStep : Type 0 where
  pub check : String
  pub passed : Bool
  pub reason : Option ReasonCode

pub record EligibilityDecision : Type 0 where
  pub outcome : ProposalState
  pub steps : List EvaluationStep

abbrev pub consider : Option ReasonCode → List ReasonCode → List ReasonCode
consider none rs = rs
consider (some r) rs = r ∷ rs

-- `step.reason for step in self.steps if step.reason is not None`
unfoldable pub reasons_of : List EvaluationStep → List ReasonCode
reasons_of [] = []
reasons_of (s ∷ ss) = consider s.reason (reasons_of ss)

unfoldable pub reason_codes : EligibilityDecision → List ReasonCode
unfolding reasons_of
reason_codes d = reasons_of d.steps

-- The step that `_required_boolean` appends.
unfoldable pub required_boolean : String → Option Bool → ReasonCode → EvaluationStep
required_boolean name none failure = record {
  check = name;
  passed = false;
  reason = some ReasonCode.missing_required_state;
}
required_boolean name (some value) failure = record {
  check = name;
  passed = value;
  reason = if value then none else some failure;
}

-- `EvaluationStep(name, passed, None if passed else failure)`
abbrev pub step : String → Bool → ReasonCode → EvaluationStep
step name passed failure = record {
  check = name;
  passed = passed;
  reason = if passed then none else some failure;
}

abbrev pub is_healthy : Option OperabilityState → Bool
is_healthy (some OperabilityState.healthy) = true
is_healthy _ = false

abbrev pub operability_failure : Option OperabilityState → ReasonCode
operability_failure none = ReasonCode.missing_required_state
operability_failure (some s) = ReasonCode.operability_not_healthy

abbrev pub is_es_contract : Option ContractId → Bool
is_es_contract none = false
is_es_contract (some c) = not (is_nes c.product)

abbrev pub is_nes_contract : Option ContractId → Bool
is_nes_contract none = false
is_nes_contract (some c) = is_nes c.product

abbrev pub stream_healthy : Option StreamHealth → Bool
stream_healthy (some StreamHealth.healthy) = true
stream_healthy _ = false

-- The reason for a stream that is not healthy.
abbrev pub health_failure : Option StreamHealth → ReasonCode → ReasonCode → ReasonCode
health_failure none stale gap = ReasonCode.missing_required_state
health_failure (some StreamHealth.gapped) stale gap = gap
health_failure (some _) stale gap = stale

abbrev pub book_step : Option ReasonCode → EvaluationStep
book_step none = record { check = "nes_book"; passed = true; reason = none }
book_step (some r) = record { check = "nes_book"; passed = false; reason = some r }

unfoldable pub check_book : Option BookState → Result EvaluationStep
check_book none = ok (book_step (some ReasonCode.missing_required_state))
check_book (some b) = do reason ← blocking_reason b; ok (book_step reason)

unfoldable pub check_grid : Option ContractId → Price → Result EvaluationStep
check_grid none price = err (domain_error "validated execution contract is unexpectedly absent")
check_grid (some c) price = do
  on_grid ← is_on_grid (spec c) price
  ok (step "nes_tick_grid" on_grid ReasonCode.nes_off_grid)

abbrev pub no_duplicate : Option Bool → Bool
no_duplicate (some false) = true
no_duplicate _ = false

abbrev pub duplicate_failure : Option Bool → ReasonCode
duplicate_failure none = ReasonCode.missing_required_state
duplicate_failure (some d) = ReasonCode.duplicate_intent

-- `abs(current_position + proposal.direction.sign * proposal.quantity) <= maximum_position`
abbrev pub within_limit : Proposal → ℤ → ℤ → Bool
within_limit p current maximum =
    leb_ℤ (pos (magnitude (current +ℤ sign p.direction *ℤ p.quantity))) maximum

unfoldable pub check_position : Proposal → Option ℤ → Option ℤ → EvaluationStep
check_position p (some current) (some maximum) =
    step "position_limit" (within_limit p current maximum) ReasonCode.position_limit
check_position p (some current) none = step "position_limit" false ReasonCode.missing_required_state
check_position p none maximum = step "position_limit" false ReasonCode.missing_required_state

-- A check, which may raise, and the outcome of a decision that ends at it.
pub record Gate : Type 0 where
  pub result : Result EvaluationStep
  pub refusal : ProposalState

abbrev pub gate : EvaluationStep → ProposalState → Gate
gate s refusal = record { result = ok s; refusal = refusal }

unfoldable pub lease_gate : EligibilityContext → Gate
unfolding required_boolean
lease_gate c =
    gate
      (required_boolean "current_fencing_lease" c.lease_current ReasonCode.lease_missing_or_stale)
      ProposalState.ineligible

unfoldable pub operability_gate : EligibilityContext → Gate
operability_gate c =
    gate (step "operability" (is_healthy c.operability) (operability_failure c.operability))
      ProposalState.ineligible

unfoldable pub entitlement_gate : EligibilityContext → Gate
unfolding required_boolean
entitlement_gate c =
    gate (required_boolean "entitlement" c.entitlement_permitted ReasonCode.entitlement_denied)
      ProposalState.ineligible

unfoldable pub window_gate : EligibilityContext → Gate
unfolding required_boolean
window_gate c =
    gate
      (required_boolean "approved_window" c.within_approved_window
        ReasonCode.outside_approved_window)
      ProposalState.ineligible

unfoldable pub contracts_gate : EligibilityContext → Gate
contracts_gate c =
    gate
      (step "explicit_contracts"
        (is_es_contract c.source_contract && is_nes_contract c.execution_contract)
        ReasonCode.explicit_contract_required)
      ProposalState.ineligible

unfoldable pub es_health_gate : EligibilityContext → Gate
es_health_gate c =
    gate
      (step "es_health" (stream_healthy c.es_health)
        (health_failure c.es_health ReasonCode.es_stale ReasonCode.es_sequence_gap))
      ProposalState.ineligible

unfoldable pub nes_health_gate : EligibilityContext → Gate
nes_health_gate c =
    gate
      (step "nes_health" (stream_healthy c.nes_health)
        (health_failure c.nes_health ReasonCode.nes_stale ReasonCode.nes_sequence_gap))
      ProposalState.ineligible

unfoldable pub book_gate : EligibilityContext → Gate
unfolding check_book
book_gate c = record { result = check_book c.nes_book; refusal = ProposalState.ineligible }

unfoldable pub evidence_gate : EligibilityContext → Gate
unfolding required_boolean
evidence_gate c =
    gate
      (required_boolean "evidence_class" c.evidence_class_permitted
        ReasonCode.evidence_class_ineligible)
      ProposalState.ineligible

unfoldable pub expiry_gate : Proposal → EligibilityContext → Gate
expiry_gate p c =
    gate
      (step "proposal_expiry" (leb_ℤ p.valid_from_ns c.now_ns && leb_ℤ c.now_ns p.valid_through_ns)
        ReasonCode.proposal_expired)
      ProposalState.expired

unfoldable pub grid_gate : Proposal → EligibilityContext → Gate
unfolding check_grid
grid_gate p c = record {
  result = check_grid c.execution_contract p.reference_price;
  refusal = ProposalState.invalid;
}

unfoldable pub duplicate_gate : EligibilityContext → Gate
duplicate_gate c =
    gate
      (step "duplicate_intent" (no_duplicate c.duplicate_intent)
        (duplicate_failure c.duplicate_intent))
      ProposalState.ineligible

unfoldable pub position_gate : Proposal → EligibilityContext → Gate
unfolding check_position
position_gate p c =
    gate (check_position p c.current_position c.maximum_position) ProposalState.risk_rejected

unfoldable pub loss_gate : EligibilityContext → Gate
unfolding required_boolean
loss_gate c =
    gate (required_boolean "loss_limit" c.within_loss_limit ReasonCode.loss_limit)
      ProposalState.risk_rejected

unfoldable pub exit_gate : EligibilityContext → Gate
unfolding required_boolean
exit_gate c =
    gate (required_boolean "exit_feasibility" c.exit_feasible ReasonCode.exit_infeasible)
      ProposalState.risk_rejected

unfoldable pub gates : Proposal → EligibilityContext → List Gate
unfolding lease_gate operability_gate entitlement_gate window_gate contracts_gate es_health_gate
    nes_health_gate book_gate evidence_gate expiry_gate grid_gate duplicate_gate position_gate
    loss_gate exit_gate
gates p c =
    lease_gate c
    ∷ operability_gate c
    ∷ entitlement_gate c
    ∷ window_gate c
    ∷ contracts_gate c
    ∷ es_health_gate c
    ∷ nes_health_gate c
    ∷ book_gate c
    ∷ evidence_gate c
    ∷ expiry_gate p c
    ∷ grid_gate p c
    ∷ duplicate_gate c
    ∷ position_gate p c
    ∷ loss_gate c
    ∷ exit_gate c
    ∷ []

unfoldable pub run_gates : List EvaluationStep → List Gate → Result EligibilityDecision
run_gates steps [] = ok (record { outcome = ProposalState.sim_accepted; steps = steps })
run_gates steps (g ∷ gs) = do
  s ← g.result
  elim s.passed [
    | true ↦ run_gates (steps ++ s ∷ []) gs
    | false ↦ ok (record { outcome = g.refusal; steps = steps ++ s ∷ [] })
  ]

unfoldable pub evaluate_eligibility : Proposal → EligibilityContext → Result EligibilityDecision
unfolding gates run_gates
evaluate_eligibility p c = run_gates [] (gates p c)

pub record RiskDecision : Type 0 where
  pub accepted : Bool
  pub requested_quantity : ℤ
  pub allowed_quantity : ℤ
  pub projected_loss : Money
  pub reason_codes : List ReasonCode

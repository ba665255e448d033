-- ===== src/Decisions/Meanings.antt =====
-- domain/decisions.py: what the passing of each gate means.
use sopara.Prelude.{String, ◌≡◌, ◌≢◌, refl, ◌↔◌, Bool, true, false, ◌&&◌, Option, none, some, arith}
use sopara.Prelude.Int.{ℤ, ◌≤ℤ◌, leb_ℤ}
use sopara.Errors.{ok}
use sopara.ReasonCodes.{ReasonCode}
use sopara.States.Enums.{OperabilityState, ProposalState}
use sopara.Instruments.{ContractId, Price, is_on_grid, spec}
use sopara.Market.{BookState, StreamHealth, blocking_reason}
use sopara.Decisions.{
  Proposal, EligibilityContext, Gate, required_boolean, step, book_step, gate, operability_failure,
  health_failure, duplicate_failure, lease_gate, operability_gate, entitlement_gate, window_gate,
  contracts_gate, es_health_gate, nes_health_gate, book_gate, evidence_gate, expiry_gate, grid_gate,
  duplicate_gate, position_gate, loss_gate, exit_gate, check_book, check_grid, check_position,
  within_limit, is_es_contract, is_nes_contract, stream_healthy, is_healthy, no_duplicate,
}
use sopara.Decisions.Gates.{Passes, IsSound}

-- A gate that is sound, and what its passing means.
pub record Means (g : Gate) (C : Type 0) : Type 0 where
  pub sound : IsSound g
  pub iff : Passes g ↔ C

module _ (o : ProposalState) (refuses : o ≢ ProposalState.sim_accepted) where
  required-Means :
      (name : String) (v : Option Bool) (r : ReasonCode)
      → Means (gate (required_boolean name v r) o) (v ≡ some true)
  unfolding required_boolean
  required-Means name v r = record {
    sound = record { refuses = refuses; justified = λ s e. ground arith };
    iff = (λ p. ground (arith, p.1, p.2), λ p. (required_boolean name v r, refl, ground arith));
  }

  step-Means :
      (name : String) (b : Bool) (r : ReasonCode) → Means (gate (step name b r) o) (b ≡ true)
  step-Means name b r = record {
    sound = record { refuses = refuses; justified = λ s e. ground arith };
    iff = (λ p. ground (arith, p.1, p.2), λ p. (step name b r, refl, p));
  }

  book-Means :
      (b : Option BookState)
      → Means
          (record { result = check_book b; refusal = o })
          ((k : BookState) × (b ≡ some k) × (blocking_reason k ≡ ok none))
  unfolding check_book
  book-Means none = record {
    sound = record { refuses = refuses; justified = λ s e. ground arith };
    iff = (λ p. absurd (ground (arith, p.1, p.2)), λ p. cc (p.1));
  }
  book-Means (some k) = record {
    sound = record { refuses = refuses; justified = λ s e. ground arith };
    iff = (
      λ p. (k, refl, ground (arith, p.1, p.2)),
      λ p. (book_step none, ground (arith, p.1, p.2), refl),
    );
  }

  grid-Means :
      (c : Option ContractId) (price : Price)
      → Means
          (record { result = check_grid c price; refusal = o })
          ((k : ContractId) × (c ≡ some k) × (is_on_grid (spec k) price ≡ ok true))
  unfolding check_grid
  grid-Means none price = record {
    sound = record { refuses = refuses; justified = λ s e. ground arith };
    iff = (λ p. absurd (ground (arith, p.1, p.2)), λ p. cc (p.1));
  }
  grid-Means (some k) price = record {
    sound = record { refuses = refuses; justified = λ s e. ground arith };
    iff = (
      λ p. (k, refl, ground (arith, p.1, p.2)),
      λ p. (step "nes_tick_grid" true ReasonCode.nes_off_grid, ground (arith, p.1, p.2), refl),
    );
  }

  position-Means :
      (p : Proposal) (c m : Option ℤ)
      → Means
          (gate (check_position p c m) o)
          ((x : ℤ) × (c ≡ some x) × ((y : ℤ) × (m ≡ some y) × (within_limit p x y ≡ true)))
  unfolding check_position
  position-Means p none m = record {
    sound = record { refuses = refuses; justified = λ s e. ground arith };
    iff = (λ h. absurd (ground (arith, h.1, h.2)), λ h. cc (h.1));
  }
  position-Means p (some x) none = record {
    sound = record { refuses = refuses; justified = λ s e. ground arith };
    iff = (λ h. absurd (ground (arith, h.1, h.2)), λ h. cc (h.2.1));
  }
  position-Means p (some x) (some y) = record {
    sound = record { refuses = refuses; justified = λ s e. ground arith };
    iff = (
      λ h. (x, refl, (y, refl, ground (arith, h.1, h.2))),
      λ h. (check_position p (some x) (some y), refl, ground (arith, h.1, h.2.1, h.2.2)),
    );
  }

-- A step gate with a test that is read as a condition.
reading : {g : Gate} {C D : Type 0} → Means g C → (C ↔ D) → Means g D
reading m e = record { sound = m.sound; iff = (λ p. e.0 (m.iff.0 p), λ d. m.iff.1 (e.1 d)) }

pub lease_gate-Means : (c : EligibilityContext) → Means (lease_gate c) (c.lease_current ≡ some true)
unfolding lease_gate
lease_gate-Means c =
    required-Means ProposalState.ineligible (λ e. cc) "current_fencing_lease" c.lease_current
      ReasonCode.lease_missing_or_stale

pub operability_gate-Means :
    (c : EligibilityContext)
    → Means (operability_gate c) (c.operability ≡ some OperabilityState.healthy)
unfolding operability_gate
operability_gate-Means c =
    reading
      (step-Means ProposalState.ineligible (λ e. cc) "operability" (is_healthy c.operability)
        (operability_failure c.operability))
      (λ h. ground arith, λ h. ground (arith, h))

pub entitlement_gate-Means :
    (c : EligibilityContext) → Means (entitlement_gate c) (c.entitlement_permitted ≡ some true)
unfolding entitlement_gate
entitlement_gate-Means c =
    required-Means ProposalState.ineligible (λ e. cc) "entitlement" c.entitlement_permitted
      ReasonCode.entitlement_denied

pub window_gate-Means :
    (c : EligibilityContext) → Means (window_gate c) (c.within_approved_window ≡ some true)
unfolding window_gate
window_gate-Means c =
    required-Means ProposalState.ineligible (λ e. cc) "approved_window" c.within_approved_window
      ReasonCode.outside_approved_window

pub contracts_gate-Means :
    (c : EligibilityContext)
    → Means
        (contracts_gate c)
        ((is_es_contract c.source_contract && is_nes_contract c.execution_contract) ≡ true)
unfolding contracts_gate
contracts_gate-Means c =
    step-Means ProposalState.ineligible (λ e. cc) "explicit_contracts"
      (is_es_contract c.source_contract && is_nes_contract c.execution_contract)
      ReasonCode.explicit_contract_required

pub es_health_gate-Means :
    (c : EligibilityContext) → Means (es_health_gate c) (c.es_health ≡ some StreamHealth.healthy)
unfolding es_health_gate
es_health_gate-Means c =
    reading
      (step-Means ProposalState.ineligible (λ e. cc) "es_health" (stream_healthy c.es_health)
        (health_failure c.es_health ReasonCode.es_stale ReasonCode.es_sequence_gap))
      (λ h. ground arith, λ h. ground (arith, h))

pub nes_health_gate-Means :
    (c : EligibilityContext) → Means (nes_health_gate c) (c.nes_health ≡ some StreamHealth.healthy)
unfolding nes_health_gate
nes_health_gate-Means c =
    reading
      (step-Means ProposalState.ineligible (λ e. cc) "nes_health" (stream_healthy c.nes_health)
        (health_failure c.nes_health ReasonCode.nes_stale ReasonCode.nes_sequence_gap))
      (λ h. ground arith, λ h. ground (arith, h))

pub book_gate-Means :
    (c : EligibilityContext)
    → Means (book_gate c) ((k : BookState) × (c.nes_book ≡ some k) × (blocking_reason k ≡ ok none))
unfolding book_gate
book_gate-Means c = book-Means ProposalState.ineligible (λ e. cc) c.nes_book

pub evidence_gate-Means :
    (c : EligibilityContext) → Means (evidence_gate c) (c.evidence_class_permitted ≡ some true)
unfolding evidence_gate
evidence_gate-Means c =
    required-Means ProposalState.ineligible (λ e. cc) "evidence_class" c.evidence_class_permitted
      ReasonCode.evidence_class_ineligible

pub expiry_gate-Means :
    (p : Proposal) (c : EligibilityContext)
    → Means (expiry_gate p c) ((p.valid_from_ns ≤ℤ c.now_ns) × (c.now_ns ≤ℤ p.valid_through_ns))
unfolding expiry_gate
expiry_gate-Means p c =
    reading
      (step-Means ProposalState.expired (λ e. cc) "proposal_expiry"
        (leb_ℤ p.valid_from_ns c.now_ns && leb_ℤ c.now_ns p.valid_through_ns)
        ReasonCode.proposal_expired)
      (λ h. (ground arith, ground arith), λ h. ground (arith, h.0, h.1))

pub grid_gate-Means :
    (p : Proposal) (c : EligibilityContext)
    → Means (grid_gate p c) (
        (k : ContractId) × (c.execution_contract ≡ some k)
        × (is_on_grid (spec k) p.reference_price ≡ ok true))
unfolding grid_gate
grid_gate-Means p c =
    grid-Means ProposalState.invalid (λ e. cc) c.execution_contract p.reference_price

pub duplicate_gate-Means :
    (c : EligibilityContext) → Means (duplicate_gate c) (c.duplicate_intent ≡ some false)
unfolding duplicate_gate
duplicate_gate-Means c =
    reading
      (step-Means ProposalState.ineligible (λ e. cc) "duplicate_intent"
        (no_duplicate c.duplicate_intent) (duplicate_failure c.duplicate_intent))
      (λ h. ground arith, λ h. ground (arith, h))

pub position_gate-Means :
    (p : Proposal) (c : EligibilityContext)
    → Means (position_gate p c) (
        (x : ℤ) × (c.current_position ≡ some x)
        × ((y : ℤ) × (c.maximum_position ≡ some y) × (within_limit p x y ≡ true)))
unfolding position_gate
position_gate-Means p c =
    position-Means ProposalState.risk_rejected (λ e. cc) p c.current_position c.maximum_position

pub loss_gate-Means :
    (c : EligibilityContext) → Means (loss_gate c) (c.within_loss_limit ≡ some true)
unfolding loss_gate
loss_gate-Means c =
    required-Means ProposalState.risk_rejected (λ e. cc) "loss_limit" c.within_loss_limit
      ReasonCode.loss_limit

pub exit_gate-Means : (c : EligibilityContext) → Means (exit_gate c) (c.exit_feasible ≡ some true)
unfolding exit_gate
exit_gate-Means c =
    required-Means ProposalState.risk_rejected (λ e. cc) "exit_feasibility" c.exit_feasible
      ReasonCode.exit_infeasible

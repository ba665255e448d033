-- ===== src/Decisions/Eligibility.antt =====
-- domain/decisions.py: exactly which proposals the gates of `evaluate_eligibility` accept.
use sopara.Prelude.{
  ◌≡◌, ◌≢◌, refl, ◌↔◌, ◌⊎◌, Bool, true, false, ◌&&◌, Option, none, some, [], ◌∷◌, All, arith,
}
use sopara.Prelude.Int.{ℤ, pos, ◌+ℤ◌, ◌*ℤ◌, ◌≤ℤ◌, magnitude}
use sopara.Errors.{ok}
use sopara.ReasonCodes.{ReasonCode}
use sopara.States.Enums.{OperabilityState, ProposalState}
use sopara.Instruments.{ContractId, es, nes, is_on_grid, sign, spec}
use sopara.Market.{BookState, StreamHealth, blocking_reason}
use sopara.Decisions.{
  Proposal, EligibilityContext, EligibilityDecision, reason_codes, reasons_of, gates,
  evaluate_eligibility, within_limit, is_es_contract, is_nes_contract,
}
use sopara.Decisions.Gates.{
  Passes, IsSound, FirstFailure, run_gates-accepted_iff, run_gates-reasons,
}
use sopara.Decisions.Meanings.{
  lease_gate-Means, operability_gate-Means, entitlement_gate-Means, window_gate-Means,
  contracts_gate-Means, es_health_gate-Means, nes_health_gate-Means, book_gate-Means,
  evidence_gate-Means, expiry_gate-Means, grid_gate-Means, duplicate_gate-Means,
  position_gate-Means, loss_gate-Means, exit_gate-Means,
}

gates-IsSound : (p : Proposal) (c : EligibilityContext) → All IsSound (gates p c)
unfolding gates
gates-IsSound p c = (
  (lease_gate-Means c).sound,
  (
    (operability_gate-Means c).sound,
    (
      (entitlement_gate-Means c).sound,
      (
        (window_gate-Means c).sound,
        (
          (contracts_gate-Means c).sound,
          (
            (es_health_gate-Means c).sound,
            (
              (nes_health_gate-Means c).sound,
              (
                (book_gate-Means c).sound,
                (
                  (evidence_gate-Means c).sound,
                  (
                    (expiry_gate-Means p c).sound,
                    (
                      (grid_gate-Means p c).sound,
                      (
                        (duplicate_gate-Means c).sound,
                        (
                          (position_gate-Means p c).sound,
                          ((loss_gate-Means c).sound, ((exit_gate-Means c).sound, tt)),
                        ),
                      ),
                    ),
                  ),
                ),
              ),
            ),
          ),
        ),
      ),
    ),
  ),
)

-- Everything that a proposal needs.
pub record IsEligible (p : Proposal) (c : EligibilityContext) : Type 0 where
  pub lease : c.lease_current ≡ some true
  pub operability : c.operability ≡ some OperabilityState.healthy
  pub entitlement : c.entitlement_permitted ≡ some true
  pub window : c.within_approved_window ≡ some true
  pub source : ContractId
  pub has_source : c.source_contract ≡ some source
  pub source_product : source.product ≡ es
  pub execution : ContractId
  pub has_execution : c.execution_contract ≡ some execution
  pub execution_product : execution.product ≡ nes
  pub es_health : c.es_health ≡ some StreamHealth.healthy
  pub nes_health : c.nes_health ≡ some StreamHealth.healthy
  pub book : BookState
  pub has_book : c.nes_book ≡ some book
  pub book_open : blocking_reason book ≡ ok none
  pub evidence : c.evidence_class_permitted ≡ some true
  pub started : p.valid_from_ns ≤ℤ c.now_ns
  pub unexpired : c.now_ns ≤ℤ p.valid_through_ns
  pub on_grid : is_on_grid (spec execution) p.reference_price ≡ ok true
  pub no_duplicate : c.duplicate_intent ≡ some false
  pub current : ℤ
  pub has_current : c.current_position ≡ some current
  pub maximum : ℤ
  pub has_maximum : c.maximum_position ≡ some maximum
  pub bounded : pos (magnitude (current +ℤ sign p.direction *ℤ p.quantity)) ≤ℤ maximum
  pub loss_limit : c.within_loss_limit ≡ some true
  pub exit : c.exit_feasible ≡ some true

es_source :
    (c : Option ContractId)
    → is_es_contract c ≡ true
    → (k : ContractId) × (c ≡ some k) × (k.product ≡ es)
es_source none h = cc
es_source (some k) h = (k, refl, ground arith)

both_true : (a b : Bool) → (a && b) ≡ true → (a ≡ true) × (b ≡ true)
both_true a b h = ground arith

nes_product :
    (c : Option ContractId) (k : ContractId)
    → c ≡ some k
    → is_nes_contract c ≡ true
    → k.product ≡ nes
nes_product c k e h = ground arith

limit_holds :
    (p : Proposal) (x y : ℤ)
    → within_limit p x y ≡ true
    → pos (magnitude (x +ℤ sign p.direction *ℤ p.quantity)) ≤ℤ y
limit_holds p x y h = ground arith

-- The passing of every gate, read as the conditions.
eligible_of_passes :
    (p : Proposal) (c : EligibilityContext) → All Passes (gates p c) → IsEligible p c
unfolding gates
eligible_of_passes p c h =
    let contracts =
      both_true (is_es_contract c.source_contract) (is_nes_contract c.execution_contract)
        ((contracts_gate-Means c).iff.0 h.1.1.1.1.0) in
    let (book, has_book, book_open) = (book_gate-Means c).iff.0 h.1.1.1.1.1.1.1.0 in
    let (execution, has_execution, on_grid) = (grid_gate-Means p c).iff.0 h.1.1.1.1.1.1.1.1.1.1.0 in
    let (current, has_current, (maximum, has_maximum, bounded)) =
      (position_gate-Means p c).iff.0 h.1.1.1.1.1.1.1.1.1.1.1.1.0 in
    let (source, has_source, source_product) = es_source c.source_contract contracts.0 in
    let expiry = (expiry_gate-Means p c).iff.0 h.1.1.1.1.1.1.1.1.1.0 in
    record {
      lease = (lease_gate-Means c).iff.0 h.0;
      operability = (operability_gate-Means c).iff.0 h.1.0;
      entitlement = (entitlement_gate-Means c).iff.0 h.1.1.0;
      window = (window_gate-Means c).iff.0 h.1.1.1.0;
      source = source;
      has_source = has_source;
      source_product = source_product;
      execution = execution;
      has_execution = has_execution;
      execution_product = nes_product c.execution_contract execution has_execution contracts.1;
      es_health = (es_health_gate-Means c).iff.0 h.1.1.1.1.1.0;
      nes_health = (nes_health_gate-Means c).iff.0 h.1.1.1.1.1.1.0;
      book = book;
      has_book = has_book;
      book_open = book_open;
      evidence = (evidence_gate-Means c).iff.0 h.1.1.1.1.1.1.1.1.0;
      started = expiry.0;
      unexpired = expiry.1;
      on_grid = on_grid;
      no_duplicate = (duplicate_gate-Means c).iff.0 h.1.1.1.1.1.1.1.1.1.1.1.0;
      current = current;
      has_current = has_current;
      maximum = maximum;
      has_maximum = has_maximum;
      bounded = limit_holds p current maximum bounded;
      loss_limit = (loss_gate-Means c).iff.0 h.1.1.1.1.1.1.1.1.1.1.1.1.1.0;
      exit = (exit_gate-Means c).iff.0 h.1.1.1.1.1.1.1.1.1.1.1.1.1.1.0;
    }

Passes-of_eligible :
    (p : Proposal) (c : EligibilityContext) → IsEligible p c → All Passes (gates p c)
unfolding gates
Passes-of_eligible p c e = (
  (lease_gate-Means c).iff.1 e.lease,
  (
    (operability_gate-Means c).iff.1 e.operability,
    (
      (entitlement_gate-Means c).iff.1 e.entitlement,
      (
        (window_gate-Means c).iff.1 e.window,
        (
          (contracts_gate-Means c).iff.1 (
              ground (arith, e.has_source, e.source_product, e.has_execution, e.execution_product)),
          (
            (es_health_gate-Means c).iff.1 e.es_health,
            (
              (nes_health_gate-Means c).iff.1 e.nes_health,
              (
                (book_gate-Means c).iff.1 (e.book, e.has_book, e.book_open),
                (
                  (evidence_gate-Means c).iff.1 e.evidence,
                  (
                    (expiry_gate-Means p c).iff.1 (e.started, e.unexpired),
                    (
                      (grid_gate-Means p c).iff.1 (e.execution, e.has_execution, e.on_grid),
                      (
                        (duplicate_gate-Means c).iff.1 e.no_duplicate,
                        (
                          (position_gate-Means p c).iff.1 (
                            e.current,
                            e.has_current,
                            (e.maximum, e.has_maximum, ground (arith, e.bounded)),
                          ),
                          (
                            (loss_gate-Means c).iff.1 e.loss_limit,
                            ((exit_gate-Means c).iff.1 e.exit, tt),
                          ),
                        ),
                      ),
                    ),
                  ),
                ),
              ),
            ),
          ),
        ),
      ),
    ),
  ),
)

-- A decision accepts a proposal exactly if the proposal is eligible in its context.
pub evaluate-accepted_iff :
    (p : Proposal) (c : EligibilityContext) (d : EligibilityDecision)
    → evaluate_eligibility p c ≡ ok d
    → (d.outcome ≡ ProposalState.sim_accepted) ↔ IsEligible p c
unfolding evaluate_eligibility
evaluate-accepted_iff p c d h =
    let iff = run_gates-accepted_iff [] (gates p c) d (gates-IsSound p c) h in
    (λ a. eligible_of_passes p c (iff.0 a), λ e. iff.1 (Passes-of_eligible p c e))

-- An accepting decision carries no reason, and any other carries exactly one: that of the first of the
-- fifteen gates that does not pass, which also gives the outcome.
pub evaluate-reasons :
    (p : Proposal) (c : EligibilityContext) (d : EligibilityDecision)
    → evaluate_eligibility p c ≡ ok d
    → ((d.outcome ≡ ProposalState.sim_accepted) × (reason_codes d ≡ []))
      ⊎ ((d.outcome ≢ ProposalState.sim_accepted)
          × ((r : ReasonCode) × (reason_codes d ≡ r ∷ []) × FirstFailure (gates p c) d r))
unfolding evaluate_eligibility reasons_of
evaluate-reasons p c d h = run_gates-reasons [] (gates p c) d (gates-IsSound p c) refl h

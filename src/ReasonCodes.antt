-- ===== src/ReasonCodes.antt =====
-- domain/reason_codes.py: the stable reasons that decisions, transitions and events carry.
use sopara.Prelude.{refl, [], ◌∷◌}
use sopara.States.StrEnum.{StrEnum, IsStrEnum}

pub data ReasonCode : Type 0 where
  invalid_schema invalid_transition missing_required_state lease_missing_or_stale
        operability_not_healthy entitlement_denied outside_approved_window
        explicit_contract_required es_stale es_sequence_gap nes_stale nes_sequence_gap
        nes_book_empty nes_book_locked nes_book_crossed zero_volume market_halted price_limited
        observed_nes_pre_launch proxy_opt_in_required evidence_class_ineligible proposal_expired
        nes_off_grid duplicate_intent position_limit loss_limit exit_infeasible
        passive_touch_insufficient sequence_fidelity_unverified duplicate_identical
        duplicate_conflict holiday early_close expiry_session roll_overlap model_review_unavailable
        mixed_evidence reconciliation_mismatch signal_below_threshold :
      ReasonCode

unfoldable pub reason_code : StrEnum ReasonCode
reason_code = record {
  type_name = "ReasonCode";
  members =
      invalid_schema ∷ invalid_transition ∷ missing_required_state ∷ lease_missing_or_stale
      ∷ operability_not_healthy ∷ entitlement_denied ∷ outside_approved_window
      ∷ explicit_contract_required ∷ es_stale ∷ es_sequence_gap ∷ nes_stale ∷ nes_sequence_gap
      ∷ nes_book_empty ∷ nes_book_locked ∷ nes_book_crossed ∷ zero_volume ∷ market_halted
      ∷ price_limited ∷ observed_nes_pre_launch ∷ proxy_opt_in_required ∷ evidence_class_ineligible
      ∷ proposal_expired ∷ nes_off_grid ∷ duplicate_intent ∷ position_limit ∷ loss_limit
      ∷ exit_infeasible ∷ passive_touch_insufficient ∷ sequence_fidelity_unverified
      ∷ duplicate_identical ∷ duplicate_conflict ∷ holiday ∷ early_close ∷ expiry_session
      ∷ roll_overlap ∷ model_review_unavailable ∷ mixed_evidence ∷ reconciliation_mismatch
      ∷ signal_below_threshold ∷ [];
  value = elim [
    | invalid_schema ↦ "INVALID_SCHEMA"
    | invalid_transition ↦ "INVALID_TRANSITION"
    | missing_required_state ↦ "MISSING_REQUIRED_STATE"
    | lease_missing_or_stale ↦ "LEASE_MISSING_OR_STALE"
    | operability_not_healthy ↦ "OPERABILITY_NOT_HEALTHY"
    | entitlement_denied ↦ "ENTITLEMENT_DENIED"
    | outside_approved_window ↦ "OUTSIDE_APPROVED_WINDOW"
    | explicit_contract_required ↦ "EXPLICIT_CONTRACT_REQUIRED"
    | es_stale ↦ "ES_STALE"
    | es_sequence_gap ↦ "ES_SEQUENCE_GAP"
    | nes_stale ↦ "NES_STALE"
    | nes_sequence_gap ↦ "NES_SEQUENCE_GAP"
    | nes_book_empty ↦ "NES_BOOK_EMPTY"
    | nes_book_locked ↦ "NES_BOOK_LOCKED"
    | nes_book_crossed ↦ "NES_BOOK_CROSSED"
    | zero_volume ↦ "ZERO_VOLUME"
    | market_halted ↦ "MARKET_HALTED"
    | price_limited ↦ "PRICE_LIMITED"
    | observed_nes_pre_launch ↦ "OBSERVED_NES_PRE_LAUNCH"
    | proxy_opt_in_required ↦ "PROXY_OPT_IN_REQUIRED"
    | evidence_class_ineligible ↦ "EVIDENCE_CLASS_INELIGIBLE"
    | proposal_expired ↦ "PROPOSAL_EXPIRED"
    | nes_off_grid ↦ "NES_OFF_GRID"
    | duplicate_intent ↦ "DUPLICATE_INTENT"
    | position_limit ↦ "POSITION_LIMIT"
    | loss_limit ↦ "LOSS_LIMIT"
    | exit_infeasible ↦ "EXIT_INFEASIBLE"
    | passive_touch_insufficient ↦ "PASSIVE_TOUCH_INSUFFICIENT"
    | sequence_fidelity_unverified ↦ "SEQUENCE_FIDELITY_UNVERIFIED"
    | duplicate_identical ↦ "DUPLICATE_IDENTICAL"
    | duplicate_conflict ↦ "DUPLICATE_CONFLICT"
    | holiday ↦ "HOLIDAY"
    | early_close ↦ "EARLY_CLOSE"
    | expiry_session ↦ "EXPIRY_SESSION"
    | roll_overlap ↦ "ROLL_OVERLAP"
    | model_review_unavailable ↦ "MODEL_REVIEW_UNAVAILABLE"
    | mixed_evidence ↦ "MIXED_EVIDENCE"
    | reconciliation_mismatch ↦ "RECONCILIATION_MISMATCH"
    | signal_below_threshold ↦ "SIGNAL_BELOW_THRESHOLD"
  ];
}

pub reason_code-IsStrEnum : IsStrEnum reason_code
unfolding reason_code
reason_code-IsStrEnum = record {
  of_value-value = elim [
    | invalid_schema ↦ refl
    | invalid_transition ↦ refl
    | missing_required_state ↦ refl
    | lease_missing_or_stale ↦ refl
    | operability_not_healthy ↦ refl
    | entitlement_denied ↦ refl
    | outside_approved_window ↦ refl
    | explicit_contract_required ↦ refl
    | es_stale ↦ refl
    | es_sequence_gap ↦ refl
    | nes_stale ↦ refl
    | nes_sequence_gap ↦ refl
    | nes_book_empty ↦ refl
    | nes_book_locked ↦ refl
    | nes_book_crossed ↦ refl
    | zero_volume ↦ refl
    | market_halted ↦ refl
    | price_limited ↦ refl
    | observed_nes_pre_launch ↦ refl
    | proxy_opt_in_required ↦ refl
    | evidence_class_ineligible ↦ refl
    | proposal_expired ↦ refl
    | nes_off_grid ↦ refl
    | duplicate_intent ↦ refl
    | position_limit ↦ refl
    | loss_limit ↦ refl
    | exit_infeasible ↦ refl
    | passive_touch_insufficient ↦ refl
    | sequence_fidelity_unverified ↦ refl
    | duplicate_identical ↦ refl
    | duplicate_conflict ↦ refl
    | holiday ↦ refl
    | early_close ↦ refl
    | expiry_session ↦ refl
    | roll_overlap ↦ refl
    | model_review_unavailable ↦ refl
    | mixed_evidence ↦ refl
    | reconciliation_mismatch ↦ refl
    | signal_below_threshold ↦ refl
  ];
}

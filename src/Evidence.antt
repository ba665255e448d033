-- ===== src/Evidence.antt =====
-- domain/evidence.py: evidence classes, their selection, and entitlements.
use sopara.Prelude.{
  String, refl, Bool, true, false, not, ◌&&◌, ◌||◌, List, [], ◌∷◌, any, ltb, leb, is_empty, str_eq,
  Date, toordinal,
}
use sopara.Errors.{Result, ok, raise_if, ◌>>◌}
use sopara.States.StrEnum.{StrEnum, IsStrEnum}

abbrev pub nes_launch_date : Date
nes_launch_date = record { year = 2026; month = 8; day = 24 }

pub data EvidenceClass : Type 0 where
  observed_nes synthetic_nes_proxy no_execution_evidence : EvidenceClass

unfoldable pub evidence_class : StrEnum EvidenceClass
evidence_class = record {
  type_name = "EvidenceClass";
  members = observed_nes ∷ synthetic_nes_proxy ∷ no_execution_evidence ∷ [];
  value = elim [
    | observed_nes ↦ "OBSERVED_NES"
    | synthetic_nes_proxy ↦ "SYNTHETIC_NES_PROXY"
    | no_execution_evidence ↦ "NO_EXECUTION_EVIDENCE"
  ];
}

pub evidence_class-IsStrEnum : IsStrEnum evidence_class
unfolding evidence_class
evidence_class-IsStrEnum = record {
  of_value-value = elim [
    | observed_nes ↦ refl
    | synthetic_nes_proxy ↦ refl
    | no_execution_evidence ↦ refl
  ];
}

abbrev pub is_observed : EvidenceClass → Bool
is_observed observed_nes = true
is_observed _ = false

abbrev pub is_synthetic : EvidenceClass → Bool
is_synthetic synthetic_nes_proxy = true
is_synthetic _ = false

pub data PermittedUse : Type 0 where
  historical_replay live_simulation export model_review : PermittedUse

abbrev pub use_value : PermittedUse → String
use_value historical_replay = "HISTORICAL_REPLAY"
use_value live_simulation = "LIVE_SIMULATION"
use_value export = "EXPORT"
use_value model_review = "MODEL_REVIEW"

pub record EvidenceSelection : Type 0 where
  pub evidence_class : EvidenceClass
  pub first_trade_date : Date
  pub proxy_opt_in : Bool

unfoldable pub check_selection : EvidenceSelection → Result EvidenceSelection
check_selection s = do
  raise_if
      (is_observed s.evidence_class
        && ltb (toordinal s.first_trade_date) (toordinal nes_launch_date))
      "OBSERVED_NES_PRE_LAUNCH"
  raise_if (is_synthetic s.evidence_class && not s.proxy_opt_in) "PROXY_OPT_IN_REQUIRED"
  ok s

unfoldable pub qualifies_as_observed_nes : EvidenceSelection → Bool
qualifies_as_observed_nes s = is_observed s.evidence_class

pub record EntitlementSnapshot : Type 0 where
  pub snapshot_id : String
  pub source_id : String
  pub owner : String
  pub effective_from : Date
  pub effective_through : Date
  pub permitted_uses : List PermittedUse

unfoldable pub check_entitlement : EntitlementSnapshot → Result EntitlementSnapshot
check_entitlement e = do
  raise_if (is_empty e.snapshot_id || is_empty e.source_id || is_empty e.owner)
      "entitlement identity, source, and owner are required"
  raise_if (ltb (toordinal e.effective_through) (toordinal e.effective_from))
      "entitlement effective period is inverted"
  ok e

unfoldable pub permits : EntitlementSnapshot → PermittedUse → Date → Bool
permits e use_ trade_date =
    leb (toordinal e.effective_from) (toordinal trade_date)
    && leb (toordinal trade_date) (toordinal e.effective_through)
    && any (λ u. str_eq (use_value use_) (use_value u)) e.permitted_uses

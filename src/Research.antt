-- ===== src/Research.antt =====
-- domain/research.py: experiment definitions, their date intervals, and decision records.
pub mod Intervals
use sopara.Prelude.{
  ℕ, String, ◌≡◌, Bool, true, false, not, ◌&&◌, ◌||◌, Option, none, some, List, [], ◌∷◌, any, null,
  distinct, is_blank, is_empty, ltb, leb, Date, toordinal, if◌then◌else◌,
}
use sopara.Prelude.Int.{ℤ, pos, ltb_ℤ, leb_ℤ}
use sopara.Errors.{Result, ok, err, domain_error, raise_if, ◌>>=◌, ◌>>◌}
use sopara.States.Enums.{DatasetState}
use sopara.Versions.{VersionRef, RuntimeManifest, is_sha256}
use sopara.Evidence.{EvidenceSelection, EntitlementSnapshot}

pub record DateInterval : Type 0 where
  pub start : Date
  pub end : Date

unfoldable pub check_interval : DateInterval → Result DateInterval
check_interval i = do
  raise_if (ltb (toordinal i.end) (toordinal i.start)) "date interval is inverted"
  ok i

unfoldable pub overlaps : DateInterval → DateInterval → Bool
overlaps a b =
    leb (toordinal a.start) (toordinal b.end) && leb (toordinal b.start) (toordinal a.end)

pub record DatasetPackage : Type 0 where
  pub dataset_id : String
  pub source_name : String
  pub source_contact : String
  pub version : VersionRef
  pub state : DatasetState
  pub coverage : DateInterval
  pub entitlement : EntitlementSnapshot

abbrev pub is_ready : DatasetState → Bool
is_ready DatasetState.ready = true
is_ready _ = false

unfoldable pub check_package : DatasetPackage → Result DatasetPackage
check_package p = do
  raise_if (is_empty p.dataset_id || is_empty p.source_name || is_empty p.source_contact)
      "dataset registry fields are required"
  raise_if (is_ready p.state && null p.entitlement.permitted_uses)
      "a ready dataset requires at least one permitted use"
  ok p

pub record CounterfactualPlan : Type 0 where
  pub names : List String
  pub declared_at_ns : ℤ
  pub outcome_horizon_ns : ℤ

unfoldable pub check_plan : CounterfactualPlan → Result CounterfactualPlan
check_plan p = do
  raise_if (null p.names || any is_blank p.names) "counterfactual names are required"
  raise_if (not (distinct p.names)) "counterfactual names must be unique"
  raise_if (ltb_ℤ p.declared_at_ns (pos 0) || leb_ℤ p.outcome_horizon_ns p.declared_at_ns)
      "counterfactual declaration times are invalid"
  ok p

pub record ExperimentDefinition : Type 0 where
  pub experiment_id : String
  pub parent_experiment_id : Option String
  pub hypothesis : String
  pub rejection_criterion : String
  pub manifest : RuntimeManifest
  pub evidence : EvidenceSelection
  pub training : DateInterval
  pub validation : DateInterval
  pub holdout : DateInterval
  pub counterfactuals : CounterfactualPlan

unfoldable pub check_experiment : ExperimentDefinition → Result ExperimentDefinition
unfolding overlaps
check_experiment e = do
  raise_if (is_empty e.experiment_id || is_blank e.hypothesis || is_blank e.rejection_criterion)
      "experiment identity, hypothesis, and rejection criterion are required"
  raise_if (overlaps e.training e.validation || overlaps e.training e.holdout)
      "training evidence overlaps validation or holdout"
  raise_if (overlaps e.validation e.holdout) "validation evidence overlaps holdout"
  ok e

pub data DecisionAuthority : Type 0 where
  canonical counterfactual model_review : DecisionAuthority

abbrev pub is_canonical : DecisionAuthority → Bool
is_canonical canonical = true
is_canonical _ = false

pub record DecisionRecord : Type 0 where
  pub decision_id : String
  pub authority : DecisionAuthority
  pub canonical_decision_id : Option String
  pub predeclared_set_hash : Option String

abbrev pub is_missing : Option String → Bool
is_missing none = true
is_missing (some s) = is_empty s

abbrev pub is_some : Option String → Bool
is_some none = false
is_some (some s) = true

abbrev pub bad_digest : Option String → Bool
bad_digest none = false
bad_digest (some s) = not (is_sha256 s)

-- The two branches on the authority.
unfoldable pub check_authority : DecisionRecord → Result (Unit {0})
check_authority d =
    if is_canonical d.authority
    then raise_if (is_some d.canonical_decision_id || is_some d.predeclared_set_hash)
        "canonical decisions cannot point to alternate authority"
    else raise_if (is_missing d.canonical_decision_id)
        "alternate decisions must reference a canonical decision"

unfoldable pub check_decision : DecisionRecord → Result DecisionRecord
unfolding check_authority
check_decision d = do
  raise_if (is_empty d.decision_id) "decision identity is required"
  check_authority d
  raise_if (bad_digest d.predeclared_set_hash)
      "predeclared set identity must be a lowercase SHA-256"
  ok d

unfoldable pub may_mutate_canonical_state : DecisionRecord → Bool
may_mutate_canonical_state d = is_canonical d.authority

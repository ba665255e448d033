-- ===== src/Research/Intervals.antt =====
-- domain/research.py: overlap is a shared date, so an accepted experiment never trains on a date
-- that it validates or holds out.
use sopara.Prelude.{◌≤◌, ◌≡◌, ◌↔◌, true, false, none, arith, leb, Date, toordinal}
use sopara.Errors.{ok}
use sopara.Research.{
  DateInterval, ExperimentDefinition, DecisionRecord, check_interval, overlaps, check_experiment,
  check_decision, may_mutate_canonical_state,
}

-- The later of the two starts.
abbrev later_start : DateInterval → DateInterval → Date
later_start a b = elim (leb (toordinal a.start) (toordinal b.start)) [
  | true ↦ b.start
  | false ↦ a.start
]

abbrev pub Covers : DateInterval → Date → Type 0
Covers i d = (toordinal i.start ≤ toordinal d) × (toordinal d ≤ toordinal i.end)

-- Two intervals that are not inverted overlap exactly if they share a date.
pub overlaps_iff :
    (a b : DateInterval)
    → check_interval a ≡ ok a
    → check_interval b ≡ ok b
    → (overlaps a b ≡ true) ↔ ((d : Date) × Covers a d × Covers b d)
unfolding check_interval overlaps
overlaps_iff a b ha hb =
    (λ h. (later_start a b, ground arith, ground arith), λ h. ground (arith, h.1, h.2))

disjoint : (a b : DateInterval) (d : Date) → overlaps a b ≡ false → ¬ (Covers a d × Covers b d)
unfolding overlaps
disjoint a b d h (p, q) = ground arith

-- In an accepted experiment no date lies in two of training, validation and holdout.
pub check_experiment-disjoint :
    (e x : ExperimentDefinition) (d : Date)
    → check_experiment e ≡ ok x
    → ¬ (Covers e.training d × Covers e.validation d)
      × ¬ (Covers e.training d × Covers e.holdout d)
      × ¬ (Covers e.validation d × Covers e.holdout d)
unfolding check_experiment
check_experiment-disjoint e x d h = (
  disjoint e.training e.validation d (ground arith),
  disjoint e.training e.holdout d (ground arith),
  disjoint e.validation e.holdout d (ground arith),
)

-- An accepted decision may change canonical state exactly if it refers to no other decision; one
-- that may not names the canonical decision that it belongs to.
pub check_decision-authority :
    (r x : DecisionRecord)
    → check_decision r ≡ ok x
    → (may_mutate_canonical_state r ≡ true) ↔ (r.canonical_decision_id ≡ none)
unfolding check_decision may_mutate_canonical_state
check_decision-authority r x h = (λ p. ground arith, λ p. ground arith)

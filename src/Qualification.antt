-- ===== src/Qualification.antt =====
-- domain/qualification.py: the streak of qualifying trade dates.
pub mod Streak
use sopara.Prelude.{
  ℕ, zero, suc, ◌+◌, String, ◌≡◌, Bool, true, false, not, ◌&&◌, ◌||◌, List, [], ◌∷◌, ltb, leb, Date,
  toordinal, if◌then◌else◌,
}
use sopara.Errors.{Result, ok, err, domain_error}
use sopara.Evidence.{EvidenceClass, is_observed}

pub data QualificationStatus : Type 0 where
  counted invalid skipped exchange_closed : QualificationStatus

pub record QualificationDay : Type 0 where
  pub trade_date : Date
  pub eligible_trade_date : Bool
  pub status : QualificationStatus
  pub evidence_class : EvidenceClass
  pub both_windows_reconciled : Bool
  pub manifest_consistent : Bool
  pub unresolved_critical_incident : Bool

abbrev pub is_counted : QualificationStatus → Bool
is_counted counted = true
is_counted _ = false

abbrev pub is_closed : QualificationStatus → Bool
is_closed exchange_closed = true
is_closed _ = false

unfoldable pub counts : QualificationDay → Bool
counts d =
    d.eligible_trade_date
    && is_counted d.status
    && is_observed d.evidence_class
    && d.both_windows_reconciled
    && d.manifest_consistent
    && not d.unresolved_critical_incident

-- `dates == sorted(dates)` and no date twice: the dates rise strictly.
unfoldable pub dates_rise : List QualificationDay → Bool
dates_rise [] = true
dates_rise (d ∷ []) = true
dates_rise (d ∷ e ∷ ds) =
    ltb (toordinal d.trade_date) (toordinal e.trade_date) && dates_rise (e ∷ ds)

-- The body of the loop.
unfoldable pub next_streak : QualificationDay → ℕ → ℕ
unfolding counts
next_streak d streak =
    if is_closed d.status && not d.eligible_trade_date
    then streak
    else if counts d
    then streak + 1
    else if d.eligible_trade_date
    then 0
    else streak

unfoldable pub streak_from : ℕ → List QualificationDay → ℕ
unfolding next_streak
streak_from streak [] = streak
streak_from streak (d ∷ ds) = streak_from (next_streak d streak) ds

unfoldable pub qualification_streak : List QualificationDay → Result ℕ
unfolding dates_rise streak_from
qualification_streak days =
    if not (dates_rise days)
    then err (domain_error "qualification days must be unique and ordered")
    else ok (streak_from 0 days)

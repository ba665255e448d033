-- ===== src/Qualification/Streak.antt =====
-- domain/qualification.py: the streak is the number of counting days since the last broken day.
use sopara.Prelude.{
  ℕ, ap, ◌+◌, ◌≡◌, refl, inl, inr, Bool, true, false, not, ◌&&◌, List, [], ◌∷◌, arith, Bool-cases,
  if◌then◌else◌,
}
use sopara.Errors.{ok}
use sopara.Qualification.{
  QualificationDay, counts, next_streak, dates_rise, streak_from, qualification_streak,
}

-- A day breaks the streak if it was an eligible trade date and does not count.
abbrev pub breaks : QualificationDay → Bool
breaks d = d.eligible_trade_date && not (counts d)

abbrev pub number_of : (QualificationDay → Bool) → List QualificationDay → ℕ
number_of p [] = 0
number_of p (d ∷ ds) = (if p d then 1 else 0) + number_of p ds

-- The days after the last one that breaks the streak, all of them if none does.
abbrev pub has_break : List QualificationDay → Bool
has_break [] = false
has_break (d ∷ ds) = elim (breaks d) [ true ↦ true | false ↦ has_break ds ]

pub since_break : List QualificationDay → List QualificationDay
since_break [] = []
since_break (d ∷ ds) =
    let rest = since_break ds in if has_break ds then rest else if breaks d then ds else d ∷ ds

next_streak_lem :
    (d : QualificationDay) (n : ℕ)
    → next_streak d n ≡ (if breaks d then 0 else n + (if counts d then 1 else 0))
unfolding next_streak counts
next_streak_lem d n = ground arith

streak_unbroken :
    (n : ℕ) (ds : List QualificationDay)
    → has_break ds ≡ false
    → streak_from n ds ≡ n + number_of counts ds
unfolding streak_from
streak_unbroken n [] h = omega arith
streak_unbroken n (d ∷ ds) h =
    let here : breaks d ≡ false = ground arith in
    let there : has_break ds ≡ false = ground arith in
    ground (arith, streak_unbroken (next_streak d n) ds there, next_streak_lem d n)

streak_broken :
    (n : ℕ) (ds : List QualificationDay)
    → has_break ds ≡ true
    → streak_from n ds ≡ number_of counts (since_break ds)
unfolding streak_from since_break
streak_broken n [] h = cc
streak_broken n (d ∷ ds) h = elim (Bool-cases (has_break ds)) [
  | inl later ↦ rw later (streak_broken (next_streak d n) ds later)
  | inr last ↦
      let here : breaks d ≡ true = ground arith in
      rw last (ground (arith, streak_unbroken (next_streak d n) ds last, next_streak_lem d n))
]

unbroken_whole : (ds : List QualificationDay) → has_break ds ≡ false → since_break ds ≡ ds
unfolding since_break
unbroken_whole [] h = refl
unbroken_whole (d ∷ ds) h = ground arith

-- For days in strict date order the streak is the number of counting days after the last day that
-- breaks it.
pub qualification_streak_lem :
    (days : List QualificationDay)
    → dates_rise days ≡ true
    → qualification_streak days ≡ ok (number_of counts (since_break days))
unfolding qualification_streak
qualification_streak_lem days h = rw h (elim (Bool-cases (has_break days)) [
  | inl broken ↦ ap ok (streak_broken 0 days broken)
  | inr whole ↦ ap ok (rw (unbroken_whole days whole) (omega (arith, streak_unbroken 0 days whole)))
])

-- ===== src/Calendar/Windows.antt =====
-- domain/calendar.py: what an eligible decision means.
use sopara.Prelude.{
  ◌≢◌, ℕ, ◌≤◌, ◌<◌, ◌≡◌, refl, ◌↔◌, ◌⊎◌, inl, inr, true, false, Option, none, some, List, [], ◌∷◌,
  In, arith, Bool-cases, Date, toordinal, weekday,
}
use sopara.Prelude.Int.{pos}
use sopara.Errors.{ok, >>=-returned}
use sopara.Calendar.{
  WindowName, LocalWindow, CalendarDay, WindowDecision, ExchangeCalendar, day_of, local_ordinal,
  local_time, in_window, decide_window, classify_day, classify,
}

-- An early close ends the session: nothing that follows it is open.
abbrev pub Before : Option ℕ → ℕ → Type 0
Before none t = Unit
Before (some close) t = t < close

-- The instant lies in one of the windows, before an early close.
pub record IsWithin (close : Option ℕ) (t : ℕ) (windows : List LocalWindow) : Type 0 where
  pub window : LocalWindow
  pub listed : In window windows
  pub started : window.start ≤ t
  pub unfinished : t < window.end
  pub before_close : Before close t

in_window_iff :
    (close : Option ℕ) (t : ℕ) (w : LocalWindow)
    → (in_window close t w ≡ true) ↔ ((w.start ≤ t) × (t < w.end) × Before close t)
in_window_iff none t w = (λ h. (ground arith, ground arith, tt), λ h. ground (arith, h.0, h.1))
in_window_iff (some close) t w =
    (λ h. (ground arith, ground arith, ground arith), λ h. ground (arith, h.0, h.1, h.2))

IsWithin-tail :
    {close : Option ℕ} {t : ℕ} {w : LocalWindow} {ws : List LocalWindow}
    → IsWithin close t ws
    → IsWithin close t (w ∷ ws)
IsWithin-tail h = record {
  window = h.window;
  listed = inr h.listed;
  started = h.started;
  unfinished = h.unfinished;
  before_close = h.before_close;
}

IsWithin-not_head :
    (close : Option ℕ) (t : ℕ) (w : LocalWindow) (ws : List LocalWindow)
    → in_window close t w ≡ false
    → IsWithin close t (w ∷ ws)
    → IsWithin close t ws
IsWithin-not_head close t w ws no_head h = elim h.listed [
  | inl e ↦
      let there : in_window close t h.window ≡ true =
        (in_window_iff close t h.window).1 (h.started, h.unfinished, h.before_close) in
      let here : in_window close t w ≡ true = rw e at there in cc
  | inr later ↦ record {
    window = h.window;
    listed = later;
    started = h.started;
    unfinished = h.unfinished;
    before_close = h.before_close;
  }
]

decide_window_iff :
    (close : Option ℕ) (t : ℕ) (ws : List LocalWindow)
    → ((decide_window close t ws).eligible ≡ true) ↔ IsWithin close t ws
unfolding decide_window
decide_window_iff close t [] = (λ h. cc, λ h. absurd h.listed)
decide_window_iff close t (w ∷ ws) = elim (Bool-cases (in_window close t w)) [
  | inl here ↦ (
    λ h.
        let parts = (in_window_iff close t w).0 here in
        record {
          window = w;
          listed = inl refl;
          started = parts.0;
          unfinished = parts.1;
          before_close = parts.2;
        },
    λ h. rw here refl,
  )
  | inr away ↦ (
    λ h. IsWithin-tail ((decide_window_iff close t ws).0 (rw away at h)),
    λ h. rw away ((decide_window_iff close t ws).1 (IsWithin-not_head close t w ws away h)),
  )
]

-- A decision is one of two kinds: eligible with a window and no reason, or refused with a reason and
-- no window.
abbrev pub IsConsistent : WindowDecision → Type 0
IsConsistent d =
    ((d.eligible ≡ true) × ((n : WindowName) × (d.window ≡ some n)) × (d.reason ≡ none))
    ⊎ ((d.eligible ≡ false) × (d.window ≡ none) × (d.reason ≢ none))

decide_window-IsConsistent :
    (close : Option ℕ) (t : ℕ) (ws : List LocalWindow) → IsConsistent (decide_window close t ws)
unfolding decide_window
decide_window-IsConsistent close t [] = inr (refl, refl, λ h. cc)
decide_window-IsConsistent close t (w ∷ ws) = elim (Bool-cases (in_window close t w)) [
  | inl here ↦ rw here (inl (refl, (w.name, refl), refl))
  | inr away ↦ rw away (decide_window-IsConsistent close t ws)
]

-- The instant is inside an approved window of a regular trading day.
pub record IsOpenInstant (c : ExchangeCalendar) (at_ns : ℕ) (trade_date : Date) : Type 0 where
  pub day : CalendarDay
  pub found : day_of c trade_date ≡ ok day
  pub no_holiday : day.holiday ≡ false
  pub weekday_session : weekday trade_date < 5
  pub no_expiry : day.expiry_session ≡ false
  pub no_roll : day.roll_overlap ≡ false
  pub same_date : local_ordinal at_ns day.utc_offset_minutes ≡ toordinal trade_date
  pub within : IsWithin day.early_close (local_time at_ns day.utc_offset_minutes) c.windows

module _ (c : ExchangeCalendar) (at_ns : ℕ) (trade_date : Date) (d : WindowDecision)
    (decided : classify c (pos at_ns) trade_date ≡ ok d) where
  day_and_rest :
      (day : CalendarDay) × (day_of c trade_date ≡ ok day)
      × (classify_day c.windows day at_ns trade_date ≡ ok d)
  unfolding classify
  day_and_rest =
      >>=-returned (day_of c trade_date) (λ day. classify_day c.windows day at_ns trade_date)
        decided

  forward : d.eligible ≡ true → IsOpenInstant c at_ns trade_date
  unfolding classify_day
  forward h =
      let (day, found, rest) = day_and_rest in
      let chosen : (decide_window day.early_close (local_time at_ns day.utc_offset_minutes)
            c.windows).eligible
          ≡ true =
        ground arith in
      record {
        day = day;
        found = found;
        no_holiday = ground arith;
        weekday_session = ground arith;
        no_expiry = ground arith;
        no_roll = ground arith;
        same_date = ground arith;
        within = (decide_window_iff _ _ _).0 chosen;
      }

  backward : IsOpenInstant c at_ns trade_date → d.eligible ≡ true
  unfolding classify_day
  backward o =
      let (day, found, rest) = day_and_rest in
      let same : day ≡ o.day = ground (arith, o.found) in
      let rest' : classify_day c.windows o.day at_ns trade_date ≡ ok d = rw same at rest in
      ground (
        arith,
        o.no_holiday,
        o.weekday_session,
        o.no_expiry,
        o.no_roll,
        o.same_date,
        (decide_window_iff o.day.early_close (local_time at_ns o.day.utc_offset_minutes)
              c.windows).1
            o.within,
      )

  -- A decision that does not raise is eligible exactly at an instant inside one of the calendar's
  -- windows, before an early close, on the given date in local time, of a listed weekday that is no
  -- holiday, no expiry session and no roll overlap.
  pub classify-eligible_iff : (d.eligible ≡ true) ↔ IsOpenInstant c at_ns trade_date
  classify-eligible_iff = (forward, backward)

  -- A decision that does not raise is eligible with a window and no reason, or refused with a reason
  -- and no window.
  pub classify-IsConsistent : IsConsistent d
  unfolding classify_day
  classify-IsConsistent =
      let (day, found, rest) = day_and_rest in
      ground (
        arith,
        decide_window-IsConsistent day.early_close (local_time at_ns day.utc_offset_minutes)
            c.windows,
      )

-- ===== src/Calendar.antt =====
-- domain/calendar.py: the exchange calendar and the approved research windows. A `time` is its
-- number of microseconds since midnight.
pub mod Windows
use sopara.Prelude.{
  ℕ, suc, ◌+◌, ◌-◌, ◌*◌, ◌/◌, ◌%◌, String, ◌≡◌, Bool, true, false, not, ◌&&◌, ◌||◌, Option, none,
  some, List, [], ◌∷◌, ltb, leb, ◌==◌, find, any, Date, toordinal, weekday, if◌then◌else◌,
}
use sopara.Prelude.Int.{ℤ, pos, negsuc, ltb_ℤ, pos_part, neg_part}
use sopara.Errors.{Result, ok, err, domain_error, overflow_error, raise_if, ◌>>=◌, ◌>>◌}
use sopara.ReasonCodes.{
  ReasonCode, holiday, expiry_session, roll_overlap, outside_approved_window, early_close,
}

abbrev pub day_us : ℕ
day_us = 86400000000

-- `time(hour, minute)`
abbrev pub time : ℕ → ℕ → ℕ
time hour minute = (hour * 60 + minute) * 60000000

pub data WindowName : Type 0 where
  am pm : WindowName

pub record LocalWindow : Type 0 where
  pub name : WindowName
  pub start : ℕ
  pub end : ℕ

unfoldable pub check_window : LocalWindow → Result LocalWindow
check_window w = do raise_if (leb w.end w.start) "research window must have positive duration"; ok w

abbrev pub approved_windows : List LocalWindow
approved_windows =
    record { name = am; start = time 9 45; end = time 12 0 }
    ∷ record { name = pm; start = time 13 30; end = time 15 45 }
    ∷ []

pub record CalendarDay : Type 0 where
  pub trade_date : Date
  pub utc_offset_minutes : ℤ
  pub holiday : Bool
  pub early_close : Option ℕ
  pub expiry_session : Bool
  pub roll_overlap : Bool

unfoldable pub check_day : CalendarDay → Result CalendarDay
check_day d = do
  raise_if (ltb_ℤ d.utc_offset_minutes (negsuc 839) || ltb_ℤ (pos 840) d.utc_offset_minutes)
      "calendar UTC offset is outside the supported range"
  ok d

pub record WindowDecision : Type 0 where
  pub eligible : Bool
  pub window : Option WindowName
  pub reason : Option ReasonCode

pub record ExchangeCalendar : Type 0 where
  pub version : String
  pub tzdata_version : String
  pub days : List CalendarDay
  pub windows : List LocalWindow

-- `len(set(dates)) != len(dates)`
unfoldable pub has_duplicate_day : List CalendarDay → Bool
has_duplicate_day [] = false
has_duplicate_day (d ∷ ds) =
    any (λ x. toordinal d.trade_date == toordinal x.trade_date) ds || has_duplicate_day ds

unfoldable pub check_calendar : ExchangeCalendar → Result ExchangeCalendar
unfolding has_duplicate_day
check_calendar c = do
  raise_if (has_duplicate_day c.days) "calendar contains duplicate trade dates"
  ok c

abbrev pub day_or_raise : Option CalendarDay → Result CalendarDay
day_or_raise none = err (domain_error "trade date is absent from the bound calendar")
day_or_raise (some d) = ok d

-- `ExchangeCalendar.day`
unfoldable pub day_of : ExchangeCalendar → Date → Result CalendarDay
day_of c trade_date =
    day_or_raise (find (λ d. toordinal d.trade_date == toordinal trade_date) c.days)

-- Microseconds since the epoch, and the same one day earlier and moved by the UTC offset: an offset
-- of at least -14 hours leaves that above zero.
abbrev pub utc_us : ℕ → ℕ
utc_us at_ns = at_ns / 1000000000 * 1000000 + at_ns % 1000000000 / 1000

abbrev pub shifted_us : ℕ → ℤ → ℕ
shifted_us at_ns offset =
    utc_us at_ns + day_us + pos_part offset * 60000000 - neg_part offset * 60000000

-- The ordinals of the UTC and of the local date, and the local time of day.
unfoldable pub utc_ordinal : ℕ → ℕ
utc_ordinal at_ns = 719163 + utc_us at_ns / day_us

unfoldable pub local_ordinal : ℕ → ℤ → ℕ
local_ordinal at_ns offset = 719162 + shifted_us at_ns offset / day_us

unfoldable pub local_time : ℕ → ℤ → ℕ
local_time at_ns offset = shifted_us at_ns offset % day_us

-- `date.max.toordinal()`
abbrev pub max_ordinal : ℕ
max_ordinal = 3652059

-- `min(window.end, day.early_close or window.end)`
abbrev pub effective_end : Option ℕ → LocalWindow → ℕ
effective_end none w = w.end
effective_end (some close) w = if ltb close w.end then close else w.end

abbrev pub in_window : Option ℕ → ℕ → LocalWindow → Bool
in_window close t w = leb w.start t && ltb t (effective_end close w)

abbrev pub closed_early : Option ℕ → ℕ → Bool
closed_early none t = false
closed_early (some close) t = leb close t

-- The loop over the windows and what follows it.
unfoldable pub decide_window : Option ℕ → ℕ → List LocalWindow → WindowDecision
decide_window close t [] = record {
  eligible = false;
  window = none;
  reason = some (if closed_early close t then ReasonCode.early_close else outside_approved_window);
}
decide_window close t (w ∷ ws) =
    if in_window close t w
    then record { eligible = true; window = some w.name; reason = none }
    else decide_window close t ws

abbrev pub refused : ReasonCode → WindowDecision
refused r = record { eligible = false; window = none; reason = some r }

-- `classify` once the day is found, at an instant that is not negative.
unfoldable pub classify_day : List LocalWindow → CalendarDay → ℕ → Date → Result WindowDecision
unfolding decide_window
classify_day windows d at_ns trade_date =
    if d.holiday || leb 5 (weekday trade_date)
    then ok (refused ReasonCode.holiday)
    else if d.expiry_session
    then ok (refused ReasonCode.expiry_session)
    else if d.roll_overlap
    then ok (refused ReasonCode.roll_overlap)
    else if ltb max_ordinal (utc_ordinal at_ns)
        || ltb max_ordinal (local_ordinal at_ns d.utc_offset_minutes)
    then err overflow_error
    else if not (local_ordinal at_ns d.utc_offset_minutes == toordinal trade_date)
    then ok (refused outside_approved_window)
    else ok (decide_window d.early_close (local_time at_ns d.utc_offset_minutes) windows)

unfoldable pub classify : ExchangeCalendar → ℤ → Date → Result WindowDecision
unfolding day_of classify_day
classify c (negsuc n) trade_date = err (domain_error "calendar instant cannot be negative")
classify c (pos at_ns) trade_date = do
  d ← day_of c trade_date
  classify_day c.windows d at_ns trade_date

-- ===== src/Examples/Streams.antt =====
-- Source events, a book, a calendar, a streak of days and an experiment at concrete values.
use sopara.Prelude.{
  ℕ, ◌≡◌, refl, ◌↔◌, Bool, true, false, none, some, List, [], ◌∷◌, arith, Date, toordinal, weekday,
  is_blank, ◌+◌,
}
use sopara.Prelude.Int.{ℤ, pos, negsuc, ◌+ℤ◌}
use sopara.Errors.{ok}
use sopara.Evidence.{EvidenceClass}
use sopara.Versions.{VersionRef}
use sopara.Instruments.{Price, nes}
use sopara.Market.{
  BookState, Completeness, MarketEventIdentity, SourceEvent, SourceWatermark, advance,
  compare_within_stream,
}
use sopara.Market.Watermark.{Seen, advance_all, advance_all-Seen}
use sopara.Calendar.{
  ExchangeCalendar, WindowDecision, am, approved_windows, classify, utc_ordinal, local_ordinal,
  local_time,
}
use sopara.Calendar.Windows.{IsOpenInstant, classify-eligible_iff}
use sopara.Qualification.{
  QualificationDay, QualificationStatus, counts, dates_rise, qualification_streak,
}
use sopara.Qualification.Streak.{number_of, qualification_streak_lem, since_break}
use sopara.Research.{DateInterval, ExperimentDefinition, check_experiment, check_interval}

abbrev identity : ℤ → MarketEventIdentity
identity n = record {
  source_id = "cme";
  channel_id = "310";
  source_session_id = "s1";
  source_sequence = n;
  message_index = pos 0;
  contract_id = "NES-2026-12";
}

abbrev event : ℤ → SourceEvent
event n = record {
  identity = identity n;
  payload_sha256 = "aa";
  exchange_time_ns = pos 100;
  receive_time_ns = some (pos 120);
  ingestion_time_ns = pos 130;
  corrected = false;
}

abbrev mark : ℤ → Completeness → SourceWatermark
mark n completeness = record {
  source_id = "cme";
  channel_id = "310";
  source_session_id = "s1";
  last_contiguous_sequence = n;
  max_exchange_time_ns = pos 100;
  max_receive_time_ns = some (pos 120);
  completeness = completeness;
}

advanced_one :
    advance (mark (pos 4) Completeness.gapped) (event (pos 5))
    ≡ ok (mark (pos 5) Completeness.contiguous)
unfolding advance ◌+ℤ◌
advanced_one = refl

abbrev batch : List SourceEvent
batch = event (pos 5) ∷ event (pos 3) ∷ event (pos 6) ∷ event (pos 9) ∷ []

advanced_batch :
    advance_all (mark (pos 4) Completeness.contiguous) batch ≡ ok (mark (pos 6) Completeness.gapped)
unfolding advance_all advance ◌+ℤ◌
advanced_batch = refl

advance_all-Seen_example : Seen (pos 6) batch
advance_all-Seen_example =
    advance_all-Seen (mark (pos 4) Completeness.contiguous) (mark (pos 6) Completeness.gapped) batch
      (pos 6) advanced_batch (omega arith) (omega arith)

abbrev corrected_event : SourceEvent
corrected_event = record (event (pos 5)) { payload_sha256 = "bb" }

earlier : compare_within_stream (identity (pos 4)) (identity (pos 5)) ≡ ok (negsuc 0)
unfolding compare_within_stream
earlier = refl

later : compare_within_stream (identity (pos 5)) (identity (pos 7)) ≡ ok (negsuc 0)
unfolding compare_within_stream
later = refl

abbrev price : ℤ → Price
price n = record { value = record { coefficient = n; scale = 1 } }

abbrev book : BookState
book = record {
  contract = record { product = nes; expiry = record { year = 2026; month = 12; day = 1 } };
  bid = some (price (pos 65000));
  ask = some (price (pos 65005));
  bid_size = pos 2;
  ask_size = pos 3;
  last_trade_size = pos 1;
  stale = false;
  halted = false;
  price_limited = false;
}

abbrev tuesday : Date
tuesday = record { year = 2026; month = 9; day = 1 }

abbrev calendar : ExchangeCalendar
calendar = record {
  version = "v1";
  tzdata_version = "2026a";
  days =
      record {
        trade_date = tuesday;
        utc_offset_minutes = negsuc 299;
        holiday = false;
        early_close = some 40000000000;
        expiry_session = false;
        roll_overlap = false;
      }
      ∷ [];
  windows = approved_windows;
}

-- 10:00 in local time.
abbrev morning : ℕ
morning = 1788274800000000000

abbrev in_the_morning : WindowDecision
in_the_morning = record { eligible = true; window = some am; reason = none }

classified : classify calendar (pos morning) tuesday ≡ ok in_the_morning
unfolding classify weekday toordinal utc_ordinal local_ordinal local_time
classified = refl

classify-eligible_iff_example : (true ≡ true) ↔ IsOpenInstant calendar morning tuesday
classify-eligible_iff_example =
    classify-eligible_iff calendar morning tuesday in_the_morning classified

abbrev qualification_day : ℕ → Bool → QualificationDay
qualification_day day reconciled = record {
  trade_date = record { year = 2026; month = 9; day = day };
  eligible_trade_date = true;
  status = QualificationStatus.counted;
  evidence_class = EvidenceClass.observed_nes;
  both_windows_reconciled = reconciled;
  manifest_consistent = true;
  unresolved_critical_incident = false;
}

abbrev days : List QualificationDay
days =
    qualification_day 1 true
    ∷ qualification_day 2 false
    ∷ qualification_day 3 true
    ∷ qualification_day 4 true
    ∷ []

days_rise : dates_rise days ≡ true
unfolding dates_rise toordinal
days_rise = refl

qualification_streak_lem_example :
    qualification_streak days ≡ ok (number_of counts (since_break days))
qualification_streak_lem_example = qualification_streak_lem days days_rise

abbrev interval : ℕ → DateInterval
interval month = record {
  start = record { year = 2026; month = month; day = 1 };
  end = record { year = 2026; month = month + 1; day = 15 };
}

interval_checked : check_interval (interval 3) ≡ ok (interval 3)
unfolding check_interval toordinal
interval_checked = refl

next_checked : check_interval (interval 4) ≡ ok (interval 4)
unfolding check_interval toordinal
next_checked = refl

abbrev version : VersionRef
version = record {
  component = "strategy";
  version = "v1";
  sha256 = "0123456789abcdef0123456789abcdef0123456789abcdef0123456789abcdef";
}

abbrev experiment : ExperimentDefinition
experiment = record {
  experiment_id = "e1";
  parent_experiment_id = none;
  hypothesis = "the signal persists";
  rejection_criterion = "net below zero";
  manifest = record {
    manifest_version = "v1";
    dataset = version;
    calendar = version;
    feature = version;
    strategy = version;
    simulator = version;
    cost_model = version;
    risk_policy = version;
    input_sha256 = [];
    seed = pos 7;
  };
  evidence = record {
    evidence_class = EvidenceClass.synthetic_nes_proxy;
    first_trade_date = tuesday;
    proxy_opt_in = true;
  };
  training = interval 1;
  validation = interval 4;
  holdout = interval 7;
  counterfactuals = record {
    names = "NO_TRADE" ∷ [];
    declared_at_ns = pos 0;
    outcome_horizon_ns = pos 1;
  };
}

experiment_checked : check_experiment experiment ≡ ok experiment
unfolding check_experiment toordinal is_blank
experiment_checked = refl

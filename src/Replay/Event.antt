-- ===== src/Replay/Event.antt =====
-- domain/replay.py: replay events.
use sopara.Prelude.{String, Bool, true, false, ◌||◌, Option, none, some, [], ◌∷◌, any, is_blank}
use sopara.Prelude.Int.{ℤ, pos, ltb_ℤ, leb_ℤ}
use sopara.Errors.{Result, ok, err, domain_error, raise_if, ◌>>◌}
use sopara.Instruments.{Product, es, nes}

pub data ReplayEventType : Type 0 where
  es_trade nes_book : ReplayEventType

abbrev pub event_type_value : ReplayEventType → String
event_type_value es_trade = "ES_TRADE"
event_type_value nes_book = "NES_BOOK"

pub record ReplayEvent : Type 0 where
  pub global_index : ℤ
  pub event_type : ReplayEventType
  pub source_id : String
  pub channel_id : String
  pub source_session_id : String
  pub source_sequence : ℤ
  pub message_index : ℤ
  pub contract_id : String
  pub source_time_ns : ℤ
  pub receive_time_ns : ℤ
  pub price_ticks : Option ℤ
  pub quantity : Option ℤ
  pub bid_ticks : Option ℤ
  pub ask_ticks : Option ℤ
  pub bid_size : Option ℤ
  pub ask_size : Option ℤ
  pub last_trade_size : Option ℤ

-- The tuple of the five book fields.
pub record BookTuple : Type 0 where
  pub bid_ticks : ℤ
  pub ask_ticks : ℤ
  pub bid_size : ℤ
  pub ask_size : ℤ
  pub last_trade_size : ℤ

abbrev pub is_some : Option ℤ → Bool
is_some none = false
is_some (some n) = true

-- The five fields, where all of them are there.
abbrev pub complete : Option ℤ → Option ℤ → Option ℤ → Option ℤ → Option ℤ → Option BookTuple
complete (some bid) (some ask) (some bid_size) (some ask_size) (some last) = some (record {
  bid_ticks = bid;
  ask_ticks = ask;
  bid_size = bid_size;
  ask_size = ask_size;
  last_trade_size = last;
})
complete _ _ _ _ _ = none

abbrev pub book_fields : ReplayEvent → Option BookTuple
book_fields e = complete e.bid_ticks e.ask_ticks e.bid_size e.ask_size e.last_trade_size

abbrev pub has_book_field : ReplayEvent → Bool
has_book_field e =
    any is_some (e.bid_ticks ∷ e.ask_ticks ∷ e.bid_size ∷ e.ask_size ∷ e.last_trade_size ∷ [])

unfoldable pub check_trade : ReplayEvent → Option ℤ → Option ℤ → Result ReplayEvent
check_trade e (some price) (some quantity) = do
  raise_if (leb_ℤ price (pos 0) || leb_ℤ quantity (pos 0)) "ES trade values must be positive"
  raise_if (has_book_field e) "ES trades cannot contain NES book fields"
  ok e
check_trade e (some price) none = err (domain_error "ES trades require price ticks and quantity")
check_trade e none quantity = err (domain_error "ES trades require price ticks and quantity")

unfoldable pub check_book_fields : ReplayEvent → Option BookTuple → Result ReplayEvent
check_book_fields e none = err (domain_error "NES books require complete price and size fields")
check_book_fields e (some b) = do
  raise_if (is_some e.price_ticks || is_some e.quantity) "NES books cannot contain ES trade fields"
  raise_if
      (any (λ n. leb_ℤ n (pos 0))
        (b.bid_ticks ∷ b.ask_ticks ∷ b.bid_size ∷ b.ask_size ∷ b.last_trade_size ∷ []))
      "NES book values must be positive"
  raise_if (leb_ℤ b.ask_ticks b.bid_ticks) "NES book must be open and uncrossed"
  ok e

unfoldable pub check_fields : ReplayEvent → ReplayEventType → Result ReplayEvent
unfolding check_trade check_book_fields
check_fields e es_trade = check_trade e e.price_ticks e.quantity
check_fields e nes_book = check_book_fields e (book_fields e)

-- `ReplayEvent.__post_init__`
unfoldable pub check_replay_event : ReplayEvent → Result ReplayEvent
unfolding check_fields
check_replay_event e = do
  raise_if
      (any (λ n. ltb_ℤ n (pos 0))
        (e.global_index ∷ e.source_sequence ∷ e.message_index ∷ e.source_time_ns ∷ e.receive_time_ns
          ∷ []))
      "replay identity and time fields cannot be negative"
  raise_if (any is_blank (e.source_id ∷ e.channel_id ∷ e.source_session_id ∷ e.contract_id ∷ []))
      "replay source identity is incomplete"
  raise_if (ltb_ℤ e.receive_time_ns e.source_time_ns) "receive time cannot precede source time"
  check_fields e e.event_type

abbrev pub instrument : ReplayEvent → Product
instrument e = elim e.event_type [ es_trade ↦ es | nes_book ↦ nes ]

-- ===== src/Market.antt =====
-- domain/market.py: event identities, duplicates, source watermarks and the execution book.
pub mod Watermark
pub mod Identity
pub mod Book
use sopara.Prelude.{
  ℕ, String, ◌≡◌, Bool, true, false, not, ◌&&◌, ◌||◌, Option, none, some, is_empty, str_eq,
  if◌then◌else◌,
}
use sopara.Prelude.Int.{ℤ, pos, negsuc, ◌+ℤ◌, ltb_ℤ, leb_ℤ, ◌==ℤ◌}
use sopara.Errors.{Result, ok, err, domain_error, raise_if, ◌>>=◌, ◌>>◌}
use sopara.ReasonCodes.{
  ReasonCode, nes_stale, market_halted, price_limited, nes_book_empty, nes_book_crossed,
  nes_book_locked, zero_volume, nes_off_grid,
}
use sopara.Instruments.Arithmetic.{ltb_exact, eq_exact}
use sopara.Instruments.{Price, ContractId, is_nes, is_on_grid, spec}
use sopara.Versions.{is_sha256}

pub data Completeness : Type 0 where
  contiguous gapped unverified : Completeness

pub data DuplicateDisposition : Type 0 where
  new identical conflict : DuplicateDisposition

pub data StreamHealth : Type 0 where
  healthy stale gapped unavailable : StreamHealth

pub record MarketEventIdentity : Type 0 where
  pub source_id : String
  pub channel_id : String
  pub source_session_id : String
  pub source_sequence : ℤ
  pub message_index : ℤ
  pub contract_id : String

unfoldable pub check_identity : MarketEventIdentity → Result MarketEventIdentity
check_identity i = do
  raise_if (is_empty i.source_id || is_empty i.channel_id || is_empty i.source_session_id)
      "complete source identity is required"
  raise_if (ltb_ℤ i.source_sequence (pos 0) || ltb_ℤ i.message_index (pos 0))
      "source sequence and message index cannot be negative"
  raise_if (is_empty i.contract_id) "explicit contract identity is required"
  ok i

-- Equality of the `stream_key` tuples.
abbrev pub same_stream : MarketEventIdentity → MarketEventIdentity → Bool
same_stream a b =
    str_eq a.source_id b.source_id
    && str_eq a.channel_id b.channel_id
    && str_eq a.source_session_id b.source_session_id
    && str_eq a.contract_id b.contract_id

-- The order of the pairs of sequence and message index.
abbrev pub before : MarketEventIdentity → MarketEventIdentity → Bool
before a b =
    ltb_ℤ a.source_sequence b.source_sequence
    || (a.source_sequence ==ℤ b.source_sequence && ltb_ℤ a.message_index b.message_index)

unfoldable pub compare_within_stream : MarketEventIdentity → MarketEventIdentity → Result ℤ
compare_within_stream a b =
    if not (same_stream a b)
    then err (domain_error "independent streams cannot be ordered against each other")
    else ok (if before b a then pos 1 else if before a b then negsuc 0 else pos 0)

pub record SourceEvent : Type 0 where
  pub identity : MarketEventIdentity
  pub payload_sha256 : String
  pub exchange_time_ns : ℤ
  pub receive_time_ns : Option ℤ
  pub ingestion_time_ns : ℤ
  pub corrected : Bool

abbrev pub is_negative? : Option ℤ → Bool
is_negative? none = false
is_negative? (some n) = ltb_ℤ n (pos 0)

unfoldable pub check_event : SourceEvent → Result SourceEvent
check_event e = do
  raise_if (not (is_sha256 e.payload_sha256)) "source event payload requires a SHA-256 digest"
  raise_if (ltb_ℤ e.exchange_time_ns (pos 0) || ltb_ℤ e.ingestion_time_ns (pos 0))
      "event timestamps cannot be negative"
  raise_if (is_negative? e.receive_time_ns) "receive timestamp cannot be negative"
  ok e

-- Equality of two identities, field by field.
abbrev pub same_identity : MarketEventIdentity → MarketEventIdentity → Bool
same_identity a b =
    same_stream a b
    && a.source_sequence ==ℤ b.source_sequence
    && a.message_index ==ℤ b.message_index

unfoldable pub classify_duplicate : Option SourceEvent → SourceEvent → DuplicateDisposition
classify_duplicate none incoming = new
classify_duplicate (some existing) incoming =
    if not (same_identity existing.identity incoming.identity)
    then new
    else if str_eq existing.payload_sha256 incoming.payload_sha256
    then identical
    else conflict

pub record SourceWatermark : Type 0 where
  pub source_id : String
  pub channel_id : String
  pub source_session_id : String
  pub last_contiguous_sequence : ℤ
  pub max_exchange_time_ns : ℤ
  pub max_receive_time_ns : Option ℤ
  pub completeness : Completeness

unfoldable pub check_watermark : SourceWatermark → Result SourceWatermark
check_watermark w = do
  raise_if (ltb_ℤ w.last_contiguous_sequence (pos 0) || ltb_ℤ w.max_exchange_time_ns (pos 0))
      "watermark values cannot be negative"
  ok w

abbrev pub max_ℤ : ℤ → ℤ → ℤ
max_ℤ a b = if ltb_ℤ a b then b else a

-- `receive = max(receive or 0, event.receive_time_ns)` where the event has a receive time.
abbrev pub later_receive : Option ℤ → Option ℤ → Option ℤ
later_receive receive none = receive
later_receive none (some t) = some (max_ℤ (pos 0) t)
later_receive (some r) (some t) = some (max_ℤ r t)

-- `SourceWatermark.advance`; `replace` runs `__post_init__` on the new value.
unfoldable pub advance : SourceWatermark → SourceEvent → Result SourceWatermark
unfolding check_watermark
advance w event =
    let i = event.identity in
    let is_next = i.source_sequence ==ℤ w.last_contiguous_sequence +ℤ pos 1 in
    if not (
      str_eq i.source_id w.source_id
      && str_eq i.channel_id w.channel_id
      && str_eq i.source_session_id w.source_session_id)
    then err (domain_error "watermarks cannot total-order independent streams")
    else if leb_ℤ i.source_sequence w.last_contiguous_sequence
    then ok w
    else check_watermark (record w {
      last_contiguous_sequence = if is_next then i.source_sequence else w.last_contiguous_sequence;
      max_exchange_time_ns = max_ℤ w.max_exchange_time_ns event.exchange_time_ns;
      max_receive_time_ns = later_receive w.max_receive_time_ns event.receive_time_ns;
      completeness = if is_next then Completeness.contiguous else Completeness.gapped;
    })

pub record BookState : Type 0 where
  pub contract : ContractId
  pub bid : Option Price
  pub ask : Option Price
  pub bid_size : ℤ
  pub ask_size : ℤ
  pub last_trade_size : ℤ
  pub stale : Bool
  pub halted : Bool
  pub price_limited : Bool

-- The last test: the ask is looked at where the bid is on the grid.
unfoldable pub off_grid : BookState → Price → Price → Result (Option ReasonCode)
off_grid b bid ask = do
  bid_on_grid ← is_on_grid (spec b.contract) bid
  ask_on_grid ← if bid_on_grid then is_on_grid (spec b.contract) ask else ok true
  ok (if bid_on_grid && ask_on_grid then none else some nes_off_grid)

-- The tests on the two prices, once both are there.
unfoldable pub blocking_prices :
    BookState → Option Price → Option Price → Result (Option ReasonCode)
unfolding off_grid
blocking_prices b none ask = ok (some nes_book_empty)
blocking_prices b (some bid) none = ok (some nes_book_empty)
blocking_prices b (some bid) (some ask) =
    if leb_ℤ b.bid_size (pos 0) || leb_ℤ b.ask_size (pos 0)
    then ok (some nes_book_empty)
    else if ltb_exact ask.value bid.value
    then ok (some nes_book_crossed)
    else if eq_exact bid.value ask.value
    then ok (some nes_book_locked)
    else if leb_ℤ b.last_trade_size (pos 0)
    then ok (some zero_volume)
    else off_grid b bid ask

unfoldable pub blocking_reason : BookState → Result (Option ReasonCode)
unfolding blocking_prices
blocking_reason b =
    if not (is_nes b.contract.product)
    then err (domain_error "execution book must be an NES contract")
    else if b.stale
    then ok (some nes_stale)
    else if b.halted
    then ok (some market_halted)
    else if b.price_limited
    then ok (some price_limited)
    else blocking_prices b b.bid b.ask

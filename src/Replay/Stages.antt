-- ===== src/Replay/Stages.antt =====
-- domain/replay.py: the stages of a replay, flat until its one entry and open from there on.
use sopara.Prelude.{
  String, ◌≡◌, refl, sym, ◌⊎◌, inl, inr, ◌∙◌, ap, Option, none, some, [], ◌∷◌, ◌++◌, arith,
}
use sopara.Prelude.Int.{ℤ, pos, ◌<ℤ◌}
use sopara.Errors.{ok}
use sopara.Instruments.{Direction, long, short, sign, price_from_ticks}
use sopara.Replay.Event.{ReplayEvent, BookTuple}
use sopara.Replay.Dataset.{ReplayDataset, ReplayConfiguration}
use sopara.Replay.State.{ReplayState, OrderEntry, FillEntry, FillKind, PositionEntry, DecisionEntry}
use sopara.Replay.Entry.{Entry, open_entry, direction_of, reference_ticks, propose}
use sopara.Replay.Advance.{trade, signal_of, abstained, entered, with_book}

-- Nothing was ordered yet.
pub record IsFlat (s : ReplayState) : Type 0 where
  pub position : s.position ≡ pos 0
  pub entry_ticks : s.entry_ticks ≡ none
  pub orders : s.orders ≡ []
  pub fills : s.fills ≡ []
  pub positions : s.positions ≡ []

-- What one entry records: an order and a fill of one contract in one direction at one price.
pub record IsEntry (d : Direction) (ticks : ℤ) (o : OrderEntry) (f : FillEntry) (p : PositionEntry)
    : Type 0 where
  pub order_direction : o.direction ≡ d
  pub order_quantity : o.quantity ≡ pos 1
  pub order_ticks : o.limit_ticks ≡ ticks
  pub fill_order : f.order_id ≡ o.order_id
  pub fill_kind : f.kind ≡ FillKind.entry
  pub fill_quantity : f.quantity ≡ pos 1
  pub fill_ticks : f.price_ticks ≡ ticks
  pub position_quantity : p.quantity ≡ sign d
  pub position_ticks : p.price_ticks ≡ some ticks
  pub positive : pos 0 <ℤ ticks

-- One contract is held, from the only order and its only fill, and there is a book to leave by.
pub record IsOpened (s : ReplayState) : Type 0 where
  pub direction : Direction
  pub ticks : ℤ
  pub order : OrderEntry
  pub fill : FillEntry
  pub position_entry : PositionEntry
  pub book : BookTuple
  pub position : s.position ≡ sign direction
  pub entry_ticks : s.entry_ticks ≡ some ticks
  pub orders : s.orders ≡ order ∷ []
  pub fills : s.fills ≡ fill ∷ []
  pub positions : s.positions ≡ position_entry ∷ []
  pub has_book : s.nes_book ≡ some book
  pub recorded : IsEntry direction ticks order fill position_entry

unfoldable pub IsStaged : ReplayState → Type 0
IsStaged s = IsFlat s ⊎ IsOpened s

abbrev pub IsConsistentEntry : Entry → ℤ → BookTuple → Type 0
IsConsistentEntry n delta b =
    (n.position ≡ sign (direction_of delta))
    × (n.entry_ticks ≡ reference_ticks (direction_of delta) b)
    × IsEntry (direction_of delta) (reference_ticks (direction_of delta) b) n.order n.fill
        n.position_entry

pub abstained-IsStaged :
    (s : ReplayState) (e : ReplayEvent) (price : ℤ) (decision : DecisionEntry)
    → IsStaged s
    → IsStaged (abstained s e price decision)
unfolding IsStaged
abstained-IsStaged s e price decision (inl f) = inl (record {
  position = f.position;
  entry_ticks = f.entry_ticks;
  orders = f.orders;
  fills = f.fills;
  positions = f.positions;
})
abstained-IsStaged s e price decision (inr o) = inr (record {
  direction = o.direction;
  ticks = o.ticks;
  order = o.order;
  fill = o.fill;
  position_entry = o.position_entry;
  book = o.book;
  position = o.position;
  entry_ticks = o.entry_ticks;
  orders = o.orders;
  fills = o.fills;
  positions = o.positions;
  has_book = o.has_book;
  recorded = o.recorded;
})

pub with_book-IsStaged :
    (s : ReplayState) (e : ReplayEvent) (b : BookTuple) → IsStaged s → IsStaged (with_book s e b)
unfolding IsStaged
with_book-IsStaged s e b (inl f) = inl (record {
  position = f.position;
  entry_ticks = f.entry_ticks;
  orders = f.orders;
  fills = f.fills;
  positions = f.positions;
})
with_book-IsStaged s e b (inr o) = inr (record {
  direction = o.direction;
  ticks = o.ticks;
  order = o.order;
  fill = o.fill;
  position_entry = o.position_entry;
  book = b;
  position = o.position;
  entry_ticks = o.entry_ticks;
  orders = o.orders;
  fills = o.fills;
  positions = o.positions;
  has_book = refl;
  recorded = o.recorded;
})

sign_not_zero : (d : Direction) → sign d ≡ pos 0 → ⊥
unfolding sign
sign_not_zero long h = ground arith
sign_not_zero short h = ground arith

-- Only a flat state is entered.
pub entered-IsStaged :
    (s : ReplayState) (e : ReplayEvent) (price : ℤ) (n : Entry) (decision : DecisionEntry)
    (delta : ℤ) (b : BookTuple)
    → s.position ≡ pos 0
    → s.nes_book ≡ some b
    → IsConsistentEntry n delta b
    → IsStaged s
    → IsStaged (entered s e price n decision)
unfolding IsStaged
entered-IsStaged s e price n decision delta b flat has_book (position, ticks, recorded) (inl f) =
    inr (record {
      direction = direction_of delta;
      ticks = reference_ticks (direction_of delta) b;
      order = n.order;
      fill = n.fill;
      position_entry = n.position_entry;
      book = b;
      position = position;
      entry_ticks = ap some ticks;
      orders = ap (λ xs. xs ++ n.order ∷ []) f.orders;
      fills = ap (λ xs. xs ++ n.fill ∷ []) f.fills;
      positions = ap (λ xs. xs ++ n.position_entry ∷ []) f.positions;
      has_book = has_book;
      recorded = recorded;
    })
entered-IsStaged s e price n decision delta b flat has_book consistent (inr o) =
    absurd (sign_not_zero o.direction (sym o.position ∙ flat))

-- A signal to trade comes from a flat position and the book at hand.
pub signal_of-trade :
    (c : ReplayConfiguration) (position : ℤ) (delta : Option ℤ) (book : Option BookTuple)
    (change : ℤ) (b : BookTuple)
    → signal_of c position delta book ≡ trade change b
    → (position ≡ pos 0) × (book ≡ some b)
unfolding signal_of
signal_of-trade c position delta book change b h = (ground arith, ground arith)

module _ (sha256 : String → String) (d : ReplayDataset) (c : ReplayConfiguration) where
  positive_entry :
      (e : ReplayEvent) (position delta : ℤ) (b : BookTuple) (n : Entry)
      → open_entry sha256 d c e position delta b ≡ ok n
      → pos 0 <ℤ reference_ticks (direction_of delta) b
  unfolding open_entry propose price_from_ticks
  positive_entry e position delta b n h = ground arith

  pub open_entry-IsConsistentEntry :
      (e : ReplayEvent) (position delta : ℤ) (b : BookTuple) (n : Entry)
      → open_entry sha256 d c e position delta b ≡ ok n
      → IsConsistentEntry n delta b
  unfolding open_entry
  open_entry-IsConsistentEntry e position delta b n h = (
    ground arith,
    ground arith,
    record {
      order_direction = ground arith;
      order_quantity = ground arith;
      order_ticks = ground arith;
      fill_order = ground arith;
      fill_kind = ground arith;
      fill_quantity = ground arith;
      fill_ticks = ground arith;
      position_quantity = ground arith;
      position_ticks = ground arith;
      positive = positive_entry e position delta b n h;
    },
  )

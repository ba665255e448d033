-- ===== src/Replay/Reach.antt =====
-- domain/replay.py: the states that a replay passes through keep their stage.
use sopara.Prelude.{String, ◌≡◌, refl, inl, Option, none, some, get_elem?}
use sopara.Prelude.Int.{ℤ, pos}
use sopara.Errors.{ok, ◌>>=◌, >>=-returned, ok-injective}
use mathlib.Core.Path.{subst}
use sopara.Replay.Stages.{
  IsStaged, abstained-IsStaged, entered-IsStaged, with_book-IsStaged, signal_of-trade,
  open_entry-IsConsistentEntry,
}
use sopara.Replay.Event.{ReplayEvent, BookTuple, ReplayEventType, es_trade, nes_book, book_fields}
use sopara.Replay.Dataset.{ReplayDataset, ReplayConfiguration}
use sopara.Replay.State.{ReplayState, initial}
use sopara.Replay.Entry.{open_entry}
use sopara.Replay.Advance.{
  Signal, abstain, trade, signal_of, advance_replay, advance_event, advance_trade, advance_book,
  advance_at, act, es_delta, abstained, entered, abstention, proposed, decision_digest,
}

module _ (sha256 : String → String) (d : ReplayDataset) (c : ReplayConfiguration) where
  -- The step at a trade, signal by signal.
  act-IsStaged :
      (s t : ReplayState) (e : ReplayEvent) (price : ℤ) (delta : Option ℤ) (σ : Signal)
      → ((change : ℤ) (b : BookTuple)
          → σ ≡ trade change b
          → (s.position ≡ pos 0) × (s.nes_book ≡ some b))
      → IsStaged s
      → act sha256 d c s e price delta σ ≡ ok t
      → IsStaged t
  unfolding act IsStaged
  act-IsStaged s t e price delta (abstain reason) book stage h =
      let (id, _, done) =
        >>=-returned (decision_digest sha256 d e)
          (λ id. ok (abstained s e price (abstention id e delta reason))) h in
      subst IsStaged (ok-injective done)
        (abstained-IsStaged s e price (abstention id e delta reason) stage)
  act-IsStaged s t e price delta (trade change b) book stage h =
      let (n, opened, h1) =
        >>=-returned (open_entry sha256 d c e s.position change b)
          (λ n.
            decision_digest sha256 d e >>= λ id. ok (entered s e price n (proposed id e delta n)))
          h in
      let (id, _, done) =
        >>=-returned (decision_digest sha256 d e)
          (λ id. ok (entered s e price n (proposed id e delta n))) h1 in
      let (flat, has_book) = book change b refl in
      subst IsStaged (ok-injective done) (
        entered-IsStaged s e price n (proposed id e delta n) change b flat has_book
          (open_entry-IsConsistentEntry sha256 d c e s.position change b n opened) stage)

  advance_event-IsStaged :
      (s t : ReplayState) (e : ReplayEvent)
      → IsStaged s
      → advance_event sha256 d c s e ≡ ok t
      → IsStaged t
  unfolding advance_event advance_book advance_trade
  advance_event-IsStaged s t e stage h = by_type e.event_type h
    where
      by_book : (o : Option BookTuple) → advance_book s e o ≡ ok t → IsStaged t
      by_book none h = cc
      by_book (some b) h = subst IsStaged (ok-injective h) (with_book-IsStaged s e b stage)

      by_trade : (o : Option ℤ) → advance_trade sha256 d c s e o ≡ ok t → IsStaged t
      by_trade none h = cc
      by_trade (some price) h =
          act-IsStaged s t e price (es_delta s.current_es_ticks price)
            (signal_of c s.position (es_delta s.current_es_ticks price) s.nes_book)
            (λ change b.
              signal_of-trade c s.position (es_delta s.current_es_ticks price) s.nes_book change b)
            stage h

      by_type :
          (k : ReplayEventType)
          → elim k [
            | nes_book ↦ advance_book s e (book_fields e)
            | es_trade ↦ advance_trade sha256 d c s e e.price_ticks
          ]
            ≡ ok t
          → IsStaged t
      by_type es_trade h = by_trade e.price_ticks h
      by_type nes_book h = by_book (book_fields e) h

  -- A step from a staged state ends in a staged state.
  pub advance_replay-IsStaged :
      (s t : ReplayState) → IsStaged s → advance_replay sha256 d c s ≡ ok t → IsStaged t
  unfolding advance_replay
  advance_replay-IsStaged s t stage h = at_event (get_elem? d.events s.next_input_index) h
    where
      at_event : (o : Option ReplayEvent) → advance_at sha256 d c s o ≡ ok t → IsStaged t
      at_event none h = cc
      at_event (some e) h = advance_event-IsStaged s t e stage h

  -- The states that a replay passes through.
  pub data Reaches : ReplayState → Type 0 where
    start : Reaches initial
    next : {s t : ReplayState} → Reaches s → advance_replay sha256 d c s ≡ ok t → Reaches t

  initial-IsStaged : IsStaged initial
  unfolding IsStaged
  initial-IsStaged = inl (record {
    position = refl;
    entry_ticks = refl;
    orders = refl;
    fills = refl;
    positions = refl;
  })

  -- Every state of a replay is flat with nothing recorded, or holds the one contract of its only
  -- order and fill, with a book to leave by: a replay never enters twice.
  pub Reaches-IsStaged : (s : ReplayState) → Reaches s → IsStaged s
  Reaches-IsStaged s start = initial-IsStaged
  Reaches-IsStaged t (next {s} r h) = advance_replay-IsStaged s t (Reaches-IsStaged s r) h

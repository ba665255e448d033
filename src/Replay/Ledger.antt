-- ===== src/Replay/Ledger.antt =====
-- domain/replay.py: what one step of a replay changes, and the decisions of the whole.
use sopara.Prelude.Search.{take-suc, get_elem?-lt}
use mathlib.Core.Path.{subst, ap₂}
use sopara.Prelude.{
  ℕ, zero, suc, ◌+◌, ◌≤◌, String, ◌≡◌, refl, sym, ap, ◌∙◌, ◌⊎◌, inl, inr, true, Option, none, some,
  List, [], ◌∷◌, ◌++◌, map, length, get_elem?, take, append_nil, arith,
}
use sopara.Prelude.Int.{ℤ, pos, pos_part, ==ℤ_iff}
use sopara.Errors.{ok, ◌>>=◌, >>=-returned, ok-injective}
use sopara.Replay.Event.{ReplayEvent, BookTuple, ReplayEventType, es_trade, nes_book, book_fields}
use sopara.Replay.Dataset.{ReplayDataset, ReplayConfiguration, indices_from}
use sopara.Replay.State.{ReplayState, DecisionEntry}
use sopara.Instruments.{Direction}
use sopara.Replay.Stages.{signal_of-trade, open_entry-IsConsistentEntry}
use sopara.Replay.Entry.{open_entry, direction_of, reference_ticks}
use sopara.Replay.Advance.{
  Signal, abstain, trade, signal_of, advance_replay, advance_event, advance_trade, advance_book,
  advance_at, act, es_delta, abstained, entered, abstention, proposed, decision_digest,
}
use sopara.Replay.Reach.{Reaches, start, next}

-- A step over one event: a trade appends one decision, about that event, and leaves the book; a book
-- replaces the book and decides nothing.
pub record IsStep (s t : ReplayState) (e : ReplayEvent) : Type 0 where
  pub index : t.next_input_index ≡ suc (pos_part e.global_index)
  pub time : t.logical_time_ns ≡ e.source_time_ns
  pub change :
      ((e.event_type ≡ es_trade)
        × (t.nes_book ≡ s.nes_book)
        × ((x : DecisionEntry) × (t.decisions ≡ s.decisions ++ x ∷ [])
            × (x.event_index ≡ e.global_index)
            × (x.as_of_ns ≡ e.source_time_ns)))
      ⊎ ((e.event_type ≡ nes_book) × (t.nes_book ≡ book_fields e) × (t.decisions ≡ s.decisions))
  -- an entry is at a price of the book at hand
  pub entry :
      (t.entry_ticks ≡ s.entry_ticks)
      ⊎ ((r : Direction) × (b : BookTuple) × (s.nes_book ≡ some b)
          × (t.entry_ticks ≡ some (reference_ticks r b)))

module _ (sha256 : String → String) (d : ReplayDataset) (c : ReplayConfiguration) where
  act-IsStep :
      (s t : ReplayState) (e : ReplayEvent) (price : ℤ) (delta : Option ℤ) (σ : Signal)
      → e.event_type ≡ es_trade
      → ((change : ℤ) (b : BookTuple)
          → σ ≡ trade change b
          → (s.position ≡ pos 0) × (s.nes_book ≡ some b))
      → act sha256 d c s e price delta σ ≡ ok t
      → IsStep s t e
  unfolding act
  act-IsStep s t e price delta (abstain reason) k book h =
      let (id, _, done) =
        >>=-returned (decision_digest sha256 d e)
          (λ id. ok (abstained s e price (abstention id e delta reason))) h in
      subst (λ t. IsStep s t e) (ok-injective done)
        (record {
          index = refl;
          time = refl;
          change = inl (k, refl, (abstention id e delta reason, refl, refl, refl));
          entry = inl refl;
        })
  act-IsStep s t e price delta (trade change b) k book h =
      let (n, opened, h1) =
        >>=-returned (open_entry sha256 d c e s.position change b)
          (λ n.
            decision_digest sha256 d e >>= λ id. ok (entered s e price n (proposed id e delta n)))
          h in
      let (id, _, done) =
        >>=-returned (decision_digest sha256 d e)
          (λ id. ok (entered s e price n (proposed id e delta n))) h1 in
      subst (λ t. IsStep s t e) (ok-injective done)
        (record {
          index = refl;
          time = refl;
          change = inl (k, refl, (proposed id e delta n, refl, refl, refl));
          entry = inr (
            direction_of change,
            b,
            (book change b refl).1,
            ap some (open_entry-IsConsistentEntry sha256 d c e s.position change b n opened).1,
          );
        })

  advance_event-IsStep :
      (s t : ReplayState) (e : ReplayEvent) → advance_event sha256 d c s e ≡ ok t → IsStep s t e
  unfolding advance_event advance_book advance_trade
  advance_event-IsStep s t e h = by_type e.event_type refl h
    where
      by_book :
          (o : Option BookTuple)
          → book_fields e ≡ o
          → e.event_type ≡ nes_book
          → advance_book s e o ≡ ok t
          → IsStep s t e
      by_book none q k h = cc
      by_book (some b) q k h =
          subst (λ t. IsStep s t e) (ok-injective h)
            (record { index = refl; time = refl; change = inr (k, sym q, refl); entry = inl refl })

      by_trade :
          (o : Option ℤ)
          → e.event_type ≡ es_trade
          → advance_trade sha256 d c s e o ≡ ok t
          → IsStep s t e
      by_trade none k h = cc
      by_trade (some price) k h =
          act-IsStep s t e price (es_delta s.current_es_ticks price)
            (signal_of c s.position (es_delta s.current_es_ticks price) s.nes_book) k
            (signal_of-trade c s.position (es_delta s.current_es_ticks price) s.nes_book) h

      by_type :
          (k : ReplayEventType)
          → e.event_type ≡ k
          → elim k [
            | nes_book ↦ advance_book s e (book_fields e)
            | es_trade ↦ advance_trade sha256 d c s e e.price_ticks
          ]
            ≡ ok t
          → IsStep s t e
      by_type es_trade k h = by_trade e.price_ticks k h
      by_type nes_book k h = by_book (book_fields e) refl k h

  pub advance_replay-IsStep :
      (s t : ReplayState)
      → advance_replay sha256 d c s ≡ ok t
      → (e : ReplayEvent) × (get_elem? d.events s.next_input_index ≡ some e) × IsStep s t e
  unfolding advance_replay
  advance_replay-IsStep s t h = at_event (get_elem? d.events s.next_input_index) refl h
    where
      at_event :
          (o : Option ReplayEvent)
          → get_elem? d.events s.next_input_index ≡ o
          → advance_at sha256 d c s o ≡ ok t
          → (e : ReplayEvent) × (get_elem? d.events s.next_input_index ≡ some e) × IsStep s t e
      at_event none q h = cc
      at_event (some e) q h = (e, q, advance_event-IsStep s t e h)

pub indices_from-get_elem? :
    (k : ℕ) (es : List ReplayEvent) (i : ℕ) (e : ReplayEvent)
    → indices_from k es ≡ true
    → get_elem? es i ≡ some e
    → e.global_index ≡ pos (k + i)
unfolding indices_from
indices_from-get_elem? k [] i e h g = cc
indices_from-get_elem? k (x ∷ xs) zero e h g = ground (arith, ==ℤ_iff x.global_index (pos k))
indices_from-get_elem? k (x ∷ xs) (suc i) e h g =
    indices_from-get_elem? (suc k) xs i e (ground arith) g ∙ ap pos (omega arith)

-- The indices of the trades among events.
abbrev pub trade_indices : List ReplayEvent → List ℤ
trade_indices [] = []
trade_indices (e ∷ es) = elim e.event_type [
  | es_trade ↦ e.global_index ∷ trade_indices es
  | nes_book ↦ trade_indices es
]

pub type_cases : (k : ReplayEventType) → (k ≡ es_trade) ⊎ (k ≡ nes_book)
type_cases es_trade = inl refl
type_cases nes_book = inr refl

trade_indices-append :
    (es fs : List ReplayEvent) → trade_indices (es ++ fs) ≡ trade_indices es ++ trade_indices fs
trade_indices-append [] fs = refl
trade_indices-append (e ∷ es) fs = elim (type_cases e.event_type) [
  | inl k ↦ ground (arith, k, trade_indices-append es fs)
  | inr k ↦ ground (arith, k, trade_indices-append es fs)
]

abbrev pub event_indices : List DecisionEntry → List ℤ
event_indices xs = map (λ (x : DecisionEntry). x.event_index) xs

event_indices-append :
    (xs ys : List DecisionEntry) → event_indices (xs ++ ys) ≡ event_indices xs ++ event_indices ys
event_indices-append [] ys = refl
event_indices-append (x ∷ xs) ys = ap (λ zs. x.event_index ∷ zs) (event_indices-append xs ys)

trade_alone :
    (e : ReplayEvent) → e.event_type ≡ es_trade → trade_indices (e ∷ []) ≡ e.global_index ∷ []
trade_alone e k = ground arith

book_alone : (e : ReplayEvent) → e.event_type ≡ nes_book → trade_indices (e ∷ []) ≡ []
book_alone e k = ground arith

module _ (sha256 : String → String) (d : ReplayDataset) (c : ReplayConfiguration)
    (contiguous : indices_from 0 d.events ≡ true) where
  -- A step moves on by one event.
  pub step_index :
      (s t : ReplayState) (e : ReplayEvent)
      → get_elem? d.events s.next_input_index ≡ some e
      → IsStep s t e
      → t.next_input_index ≡ suc s.next_input_index
  step_index s t e at step =
      let index = indices_from-get_elem? 0 d.events s.next_input_index e contiguous at in
      step.index ∙ ap (λ n. suc (pos_part n)) index ∙ ap suc (omega arith)

  consumed :
      (i : ℕ) (e : ReplayEvent)
      → get_elem? d.events i ≡ some e
      → trade_indices (take (suc i) d.events)
        ≡ trade_indices (take i d.events) ++ trade_indices (e ∷ [])
  consumed i e at =
      ap trade_indices (take-suc d.events i e at) ∙ trade_indices-append (take i d.events) (e ∷ [])

  step_decisions :
      (s t : ReplayState) (e : ReplayEvent)
      → get_elem? d.events s.next_input_index ≡ some e
      → IsStep s t e
      → event_indices s.decisions ≡ trade_indices (take s.next_input_index d.events)
      → event_indices t.decisions ≡ trade_indices (take (suc s.next_input_index) d.events)
  step_decisions s t e at step ih = elim step.change [
    | inl (k, book, (x, decided, index, time)) ↦
        ap event_indices decided
        ∙ event_indices-append s.decisions (x ∷ [])
        ∙ ap₂ (λ xs y. xs ++ y ∷ []) ih index
        ∙ sym (
            consumed s.next_input_index e at
            ∙ ap (λ zs. trade_indices (take s.next_input_index d.events) ++ zs) (trade_alone e k))
    | inr (k, book, decided) ↦
        ap event_indices decided
        ∙ ih
        ∙ sym (
            consumed s.next_input_index e at
            ∙ ap (λ zs. trade_indices (take s.next_input_index d.events) ++ zs) (book_alone e k)
            ∙ append_nil (trade_indices (take s.next_input_index d.events)))
  ]

  -- In a dataset with contiguous indices, every state of a replay has consumed the events before its
  -- next index, and its decisions are one for each trade among them, in their order.
  pub Reaches-decisions :
      (s : ReplayState)
      → Reaches sha256 d c s
      → (s.next_input_index ≤ length d.events)
        × (event_indices s.decisions ≡ trade_indices (take s.next_input_index d.events))
  Reaches-decisions s start = (omega arith, refl)
  Reaches-decisions t (next {s} r h) =
      let (bound, ih) = Reaches-decisions s r in
      let (e, at, step) = advance_replay-IsStep sha256 d c s t h in
      let moved = step_index s t e at step in
      (
        rw moved (get_elem?-lt d.events s.next_input_index e at),
        rw moved (step_decisions s t e at step ih),
      )

-- ===== src/Replay/Total.antt =====
-- domain/replay.py: every reachable state of a replay of checked input advances until the input ends.
use sopara.Prelude.Search.{
  any-append, any-reversed, any-find, All-reversed, All-take, All-get_elem?, All-find, or_false,
  get_elem?-some, take-suc, reversed,
}
use mathlib.Core.Path.{subst}
use sopara.Prelude.{
  ℕ, suc, ◌<◌, String, ◌≡◌, refl, sym, ap, ◌∙◌, ◌⊎◌, inl, inr, true, ◌||◌, Option, none, some, [],
  ◌∷◌, arith, any, All, take, get_elem?, length,
}
use sopara.Prelude.Int.{ℤ, pos}
use sopara.Errors.{ok}
use sopara.Canonical.Support.{Succeeds}
use sopara.Replay.Event.{ReplayEvent, BookTuple, check_replay_event}
use sopara.Replay.Dataset.{
  ReplayDataset, ReplayConfiguration, check_configuration, check_dataset, is_book,
}
use sopara.Replay.State.{ReplayState}
use sopara.Replay.Entry.{latest_book, first_of}
use sopara.Replay.Advance.{
  Signal, abstain, trade, signal_of, act, advance_replay, advance_event, advance_trade,
  advance_book, es_delta, abstained, entered, abstention, proposed, with_book,
}
use sopara.Replay.Inputs.{
  IsTwoSided, IsPriced, IsDigest, event_book, event_price, dataset_contracts,
}
use sopara.Replay.Opening.{CanOpen, IsPrice, reference_price}
use sopara.Replay.Progress.{open_entry-Succeeds, decision_digest-Succeeds}
use sopara.Replay.Stages.{signal_of-trade}
use sopara.Replay.Reach.{Reaches, start, next}
use sopara.Replay.Ledger.{
  IsStep, advance_replay-IsStep, step_index, indices_from-get_elem?, type_cases,
}

-- Input as the program builds it: every constructor's check has passed, and the prices of the books are
-- below 10 ^ 25 ticks, so that no decimal is rounded or refused.
pub record IsReplayable (d : ReplayDataset) (c : ReplayConfiguration) : Type 0 where
  pub dataset : check_dataset d ≡ ok d
  pub events : All (λ (e : ReplayEvent). check_replay_event e ≡ ok e) d.events
  pub configuration : check_configuration c ≡ ok c
  pub priced : All IsPriced d.events

-- A state that holds a book holds a two-sided one, and a book event was consumed.
abbrev pub IsKnown : ReplayDataset → ReplayState → Type 0
IsKnown d s =
    (s.nes_book ≡ none)
    ⊎ ((b : BookTuple) × (s.nes_book ≡ some b)
        × IsTwoSided b
        × (any is_book (take s.next_input_index d.events) ≡ true))

module _ (sha256 : String → String) (d : ReplayDataset) (c : ReplayConfiguration)
    (input : IsReplayable d c) where
  valid_at : (i : ℕ) (e : ReplayEvent) → get_elem? d.events i ≡ some e → check_replay_event e ≡ ok e
  valid_at i e h =
      All-get_elem? (λ (e : ReplayEvent). check_replay_event e ≡ ok e) d.events i e input.events h

  IsPriced-at : (i : ℕ) (e : ReplayEvent) → get_elem? d.events i ≡ some e → IsPriced e
  IsPriced-at i e h = All-get_elem? IsPriced d.events i e input.priced h

  consumed_any :
      (i : ℕ) (e : ReplayEvent)
      → get_elem? d.events i ≡ some e
      → any is_book (take (suc i) d.events) ≡ any is_book (take i d.events) || is_book e
  consumed_any i e h =
      ap (any is_book) (take-suc d.events i e h)
      ∙ any-append is_book (take i d.events) (e ∷ [])
      ∙ ap (λ b. any is_book (take i d.events) || b) (or_false (is_book e))

  step-IsKnown :
      (s t : ReplayState) (e : ReplayEvent)
      → get_elem? d.events s.next_input_index ≡ some e
      → IsStep s t e
      → IsKnown d s
      → IsKnown d t
  step-IsKnown s t e at step known =
      let index = step_index sha256 d c (dataset_contracts d input.dataset).2 s t e at step in
      let more = consumed_any s.next_input_index e at in
      elim step.change [
        | inl (k, same, _) ↦ elim known [
          | inl absent ↦ inl (same ∙ absent)
          | inr (b, has, two, any_book) ↦
              inr (b, same ∙ has, two, rw index (ground (arith, more, any_book)))
        ]
        | inr (k, changed, _) ↦
            let (b, has, two) =
              event_book e (valid_at s.next_input_index e at) k
                (IsPriced-at s.next_input_index e at) in
            inr (b, changed ∙ has, two, rw index (ground (arith, more, k)))
      ]

  pub Reaches-IsKnown : (s : ReplayState) → Reaches sha256 d c s → IsKnown d s
  Reaches-IsKnown s start = inl refl
  Reaches-IsKnown t (next {s} r h) =
      let (e, at, step) = advance_replay-IsStep sha256 d c s t h in
      step-IsKnown s t e at step (Reaches-IsKnown s r)

  earlier_book :
      (s : ReplayState) (e : ReplayEvent)
      → get_elem? d.events s.next_input_index ≡ some e
      → any is_book (take s.next_input_index d.events) ≡ true
      → (k : ReplayEvent) × (latest_book d e ≡ ok k) × (check_replay_event k ≡ ok k)
  unfolding latest_book
  earlier_book s e at h =
      let index =
        indices_from-get_elem? 0 d.events s.next_input_index e (dataset_contracts d input.dataset).2
          at
        ∙ ap pos (omega arith) in
      let prefix = take s.next_input_index d.events in
      let (k, found) = any-find is_book (reversed prefix) (any-reversed is_book prefix h) in
      let valid =
        All-reversed (λ (e : ReplayEvent). check_replay_event e ≡ ok e) prefix
          (All-take (λ (e : ReplayEvent). check_replay_event e ≡ ok e) s.next_input_index d.events
            input.events) in
      (
        k,
        rw index (ap first_of found),
        All-find (λ (e : ReplayEvent). check_replay_event e ≡ ok e) is_book (reversed prefix) k
            valid found,
      )

  pub known_book :
      (s : ReplayState) (b : BookTuple)
      → s.nes_book ≡ some b
      → IsKnown d s
      → IsTwoSided b × (any is_book (take s.next_input_index d.events) ≡ true)
  known_book s b has (inl absent) = absurd (cc (has, absent))
  known_book s b has (inr (k, same, two, h)) = (subst IsTwoSided (ground (arith, has, same)) two, h)

  -- The price of the entry came from a book.
  pub Reaches-entry :
      (s : ReplayState) → Reaches sha256 d c s → (n : ℤ) → s.entry_ticks ≡ some n → IsPrice n
  Reaches-entry s start n h = cc
  Reaches-entry t (next {s} r h) n has =
      let (e, at, step) = advance_replay-IsStep sha256 d c s t h in
      elim step.entry [
        | inl same ↦ Reaches-entry s r n (sym same ∙ has)
        | inr (dir, b, book, made) ↦
            let two = (known_book s b book (Reaches-IsKnown s r)).0 in
            subst IsPrice (ground (arith, made, has)) (reference_price dir b two)
      ]

  -- The step at a trade, signal by signal.
  act-Succeeds :
      IsDigest sha256
      → (s : ReplayState) (e : ReplayEvent) (price : ℤ) (delta : Option ℤ) (σ : Signal)
      → get_elem? d.events s.next_input_index ≡ some e
      → IsKnown d s
      → ((change : ℤ) (b : BookTuple)
          → σ ≡ trade change b
          → (s.position ≡ pos 0) × (s.nes_book ≡ some b))
      → Succeeds (act sha256 d c s e price delta σ)
  unfolding act
  act-Succeeds digest s e price delta (abstain reason) at known book =
      let (id, h) = decision_digest-Succeeds sha256 d e in
      (abstained s e price (abstention id e delta reason), ground (arith, h))
  act-Succeeds digest s e price delta (trade change b) at known book =
      let (flat, has_book) = book change b refl in
      let (two, any_book) = known_book s b has_book known in
      let (k, found, valid) = earlier_book s e at any_book in
      let (es_product, nes_product, contiguous) = dataset_contracts d input.dataset in
      let can : CanOpen d c e b = record {
        event = valid_at s.next_input_index e at;
        configuration = input.configuration;
        es_product = es_product;
        nes_product = nes_product;
        book = two;
        earlier = k;
        found = found;
        earlier_event = valid;
      } in
      let (n, opened) = open_entry-Succeeds sha256 d c e change b digest can in
      let (id, h) = decision_digest-Succeeds sha256 d e in
      (entered s e price n (proposed id e delta n), ground (arith, flat, opened, h))

  event-Succeeds :
      IsDigest sha256
      → (s : ReplayState) (e : ReplayEvent) → get_elem? d.events s.next_input_index ≡ some e
      → IsKnown d s
      → Succeeds (advance_event sha256 d c s e)
  unfolding advance_event advance_book advance_trade
  event-Succeeds digest s e at known = elim (type_cases e.event_type) [
    | inl k ↦
        let (price, h) = event_price e (valid_at s.next_input_index e at) k in
        let delta = es_delta s.current_es_ticks price in
        let (t, g) =
          act-Succeeds digest s e price delta (signal_of c s.position delta s.nes_book) at known
            (signal_of-trade c s.position delta s.nes_book) in
        (t, ground (arith, k, h, g))
    | inr k ↦
        let (b, h, two) =
          event_book e (valid_at s.next_input_index e at) k (IsPriced-at s.next_input_index e at) in
        (with_book s e b, ground (arith, k, h))
  ]

  -- Where every digest has its documented form, each state of a replay of checked input, whose books
  -- have prices below 10 ^ 25 ticks, advances as long as events are left.
  pub advance_replay-Succeeds :
      IsDigest sha256
      → (s : ReplayState) → Reaches sha256 d c s
      → s.next_input_index < length d.events
      → Succeeds (advance_replay sha256 d c s)
  unfolding advance_replay
  advance_replay-Succeeds digest s r left =
      let (e, at) = get_elem?-some d.events s.next_input_index left in
      let (t, h) = event-Succeeds digest s e at (Reaches-IsKnown s r) in (t, rw at h)

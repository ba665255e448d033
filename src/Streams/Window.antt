-- ===== src/Streams/Window.antt =====
-- api/sse.py: which windows are accepted, and that the outbox's own windows are.
use sopara.Prelude.{
  ℕ, ◌+◌, ◌≡◌, refl, sym, ◌∙◌, ◌↔◌, true, false, List, [], ◌∷◌, leb, ◌==◌, arith, All, Bool-cases,
  inl, inr,
}
use sopara.Errors.{ok, ◌>>=◌, >>=-returned}
use sopara.Streams.{StreamEvent, StreamWindow, is_expired, accept_events, validate_window, newer}

-- The events carry the numbers that follow `after`, with no gap.
abbrev pub Consecutive : ℕ → List StreamEvent → Type 0
Consecutive after [] = Unit
Consecutive after (event ∷ rest) = (event.sequence ≡ after + 1) × Consecutive event.sequence rest

abbrev pub HaveSchema : ℕ → List StreamEvent → Type 0
HaveSchema schema_version = All (λ e. e.schema_version ≡ schema_version)

-- One event of the window that is new: the checks that it passed, and the rest of the window.
accept_events-step :
    (after schema_version expected : ℕ) (event : StreamEvent) (rest : List StreamEvent)
    {accepted : List StreamEvent}
    → leb event.sequence after ≡ false
    → accept_events after schema_version expected (event ∷ rest) ≡ ok accepted
    → (event.sequence ≡ expected)
      × (event.schema_version ≡ schema_version)
      × ((others : List StreamEvent) × (accept_events after schema_version (expected + 1) rest
            ≡ ok others)
          × (accepted ≡ event ∷ others))
unfolding accept_events
accept_events-step after schema_version expected event rest {accepted} fresh h =
    elim (Bool-cases (event.sequence == expected)) [
      | inr gap ↦ absurd (ground (arith, fresh, gap))
      | inl next ↦ elim (Bool-cases (event.schema_version == schema_version)) [
        | inr changed ↦ absurd (ground (arith, fresh, next, changed))
        | inl same ↦
            let e : (accept_events after schema_version (expected + 1) rest >>= λ others.
            ok (event ∷ others))
                ≡ ok accepted =
              ground (arith, fresh, next, same, h) in
            let (others, returned, done) =
              >>=-returned (accept_events after schema_version (expected + 1) rest) _ e in
            (ground arith, ground arith, (others, returned, ground arith))
      ]
    ]

accept_events-old :
    (after schema_version expected : ℕ) (event : StreamEvent) (rest : List StreamEvent)
    → leb event.sequence after ≡ true
    → accept_events after schema_version expected (event ∷ rest)
      ≡ accept_events after schema_version expected rest
unfolding accept_events
accept_events-old after schema_version expected event rest old = ground (arith, old)

accept_events-accepts :
    (after schema_version cursor : ℕ) (events : List StreamEvent) {accepted : List StreamEvent}
    → accept_events after schema_version (cursor + 1) events ≡ ok accepted
    → (accepted ≡ newer after events)
      × Consecutive cursor (newer after events)
      × HaveSchema schema_version (newer after events)
unfolding accept_events newer
accept_events-accepts after schema_version cursor [] h = ground arith
accept_events-accepts after schema_version cursor (event ∷ rest) {accepted = taken} h =
    elim (Bool-cases (leb event.sequence after)) [
      | inl old ↦
          let r =
            accept_events-accepts after schema_version cursor rest {accepted = taken}
              (sym (accept_events-old after schema_version (cursor + 1) event rest old) ∙ h) in
          rw old r
      | inr fresh ↦
          let (next, same, (others, returned, whole)) =
            accept_events-step after schema_version (cursor + 1) event rest fresh h in
          let (e, c, s) =
            accept_events-accepts after schema_version event.sequence rest {accepted = others}
              (rw next returned) in
          rw fresh (ground (arith, e), (next, c), (same, s))
    ]

accepts-accept_events :
    (after schema_version cursor : ℕ) (events : List StreamEvent)
    → Consecutive cursor (newer after events)
    → HaveSchema schema_version (newer after events)
    → accept_events after schema_version (cursor + 1) events ≡ ok (newer after events)
unfolding accept_events newer
accepts-accept_events after schema_version cursor [] c s = refl
accepts-accept_events after schema_version cursor (event ∷ rest) c s =
    elim (Bool-cases (leb event.sequence after)) [
      | inl old ↦ rw old (
          accept_events-old after schema_version (cursor + 1) event rest old
          ∙ accepts-accept_events after schema_version cursor rest (rw old at c) (rw old at s))
      | inr fresh ↦
          let (next, cs) : Consecutive cursor (event ∷ newer after rest) = rw fresh at c in
          let (same, ss) : HaveSchema schema_version (event ∷ newer after rest) = rw fresh at s in
          let r = accepts-accept_events after schema_version event.sequence rest cs ss in
          let r' : accept_events after schema_version (cursor + 1 + 1) rest
              ≡ ok (newer after rest) =
            rw next at r in
          ground (arith, fresh, next, same, r')
    ]

pub validate_window-ok_iff :
    (window : StreamWindow) (after schema_version : ℕ) (accepted : List StreamEvent)
    → (validate_window window after schema_version ≡ ok accepted) ↔ (
        (is_expired after window.minimum_sequence ≡ false)
        × (accepted ≡ newer after window.events)
        × Consecutive after accepted
        × HaveSchema schema_version accepted)
unfolding validate_window
validate_window-ok_iff window after schema_version accepted =
    elim (Bool-cases (is_expired after window.minimum_sequence)) [
      | inl gone ↦ (λ h. ground (arith, gone), λ (k, e, c, s). cc)
      | inr kept ↦ (
        λ h.
            let (e, c, s) =
              accept_events-accepts after schema_version after window.events {accepted = accepted}
                (ground (arith, kept)) in
            (kept, e, rw e c, rw e s),
        λ (k, e, c, s). ground (
          arith,
          kept,
          e,
          accepts-accept_events after schema_version after window.events (rw e at c) (rw e at s),
        ),
      )
    ]

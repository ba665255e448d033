-- ===== src/Streams/Outbox.antt =====
-- api/sse.py and api/database.py: an outbox whose numbers have no gap is streamed from every cursor that it
-- still holds.
use sopara.Prelude.{
  ℕ, zero, suc, ◌≤◌, ◌≡◌, refl, sym, false, List, [], ◌∷◌, take, leb, arith, Bool-cases, inl, inr,
}
use sopara.Prelude.Search.{All-take}
use sopara.Errors.{ok}
use sopara.Streams.{
  StreamEvent, EventStreamer, newer, stream_window, preflight, first_sequence, is_expired,
}
use sopara.Streams.Window.{Consecutive, HaveSchema, validate_window-ok_iff}

-- The events above a cursor in consecutive events.
newer-kept :
    (after cursor : ℕ) (outbox : List StreamEvent)
    → after ≤ cursor
    → Consecutive cursor outbox
    → newer after outbox ≡ outbox
unfolding newer
newer-kept after cursor [] h c = refl
newer-kept after cursor (e ∷ rest) h (next, c) =
    ground (arith, newer-kept after e.sequence rest (ground arith) c)

newer-Consecutive :
    (after cursor : ℕ) (outbox : List StreamEvent)
    → cursor ≤ after
    → Consecutive cursor outbox
    → Consecutive after (newer after outbox)
unfolding newer
newer-Consecutive after cursor [] h c = tt
newer-Consecutive after cursor (e ∷ rest) h (next, c) = elim (Bool-cases (leb e.sequence after)) [
  | inl old ↦ rw old (newer-Consecutive after e.sequence rest (ground arith) c)
  | inr fresh ↦
      let kept = newer-kept after e.sequence rest (ground arith) c in
      rw (fresh, kept) (ground arith, c)
]

take-Consecutive :
    (n cursor : ℕ) (events : List StreamEvent)
    → Consecutive cursor events
    → Consecutive cursor (take n events)
take-Consecutive zero cursor events c = tt
take-Consecutive (suc n) cursor [] c = tt
take-Consecutive (suc n) cursor (e ∷ rest) (next, c) = (next, take-Consecutive n e.sequence rest c)

newer-HaveSchema :
    (v after : ℕ) (events : List StreamEvent)
    → HaveSchema v events
    → HaveSchema v (newer after events)
unfolding newer
newer-HaveSchema v after [] h = tt
newer-HaveSchema v after (e ∷ rest) (p, h) = elim (Bool-cases (leb e.sequence after)) [
  | inl old ↦ rw old (newer-HaveSchema v after rest h)
  | inr fresh ↦ rw fresh (p, newer-HaveSchema v after rest h)
]

not_expired :
    (outbox : List StreamEvent) (first after : ℕ)
    → Consecutive first outbox
    → first ≤ after
    → is_expired after (first_sequence outbox) ≡ false
not_expired [] first after c h = refl
not_expired (e ∷ rest) first after (next, c) h = ground arith

-- An outbox whose numbers have no gap and whose events have the expected schema version is
-- streamed from every cursor from the one before its first number on: the preflight returns the
-- events after the cursor, as many as the limit allows.
pub preflight-outbox :
    (streamer : EventStreamer) (outbox : List StreamEvent) (first after limit : ℕ)
    → Consecutive first outbox
    → HaveSchema streamer.schema_version outbox
    → first ≤ after
    → preflight streamer (λ cursor. ok (stream_window outbox cursor limit)) after
      ≡ ok (take limit (newer after outbox))
unfolding preflight stream_window
preflight-outbox streamer outbox first after limit c s h =
    let events = newer after outbox in
    let flows = take-Consecutive limit after events (newer-Consecutive after first outbox h c) in
    (validate_window-ok_iff (stream_window outbox after limit) after streamer.schema_version
        (take limit events)).1
      (
        not_expired outbox first after c h,
        sym (newer-kept after after (take limit events) (omega arith) flows),
        flows,
        All-take (λ e. e.schema_version ≡ streamer.schema_version) limit events
            (newer-HaveSchema streamer.schema_version after outbox s),
      )

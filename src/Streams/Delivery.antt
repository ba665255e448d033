-- ===== src/Streams/Delivery.antt =====
-- api/sse.py: a stream sends the events that follow its cursor, in order and with no gap.
use sopara.Prelude.{
  ℕ, ◌-◌, ◌≡◌, refl, true, false, List, [], ◌∷◌, ◌++◌, ltb, if◌then◌else◌, arith, Bool-cases, inl,
  inr,
}
use sopara.Errors.{Error, Result, Result-cases, ok, err, ◌>>=◌, >>=-returned}
use sopara.Streams.{
  StreamEvent, StreamWindow, EventStreamer, Poll, Frame, Round, sent, heartbeat, reconnect,
  validate_window, preflight, stream, last_cursor, frames_of, beat,
}
use sopara.Streams.Window.{Consecutive, HaveSchema, validate_window-ok_iff}

-- The events that are sent among the frames.
unfoldable pub delivered : List Frame → List StreamEvent
delivered [] = []
delivered (sent e ∷ rest) = e ∷ delivered rest
delivered (heartbeat ∷ rest) = delivered rest
delivered (reconnect ∷ rest) = delivered rest

delivered-frames_of :
    (es : List StreamEvent) (later : List Frame)
    → delivered (frames_of es ++ later) ≡ es ++ delivered later
unfolding delivered
delivered-frames_of [] later = refl
delivered-frames_of (e ∷ es) later = ground (arith, delivered-frames_of es later)

-- What follows a run of consecutive events goes on from its last number.
Consecutive-append :
    (cursor : ℕ) (es later : List StreamEvent)
    → Consecutive cursor es
    → Consecutive (last_cursor cursor es) later
    → Consecutive cursor (es ++ later)
unfolding last_cursor
Consecutive-append cursor [] later c d = d
Consecutive-append cursor (e ∷ es) later (next, c) d =
    (next, Consecutive-append e.sequence es later c d)

HaveSchema-append :
    (v : ℕ) (es later : List StreamEvent)
    → HaveSchema v es
    → HaveSchema v later
    → HaveSchema v (es ++ later)
HaveSchema-append v [] later h k = k
HaveSchema-append v (e ∷ es) later (p, h) k = (p, HaveSchema-append v es later h k)

-- In order, with no gap, and of one schema.
pub record Flows (after schema_version : ℕ) (events : List StreamEvent) : Type 0 where
  pub consecutive : Consecutive after events
  pub uniform : HaveSchema schema_version events

Flows-append :
    (v cursor : ℕ) (es later : List StreamEvent)
    → Flows cursor v es
    → Flows (last_cursor cursor es) v later
    → Flows cursor v (es ++ later)
Flows-append v cursor es later f g = record {
  consecutive = Consecutive-append cursor es later f.consecutive g.consecutive;
  uniform = HaveSchema-append v es later f.uniform g.uniform;
}

-- A validated poll gives events that follow its cursor.
poll-Flows :
    (given : Result StreamWindow) (cursor v : ℕ) {pending : List StreamEvent}
    → (given >>= λ window. validate_window window cursor v) ≡ ok pending
    → Flows cursor v pending
poll-Flows given cursor v {pending} h =
    let (window, polled, valid) = >>=-returned given _ h in
    let (kept, e, c, s) = (validate_window-ok_iff window cursor v pending).0 valid in
    record { consecutive = c; uniform = s }

module _ (streamer : EventStreamer) (started : ℕ) where
  abbrev polled : ℕ → Round → Result (List StreamEvent)
  polled cursor round =
      round.poll cursor >>= λ window. validate_window window cursor streamer.schema_version

  module _ (heartbeat_at cursor : ℕ) (round : Round) (rounds : List Round) where
    -- The events of a round with nothing pending, in its three cases.
    stream-over :
        ltb (round.tested - started) streamer.connection_seconds ≡ false
        → delivered (stream streamer started heartbeat_at cursor [] (round ∷ rounds)).0 ≡ []
    unfolding stream delivered
    stream-over over = ground (arith, over)

    stream-raised :
        {raised : Error}
        → ltb (round.tested - started) streamer.connection_seconds ≡ true
        → polled cursor round ≡ err raised
        → delivered (stream streamer started heartbeat_at cursor [] (round ∷ rounds)).0 ≡ []
    unfolding stream delivered
    stream-raised live e = ground (arith, live, e)

    stream-polled :
        {pending : List StreamEvent}
        → ltb (round.tested - started) streamer.connection_seconds ≡ true
        → polled cursor round ≡ ok pending
        → delivered (stream streamer started heartbeat_at cursor [] (round ∷ rounds)).0
          ≡ delivered
              (stream streamer started
                (if beat streamer round.now heartbeat_at then round.now else heartbeat_at)
                cursor
                pending
                rounds).0
    unfolding stream delivered
    stream-polled live e = ground (arith, live, e)

  stream-Flows :
      (heartbeat_at cursor : ℕ) (pending : List StreamEvent) (rounds : List Round)
      → Flows cursor streamer.schema_version pending
      → Flows cursor streamer.schema_version
          (delivered (stream streamer started heartbeat_at cursor pending rounds).0)
  unfolding stream delivered
  stream-Flows heartbeat_at cursor pending [] f = record { consecutive = tt; uniform = tt }
  stream-Flows heartbeat_at cursor (e ∷ pending) (round ∷ rounds) f =
      let later =
        stream-Flows heartbeat_at (last_cursor cursor (e ∷ pending)) [] rounds
          (record { consecutive = tt; uniform = tt }) in
      elim (Bool-cases (ltb (round.tested - started) streamer.connection_seconds)) [
        | inl open_ ↦
            rw
              (
                open_,
                delivered-frames_of (e ∷ pending)
                    (stream streamer started heartbeat_at (last_cursor cursor (e ∷ pending)) []
                      rounds).0,
              )
              (Flows-append streamer.schema_version cursor (e ∷ pending) _ f later)
        | inr over ↦ rw over (record { consecutive = tt; uniform = tt })
      ]
  stream-Flows heartbeat_at cursor [] (round ∷ rounds) f =
      let beat_at = if beat streamer round.now heartbeat_at then round.now else heartbeat_at in
      elim (Bool-cases (ltb (round.tested - started) streamer.connection_seconds)) [
        | inr over ↦
            rw (stream-over heartbeat_at cursor round rounds over)
              (record { consecutive = tt; uniform = tt })
        | inl live ↦ elim (Result-cases (polled cursor round)) [
          | inl (raised, e) ↦
              rw (stream-raised heartbeat_at cursor round rounds live e)
                (record { consecutive = tt; uniform = tt })
          | inr (pending, e) ↦ rw (stream-polled heartbeat_at cursor round rounds live e) (
              stream-Flows beat_at cursor pending rounds
                (poll-Flows (round.poll cursor) cursor streamer.schema_version e))
        ]
      ]

  -- Whatever the rounds of a stream meet, if its preflight returned the first events then the
  -- events that it sends carry the numbers that follow the cursor, with no gap and in order, and
  -- all have the expected schema version.
  pub stream-preflight-Flows :
      (after : ℕ) (poll : Poll) (rounds : List Round) {initial : List StreamEvent}
      → preflight streamer poll after ≡ ok initial
      → Flows after streamer.schema_version
          (delivered (stream streamer started started after initial rounds).0)
  unfolding preflight
  stream-preflight-Flows after poll rounds {initial} h =
      stream-Flows started after initial rounds
        (poll-Flows (poll after) after streamer.schema_version h)

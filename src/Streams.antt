-- ===== src/Streams.antt =====
-- api/sse.py and `stream_window` of api/database.py: the outbox as a stream of events. A frame stands
-- for its bytes; a payload and a time are texts.
pub mod Window
pub mod Delivery
pub mod Outbox
use sopara.Prelude.{
  ℕ, ◌+◌, ◌-◌, String, ◌≡◌, Bool, true, false, not, Option, none, some, List, [], ◌∷◌, ◌++◌, take,
  ltb, leb, ◌==◌, null, if◌then◌else◌,
}
use sopara.Errors.{
  Result, ok, err, Error, raise_when, ◌>>=◌, ◌>>◌, stream_cursor_expired, stream_gap,
  stream_schema_changed,
}

pub record StreamEvent : Type 0 where
  pub sequence : ℕ
  pub topic : String
  pub payload : String
  pub committed_at : String
  pub schema_version : ℕ

pub record StreamWindow : Type 0 where
  pub minimum_sequence : Option ℕ
  pub maximum_sequence : Option ℕ
  pub events : List StreamEvent

-- `window.minimum_sequence is not None and after < window.minimum_sequence - 1`
abbrev pub is_expired : ℕ → Option ℕ → Bool
is_expired after none = false
is_expired after (some minimum) = ltb (after + 1) minimum

-- The loop over the window's events.
unfoldable pub accept_events : ℕ → ℕ → ℕ → List StreamEvent → Result (List StreamEvent)
accept_events after schema_version expected [] = ok []
accept_events after schema_version expected (event ∷ rest) = elim (leb event.sequence after) [
  | true ↦ accept_events after schema_version expected rest
  | false ↦ do
    raise_when (not (event.sequence == expected)) (stream_gap "event stream contains a cursor gap")
    raise_when (not (event.schema_version == schema_version))
        (stream_schema_changed "event schema version changed")
    accepted ← accept_events after schema_version (expected + 1) rest
    ok (event ∷ accepted)
]

unfoldable pub validate_window : StreamWindow → ℕ → ℕ → Result (List StreamEvent)
unfolding accept_events
validate_window window after schema_version = do
  raise_when (is_expired after window.minimum_sequence)
      (stream_cursor_expired "event cursor is outside the retained outbox window")
  accept_events after schema_version (after + 1) window.events

-- The outbox in the order of its key. `func.min` and `func.max`:
abbrev pub first_sequence : List StreamEvent → Option ℕ
first_sequence [] = none
first_sequence (event ∷ rest) = some event.sequence

abbrev pub last_sequence : List StreamEvent → Option ℕ
last_sequence [] = none
last_sequence (event ∷ []) = some event.sequence
last_sequence (event ∷ next ∷ rest) = last_sequence (next ∷ rest)

-- `.where(outbox_seq > after)`
unfoldable pub newer : ℕ → List StreamEvent → List StreamEvent
newer after [] = []
newer after (event ∷ rest) =
    let others = newer after rest in if leb event.sequence after then others else event ∷ others

unfoldable pub stream_window : List StreamEvent → ℕ → ℕ → StreamWindow
unfolding newer
stream_window outbox after limit = record {
  minimum_sequence = first_sequence outbox;
  maximum_sequence = last_sequence outbox;
  events = take limit (newer after outbox);
}

pub record EventStreamer : Type 0 where
  pub schema_version : ℕ
  pub poll_seconds : ℕ
  pub heartbeat_seconds : ℕ
  pub connection_seconds : ℕ

-- What the repository gives for a cursor: a window, or the error that it raises.
abbrev pub Poll : Type 0
Poll = ℕ → Result StreamWindow

unfoldable pub preflight : EventStreamer → Poll → ℕ → Result (List StreamEvent)
unfolding validate_window
preflight streamer poll after = do
  window ← poll after
  validate_window window after streamer.schema_version

pub data Frame : Type 0 where
  sent : StreamEvent → Frame
  heartbeat reconnect : Frame

-- What one round of the loop meets: the time at the loop's test, the time read after it, and the
-- repository after the sleep.
pub record Round : Type 0 where
  pub tested : ℕ
  pub now : ℕ
  pub poll : Poll

-- How the stream ends: the client is gone, the connection rotates, or an error is raised.
pub data Ending : Type 0 where
  left rotated : Ending
  raised : Error → Ending

unfoldable pub last_cursor : ℕ → List StreamEvent → ℕ
last_cursor cursor [] = cursor
last_cursor cursor (event ∷ rest) = last_cursor event.sequence rest

abbrev pub frames_of : List StreamEvent → List Frame
frames_of [] = []
frames_of (e ∷ rest) = sent e ∷ frames_of rest

-- The frames that are sent before those of the rest of the stream.
abbrev pub sending : List Frame → List Frame × Ending → List Frame × Ending
sending first (later, ending) = (first ++ later, ending)

abbrev pub beat : EventStreamer → ℕ → ℕ → Bool
beat streamer now heartbeat_at = leb streamer.heartbeat_seconds (now - heartbeat_at)

-- The loop of `EventStreamer.stream`, from its start time, over what its rounds meet.
module _ (streamer : EventStreamer) (started : ℕ) where
  unfoldable pub stream : ℕ → ℕ → List StreamEvent → List Round → List Frame × Ending
  unfolding last_cursor validate_window
  stream heartbeat_at cursor pending [] = ([], left)
  stream heartbeat_at cursor (e ∷ pending) (round ∷ rounds) =
      let rest = stream heartbeat_at (last_cursor cursor (e ∷ pending)) [] rounds in
      if ltb (round.tested - started) streamer.connection_seconds
      then sending (frames_of (e ∷ pending)) rest
      else (reconnect ∷ [], rotated)
  stream heartbeat_at cursor [] (round ∷ rounds) =
      elim (ltb (round.tested - started) streamer.connection_seconds) [
        | false ↦ (reconnect ∷ [], rotated)
        | true ↦
            let due = beat streamer round.now heartbeat_at in
            let frames : List Frame = if due then heartbeat ∷ [] else [] in
            elim (round.poll cursor >>= λ window.
            validate_window window cursor streamer.schema_version) [
              | err error ↦ (frames, raised error)
              | ok pending ↦
                  sending frames
                    (stream (if due then round.now else heartbeat_at) cursor pending rounds)
            ]
      ]

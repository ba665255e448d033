-- ===== src/Examples/Deliveries.antt =====
-- Runs of the event stream.
use sopara.Prelude.{ℕ, ◌≡◌, refl, List, [], ◌∷◌, take, arith}
use sopara.Errors.{ok}
use sopara.Streams.{
  StreamEvent, EventStreamer, Poll, Round, stream_window, preflight, stream, newer,
}
use sopara.Streams.Delivery.{Flows, delivered, stream-preflight-Flows}
use sopara.Streams.Outbox.{preflight-outbox}

abbrev numbered : ℕ → StreamEvent
numbered n = record {
  sequence = n;
  topic = "runs";
  payload = "{}";
  committed_at = "2026-08-24T00:00:00Z";
  schema_version = 1;
}

abbrev outbox : List StreamEvent
outbox = numbered 3 ∷ numbered 4 ∷ numbered 5 ∷ numbered 6 ∷ []

abbrev streamer : EventStreamer
streamer = record {
  schema_version = 1;
  poll_seconds = 1;
  heartbeat_seconds = 15;
  connection_seconds = 60;
}

abbrev poll : Poll
poll cursor = ok (stream_window outbox cursor 2)

abbrev rounds : List Round
rounds =
    record { tested = 0; now = 0; poll = poll }
    ∷ record { tested = 1; now = 16; poll = poll }
    ∷ record { tested = 2; now = 17; poll = poll }
    ∷ record { tested = 99; now = 99; poll = poll }
    ∷ []

preflight_four : preflight streamer poll 3 ≡ ok (numbered 4 ∷ numbered 5 ∷ [])
unfolding preflight stream_window
preflight_four = refl

-- The stream goes on with the event after those of the preflight.
delivered_three :
    delivered (stream streamer 0 0 3 (numbered 4 ∷ numbered 5 ∷ []) rounds).0
    ≡ numbered 4 ∷ numbered 5 ∷ numbered 6 ∷ []
unfolding delivered stream stream_window
delivered_three = refl

stream-preflight-Flows_example :
    Flows 3 1 (delivered (stream streamer 0 0 3 (numbered 4 ∷ numbered 5 ∷ []) rounds).0)
stream-preflight-Flows_example = stream-preflight-Flows streamer 0 3 poll rounds preflight_four

preflight-outbox_example :
    preflight streamer (λ cursor. ok (stream_window outbox cursor 2)) 3
    ≡ ok (take 2 (newer 3 outbox))
preflight-outbox_example =
    preflight-outbox streamer outbox 2 3 2 (omega arith) (omega arith) (omega arith)

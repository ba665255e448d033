-- ===== src/Examples/Logs.antt =====
-- Runs of the inbox, the leases and the event log.
use sopara.Prelude.{
  ℕ, String, ◌≡◌, refl, false, none, some, List, [], ◌∷◌, find, str_eq, lookup, insert,
  if◌then◌else◌, arith,
}
use sopara.Prelude.Int.{pos}
use sopara.Errors.{ok, err, idempotency_conflict}
use sopara.Events.{DomainEvent, domain_event_schema_version}
use sopara.Canonical.{canonical_sha256}
use sopara.Repositories.Inbox.{CommandRow, CommandReceipt, receive, answer, receive-receive}
use sopara.Repositories.Leases.{Leases, held_row, lease_of, acquire}
use sopara.Repositories.Fencing.{beating, after_calls}
use sopara.Repositories.Log.{
  Projection, Tables, Appending, is_of, version, append, appended, projection_of,
  rebuild_projections,
}
use sopara.Repositories.Log.Sequences.{IsNumbered, append-IsNumbered, history}
use sopara.Repositories.Log.Rebuilding.{IsProjected, append-IsProjected, rebuild_projections-find}
use sopara.Repositories.Log.Conflicts.{append-conflict, append-fenced}

abbrev command : String → String → CommandRow
command id payload_hash = record {
  command_id = id;
  idempotency_key = "k";
  payload_hash = payload_hash;
  command_type = "START";
  target_type = "session";
  target_id = "t";
  expected_version = 1;
  actor_email_hash = "a";
  state = "RECEIVED";
}

abbrev receipt : CommandReceipt
receipt = record { command_id = "c1"; state = "RECEIVED"; duplicate = false }

received : receive [] (command "c1" "p") ≡ ok (command "c1" "p" ∷ [], receipt)
unfolding receive
received = refl

receive-receive_example : receive (command "c1" "p" ∷ []) (command "c2" "p") ≡ (
    if str_eq "p" "p"
    then ok (command "c1" "p" ∷ [], answer receipt)
    else err (idempotency_conflict "idempotency key was reused with a different payload"))
receive-receive_example =
    receive-receive [] (command "c1" "p") (command "c2" "p") received refl refl refl refl

abbrev event : ℕ → String → DomainEvent
event n id = record {
  schema_version = domain_event_schema_version;
  event_id = id;
  aggregate_id = "a1";
  aggregate_type = "order";
  sequence = pos n;
  event_type = "order.state_changed";
  occurred_at_ns = pos 5;
  actor = "engine";
  reason_codes = [];
  payload = ("to_state", "OPEN") ∷ [];
}

abbrev appending : ℕ → String → Appending
appending expected id = record {
  aggregate_id = "a1";
  event_id = id;
  correlation_id = "c";
  causation_id = "c";
  actor_type = "SYSTEM";
  runtime_manifest_hash = "r";
  projection_state = "OPEN";
  expected_version = expected;
  topic = "orders";
  lease_key = none;
  lease_epoch = none;
}

abbrev hash : String → String
hash s = "hash"

abbrev no_tables : Tables
no_tables = record { events = []; projections = []; outbox = []; next_outbox_seq = 1; audits = [] }

abbrev one_event : Tables
one_event =
    appended no_tables (event 1 "e1") (appending 0 "e1") "hash"
      (projection_of (event 1 "e1") (appending 0 "e1") ∷ [])

append_first :
    append hash [] 0 no_tables (event 1 "e1") (appending 0 "e1")
    ≡ ok (one_event, projection_of (event 1 "e1") (appending 0 "e1"))
unfolding append canonical_sha256
append_first = refl

no_tables-IsNumbered : IsNumbered no_tables
unfolding version history
no_tables-IsNumbered = record { numbered = λ type_ id. (0, refl, tt) }

no_tables-IsProjected : IsProjected no_tables
unfolding history
no_tables-IsProjected = record { stated = tt; projected = λ type_ id. refl }

append-IsNumbered_example : IsNumbered one_event
append-IsNumbered_example =
    append-IsNumbered hash [] 0 no_tables (event 1 "e1") (appending 0 "e1") no_tables-IsNumbered
      append_first

one_event-IsNumbered : IsNumbered one_event
one_event-IsNumbered =
    append-IsNumbered hash [] 0 no_tables (event 1 "e1") (appending 0 "e1") no_tables-IsNumbered
      append_first

one_event-IsProjected : IsProjected one_event
unfolding lookup
one_event-IsProjected =
    append-IsProjected hash [] 0 no_tables (event 1 "e1") (appending 0 "e1") no_tables-IsProjected
      refl append_first

rebuild_projections-find_example :
    (next : Tables) × (rebuilt : List Projection) × (rebuild_projections one_event
      ≡ ok (next, rebuilt))
    × (next.events ≡ one_event.events)
    × ((type_ id : String)
        → find (is_of type_ id) next.projections ≡ find (is_of type_ id) one_event.projections)
rebuild_projections-find_example =
    rebuild_projections-find one_event one_event-IsNumbered one_event-IsProjected

append-conflict_example : ¬ (
    append hash [] 1 one_event (event 1 "e2") (appending 0 "e2")
    ≡ ok (no_tables, projection_of (event 1 "e2") (appending 0 "e2")))
append-conflict_example =
    append-conflict hash [] [] 0 1 no_tables (event 1 "e1") (event 1 "e2") (appending 0 "e1")
      (appending 0 "e2") append_first refl refl refl

abbrev first_lease : Leases
first_lease = ("w", held_row 1 "a" 0 10) ∷ []

abbrev second_lease : Leases
second_lease = ("w", held_row 2 "b" 20 10) ∷ []

abbrev live : Appending
live = record (appending 1 "e2") { lease_key = some "w"; lease_epoch = some 1 }

acquire_again :
    acquire first_lease 20 "w" "b" (pos 10)
    ≡ ok (second_lease, some (lease_of "w" (held_row 2 "b" 20 10)))
unfolding acquire lookup insert
acquire_again = refl

append-fenced_example : ¬ (
    append hash
      (after_calls second_lease (beating 21 "w" "b" 2 10 ∷ []))
      22
      one_event
      (event 2 "e2")
      live
    ≡ ok (one_event, projection_of (event 2 "e2") live))
append-fenced_example =
    append-fenced hash first_lease 20 "w" "b" 10 acquire_again (beating 21 "w" "b" 2 10 ∷ []) 22 1
      one_event (event 2 "e2") live (omega arith) refl refl

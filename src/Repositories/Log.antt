-- ===== src/Repositories/Log.antt =====
-- adapters/database/repositories.py: `EventRepository`, the log of domain events with the projections
-- of its aggregates, its outbox, and the audit log. An event's time is one that `datetime` can hold. UUIDs are texts, a call is one transaction, and the
-- hash function is a parameter.
pub mod Sequences
pub mod Rebuilding
pub mod Conflicts
use Prim.Native.String.{◌++◌ as str_append}
use sopara.Prelude.{
  ℕ, ◌+◌, String, ◌≡◌, Bool, true, false, not, ◌&&◌, ◌||◌, Option, none, some, List, [], ◌∷◌, ◌++◌,
  any, all, find, str_eq, ltb, ◌==◌, lookup, if◌then◌else◌, print_ℕ, is_empty,
}
use sopara.Prelude.Int.{ℤ, pos, ◌==ℤ◌, ltb_ℤ, leb_ℤ}
use sopara.Errors.{
  Result, ok, err, value_error, optimistic_concurrency, stale_lease, integrity_error, raise_when,
  ◌>>=◌, ◌>>◌,
}
use sopara.Canonical.{Object, Attributes, canonical_sha256, mapping, string, end, attribute}
use sopara.Canonical.Json.{print_ℤ}
use sopara.ReasonCodes.{ReasonCode}
use sopara.Events.{DomainEvent}
use sopara.Repositories.Leases.{Leases, token_is_live}

-- A row of `domain_event`, without the time that is its nanoseconds rounded.
pub record EventRow : Type 0 where
  pub event_id : String
  pub event_type : String
  pub aggregate_type : String
  pub aggregate_id : String
  pub aggregate_seq : ℤ
  pub occurred_at_ns : ℤ
  pub actor_type : String
  pub actor_id : String
  pub correlation_id : String
  pub causation_id : String
  pub reason_codes : List ReasonCode
  pub payload : List (String × String)
  pub payload_hash : String
  pub runtime_manifest_hash : String
  pub lease_key : Option String
  pub lease_epoch : Option ℕ

pub record Projection : Type 0 where
  pub aggregate_type : String
  pub aggregate_id : String
  pub state : String
  pub row_version : ℤ
  pub last_event_id : String

pub record OutboxRow : Type 0 where
  pub outbox_seq : ℕ
  pub event_id : String
  pub topic : String
  pub aggregate_id : String
  pub aggregate_type : String
  pub event_type : String
  pub sequence : ℤ

pub record AuditRow : Type 0 where
  pub audit_id : String
  pub event_type : String
  pub actor_id : String
  pub correlation_id : String
  pub payload_hash : String

-- The tables, the newest row first.
pub record Tables : Type 0 where
  pub events : List EventRow
  pub projections : List Projection
  pub outbox : List OutboxRow
  pub next_outbox_seq : ℕ
  pub audits : List AuditRow

-- What `append` is given besides the event.
pub record Appending : Type 0 where
  pub aggregate_id : String
  pub event_id : String
  pub correlation_id : String
  pub causation_id : String
  pub actor_type : String
  pub runtime_manifest_hash : String
  pub projection_state : String
  pub expected_version : ℕ
  pub topic : String
  pub lease_key : Option String
  pub lease_epoch : Option ℕ

abbrev pub is_of : String → String → Projection → Bool
is_of type_ id p = str_eq p.aggregate_type type_ && str_eq p.aggregate_id id

abbrev pub concerns : String → String → EventRow → Bool
concerns type_ id e = str_eq e.aggregate_type type_ && str_eq e.aggregate_id id

-- `0 if current_version is None else int(current_version)`
unfoldable pub version : Tables → String → String → ℤ
version tables type_ id = elim (find (is_of type_ id) tables.projections) [
  | none ↦ pos 0
  | some p ↦ p.row_version
]

abbrev pub is_none {ℓ} : {A : Type ℓ} → Option A → Bool
is_none none = true
is_none (some a) = false

-- The fencing token of a live event.
unfoldable pub check_token : Leases → ℕ → Option String → Option ℕ → Result (Unit {0})
check_token leases now none none = ok tt
check_token leases now none (some epoch) =
    err (value_error "lease key and epoch must be supplied together")
check_token leases now (some key) none =
    err (value_error "lease key and epoch must be supplied together")
check_token leases now (some key) (some epoch) =
    raise_when (not (token_is_live leases now key epoch))
      (stale_lease "live event rejected for stale fencing token")

-- `ck_domain_event_lease_pair`
abbrev pub lease_pair : Option ℕ → Bool
lease_pair none = true
lease_pair (some epoch) = ltb 0 epoch

-- The primary key, the unique sequence of an aggregate, and the checks of `domain_event`.
unfoldable pub admits : List EventRow → EventRow → Bool
admits events row =
    not (
      any
        (λ e.
          str_eq e.event_id row.event_id
          || (concerns row.aggregate_type row.aggregate_id e
              && e.aggregate_seq ==ℤ row.aggregate_seq))
        events)
    && (ltb_ℤ (pos 0) row.aggregate_seq
        && (leb_ℤ (pos 0) row.occurred_at_ns && lease_pair row.lease_epoch))

-- `UPDATE … WHERE` of the projection, where it is the aggregate's at this version.
unfoldable pub update_projection : ℤ → Projection → List Projection → Option (List Projection)
update_projection expected new [] = none
update_projection expected new (p ∷ rest) =
    let others = update_projection expected new rest in
    if is_of new.aggregate_type new.aggregate_id p && p.row_version ==ℤ expected
    then some (new ∷ rest)
    else elim others [ none ↦ none | some changed ↦ some (p ∷ changed) ]

-- A first projection is inserted, unless the aggregate has one; a later one replaces it.
unfoldable pub change_projection : ℕ → Projection → List Projection → Option (List Projection)
unfolding update_projection
change_projection expected new projections =
    if expected == 0
    then (if any (is_of new.aggregate_type new.aggregate_id) projections
        then none
        else some (new ∷ projections))
    else update_projection (pos expected) new projections

abbrev pub changed_projections : Option (List Projection) → Result (List Projection)
changed_projections none = err (optimistic_concurrency "projection version changed during append")
changed_projections (some changed) = ok changed

-- `dict(event.payload)` as a canonical object.
unfoldable pub payload_object : List (String × String) → Attributes
payload_object [] = end
payload_object ((key, value) ∷ rest) = attribute key (string value) (payload_object rest)

abbrev pub projection_of : DomainEvent → Appending → Projection
projection_of event a = record {
  aggregate_type = event.aggregate_type;
  aggregate_id = a.aggregate_id;
  state = a.projection_state;
  row_version = event.sequence;
  last_event_id = a.event_id;
}

abbrev pub outbox_row : ℕ → DomainEvent → Appending → OutboxRow
outbox_row seq event a = record {
  outbox_seq = seq;
  event_id = a.event_id;
  topic = a.topic;
  aggregate_id = a.aggregate_id;
  aggregate_type = event.aggregate_type;
  event_type = event.event_type;
  sequence = event.sequence;
}

abbrev pub event_row : DomainEvent → Appending → String → EventRow
event_row event a payload_hash = record {
  event_id = a.event_id;
  event_type = event.event_type;
  aggregate_type = event.aggregate_type;
  aggregate_id = a.aggregate_id;
  aggregate_seq = event.sequence;
  occurred_at_ns = event.occurred_at_ns;
  actor_type = a.actor_type;
  actor_id = event.actor;
  correlation_id = a.correlation_id;
  causation_id = a.causation_id;
  reason_codes = event.reason_codes;
  payload = event.payload;
  payload_hash = payload_hash;
  runtime_manifest_hash = a.runtime_manifest_hash;
  lease_key = a.lease_key;
  lease_epoch = a.lease_epoch;
}

-- The tables after an append.
abbrev pub appended : Tables → DomainEvent → Appending → String → List Projection → Tables
appended tables event a payload_hash projections = record tables {
  events = event_row event a payload_hash ∷ tables.events;
  projections = projections;
  outbox = outbox_row tables.next_outbox_seq event a ∷ tables.outbox;
  next_outbox_seq = tables.next_outbox_seq + 1;
}

-- `f"expected version {expected_version}, found {actual_version}"`
abbrev pub version_conflict : ℕ → ℤ → String
version_conflict expected actual =
    str_append "expected version "
      (str_append (print_ℕ expected) (str_append ", found " (print_ℤ actual)))

module _ (sha256 : String → String) where
  unfoldable pub append :
      Leases → ℕ → Tables → DomainEvent → Appending → Result (Tables × Projection)
  unfolding version check_token admits change_projection payload_object
  append leases now tables event a = do
    raise_when (not (str_eq a.aggregate_id event.aggregate_id && str_eq a.event_id event.event_id))
        (value_error "persisted UUIDs must match the domain event identities")
    raise_when (not (event.sequence ==ℤ (pos (a.expected_version + 1))))
        (optimistic_concurrency "event sequence does not follow expected version")
    check_token leases now a.lease_key a.lease_epoch
    let actual = version tables event.aggregate_type a.aggregate_id
    raise_when (not (actual ==ℤ (pos a.expected_version)))
        (optimistic_concurrency (version_conflict a.expected_version actual))
    payload_hash ← canonical_sha256 sha256 (mapping (payload_object event.payload))
    raise_when (not (admits tables.events (event_row event a payload_hash))) integrity_error
    projections ←
        changed_projections
          (change_projection a.expected_version (projection_of event a) tables.projections)
    raise_when (any (λ row. str_eq row.event_id a.event_id) tables.outbox) integrity_error
    ok (appended tables event a payload_hash projections, projection_of event a)

  unfoldable pub append_audit : Tables → String → String → String → String → Object → Result Tables
  append_audit tables audit_id event_type actor_id correlation_id payload = do
    payload_hash ← canonical_sha256 sha256 payload
    raise_when (any (λ row. str_eq row.audit_id audit_id) tables.audits) integrity_error
    ok (record tables {
      audits =
          record {
            audit_id = audit_id;
            event_type = event_type;
            actor_id = actor_id;
            correlation_id = correlation_id;
            payload_hash = payload_hash;
          }
          ∷ tables.audits;
    })

-- The rows of rank 1: no event of the same aggregate has a greater sequence.
unfoldable pub is_latest : List EventRow → EventRow → Bool
is_latest events e =
    all
      (λ f.
        not (concerns e.aggregate_type e.aggregate_id f) || leb_ℤ f.aggregate_seq e.aggregate_seq)
      events

-- The loop over the rows of rank 1, of those that are left.
unfoldable pub rebuild : List EventRow → List EventRow → Result (List Projection)
unfolding is_latest
rebuild events [] = ok []
rebuild events (e ∷ rest) = elim (is_latest events e) [
  | false ↦ rebuild events rest
  | true ↦ elim (lookup "to_state" e.payload) [
    | none ↦ err (value_error "projection event is missing a string to_state")
    | some state ↦ do
      others ← rebuild events rest
      ok (
          record {
            aggregate_type = e.aggregate_type;
            aggregate_id = e.aggregate_id;
            state = state;
            row_version = e.aggregate_seq;
            last_event_id = e.event_id;
          }
          ∷ others)
  ]
]

unfoldable pub rebuild_projections : Tables → Result (Tables × List Projection)
unfolding rebuild
rebuild_projections tables = do
  rebuilt ← rebuild tables.events tables.events
  ok (record tables { projections = rebuilt }, rebuilt)

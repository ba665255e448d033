-- ===== src/Events.antt =====
-- domain/events.py: domain events, and the event that records a state transition.
pub mod Transitions
use Prim.Native.Nat.{compare as compare_ℕ}
use Prim.Native.String.{◌++◌ as str_append, compare}
use text.Mathlib.Text.{is_lt}
use sopara.Prelude.{
  ℕ, String, ◌≡◌, Bool, true, false, not, ◌&&◌, ◌||◌, List, [], ◌∷◌, is_empty, str_eq,
  if◌then◌else◌,
}
use sopara.Prelude.Int.{ℤ, pos, ltb_ℤ, leb_ℤ}
use sopara.Errors.{Result, ok, err, domain_error, raise_if, ◌>>=◌, ◌>>◌}
use sopara.ReasonCodes.{ReasonCode}
use sopara.States.Machine.{StateTransition}

abbrev pub domain_event_schema_version : String
domain_event_schema_version = "sopara.domain-event.v1"

pub record DomainEvent : Type 0 where
  pub schema_version : String
  pub event_id : String
  pub aggregate_id : String
  pub aggregate_type : String
  pub sequence : ℤ
  pub event_type : String
  pub occurred_at_ns : ℤ
  pub actor : String
  pub reason_codes : List ReasonCode
  pub payload : List (String × String)

-- The payload keys are sorted and unique: they rise strictly.
unfoldable pub keys_rise : List (String × String) → Bool
keys_rise [] = true
keys_rise (p ∷ []) = true
keys_rise (p ∷ q ∷ rest) = is_lt (compare p.0 q.0) && keys_rise (q ∷ rest)

unfoldable pub check_domain_event : DomainEvent → Result DomainEvent
unfolding keys_rise
check_domain_event e = do
  raise_if (not (str_eq e.schema_version domain_event_schema_version))
      "unsupported domain event schema"
  raise_if
      (is_empty e.event_id || is_empty e.aggregate_id || is_empty e.event_type || is_empty e.actor)
      "domain event identity and attribution are required"
  raise_if (leb_ℤ e.sequence (pos 0) || ltb_ℤ e.occurred_at_ns (pos 0))
      "event sequence must be positive and time cannot be negative"
  raise_if (not (keys_rise e.payload)) "event payload keys must be unique and sorted"
  ok e

-- `DomainEvent.from_transition`
unfoldable pub from_transition : String → StateTransition → Result DomainEvent
unfolding check_domain_event
from_transition event_id item = check_domain_event (record {
  schema_version = domain_event_schema_version;
  event_id = event_id;
  aggregate_id = item.aggregate_id;
  aggregate_type = item.aggregate_type;
  sequence = item.sequence;
  event_type = str_append item.aggregate_type ".state_changed";
  occurred_at_ns = item.occurred_at_ns;
  actor = item.actor;
  reason_codes = item.reason ∷ [];
  payload = ("from_state", item.from_state) ∷ ("to_state", item.to_state) ∷ [];
})

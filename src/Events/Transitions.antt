-- ===== src/Events/Transitions.antt =====
-- domain/events.py: every recorded transition makes a valid event that carries it.
use text.Mathlib.TextLemmas.{append-ne-nil_of_right_ne-nil}
use Prim.Native.String.{◌++◌ as str_append}
use sopara.Prelude.{
  String, ◌≡◌, refl, false, [], ◌∷◌, is_empty, arith, eq_iff, Bool-cases, inl, inr,
}
use sopara.Errors.{ok}
use sopara.States.Machine.{StateTransition, check_transition}
use sopara.States.History.{check_transition_iff}
use sopara.Events.{DomainEvent, from_transition, domain_event_schema_version}

named_type : (s : String) → is_empty (str_append s ".state_changed") ≡ false
named_type s = elim (Bool-cases (is_empty (str_append s ".state_changed"))) [
  | inl e ↦ absurd (
      append-ne-nil_of_right_ne-nil s {t = ".state_changed"}
        (λ p. ground (arith, eq_iff ".state_changed" "", p))
        ((eq_iff (str_append s ".state_changed") "").0 e))
  | inr n ↦ n
]

-- A transition that passed its checks makes an event that passes its own, whatever the event's
-- identity as long as there is one, and the event carries the transition's aggregate, number, actor
-- and states.
pub from_transition_total :
    (event_id : String) (item checked : StateTransition)
    → is_empty event_id ≡ false
    → check_transition item ≡ ok checked
    → (e : DomainEvent) × (from_transition event_id item ≡ ok e)
      × (e.aggregate_id ≡ item.aggregate_id)
      × (e.sequence ≡ item.sequence)
      × (e.actor ≡ item.actor)
      × (e.payload ≡ ("from_state", item.from_state) ∷ ("to_state", item.to_state) ∷ [])
unfolding from_transition
from_transition_total event_id item checked named valid =
    let h = ((check_transition_iff item checked).0 valid).1 in
    (
      record {
        schema_version = domain_event_schema_version;
        event_id = event_id;
        aggregate_id = item.aggregate_id;
        aggregate_type = item.aggregate_type;
        sequence = item.sequence;
        event_type = str_append item.aggregate_type ".state_changed";
        occurred_at_ns = item.occurred_at_ns;
        actor = item.actor;
        reason_codes = item.reason ∷ [];
        payload = ("from_state", item.from_state) ∷ ("to_state", item.to_state) ∷ [];
      },
      ground (arith, named_type item.aggregate_type, h.identified, h.acted, h.numbered, h.timed),
      refl,
      refl,
      refl,
      refl,
    )

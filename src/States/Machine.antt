-- ===== src/States/Machine.antt =====
-- domain/states.py: `StateTransition`, `transition` and `fold_transitions`.
use sopara.Prelude.{
  ℕ, suc, String, ◌||◌, not, List, [], ◌∷◌, map, str_eq, mem_str, is_empty, if◌then◌else◌,
}
use sopara.Prelude.Int.{ℤ, pos, leb_ℤ, ltb_ℤ, ◌==ℤ◌}
use sopara.Errors.{Result, ok, err, domain_error, invalid_transition, raise_if, ◌>>◌}
use sopara.ReasonCodes.{ReasonCode}
use sopara.States.StrEnum.{StrEnum}

pub record StateTransition : Type 0 where
  pub aggregate_id : String
  pub aggregate_type : String
  pub sequence : ℤ
  pub from_state : String
  pub to_state : String
  pub occurred_at_ns : ℤ
  pub actor : String
  pub reason : ReasonCode

-- `StateTransition.__post_init__`
unfoldable pub check_transition : StateTransition → Result StateTransition
check_transition t = do
  raise_if (is_empty t.aggregate_id || is_empty t.aggregate_type || is_empty t.actor)
      "transition identity, type, and actor are required"
  raise_if (leb_ℤ t.sequence (pos 0) || ltb_ℤ t.occurred_at_ns (pos 0))
      "transition sequence must be positive and time cannot be negative"
  ok t

-- The keyword arguments of `transition`.
pub record Attribution : Type 0 where
  pub aggregate_id : String
  pub sequence : ℤ
  pub occurred_at_ns : ℤ
  pub actor : String
  pub reason : ReasonCode

-- The record that `transition` builds.
abbrev pub move : {S : Type 0} → StrEnum S → S → S → Attribution → StateTransition
move e current target a = record {
  aggregate_id = a.aggregate_id;
  aggregate_type = e.type_name;
  sequence = a.sequence;
  from_state = e.value current;
  to_state = e.value target;
  occurred_at_ns = a.occurred_at_ns;
  actor = a.actor;
  reason = a.reason;
}

unfoldable pub transition :
    {S : Type 0} → StrEnum S → S → S → (S → List S) → Attribution → Result StateTransition
transition e current target rules a =
    if mem_str (e.value target) (map e.value (rules current))
    then check_transition (move e current target a)
    else err invalid_transition

-- The loop of `fold_transitions`; `expected` is the `enumerate` counter.
unfoldable pub fold_from : ℕ → String → List StateTransition → Result String
fold_from expected state [] = ok state
fold_from expected state (item ∷ rest) =
    if not (item.sequence ==ℤ pos expected) || not (str_eq item.from_state state)
    then err (domain_error "transition history is not contiguous")
    else fold_from (suc expected) item.to_state rest

unfoldable pub fold_transitions : String → List StateTransition → Result String
unfolding fold_from
fold_transitions initial history = fold_from 1 initial history

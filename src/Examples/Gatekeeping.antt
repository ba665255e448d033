-- ===== src/Examples/Gatekeeping.antt =====
-- A proposal, its context and what the gates make of them.
use sopara.Decisions.Gates.{FirstFailure}
use mathlib.Core.Path.{subst}
use sopara.Prelude.{◌≡◌, ◌≢◌, refl, ◌⊎◌, ◌↔◌, true, false, Option, none, some, [], ◌∷◌, arith, List}
use sopara.Prelude.Int.{ℤ, pos, ◌+ℤ◌, ◌*ℤ◌}
use sopara.Errors.{Result, ok, err, ◌>>=◌}
use sopara.ReasonCodes.{ReasonCode}
use sopara.States.Enums.{OperabilityState, OrderState, ProposalState}
use sopara.Evidence.{EvidenceClass}
use sopara.Versions.{VersionRef}
use sopara.Instruments.{ContractId, Price, es, nes, long, is_on_grid, sign}
use sopara.Market.{BookState, Completeness, SourceWatermark, StreamHealth, blocking_reason}
use sopara.Decisions.{
  EligibilityContext, EligibilityDecision, Proposal, evaluate_eligibility, reason_codes, gates,
}
use sopara.Decisions.Eligibility.{IsEligible, evaluate-accepted_iff, evaluate-reasons}
use sopara.Decisions.Totality.{evaluate_total, IsReadable, IsMeasured}
use sopara.Execution.{FillAssumptions, SimulatedOrder, create_simulated_order}
use sopara.Execution.Orders.{IsOrderOf, order_requires_gates}

abbrev nes_contract : ContractId
nes_contract = record { product = nes; expiry = record { year = 2026; month = 12; day = 1 } }

abbrev es_contract : ContractId
es_contract = record { product = es; expiry = record { year = 2026; month = 12; day = 1 } }

abbrev price : ℤ → Price
price n = record { value = record { coefficient = n; scale = 1 } }

abbrev book : BookState
book = record {
  contract = nes_contract;
  bid = some (price (pos 65000));
  ask = some (price (pos 65005));
  bid_size = pos 2;
  ask_size = pos 3;
  last_trade_size = pos 1;
  stale = false;
  halted = false;
  price_limited = false;
}

abbrev mark : SourceWatermark
mark = record {
  source_id = "cme";
  channel_id = "310";
  source_session_id = "s1";
  last_contiguous_sequence = pos 4;
  max_exchange_time_ns = pos 100;
  max_receive_time_ns = some (pos 120);
  completeness = Completeness.contiguous;
}

abbrev proposal : Proposal
proposal = record {
  proposal_id = "p1";
  direction = long;
  quantity = pos 1;
  reference_price = price (pos 65005);
  valid_from_ns = pos 100;
  valid_through_ns = pos 200;
  stop_policy = "SESSION_END";
  exit_policy = "TERMINAL_BOOK";
  maximum_holding_ns = pos 50;
  feature_snapshot_id = "f1";
  es_watermark = mark;
  nes_watermark = mark;
  evidence = record {
    evidence_class = EvidenceClass.synthetic_nes_proxy;
    first_trade_date = record { year = 2026; month = 9; day = 1 };
    proxy_opt_in = true;
  };
}

abbrev context : ℤ → EligibilityContext
context position = record {
  lease_current = some true;
  operability = some OperabilityState.healthy;
  entitlement_permitted = some true;
  within_approved_window = some true;
  source_contract = some es_contract;
  execution_contract = some nes_contract;
  es_health = some StreamHealth.healthy;
  nes_health = some StreamHealth.healthy;
  nes_book = some book;
  evidence_class_permitted = some true;
  now_ns = pos 150;
  duplicate_intent = some false;
  current_position = some position;
  maximum_position = some (pos 1);
  within_loss_limit = some true;
  exit_feasible = some true;
}

abbrev no_decision : EligibilityDecision
no_decision = record { outcome = ProposalState.invalid; steps = [] }

abbrev decided : Result EligibilityDecision → EligibilityDecision
decided (ok d) = d
decided (err e) = no_decision

unfoldable accepting : EligibilityDecision
unfolding evaluate_eligibility ◌+ℤ◌ ◌*ℤ◌ blocking_reason is_on_grid sign
accepting = decided (evaluate_eligibility proposal (context (pos 0)))

accepted : evaluate_eligibility proposal (context (pos 0)) ≡ ok accepting
unfolding accepting evaluate_eligibility ◌+ℤ◌ ◌*ℤ◌ blocking_reason is_on_grid sign
accepted = refl

unfoldable refusing : EligibilityDecision
unfolding evaluate_eligibility ◌+ℤ◌ ◌*ℤ◌ blocking_reason is_on_grid sign
refusing = decided (evaluate_eligibility proposal (context (pos 1)))

refused : evaluate_eligibility proposal (context (pos 1)) ≡ ok refusing
unfolding refusing evaluate_eligibility ◌+ℤ◌ ◌*ℤ◌ blocking_reason is_on_grid sign
refused = refl

evaluate-accepted_iff_example :
    (accepting.outcome ≡ ProposalState.sim_accepted) ↔ IsEligible proposal (context (pos 0))
evaluate-accepted_iff_example = evaluate-accepted_iff proposal (context (pos 0)) accepting accepted

evaluate-reasons_example :
    ((refusing.outcome ≡ ProposalState.sim_accepted) × (reason_codes refusing ≡ []))
    ⊎ ((refusing.outcome ≢ ProposalState.sim_accepted)
        × ((r : ReasonCode) × (reason_codes refusing ≡ r ∷ [])
            × FirstFailure (gates proposal (context (pos 1))) refusing r))
evaluate-reasons_example = evaluate-reasons proposal (context (pos 1)) refusing refused

abbrev Readable : Option BookState → Type 0
Readable none = Unit
Readable (some k) = IsReadable k

abbrev Priced : Option Price → Type 0
Priced none = Unit
Priced (some p) = IsMeasured book.contract p

book-IsReadable : (k : BookState) → (context (pos 0)).nes_book ≡ some k → IsReadable k
book-IsReadable k h = subst Readable h (record {
  contract = refl;
  bid = λ p same. subst Priced same (omega arith);
  ask = λ p same. subst Priced same (omega arith);
})

abbrev Measured : Option ContractId → Type 0
Measured none = Unit
Measured (some k) = IsMeasured k proposal.reference_price

reference-IsMeasured :
    (k : ContractId)
    → (context (pos 0)).execution_contract ≡ some k
    → IsMeasured k proposal.reference_price
reference-IsMeasured k h = subst Measured h (omega arith)

evaluate_total_example :
    (d : EligibilityDecision) × (evaluate_eligibility proposal (context (pos 0)) ≡ ok d)
evaluate_total_example =
    evaluate_total proposal (context (pos 0)) book-IsReadable reference-IsMeasured

abbrev order : SimulatedOrder
order = record {
  order_id = "o1";
  proposal_id = "p1";
  contract = nes_contract;
  direction = long;
  quantity = pos 1;
  limit_price = price (pos 65005);
  state = OrderState.created;
}

ordered : create_simulated_order "o1" proposal nes_contract accepting ≡ ok order
unfolding accepting create_simulated_order ◌+ℤ◌ ◌*ℤ◌ blocking_reason is_on_grid sign
ordered = refl

order_requires_gates_example :
    IsEligible proposal (context (pos 0)) × IsOrderOf "o1" proposal nes_contract order
order_requires_gates_example =
    order_requires_gates "o1" proposal (context (pos 0)) nes_contract accepting order accepted
      ordered

abbrev version : VersionRef
version = record {
  component = "simulator";
  version = "v1";
  sha256 = "0123456789abcdef0123456789abcdef0123456789abcdef0123456789abcdef";
}

abbrev assumptions : FillAssumptions
assumptions = record {
  simulator_version = version;
  cost_model_version = version;
  latency_ns = pos 10;
  queue_ahead = pos 0;
  slippage_ticks = pos 0;
  passive_requires_trade_through = true;
}

-- The reasons for streams that are gapped, stale or missing.
abbrev reasons_with : Option StreamHealth → Option StreamHealth → Result (List ReasonCode)
reasons_with es_health nes_health = do
  d ←
      evaluate_eligibility proposal
        (record (context (pos 0)) { es_health = es_health; nes_health = nes_health })
  ok (reason_codes d)

es_gapped :
    reasons_with (some StreamHealth.gapped) (some StreamHealth.healthy)
    ≡ ok (ReasonCode.es_sequence_gap ∷ [])
unfolding evaluate_eligibility reason_codes
es_gapped = refl

es_stale :
    reasons_with (some StreamHealth.stale) (some StreamHealth.gapped)
    ≡ ok (ReasonCode.es_stale ∷ [])
unfolding evaluate_eligibility reason_codes
es_stale = refl

nes_gapped :
    reasons_with (some StreamHealth.healthy) (some StreamHealth.gapped)
    ≡ ok (ReasonCode.nes_sequence_gap ∷ [])
unfolding evaluate_eligibility reason_codes
nes_gapped = refl

nes_unavailable :
    reasons_with (some StreamHealth.healthy) (some StreamHealth.unavailable)
    ≡ ok (ReasonCode.nes_stale ∷ [])
unfolding evaluate_eligibility reason_codes
nes_unavailable = refl

nes_missing :
    reasons_with (some StreamHealth.healthy) none ≡ ok (ReasonCode.missing_required_state ∷ [])
unfolding evaluate_eligibility reason_codes
nes_missing = refl

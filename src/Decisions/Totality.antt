-- ===== src/Decisions/Totality.antt =====
-- domain/decisions.py: when `evaluate_eligibility` reaches a decision at all.
use sopara.Prelude.{
  ◌≡◌, ◌<◌, Bool, refl, ◌⊎◌, inl, inr, true, false, ◌&&◌, Option, none, some, List, [], ◌∷◌, ◌++◌,
  arith, Bool-cases, Option-cases, ◌∙◌,
}
use sopara.Errors.{ok, Result-cases}
use sopara.Instruments.Arithmetic.{limit, divides, whole_quotient}
use sopara.Instruments.{ContractId, Price, nes, is_on_grid, spec}
use sopara.ReasonCodes.{ReasonCode}
use sopara.States.Enums.{ProposalState}
use sopara.Market.{BookState, blocking_reason, blocking_prices, off_grid}
use sopara.Decisions.{
  Proposal, EligibilityContext, EvaluationStep, EligibilityDecision, Gate, run_gates, gates,
  evaluate_eligibility, check_book, check_grid, book_step, step, is_es_contract, is_nes_contract,
}

-- Each gate answers, up to one that does not pass.
abbrev Answers : List Gate → Type 0
Answers [] = Unit
Answers (g ∷ gs) = (s : EvaluationStep) × (g.result ≡ ok s) × ((s.passed ≡ false) ⊎ Answers gs)

run_gates_pass :
    (steps : List EvaluationStep) (g : Gate) (gs : List Gate) (s : EvaluationStep)
    → g.result ≡ ok s
    → s.passed ≡ true
    → run_gates steps (g ∷ gs) ≡ run_gates (steps ++ s ∷ []) gs
unfolding run_gates
run_gates_pass steps g gs s answer passed = ground arith

run_gates_total :
    (steps : List EvaluationStep) (gs : List Gate)
    → Answers gs
    → (d : EligibilityDecision) × (run_gates steps gs ≡ ok d)
unfolding run_gates
run_gates_total steps [] a = (record { outcome = ProposalState.sim_accepted; steps = steps }, refl)
run_gates_total steps (g ∷ gs) (s, answer, on) = elim (Bool-cases s.passed) [
  | inl passed ↦ elim on [
    | inl failed ↦ absurd (cc (failed, passed))
    | inr more ↦
        let (d, done) = run_gates_total (steps ++ s ∷ []) gs more in
        (d, run_gates_pass steps g gs s answer passed ∙ done)
  ]
  | inr failed ↦ (record { outcome = g.refusal; steps = steps ++ s ∷ [] }, ground (arith, answer))
]

-- A price is fewer than 10 ^ 28 ticks.
abbrev pub IsMeasured : ContractId → Price → Type 0
IsMeasured k price = whole_quotient price.value (spec k).tick_size < limit

on_grid_total :
    (k : ContractId) (price : Price)
    → IsMeasured k price
    → (on : Bool) × (is_on_grid (spec k) price ≡ ok on)
unfolding is_on_grid divides
on_grid_total k price h = elim (Result-cases (is_on_grid (spec k) price)) [
  | inr found ↦ found
  | inl (raised, e) ↦ absurd (ground (arith, h, e))
]

-- The test of the grid answers only for such a price.
pub on_grid-IsMeasured :
    (k : ContractId) (price : Price) {on : Bool}
    → is_on_grid (spec k) price ≡ ok on
    → IsMeasured k price
unfolding is_on_grid divides
on_grid-IsMeasured k price h = ground arith

-- The book that the gates may be given: one of an NES contract, whose prices are measured.
pub record IsReadable (b : BookState) : Type 0 where
  pub contract : b.contract.product ≡ nes
  pub bid : (price : Price) → b.bid ≡ some price → IsMeasured b.contract price
  pub ask : (price : Price) → b.ask ≡ some price → IsMeasured b.contract price

blocking_prices_total :
    (b : BookState) (bid ask : Option Price)
    → b.bid ≡ bid
    → b.ask ≡ ask
    → IsReadable b
    → (r : Option ReasonCode) × (blocking_prices b bid ask ≡ ok r)
unfolding blocking_prices off_grid
blocking_prices_total b none ask eb ea v = (_, refl)
blocking_prices_total b (some bid) none eb ea v = (_, refl)
blocking_prices_total b (some bid) (some ask) eb ea v =
    let (on_bid, hb) = on_grid_total b.contract bid (v.bid bid eb) in
    let (on_ask, ha) = on_grid_total b.contract ask (v.ask ask ea) in
    elim (Result-cases (blocking_prices b (some bid) (some ask))) [
      | inr (r, e) ↦ (r, e)
      | inl (raised, e) ↦ absurd (ground (arith, hb, ha, e))
    ]

blocking_reason_total :
    (k : BookState) → IsReadable k → (r : Option ReasonCode) × (blocking_reason k ≡ ok r)
unfolding blocking_reason
blocking_reason_total k v =
    let (r, e) = blocking_prices_total k k.bid k.ask refl refl v in
    elim (Result-cases (blocking_reason k)) [
      | inr (r, e) ↦ (r, e)
      | inl (raised, h) ↦ absurd (ground (arith, v.contract, e, h))
    ]

check_book_total :
    (b : Option BookState)
    → ((k : BookState) → b ≡ some k → IsReadable k)
    → (s : EvaluationStep) × (check_book b ≡ ok s)
unfolding check_book
check_book_total none h = (book_step (some ReasonCode.missing_required_state), refl)
check_book_total (some k) h =
    let (r, e) = blocking_reason_total k (h k refl) in (book_step r, ground (arith, e))

-- An absent execution contract is caught by the gate on the contracts.
contracts_missing :
    (c : EligibilityContext)
    → c.execution_contract ≡ none
    → (is_es_contract c.source_contract && is_nes_contract c.execution_contract) ≡ false
contracts_missing c h = ground arith

-- The decision is reached whenever the book, if there is one, is a book of an NES contract, and the
-- reference price and the book's prices are fewer than 10 ^ 28 ticks.
pub evaluate_total :
    (p : Proposal) (c : EligibilityContext)
    → ((k : BookState) → c.nes_book ≡ some k → IsReadable k)
    → ((k : ContractId) → c.execution_contract ≡ some k → IsMeasured k p.reference_price)
    → (d : EligibilityDecision) × (evaluate_eligibility p c ≡ ok d)
unfolding evaluate_eligibility gates check_grid
evaluate_total p c h measured =
    let book = check_book_total c.nes_book h in
    run_gates_total [] (gates p c) (elim (Option-cases c.execution_contract) [
      | inl absent ↦
          let failed = contracts_missing c absent in
          (_, refl, inr (_, refl, inr (_, refl, inr (_, refl, inr (_, refl, inl failed)))))
      | inr (k, there) ↦
          let grid : (s : EvaluationStep) × (check_grid c.execution_contract p.reference_price
                ≡ ok s) =
            let (on, e) = on_grid_total k p.reference_price (measured k there) in
            (step "nes_tick_grid" on ReasonCode.nes_off_grid, ground (arith, there, e)) in
          (
            _,
            refl,
            inr (
              _,
              refl,
              inr (
                _,
                refl,
                inr (
                  _,
                  refl,
                  inr (
                    _,
                    refl,
                    inr (
                      _,
                      refl,
                      inr (
                        _,
                        refl,
                        inr (
                          book.0,
                          book.1,
                          inr (
                            _,
                            refl,
                            inr (
                              _,
                              refl,
                              inr (
                                grid.0,
                                grid.1,
                                inr (_, refl, inr (_, refl, inr (_, refl, inr (_, refl, inr tt)))),
                              ),
                            ),
                          ),
                        ),
                      ),
                    ),
                  ),
                ),
              ),
            ),
          )
    ])

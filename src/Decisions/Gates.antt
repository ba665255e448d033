-- ===== src/Decisions/Gates.antt =====
-- domain/decisions.py: what a decision of the gates says, for every list of gates.
use sopara.Prelude.{
  ◌≡◌, ◌≢◌, refl, sym, ap, ◌∙◌, ◌↔◌, ◌⊎◌, inl, inr, true, false, none, some, List, [], ◌∷◌, ◌++◌,
  All, arith,
}
use sopara.Errors.{Result, ok, err, ◌>>=◌}
use sopara.ReasonCodes.{ReasonCode}
use sopara.States.Enums.{ProposalState}
use sopara.Decisions.{
  EvaluationStep, EligibilityDecision, Gate, reasons_of, reason_codes, run_gates,
}

-- A step carries a reason exactly if it did not pass.
abbrev pub IsJustified : EvaluationStep → Type 0
IsJustified s =
    ((s.passed ≡ true) × (s.reason ≡ none))
    ⊎ ((s.passed ≡ false) × ((r : ReasonCode) × (s.reason ≡ some r)))

abbrev pub Passes : Gate → Type 0
Passes g = (s : EvaluationStep) × (g.result ≡ ok s) × (s.passed ≡ true)

-- Whatever a gate answers carries a reason exactly if it did not pass, and no gate refuses with the
-- accepting outcome.
pub record IsSound (g : Gate) : Type 0 where
  pub refuses : g.refusal ≢ ProposalState.sim_accepted
  pub justified : (s : EvaluationStep) → g.result ≡ ok s → IsJustified s

pub reasons_of-append :
    (xs ys : List EvaluationStep) → reasons_of (xs ++ ys) ≡ reasons_of xs ++ reasons_of ys
unfolding reasons_of
reasons_of-append [] ys = refl
reasons_of-append (x ∷ xs) ys = ground (arith, reasons_of-append xs ys)

run_gates-step :
    (steps : List EvaluationStep) (g : Gate) (gs : List Gate) (d : EligibilityDecision)
    → run_gates steps (g ∷ gs) ≡ ok d
    → (s : EvaluationStep) × (g.result ≡ ok s)
      × (((s.passed ≡ true) × (run_gates (steps ++ s ∷ []) gs ≡ ok d))
          ⊎ ((s.passed ≡ false) × (d ≡ record { outcome = g.refusal; steps = steps ++ s ∷ [] })))
unfolding run_gates
run_gates-step steps g gs d h = go g.result refl h
  where
    go :
        (r : Result EvaluationStep)
        → g.result ≡ r
        → (r >>= λ s. elim s.passed [
          | true ↦ run_gates (steps ++ s ∷ []) gs
          | false ↦ ok (record { outcome = g.refusal; steps = steps ++ s ∷ [] })
        ])
          ≡ ok d
        → (s : EvaluationStep) × (g.result ≡ ok s)
          × (((s.passed ≡ true) × (run_gates (steps ++ s ∷ []) gs ≡ ok d))
              ⊎ ((s.passed ≡ false)
                  × (d ≡ record { outcome = g.refusal; steps = steps ++ s ∷ [] })))
    go (ok s) e h = (s, e, ground arith)
    go (err x) e h = cc

-- A decision accepts exactly if every gate passes.
pub run_gates-accepted_iff :
    (steps : List EvaluationStep) (gs : List Gate) (d : EligibilityDecision)
    → All IsSound gs
    → run_gates steps gs ≡ ok d
    → (d.outcome ≡ ProposalState.sim_accepted) ↔ All Passes gs
unfolding run_gates
run_gates-accepted_iff steps [] d sound h = (λ p. tt, λ p. ground arith)
run_gates-accepted_iff steps (g ∷ gs) d sound h =
    let (s, answer, rest) = run_gates-step steps g gs d h in
    elim rest [
      | inl (passed, on) ↦
          let ih = run_gates-accepted_iff (steps ++ s ∷ []) gs d sound.1 on in
          (λ p. ((s, answer, passed), ih.0 p), λ p. ih.1 p.1)
      | inr (failed, same) ↦ (
        λ p. absurd (sound.0.refuses (sym (ap (λ (x : EligibilityDecision). x.outcome) same) ∙ p)),
        λ p.
            let t = p.0.0 in
            let e : s ≡ t = ground (arith, p.0.1) in
            let passed : s.passed ≡ true = rw e p.0.2 in cc,
      )
    ]

-- The gate at which the gates stop: those before it pass, it does not, and the decision is what it
-- refuses with, for its reason.
pub record FirstFailure (gs : List Gate) (d : EligibilityDecision) (r : ReasonCode) : Type 0 where
  pub before : List Gate
  pub failed : Gate
  pub after : List Gate
  pub in_order : gs ≡ before ++ failed ∷ after
  pub passed : All Passes before
  pub answer : EvaluationStep
  pub answered : failed.result ≡ ok answer
  pub refused : answer.passed ≡ false
  pub reason : answer.reason ≡ some r
  pub outcome : d.outcome ≡ failed.refusal

-- An accepting decision carries no reason, and any other carries exactly one, that of the first gate
-- that does not pass.
pub run_gates-reasons :
    (steps : List EvaluationStep) (gs : List Gate) (d : EligibilityDecision)
    → All IsSound gs
    → reasons_of steps ≡ []
    → run_gates steps gs ≡ ok d
    → ((d.outcome ≡ ProposalState.sim_accepted) × (reason_codes d ≡ []))
      ⊎ ((d.outcome ≢ ProposalState.sim_accepted)
          × ((r : ReasonCode) × (reason_codes d ≡ r ∷ []) × FirstFailure gs d r))
unfolding run_gates reason_codes
run_gates-reasons steps [] d sound clean h = inl (ground arith, ground arith)
run_gates-reasons steps (g ∷ gs) d sound clean h =
    let (s, answer, rest) = run_gates-step steps g gs d h in
    let joined = reasons_of-append steps (s ∷ []) in
    elim rest [
      | inl (passed, on) ↦
          elim (run_gates-reasons (steps ++ s ∷ []) gs d sound.1
            (ground (arith, joined, sound.0.justified s answer)) on) [
              | inl accepted ↦ inl accepted
              | inr (other, (r, only, f)) ↦ inr (
                other,
                (
                  r,
                  only,
                  record {
                    before = g ∷ f.before;
                    failed = f.failed;
                    after = f.after;
                    in_order = ap (λ (xs : List Gate). g ∷ xs) f.in_order;
                    passed = ((s, answer, passed), f.passed);
                    answer = f.answer;
                    answered = f.answered;
                    refused = f.refused;
                    reason = f.reason;
                    outcome = f.outcome;
                  },
                ),
              )
            ]
      | inr (failed, same) ↦
          let outcome = ap (λ (x : EligibilityDecision). x.outcome) same in
          elim (sound.0.justified s answer) [
            | inl (passed, _) ↦ absurd (ground arith)
            | inr (_, (r, why)) ↦ inr (
              λ p. sound.0.refuses (sym outcome ∙ p),
              (
                r,
                ground (arith, joined),
                record {
                  before = [];
                  failed = g;
                  after = gs;
                  in_order = refl;
                  passed = tt;
                  answer = s;
                  answered = answer;
                  refused = failed;
                  reason = why;
                  outcome = outcome;
                },
              ),
            )
          ]
    ]

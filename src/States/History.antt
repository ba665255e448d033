-- ===== src/States/History.antt =====
-- domain/states.py: what a transition and a folded history guarantee, for every table.
use sopara.Prelude.{
  ℕ, suc, String, ◌≡◌, sym, ◌↔◌, inl, inr, false, List, [], ◌∷◌, map, mem_str, is_empty, eq_iff,
  arith, Bool-cases, In,
}
use sopara.Prelude.Int.{pos, ◌<ℤ◌, ◌≤ℤ◌, ==ℤ_iff}
use sopara.Errors.{ok, err, invalid_transition}
use sopara.States.StrEnum.{StrEnum, IsStrEnum, mem-value_iff}
use sopara.States.Machine.{
  StateTransition, Attribution, check_transition, move, transition, fold_from, fold_transitions,
}

-- What `StateTransition.__post_init__` demands.
pub record IsAttributed (t : StateTransition) : Type 0 where
  pub identified : is_empty t.aggregate_id ≡ false
  pub typed : is_empty t.aggregate_type ≡ false
  pub acted : is_empty t.actor ≡ false
  pub numbered : pos 0 <ℤ t.sequence
  pub timed : pos 0 ≤ℤ t.occurred_at_ns

pub check_transition_iff :
    (t u : StateTransition) → (check_transition t ≡ ok u) ↔ ((t ≡ u) × IsAttributed t)
unfolding check_transition
check_transition_iff t u = (
  λ h. (
    ground arith,
    record {
      identified = ground arith;
      typed = ground arith;
      acted = ground arith;
      numbered = ground arith;
      timed = ground arith;
    },
  ),
  λ h. ground (arith, h.1.identified, h.1.typed, h.1.acted, h.1.numbered, h.1.timed),
)

module _ {S : Type 0} (e : StrEnum S) (law : IsStrEnum e) (rules : S → List S) where
  -- `transition` returns a record exactly when the table allows the target and the attribution is
  -- complete, and then the record names both states.
  pub transition-ok_iff :
      (current target : S) (a : Attribution) (t : StateTransition)
      → (transition e current target rules a ≡ ok t)
        ↔ (In target (rules current) × IsAttributed t × (t ≡ move e current target a))
  unfolding transition
  transition-ok_iff current target a t =
      let iff = mem-value_iff law target (rules current) in
      let checked = check_transition_iff (move e current target a) t in
      elim (Bool-cases (mem_str (e.value target) (map e.value (rules current)))) [
        | inl h ↦ (
          λ p. let q = checked.0 (rw h at p) in (iff.0 h, rw (sym q.0) q.1, sym q.0),
          λ p. rw h (checked.1 (sym p.2, rw (sym p.2) p.1)),
        )
        | inr h ↦ (λ p. cc (rw h at p), λ p. cc (iff.1 p.0))
      ]

  -- A target outside the table is refused, whatever the attribution.
  pub transition_refused :
      (current target : S) (a : Attribution)
      → ¬ (In target (rules current))
      → transition e current target rules a ≡ err invalid_transition
  unfolding transition
  transition_refused current target a h =
      elim (Bool-cases (mem_str (e.value target) (map e.value (rules current)))) [
        | inl p ↦ absurd (h ((mem-value_iff law target (rules current)).0 p))
        | inr p ↦ rw p
      ]

-- A history read as a chain: numbered from `n` without a gap, each item starting where the one
-- before it ended.
abbrev pub IsChain : ℕ → String → List StateTransition → String → Type 0
IsChain n state [] final = state ≡ final
IsChain n state (item ∷ rest) final =
    (item.sequence ≡ pos n) × (item.from_state ≡ state) × IsChain (suc n) item.to_state rest final

pub fold_from_iff :
    (n : ℕ) (state : String) (history : List StateTransition) (final : String)
    → (fold_from n state history ≡ ok final) ↔ IsChain n state history final
unfolding fold_from
fold_from_iff n state [] final = (λ h. cc, λ h. cc)
fold_from_iff n state (item ∷ rest) final =
    let ih = fold_from_iff (suc n) item.to_state rest final in
    let number = ==ℤ_iff item.sequence (pos n) in
    let start = eq_iff item.from_state state in
    (
      λ h. (ground arith, ground (arith, start), ih.0 (ground arith)),
      λ h. ground (arith, start, ih.1 h.2),
    )

-- `fold_transitions` succeeds exactly on a gapless chain from the initial state, numbered from 1,
-- and returns the state that the chain ends in.
pub fold_transitions_iff :
    (initial : String) (history : List StateTransition) (final : String)
    → (fold_transitions initial history ≡ ok final) ↔ IsChain 1 initial history final
unfolding fold_transitions
fold_transitions_iff initial history final = fold_from_iff 1 initial history final

-- ===== src/States/Reach.antt =====
-- domain/states.py: where recorded histories can lead, for every table and for those of orders,
-- operability, experiments and live sessions.
use sopara.Prelude.{
  ℕ, suc, String, ◌≡◌, refl, sym, ap, ◌∙◌, ◌⊎◌, inl, inr, Bool, true, false, List, [], ◌∷◌, All, In,
}
use sopara.Errors.{ok}
use sopara.States.StrEnum.{StrEnum, IsStrEnum, value-injective}
use sopara.States.Machine.{StateTransition, Attribution, transition, fold_transitions}
use sopara.States.History.{transition-ok_iff, IsChain, fold_transitions_iff}

-- The states that a table leads to.
pub data Reaches {S : Type 0} (rules : S → List S) : S → S → Type 0 where
  here : {s : S} → Reaches rules s s
  next : {s t u : S} → In t (rules s) → Reaches rules t u → Reaches rules s u

-- Some item of the history enters the state with this text.
abbrev pub Visits : String → List StateTransition → Type 0
Visits text [] = ⊥
Visits text (item ∷ rest) = (item.to_state ≡ text) ⊎ Visits text rest

module _ {S : Type 0} (e : StrEnum S) (law : IsStrEnum e) (rules : S → List S) where
  -- The item was returned by `transition`.
  abbrev pub IsRecorded : StateTransition → Type 0
  IsRecorded t =
      (current : S) × (target : S) × (a : Attribution) × (transition e current target rules a
        ≡ ok t)

  -- A recorded item that starts at `s` goes along an edge of the table.
  recorded_edge :
      (s : S) (item : StateTransition)
      → IsRecorded item
      → item.from_state ≡ e.value s
      → (t : S) × In t (rules s) × (item.to_state ≡ e.value t)
  recorded_edge s item (current, target, a, made) start =
      let parts = (transition-ok_iff e law rules current target a item).0 made in
      let from : item.from_state ≡ e.value current =
        ap (λ (i : StateTransition). i.from_state) parts.2 in
      let same : current ≡ s = value-injective law current s (sym from ∙ start) in
      let edge : In target (rules current) = parts.0 in
      (target, rw same at edge, ap (λ (i : StateTransition). i.to_state) parts.2)

  chain-Reaches :
      (n : ℕ) (s f : S) (history : List StateTransition)
      → All IsRecorded history
      → IsChain n (e.value s) history (e.value f)
      → Reaches rules s f
  chain-Reaches n s f [] all c = rw (value-injective law s f c) here
  chain-Reaches n s f (item ∷ rest) all c =
      let (t, edge, arrives) = recorded_edge s item all.0 c.1 in
      let c' : IsChain (suc n) item.to_state rest (e.value f) = c.2 in
      next edge (chain-Reaches (suc n) t f rest all.1 (rw arrives at c'))

  -- A history of recorded items that folds leads from the initial state to the final one along the
  -- table.
  pub fold-Reaches :
      (s f : S) (history : List StateTransition)
      → All IsRecorded history
      → fold_transitions (e.value s) history ≡ ok (e.value f)
      → Reaches rules s f
  fold-Reaches s f history all h =
      chain-Reaches 1 s f history all ((fold_transitions_iff (e.value s) history (e.value f)).0 h)

  -- Nothing leaves a state without targets.
  pub terminal_absorbs :
      (s : S) (history : List StateTransition) {final : String}
      → rules s ≡ []
      → All IsRecorded history
      → fold_transitions (e.value s) history ≡ ok final
      → history ≡ []
  terminal_absorbs s [] stuck all h = refl
  terminal_absorbs s (item ∷ rest) {final} stuck all h =
      let c = (fold_transitions_iff (e.value s) (item ∷ rest) final).0 h in
      let (t, edge, arrives) = recorded_edge s item all.0 c.1 in absurd (rw stuck at edge)

  module _ (region : S → Bool) (gate : S)
      (closed : (s t : S) → region s ≡ true → In t (rules s) → (region t ≡ true) ⊎ (t ≡ gate)) where
    chain_passes :
        (n : ℕ) (s f : S) (history : List StateTransition)
        → region s ≡ true
        → region f ≡ false
        → All IsRecorded history
        → IsChain n (e.value s) history (e.value f)
        → Visits (e.value gate) history
    chain_passes n s f [] inside outside all c =
        let same = value-injective law s f c in
        let moved : region f ≡ true = rw (sym same) inside in cc
    chain_passes n s f (item ∷ rest) inside outside all c =
        let (t, edge, arrives) = recorded_edge s item all.0 c.1 in
        let c' : IsChain (suc n) item.to_state rest (e.value f) = c.2 in
        elim (closed s t inside edge) [
          | inl still ↦ inr (chain_passes (suc n) t f rest still outside all.1 (rw arrives at c'))
          | inr out ↦ inl (arrives ∙ ap e.value out)
        ]

    -- A region that the table leaves only through one state: a history out of it visits that state.
    pub fold_passes :
        (s f : S) (history : List StateTransition)
        → region s ≡ true
        → region f ≡ false
        → All IsRecorded history
        → fold_transitions (e.value s) history ≡ ok (e.value f)
        → Visits (e.value gate) history
    fold_passes s f history inside outside all h =
        chain_passes 1 s f history inside outside all
          ((fold_transitions_iff (e.value s) history (e.value f)).0 h)

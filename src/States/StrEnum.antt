-- ===== src/States/StrEnum.antt =====
-- Python's `StrEnum`: a finite type whose members are told apart by their texts.
use sopara.Prelude.{
  String, ◌≡◌, sym, ap, ◌∙◌, ◌↔◌, inl, inr, true, Option, some, List, [], ◌∷◌, map, find, str_eq,
  mem_str, eq_iff, arith, In,
}

pub record StrEnum (S : Type 0) : Type 0 where
  pub type_name : String
  pub members : List S
  pub value : S → String

-- `S(text)`: the member with this text.
abbrev pub of_value : {S : Type 0} → StrEnum S → String → Option S
of_value e text = find (λ m. str_eq text (e.value m)) e.members

-- The interface's law: the text of a member names that member.
pub record IsStrEnum {S : Type 0} (e : StrEnum S) : Type 0 where
  pub of_value-value : (s : S) → of_value e (e.value s) ≡ some s

module _ {S : Type 0} {e : StrEnum S} (law : IsStrEnum e) where
  pub value-injective : (s t : S) → e.value s ≡ e.value t → s ≡ t
  value-injective s t h =
      let p : some s ≡ some t =
        sym (law.of_value-value s) ∙ ap (of_value e) h ∙ law.of_value-value t in
      cc

  -- `target in targets`, by texts, is membership.
  pub mem-value_iff : (t : S) (l : List S) → (mem_str (e.value t) (map e.value l) ≡ true) ↔ In t l
  mem-value_iff t [] = (λ h. cc, λ h. absurd h)
  mem-value_iff t (x ∷ l) = (
    λ h. ground (arith, eq_iff (e.value t) (e.value x), value-injective t x, mem-value_iff t l),
    λ h. elim h [
      | inl p ↦ ground (arith, eq_iff (e.value t) (e.value x), ap e.value p)
      | inr q ↦ ground (arith, mem-value_iff t l)
    ],
  )

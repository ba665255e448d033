-- ===== src/Prelude/Ring.antt =====
-- The ring laws of Python's integers that the exact arithmetic uses.
use Prim.Native.Nat.{ℕ, ◌+◌, ◌*◌}
use mathlib.Core.Path.{◌≡◌, ap, sym, ◌∙◌}
use native.Mathlib.Omega.{arith}
use sopara.Prelude.Int.{
  ℤ, pos, pos_part, neg_part, ◌+ℤ◌, ◌-ℤ◌, ◌*ℤ◌, eq_of_parts, +ℤ_parts, -ℤ_parts,
}

pub *ℤ_parts :
    (a b : ℤ)
    → pos_part (a *ℤ b) + (pos_part a * neg_part b + neg_part a * pos_part b)
      ≡ neg_part (a *ℤ b) + (pos_part a * pos_part b + neg_part a * neg_part b)
unfolding ◌*ℤ◌
*ℤ_parts a b = ground arith

pub *ℤ_comm : (a b : ℤ) → a *ℤ b ≡ b *ℤ a
*ℤ_comm a b = eq_of_parts (a *ℤ b) (b *ℤ a) (omega (arith, *ℤ_parts a b, *ℤ_parts b a))

pub *ℤ_assoc : (a b c : ℤ) → a *ℤ b *ℤ c ≡ a *ℤ (b *ℤ c)
*ℤ_assoc a b c = eq_of_parts (a *ℤ b *ℤ c) (a *ℤ (b *ℤ c)) (
    omega (
      arith,
      *ℤ_parts (a *ℤ b) c,
      *ℤ_parts a (b *ℤ c),
      ap (λ (t : ℕ). t * pos_part c) (*ℤ_parts a b),
      ap (λ (t : ℕ). t * neg_part c) (*ℤ_parts a b),
      ap (λ (t : ℕ). pos_part a * t) (*ℤ_parts b c),
      ap (λ (t : ℕ). neg_part a * t) (*ℤ_parts b c),
    ))

pub mul-sub : (a b c : ℤ) → a *ℤ (b -ℤ c) ≡ a *ℤ b -ℤ a *ℤ c
mul-sub a b c = eq_of_parts (a *ℤ (b -ℤ c)) (a *ℤ b -ℤ a *ℤ c) (
    omega (
      arith,
      *ℤ_parts a (b -ℤ c),
      -ℤ_parts (a *ℤ b) (a *ℤ c),
      *ℤ_parts a b,
      *ℤ_parts a c,
      ap (λ (t : ℕ). pos_part a * t) (-ℤ_parts b c),
      ap (λ (t : ℕ). neg_part a * t) (-ℤ_parts b c),
    ))

pub mul-add : (a b c : ℤ) → a *ℤ (b +ℤ c) ≡ a *ℤ b +ℤ a *ℤ c
mul-add a b c = eq_of_parts (a *ℤ (b +ℤ c)) (a *ℤ b +ℤ a *ℤ c) (
    omega (
      arith,
      *ℤ_parts a (b +ℤ c),
      +ℤ_parts (a *ℤ b) (a *ℤ c),
      *ℤ_parts a b,
      *ℤ_parts a c,
      ap (λ (t : ℕ). pos_part a * t) (+ℤ_parts b c),
      ap (λ (t : ℕ). neg_part a * t) (+ℤ_parts b c),
    ))

pub mul-one : (a : ℤ) → a *ℤ pos 1 ≡ a
mul-one a = eq_of_parts (a *ℤ pos 1) a (omega (arith, *ℤ_parts a (pos 1)))

pub mul_left_comm : (a b c : ℤ) → a *ℤ (b *ℤ c) ≡ b *ℤ (a *ℤ c)
mul_left_comm a b c = sym (*ℤ_assoc a b c) ∙ ap (λ t. t *ℤ c) (*ℤ_comm a b) ∙ *ℤ_assoc b a c

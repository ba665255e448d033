-- ===== src/Instruments/Align.antt =====
-- domain/instruments.py: decimals brought to a common scale, where a difference that is not rounded is
-- one of integers.
use Prim.Native.Nat.{max}
use native.Mathlib.Nat.{pow-suc}
use sopara.Prelude.{ℕ, zero, suc, ◌+◌, ◌-◌, ◌*◌, ◌^◌, ◌≤◌, ◌≡◌, sym, ap, ◌∙◌, arith}
use sopara.Prelude.Int.{ℤ, pos, ◌-ℤ◌, ◌*ℤ◌}
use sopara.Prelude.Ring.{*ℤ_comm, *ℤ_assoc, mul-sub}
use sopara.Instruments.Arithmetic.{Exact, exact_difference, scaled}

-- The coefficient at `s` decimals, for a number with no more than that.
abbrev pub at : ℕ → Exact → ℤ
at s x = x.coefficient *ℤ pos (10 ^ (s - x.scale))

pow-add : (m n : ℕ) → 10 ^ (m + n) ≡ 10 ^ m * 10 ^ n
pow-add m zero = ap (λ (t : ℕ). 10 ^ t) (let e : m + 0 ≡ m = omega arith in e) ∙ (omega arith)
pow-add m (suc n) =
    let e : m + suc n ≡ suc (m + n) = omega arith in
    rw e
      (rw (pow-suc 10 (m + n), pow-suc 10 n) (omega (arith, ap (λ (t : ℕ). t * 10) (pow-add m n))))

pub pos-mul : (a b : ℕ) → pos a *ℤ pos b ≡ pos (a * b)
unfolding ◌*ℤ◌
pos-mul a b = ground arith

-- Scaling up in two steps.
pub rescale :
    (c : ℤ) (k m s : ℕ)
    → k ≤ m
    → m ≤ s
    → c *ℤ pos (10 ^ (m - k)) *ℤ pos (10 ^ (s - m)) ≡ c *ℤ pos (10 ^ (s - k))
rescale c k m s h1 h2 =
    let e : s - k ≡ (m - k) + (s - m) = omega arith in
    *ℤ_assoc c (pos (10 ^ (m - k))) (pos (10 ^ (s - m)))
    ∙ ap (λ (t : ℤ). c *ℤ t)
        (pos-mul (10 ^ (m - k)) (10 ^ (s - m))
          ∙ ap pos (sym (pow-add (m - k) (s - m)) ∙ ap (λ (t : ℕ). 10 ^ t) (sym e)))

sub-mul : (a b c : ℤ) → (a -ℤ b) *ℤ c ≡ a *ℤ c -ℤ b *ℤ c
sub-mul a b c = *ℤ_comm (a -ℤ b) c ∙ mul-sub c a b ∙ (λ i. *ℤ_comm c a i -ℤ *ℤ_comm c b i)

module _ (a b : Exact) (s : ℕ) (ha : a.scale ≤ s) (hb : b.scale ≤ s) where
  pub at-sub : at s (exact_difference a b) ≡ at s a -ℤ at s b
  at-sub =
      let m = max a.scale b.scale in
      sub-mul (a.coefficient *ℤ pos (10 ^ (m - a.scale)))
        (b.coefficient *ℤ pos (10 ^ (m - b.scale))) (pos (10 ^ (s - m)))
      ∙ (λ i.
          rescale a.coefficient a.scale m s (omega arith) (omega arith) i
          -ℤ rescale b.coefficient b.scale m s (omega arith) (omega arith) i)

-- The code compares two numbers at the scale that is the sum of theirs.
pub scaled-at :
    (a b : Exact)
    → (scaled a b ≡ at (a.scale + b.scale) a) × (scaled b a ≡ at (a.scale + b.scale) b)
scaled-at a b =
    let e : a.scale + b.scale - a.scale ≡ b.scale = omega arith in
    let f : a.scale + b.scale - b.scale ≡ a.scale = omega arith in
    (
      ap (λ (t : ℕ). a.coefficient *ℤ pos (10 ^ t)) (sym e),
      ap (λ (t : ℕ). b.coefficient *ℤ pos (10 ^ t)) (sym f),
    )

pub scale-sub :
    (a b : Exact)
    → (a.scale ≤ (exact_difference a b).scale) × (b.scale ≤ (exact_difference a b).scale)
scale-sub a b = omega arith

-- ===== src/Execution/Costs.antt =====
-- domain/execution.py: the net result against the gross result, and the costs between them.
use sopara.Prelude.{ℕ, ◌+◌, ◌-◌, ◌^◌, ◌≡◌, ◌∙◌, true, arith}
use Prim.Native.Nat.{max}
use sopara.Prelude.Int.{ℤ, -ℤ_parts, ◌*ℤ◌, negsuc, pos, ◌-ℤ◌, ◌≤ℤ◌, leb_ℤ, int_laws}
use sopara.Errors.{ok}
use sopara.Instruments.Arithmetic.{Exact, add, exact_sum, exact_difference, scaled, leb_exact}
use sopara.Instruments.Precision.{Fits, rounded-nonneg, sub-Fits}
use sopara.Instruments.Align.{at, pos-mul, scale-sub, scaled-at, at-sub}
use sopara.Instruments.{add_money, sub_money}
use sopara.Execution.{PnlBreakdown, check_pnl, costs, net}

abbrev IsNonneg : Exact → Type 0
IsNonneg x = pos 0 ≤ℤ x.coefficient

pub nonneg-mul : (a : ℤ) (n : ℕ) → pos 0 ≤ℤ a → pos 0 ≤ℤ a *ℤ pos n
nonneg-mul (pos m) n h = rw pos-mul (omega arith)
nonneg-mul (negsuc m) n h = absurd (omega arith)

IsNonneg-add : (a b : Exact) → IsNonneg a → IsNonneg b → IsNonneg (add a b)
unfolding add
IsNonneg-add a b ha hb =
    let m = max a.scale b.scale in
    let p = nonneg-mul a.coefficient (10 ^ (m - a.scale)) ha in
    let q = nonneg-mul b.coefficient (10 ^ (m - b.scale)) hb in
    rounded-nonneg (exact_sum a b) (omega (int_laws, p, q))

costs-IsNonneg :
    (p : PnlBreakdown) {q : PnlBreakdown} → check_pnl p ≡ ok q → IsNonneg (costs p).value
unfolding check_pnl costs add_money
costs-IsNonneg p h =
    IsNonneg-add _ _
      (IsNonneg-add _ _
        (IsNonneg-add _ _
          (IsNonneg-add _ _
            (IsNonneg-add _ _
              (IsNonneg-add p.spread.value p.latency.value (ground arith) (ground arith))
              (ground arith))
            (ground arith))
          (ground arith))
        (ground arith))
      (ground arith)

below : (n g x c : ℤ) → n ≡ x -ℤ c → g ≡ x → pos 0 ≤ℤ c → leb_ℤ n g ≡ true
below n g x c hn hg hc = ground (arith, hn, hg, -ℤ_parts x c, hc)

-- An accepted breakdown never shows a net result above the gross result, where their difference has at
-- most 28 digits.
pub net-le-gross :
    (p : PnlBreakdown) {q : PnlBreakdown}
    → check_pnl p ≡ ok q
    → Fits (exact_difference p.gross.value (costs p).value).coefficient
    → leb_exact (net p).value p.gross.value ≡ true
unfolding net sub_money
net-le-gross p h fits =
    let c = (costs p).value in
    let g = p.gross.value in
    let n = exact_difference g c in
    let s = n.scale + g.scale in
    let small = scale-sub g c in
    let (left, right) = scaled-at n g in
    let rest = at-sub g c s (omega arith) (omega arith) in
    let cost = nonneg-mul c.coefficient (10 ^ (s - c.scale)) (costs-IsNonneg p h) in
    rw (sub-Fits g c fits)
      (below (scaled n g) (scaled g n) (at s g) (at s c) (left ∙ rest) right cost)

-- ===== src/Prelude/Search.antt =====
-- Lists reversed, and what searching and indexing a list gives.
use mathlib.Core.Path.{◌≡◌, refl, ap, subst}
use mathlib.Core.Logic.{inl, inr}
use mathlib.Core.Bool.{Bool, true, false, ◌||◌}
use mathlib.Core.List.{List, [], ◌∷◌, ◌++◌}
use mathlib.Core.Option.{some}
use native.Mathlib.Omega.{arith}
use Prim.Native.Nat.{ℕ, zero, suc, ◌<◌, ◌≤◌}
use sopara.Prelude.Tests.{Bool-cases}
use sopara.Prelude.Lists.{length, get_elem?, take, any, All, find}

-- Python's `reversed`
unfoldable pub reversed {ℓ} : {A : Type ℓ} → List A → List A
reversed [] = []
reversed (x ∷ xs) = reversed xs ++ x ∷ []

pub or_false : (b : Bool) → b || false ≡ b
or_false b = ground arith

module _ {A : Type 0} (p : A → Bool) where
  pub any-append : (xs ys : List A) → any p (xs ++ ys) ≡ any p xs || any p ys
  any-append [] ys = refl
  any-append (x ∷ xs) ys = ground (arith, any-append xs ys)

  pub any-reversed : (xs : List A) → any p xs ≡ true → any p (reversed xs) ≡ true
  unfolding reversed
  any-reversed [] h = cc
  any-reversed (x ∷ xs) h = elim (Bool-cases (p x)) [
    | inl t ↦ ground (arith, any-append (reversed xs) (x ∷ []), t)
    | inr f ↦ ground (arith, any-append (reversed xs) (x ∷ []), any-reversed xs (ground arith))
  ]

  pub any-find : (xs : List A) → any p xs ≡ true → (x : A) × (find p xs ≡ some x)
  any-find [] h = cc
  any-find (x ∷ xs) h = elim (Bool-cases (p x)) [
    | inl t ↦ (x, ground arith)
    | inr f ↦ let (y, g) = any-find xs (ground arith) in (y, ground (arith, g))
  ]

module _ {A : Type 0} (P : A → Type 0) where
  pub All-append : (xs ys : List A) → All P xs → All P ys → All P (xs ++ ys)
  All-append [] ys a b = b
  All-append (x ∷ xs) ys (h, a) b = (h, All-append xs ys a b)

  pub All-reversed : (xs : List A) → All P xs → All P (reversed xs)
  unfolding reversed
  All-reversed [] a = tt
  All-reversed (x ∷ xs) (h, a) = All-append (reversed xs) (x ∷ []) (All-reversed xs a) (h, tt)

  pub All-take : (n : ℕ) (xs : List A) → All P xs → All P (take n xs)
  All-take zero xs a = tt
  All-take (suc n) [] a = tt
  All-take (suc n) (x ∷ xs) (h, a) = (h, All-take n xs a)

  pub All-get_elem? : (xs : List A) (i : ℕ) (x : A) → All P xs → get_elem? xs i ≡ some x → P x
  All-get_elem? [] i x a h = cc
  All-get_elem? (y ∷ ys) zero x (p, a) h = subst P (ground arith) p
  All-get_elem? (y ∷ ys) (suc i) x (p, a) h = All-get_elem? ys i x a h

  pub All-find : (p : A → Bool) (xs : List A) (x : A) → All P xs → find p xs ≡ some x → P x
  All-find p [] x a h = cc
  All-find p (y ∷ ys) x (q, a) h = elim (Bool-cases (p y)) [
    | inl t ↦ subst P (ground arith) q
    | inr f ↦ All-find p ys x a (ground arith)
  ]

pub get_elem?-some :
    {A : Type 0} (xs : List A) (i : ℕ) → i < length xs → (x : A) × (get_elem? xs i ≡ some x)
get_elem?-some [] i h = absurd (omega arith)
get_elem?-some (x ∷ xs) zero h = (x, refl)
get_elem?-some (x ∷ xs) (suc i) h = get_elem?-some xs i (omega arith)

pub take-suc :
    {A : Type 0} (xs : List A) (i : ℕ) (x : A)
    → get_elem? xs i ≡ some x
    → take (suc i) xs ≡ take i xs ++ x ∷ []
take-suc [] i x h = cc
take-suc (y ∷ ys) zero x h = ground arith
take-suc (y ∷ ys) (suc i) x h = ap (λ zs. y ∷ zs) (take-suc ys i x h)

pub get_elem?-lt :
    {A : Type 0} (xs : List A) (i : ℕ) (x : A) → get_elem? xs i ≡ some x → suc i ≤ length xs
get_elem?-lt [] i x h = cc
get_elem?-lt (y ∷ ys) zero x h = omega arith
get_elem?-lt (y ∷ ys) (suc i) x h = omega (arith, get_elem?-lt ys i x h)

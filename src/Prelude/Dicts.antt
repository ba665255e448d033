-- ===== src/Prelude/Dicts.antt =====
-- Python's dicts with texts for keys, in insertion order, and the order of texts.
use Prim.Native.Char.{code}
use Prim.Native.String.{String, compare}
use text.Mathlib.Text.{is_lt, ◌==◌ as str_eq}
use text.Mathlib.TextEquality.{eq_iff}
use Prim.Native.Nat.{ℕ}
use mathlib.Core.Path.{◌≡◌, refl}
use mathlib.Core.Logic.{◌⊎◌, inl, inr}
use mathlib.Core.Bool.{Bool, true, false, ◌&&◌}
use mathlib.Core.List.{List, [], ◌∷◌}
use mathlib.Core.Option.{Option, none, some}
use native.Mathlib.Omega.{arith}
use sopara.Prelude.Tests.{◌==◌, if◌then◌else◌, Bool-cases}
use sopara.Prelude.Lists.{In}

abbrev pub Dict {ℓ} : Type ℓ → Type ℓ
Dict V = List (String × V)

-- `s.startswith(prefix)`
unfoldable pub starts_with : String → String → Bool
starts_with s String.[] = true
starts_with String.[] (String.◌∷◌ c p) = false
starts_with (String.◌∷◌ d s) (String.◌∷◌ c p) = code d == code c && starts_with s p

-- Equality of byte strings.
abbrev pub bytes_eq : List ℕ → List ℕ → Bool
bytes_eq [] [] = true
bytes_eq [] (y ∷ ys) = false
bytes_eq (x ∷ xs) [] = false
bytes_eq (x ∷ xs) (y ∷ ys) = x == y && bytes_eq xs ys

pub bytes_eq_sound : (xs ys : List ℕ) → bytes_eq xs ys ≡ true → xs ≡ ys
bytes_eq_sound [] [] h = refl
bytes_eq_sound [] (y ∷ ys) h = cc
bytes_eq_sound (x ∷ xs) [] h = cc
bytes_eq_sound (x ∷ xs) (y ∷ ys) h = ground (arith, bytes_eq_sound xs ys)

pub bytes_eq_refl : (xs : List ℕ) → bytes_eq xs xs ≡ true
bytes_eq_refl [] = refl
bytes_eq_refl (x ∷ xs) = ground (arith, bytes_eq_refl xs)

module _ {V : Type 0} where
  -- `d.get(key)`
  unfoldable pub lookup : String → Dict V → Option V
  lookup key [] = none
  lookup key ((k, v) ∷ d) = if str_eq k key then some v else lookup key d

  -- `d[key] = v`
  unfoldable pub insert : String → V → Dict V → Dict V
  insert key v [] = (key, v) ∷ []
  insert key v ((k, w) ∷ d) = if str_eq k key then (k, v) ∷ d else (k, w) ∷ insert key v d

  pub lookup-insert :
      (key j : String) (v : V) (d : Dict V)
      → lookup j (insert key v d) ≡ (if str_eq key j then some v else lookup j d)
  unfolding lookup insert
  lookup-insert key j v [] = refl
  lookup-insert key j v ((k, w) ∷ d) =
      ground (arith, eq_iff key j, eq_iff k key, eq_iff k j, lookup-insert key j v d)

  -- No key occurs twice.
  abbrev pub NodupKeys : Dict V → Type 0
  NodupKeys [] = Unit
  NodupKeys ((k, v) ∷ d) = (lookup k d ≡ none) × NodupKeys d

  pub insert-NodupKeys :
      (key : String) (v : V) (d : Dict V) → NodupKeys d → NodupKeys (insert key v d)
  unfolding insert lookup
  insert-NodupKeys key v [] h = (refl, tt)
  insert-NodupKeys key v ((k, w) ∷ d) (fresh, h) = elim (Bool-cases (str_eq k key)) [
    | inl same ↦ rw same (fresh, h)
    | inr other ↦ rw other (
      ground (arith, lookup-insert key k v d, eq_iff key k, eq_iff k key),
      insert-NodupKeys key v d h,
    )
  ]

  -- The entries of a dict are what `get` gives for its keys.
  pub lookup-In : (key : String) (v : V) (d : Dict V) → lookup key d ≡ some v → In (key, v) d
  unfolding lookup
  lookup-In key v [] h = cc
  lookup-In key v ((k, w) ∷ d) h = elim (Bool-cases (str_eq k key)) [
    | inl same ↦ inl (ground (arith, eq_iff k key))
    | inr other ↦ inr (lookup-In key v d (ground arith))
  ]

  pub In-lookup :
      (key : String) (v : V) (d : Dict V) → NodupKeys d → In (key, v) d → lookup key d ≡ some v
  unfolding lookup
  In-lookup key v [] n m = absurd m
  In-lookup key v ((k, w) ∷ d) (fresh, n) m = elim m [
    | inl same ↦ ground (arith, eq_iff k key)
    | inr rest ↦ ground (arith, eq_iff k key, In-lookup key v d n rest)
  ]

  -- `sorted(d.items())`: by key, since no two keys are equal.
  unfoldable pub insert_item : String × V → Dict V → Dict V
  insert_item item [] = item ∷ []
  insert_item item (other ∷ rest) =
      if is_lt (compare other.0 item.0)
      then other ∷ insert_item item rest
      else item ∷ (other ∷ rest)

  unfoldable pub sorted_items : Dict V → Dict V
  unfolding insert_item
  sorted_items [] = []
  sorted_items (item ∷ d) = insert_item item (sorted_items d)

  pub insert_item-In :
      (x item : String × V) (d : Dict V) → (x ≡ item) ⊎ In x d → In x (insert_item item d)
  unfolding insert_item
  insert_item-In x item [] h = h
  insert_item-In x item (other ∷ d) h = elim (Bool-cases (is_lt (compare other.0 item.0))) [
    | inl below ↦ rw below (elim h [
      | inl e ↦ inr (insert_item-In x item d (inl e))
      | inr m ↦ elim m [ inl e ↦ inl e | inr r ↦ inr (insert_item-In x item d (inr r)) ]
    ])
    | inr above ↦ rw above h
  ]

  pub In-insert_item :
      (x item : String × V) (d : Dict V) → In x (insert_item item d) → (x ≡ item) ⊎ In x d
  unfolding insert_item
  In-insert_item x item [] h = h
  In-insert_item x item (other ∷ d) h = elim (Bool-cases (is_lt (compare other.0 item.0))) [
    | inl below ↦
        let k : In x (other ∷ insert_item item d) = rw below at h in
        elim k [
          | inl e ↦ inr (inl e)
          | inr m ↦ elim (In-insert_item x item d m) [ inl e ↦ inl e | inr r ↦ inr (inr r) ]
        ]
    | inr above ↦ rw above at h
  ]

  pub sorted_items-In : (x : String × V) (d : Dict V) → In x d → In x (sorted_items d)
  unfolding sorted_items
  sorted_items-In x [] m = m
  sorted_items-In x (item ∷ d) m =
      insert_item-In x item (sorted_items d)
        (elim m [ inl e ↦ inl e | inr r ↦ inr (sorted_items-In x d r) ])

  pub In-sorted_items : (x : String × V) (d : Dict V) → In x (sorted_items d) → In x d
  unfolding sorted_items
  In-sorted_items x [] m = m
  In-sorted_items x (item ∷ d) m = elim (In-insert_item x item (sorted_items d) m) [
    | inl e ↦ inl e
    | inr r ↦ inr (In-sorted_items x d r)
  ]

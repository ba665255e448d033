-- ===== src/Canonical/Support.antt =====
-- domain/canonical.py: the objects that have a canonical value.
use sopara.Prelude.{String, ◌≡◌, refl, ◌↔◌, arith}
use sopara.Errors.{Result, ok, err, ◌>>=◌, >>=-returned}
use sopara.Instruments.Arithmetic.{finite, infinity, nan}
use sopara.Canonical.Json.{Value, Values, Fields, sort_fields, insert_value, dumps}
use sopara.Canonical.{
  Object, Objects, Attributes, canonical_value, canonical_fields, canonical_items,
  canonical_collection, canonical_json, canonical_sha256, none, boolean, integer, string, decimal,
  date, dataclass, mapping, untyped_mapping, sequence, collection, unsupported, nil, cons, end,
  attribute,
}

-- Every decimal is finite, every key is a text, and every type is supported.
unfoldable mutual
  pub IsSupported : Object → Type 0
  IsSupported (decimal infinity) = ⊥
  IsSupported (decimal nan) = ⊥
  IsSupported (decimal (finite x)) = Unit
  IsSupported untyped_mapping = ⊥
  IsSupported (unsupported name) = ⊥
  IsSupported (dataclass fs) = AreSupportedFields fs
  IsSupported (mapping fs) = AreSupportedFields fs
  IsSupported (sequence xs) = AreSupported xs
  IsSupported (collection xs) = AreSupported xs
  IsSupported none = Unit
  IsSupported (boolean b) = Unit
  IsSupported (integer n) = Unit
  IsSupported (string s) = Unit
  IsSupported (date d) = Unit

  pub AreSupported : Objects → Type 0
  AreSupported nil = Unit
  AreSupported (cons x xs) = IsSupported x × AreSupported xs

  pub AreSupportedFields : Attributes → Type 0
  AreSupportedFields end = Unit
  AreSupportedFields (attribute k x fs) = IsSupported x × AreSupportedFields fs

-- A result that is not an error.
abbrev pub Succeeds {ℓ} : {A : Type ℓ} → Result A → Type ℓ
Succeeds {A = A} m = (a : A) × (m ≡ ok a)

-- A chain succeeds if its first step does, and the rest does from there.
pub Succeeds-bind {ℓ κ} :
    {A : Type ℓ} {B : Type κ} (m : Result A) (f : A → Result B)
    → Succeeds m
    → ((a : A) → m ≡ ok a → Succeeds (f a))
    → Succeeds (m >>= f)
Succeeds-bind (ok a) f (x, h) rest = rest a refl
Succeeds-bind (err e) f (x, h) rest = cc

mutual
  unfolding canonical_value IsSupported

  value-Succeeds : (x : Object) → IsSupported x → Succeeds (canonical_value x)
  value-Succeeds none s = (_, refl)
  value-Succeeds (boolean b) s = (_, refl)
  value-Succeeds (integer n) s = (_, refl)
  value-Succeeds (string t) s = (_, refl)
  value-Succeeds (decimal (finite x)) s = (_, refl)
  value-Succeeds (decimal infinity) s = absurd s
  value-Succeeds (decimal nan) s = absurd s
  value-Succeeds (date d) s = (_, refl)
  value-Succeeds (dataclass fs) s =
      Succeeds-bind (canonical_fields fs) (λ v. ok (Value.mapping v)) (fields-Succeeds fs s)
        (λ v h. (Value.mapping v, refl))
  value-Succeeds (mapping fs) s =
      Succeeds-bind (canonical_fields fs) (λ v. ok (Value.mapping (sort_fields v)))
        (fields-Succeeds fs s) (λ v h. (Value.mapping (sort_fields v), refl))
  value-Succeeds untyped_mapping s = absurd s
  value-Succeeds (sequence xs) s =
      Succeeds-bind (canonical_items xs) (λ v. ok (Value.sequence v)) (items-Succeeds xs s)
        (λ v h. (Value.sequence v, refl))
  value-Succeeds (collection xs) s =
      Succeeds-bind (canonical_collection xs) (λ v. ok (Value.sequence v))
        (collection-Succeeds xs s) (λ v h. (Value.sequence v, refl))
  value-Succeeds (unsupported name) s = absurd s

  fields-Succeeds : (fs : Attributes) → AreSupportedFields fs → Succeeds (canonical_fields fs)
  fields-Succeeds end s = (_, refl)
  fields-Succeeds (attribute k x fs) (s, ss) =
      let (v, h) = value-Succeeds x s in
      let (vs, hs) = fields-Succeeds fs ss in (Fields.field k v vs, ground (arith, h, hs))

  items-Succeeds : (xs : Objects) → AreSupported xs → Succeeds (canonical_items xs)
  items-Succeeds nil s = (_, refl)
  items-Succeeds (cons x xs) (s, ss) =
      let (v, h) = value-Succeeds x s in
      let (vs, hs) = items-Succeeds xs ss in (Values.cons v vs, ground (arith, h, hs))

  collection-Succeeds : (xs : Objects) → AreSupported xs → Succeeds (canonical_collection xs)
  collection-Succeeds nil s = (_, refl)
  collection-Succeeds (cons x xs) (s, ss) =
      let (v, h) = value-Succeeds x s in
      let (vs, hs) = collection-Succeeds xs ss in (insert_value v vs, ground (arith, h, hs))

mutual
  unfolding canonical_value IsSupported

  value-IsSupported : (x : Object) → Succeeds (canonical_value x) → IsSupported x
  value-IsSupported none s = tt
  value-IsSupported (boolean b) s = tt
  value-IsSupported (integer n) s = tt
  value-IsSupported (string t) s = tt
  value-IsSupported (decimal (finite x)) s = tt
  value-IsSupported (decimal infinity) (v, h) = cc
  value-IsSupported (decimal nan) (v, h) = cc
  value-IsSupported (date d) s = tt
  value-IsSupported (dataclass fs) (v, h) =
      fields-IsSupported fs (let (a, ha, done) = >>=-returned (canonical_fields fs) _ h in (a, ha))
  value-IsSupported (mapping fs) (v, h) =
      fields-IsSupported fs (let (a, ha, done) = >>=-returned (canonical_fields fs) _ h in (a, ha))
  value-IsSupported untyped_mapping (v, h) = cc
  value-IsSupported (sequence xs) (v, h) =
      items-IsSupported xs (let (a, ha, done) = >>=-returned (canonical_items xs) _ h in (a, ha))
  value-IsSupported (collection xs) (v, h) =
      collection-IsSupported xs
        (let (a, ha, done) = >>=-returned (canonical_collection xs) _ h in (a, ha))
  value-IsSupported (unsupported name) (v, h) = cc

  fields-IsSupported : (fs : Attributes) → Succeeds (canonical_fields fs) → AreSupportedFields fs
  fields-IsSupported end s = tt
  fields-IsSupported (attribute k x fs) (v, h) =
      let (a, ha, rest) = >>=-returned (canonical_value x) _ h in
      let (b, hb, done) = >>=-returned (canonical_fields fs) _ rest in
      (value-IsSupported x (a, ha), fields-IsSupported fs (b, hb))

  items-IsSupported : (xs : Objects) → Succeeds (canonical_items xs) → AreSupported xs
  items-IsSupported nil s = tt
  items-IsSupported (cons x xs) (v, h) =
      let (a, ha, rest) = >>=-returned (canonical_value x) _ h in
      let (b, hb, done) = >>=-returned (canonical_items xs) _ rest in
      (value-IsSupported x (a, ha), items-IsSupported xs (b, hb))

  collection-IsSupported : (xs : Objects) → Succeeds (canonical_collection xs) → AreSupported xs
  collection-IsSupported nil s = tt
  collection-IsSupported (cons x xs) (v, h) =
      let (a, ha, rest) = >>=-returned (canonical_value x) _ h in
      let (b, hb, done) = >>=-returned (canonical_collection xs) _ rest in
      (value-IsSupported x (a, ha), collection-IsSupported xs (b, hb))

-- An object has a canonical value exactly if all its decimals are finite, all its keys are texts, and
-- all its types are supported, at every depth.
pub canonical_value-ok_iff : (x : Object) → Succeeds (canonical_value x) ↔ IsSupported x
canonical_value-ok_iff x = (value-IsSupported x, value-Succeeds x)

-- A supported object has a hash, which is a value of the hash function.
pub canonical_sha256-ok :
    (sha256 : String → String) (x : Object)
    → IsSupported x
    → (json : String) × (canonical_sha256 sha256 x ≡ ok (sha256 json))
unfolding canonical_sha256 canonical_json
canonical_sha256-ok sha256 x s =
    let (v, h) = value-Succeeds x s in (dumps "," ":" v, ground (arith, h))

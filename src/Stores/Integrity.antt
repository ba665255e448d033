-- ===== src/Stores/Integrity.antt =====
-- adapters/evidence/stores.py: every object in memory is sealed by its hash, its checksum and its size, at
-- a generation of its own.
use sopara.Prelude.{
  ℕ, ◌<◌, String, ◌≡◌, true, some, [], str_eq, Dict, lookup, length, arith, eq_iff, lookup-insert,
  Bool-cases, insert-NodupKeys, NodupKeys, inl, inr,
}
use sopara.Errors.{ok}
use sopara.Evidence.{EvidenceClass, synthetic_nes_proxy}
use sopara.Stores.{
  Bytes, StoredObject, MemoryObjectStore, new_store, replace_created, stat, read, put_if_absent,
  has_class,
}
use sopara.Stores.Laws.{Written, put-Written, stat_lookup, read_lookup}

-- What is recorded with the content of an object under its key.
pub record IsSealed (crc32c sha256 : Bytes → String) (next : ℕ) (key : String) (content : Bytes)
    (item : StoredObject) : Type 0 where
  pub keyed : item.key ≡ key
  pub sized : item.size ≡ length content
  pub checked : item.crc32c ≡ crc32c content
  pub hashed : item.sha256 ≡ sha256 content
  pub issued : item.generation < next
  pub positive : 0 < item.generation
  pub fresh : item.metageneration ≡ 1
  pub synthetic : has_class synthetic_nes_proxy (lookup "evidence_class" item.metadata) ≡ true

pub record IsValid (crc32c sha256 : Bytes → String) (store : MemoryObjectStore) : Type 0 where
  pub distinct_keys : NodupKeys store.objects
  pub counting : 0 < store.next_generation
  pub sealed :
      (key : String) (content : Bytes) (item : StoredObject)
      → lookup key store.objects ≡ some (content, item)
      → IsSealed crc32c sha256 store.next_generation key content item
  pub distinct_generations :
      (j k : String) (a b : Bytes) (x y : StoredObject)
      → lookup j store.objects ≡ some (a, x)
      → lookup k store.objects ≡ some (b, y)
      → x.generation ≡ y.generation
      → j ≡ k

module _ (crc32c sha256 : Bytes → String) where
  pub new_store-IsValid :
      (c : EvidenceClass) {s : MemoryObjectStore} → new_store c ≡ ok s → IsValid crc32c sha256 s
  unfolding new_store lookup
  new_store-IsValid c {s} h =
      let e : s ≡ record { objects = []; next_generation = 1 } = ground arith in
      record {
        distinct_keys = ground (arith, e);
        counting = ground (arith, e);
        sealed = λ key content item found. absurd (ground (arith, e));
        distinct_generations = λ j k a b x y f g same. absurd (ground (arith, e));
      }

  module _ (store : MemoryObjectStore) (key : String) (content : Bytes) (content_type : String)
      (metadata : Dict String) {s : MemoryObjectStore} {item : StoredObject}
      (v : IsValid crc32c sha256 store) where
    Written-IsSealed :
        Written crc32c sha256 store key content content_type metadata s item
        → (j : String) (a : Bytes) (x : StoredObject) → lookup j s.objects ≡ some (a, x)
        → IsSealed crc32c sha256 s.next_generation j a x
    Written-IsSealed (Written.again old found same e) j a x h = ground (arith, v.sealed j a x, same)
    Written-IsSealed (Written.first absent synthetic e same) j a x h =
        elim (Bool-cases (str_eq key j)) [
          | inl here ↦ ground (
            arith,
            e,
            same,
            eq_iff key j,
            lookup-insert key j (content, item) store.objects,
            v.counting,
          )
          | inr there ↦
              ground
                (arith, e, same, lookup-insert key j (content, item) store.objects, v.sealed j a x)
        ]

    generations-Written :
        Written crc32c sha256 store key content content_type metadata s item
        → (j k : String) (a b : Bytes) (x y : StoredObject) → lookup j s.objects ≡ some (a, x)
        → lookup k s.objects ≡ some (b, y)
        → x.generation ≡ y.generation
        → j ≡ k
    generations-Written (Written.again old found same e) j k a b x y f g gen =
        ground (arith, v.distinct_generations j k a b x y, same)
    generations-Written (Written.first absent synthetic e same) j k a b x y f g gen = ground (
      arith,
      e,
      same,
      eq_iff key j,
      eq_iff key k,
      lookup-insert key j (content, item) store.objects,
      lookup-insert key k (content, item) store.objects,
      v.sealed j a x,
      v.sealed k b y,
      v.distinct_generations j k a b x y,
    )

    keys-Written :
        Written crc32c sha256 store key content content_type metadata s item
        → NodupKeys s.objects × (0 < s.next_generation)
    keys-Written (Written.again old found same e) =
        ground (arith, same, v.distinct_keys, v.counting)
    keys-Written (Written.first absent synthetic e same) =
        ground (arith, same, insert-NodupKeys key (content, item) store.objects v.distinct_keys)

  -- A write that returns keeps the store valid: its keys are distinct, its next generation is
  -- positive, every object has its key, the size, checksum and hash of its content, a positive
  -- generation below the next, metageneration 1 and the synthetic proxy class, and no two keys
  -- share a generation.
  pub put_if_absent-IsValid :
      (store : MemoryObjectStore) (key : String) (content : Bytes) (content_type : String)
      (metadata : Dict String) {s : MemoryObjectStore} {item : StoredObject}
      → IsValid crc32c sha256 store
      → put_if_absent crc32c sha256 store key content content_type metadata ≡ ok (s, item)
      → IsValid crc32c sha256 s
  put_if_absent-IsValid store key content content_type metadata v h =
      let w = put-Written crc32c sha256 store key content content_type metadata h in
      let (nodup, counting) = keys-Written store key content content_type metadata v w in
      record {
        distinct_keys = nodup;
        counting = counting;
        sealed = Written-IsSealed store key content content_type metadata v w;
        distinct_generations = generations-Written store key content content_type metadata v w;
      }

  -- What is read is what the object's hash, checksum and size were taken of.
  read-stat :
      (store : MemoryObjectStore) (key : String) {content : Bytes} {found : StoredObject}
      → IsValid crc32c sha256 store
      → read store key ≡ ok content
      → stat store key ≡ ok found
      → (found.key ≡ key)
        × (found.sha256 ≡ sha256 content)
        × (found.crc32c ≡ crc32c content)
        × (found.size ≡ length content)
  unfolding replace_created
  read-stat store key {content} {found} v r f =
      let (held, item, e, same) = stat_lookup store key f in
      let (old, g) = read_lookup store key r in ground (arith, same, v.sealed key content old g)

-- ===== src/Stores/Laws.antt =====
-- adapters/evidence/stores.py: what a write leaves, and what every stored object satisfies.
use sopara.Prelude.{
  String, ◌≡◌, true, false, none, some, Dict, lookup, arith, eq_iff, lookup-insert, bytes_eq_sound,
  Option-cases, inl, inr,
}
use sopara.Errors.{ok}
use sopara.Evidence.{synthetic_nes_proxy}
use sopara.Stores.{
  Bytes, StoredObject, ObjectStore, MemoryObjectStore, replace_created, stat, read, put_if_absent,
  sealed_object, with_object, has_class, memory_object_store,
}

-- What a client may rely on, whatever keeps the objects.
pub record IsObjectStore {S : Type 0} (o : ObjectStore S) : Type 0 where
  -- a written object is there, with its content
  pub read-put :
      (s : S) (key : String) (content : Bytes) (content_type : String) (metadata : Dict String)
      {s' : S} {item : StoredObject}
      → o.put_if_absent s key content content_type metadata ≡ ok (s', item)
      → o.read s' key ≡ ok content
  -- and it is found under its key, as the write reported it
  pub stat-put :
      (s : S) (key : String) (content : Bytes) (content_type : String) (metadata : Dict String)
      {s' : S} {item : StoredObject}
      → o.put_if_absent s key content content_type metadata ≡ ok (s', item)
      → o.stat s' key ≡ ok (replace_created item false)
  -- no write changes what was there before it
  pub stat-kept :
      (s : S) (key : String) (content : Bytes) (content_type : String) (metadata : Dict String)
      {s' : S} {item : StoredObject}
      → o.put_if_absent s key content content_type metadata ≡ ok (s', item)
      → (j : String) {found : StoredObject} → o.stat s j ≡ ok found
      → o.stat s' j ≡ ok found
  pub read-kept :
      (s : S) (key : String) (content : Bytes) (content_type : String) (metadata : Dict String)
      {s' : S} {item : StoredObject}
      → o.put_if_absent s key content content_type metadata ≡ ok (s', item)
      → (j : String) {found : Bytes} → o.read s j ≡ ok found
      → o.read s' j ≡ ok found

pub stat_lookup :
    (s : MemoryObjectStore) (j : String) {found : StoredObject}
    → stat s j ≡ ok found
    → (held : Bytes) × (item : StoredObject) × (lookup j s.objects ≡ some (held, item))
      × (found ≡ replace_created item false)
unfolding stat
stat_lookup s j h = elim (Option-cases (lookup j s.objects)) [
  | inl absent ↦ ground (arith, absent)
  | inr ((held, item), e) ↦ (held, item, e, ground (arith, e))
]

pub read_lookup :
    (s : MemoryObjectStore) (j : String) {found : Bytes}
    → read s j ≡ ok found
    → (item : StoredObject) × (lookup j s.objects ≡ some (found, item))
unfolding read
read_lookup s j h = elim (Option-cases (lookup j s.objects)) [
  | inl absent ↦ ground (arith, absent)
  | inr ((held, item), e) ↦ (item, ground (arith, e))
]

module _ (crc32c sha256 : Bytes → String) where
  -- The two ways in which a write returns.
  pub data Written (store : MemoryObjectStore) (key : String) (content : Bytes)
      (content_type : String) (metadata : Dict String) (s : MemoryObjectStore) (item : StoredObject)
      : Type 0 where
    again :
        (old : StoredObject)
        → lookup key store.objects ≡ some (content, old)
        → s ≡ store
        → item ≡ replace_created old false
        → Written store key content content_type metadata s item
    first :
        lookup key store.objects ≡ none
        → has_class synthetic_nes_proxy (lookup "evidence_class" metadata) ≡ true
        → item ≡ sealed_object crc32c sha256 store key content content_type metadata
        → s ≡ with_object crc32c sha256 store key content item
        → Written store key content content_type metadata s item

  pub put-Written :
      (store : MemoryObjectStore) (key : String) (content : Bytes) (content_type : String)
      (metadata : Dict String) {s : MemoryObjectStore} {item : StoredObject}
      → put_if_absent crc32c sha256 store key content content_type metadata ≡ ok (s, item)
      → Written store key content content_type metadata s item
  unfolding put_if_absent
  put-Written store key content content_type metadata {s} {item} h =
      elim (Option-cases (lookup key store.objects)) [
        | inl absent ↦ first absent (ground arith) (ground arith) (ground arith)
        | inr ((held, old), found) ↦
            let same : held ≡ content = bytes_eq_sound held content (ground (arith, found)) in
            again old (ground (arith, same, found)) (ground (arith, found)) (ground (arith, found))
      ]

  read-Written :
      (store : MemoryObjectStore) (key : String) (content : Bytes) (content_type : String)
      (metadata : Dict String) {s : MemoryObjectStore} {item : StoredObject}
      → Written store key content content_type metadata s item
      → (read s key ≡ ok content) × (stat s key ≡ ok (replace_created item false))
  unfolding read stat replace_created
  read-Written store key content content_type metadata (again old found same e) =
      ground (arith, found, same, e)
  read-Written store key content content_type metadata {s} {item} (first absent synthetic e same) =
      ground (arith, same, e, lookup-insert key key (content, item) store.objects, eq_iff key key)

  lookup-Written :
      (store : MemoryObjectStore) (key : String) (content : Bytes) (content_type : String)
      (metadata : Dict String) {s : MemoryObjectStore} {item : StoredObject}
      → Written store key content content_type metadata s item
      → (j : String) {found : Bytes × StoredObject} → lookup j store.objects ≡ some found
      → lookup j s.objects ≡ some found
  lookup-Written store key content content_type metadata (again old found same e) j h =
      ground (arith, same, h)
  lookup-Written store key content content_type metadata {s} {item} (first absent synthetic e same)
        j h =
      ground
        (arith, same, absent, h, lookup-insert key j (content, item) store.objects, eq_iff key j)

  -- The store in memory meets the interface of object stores: what a returned write has written is
  -- read back under its key and found there as the write reported it, no longer marked as created,
  -- and the write leaves every object that could be read or found before as it was.
  pub memory-IsObjectStore : IsObjectStore (memory_object_store crc32c sha256)
  unfolding stat read
  memory-IsObjectStore = record {
    read-put = λ s key content content_type metadata h.
        (read-Written s key content content_type metadata
          (put-Written s key content content_type metadata h)).0;
    stat-put = λ s key content content_type metadata h.
        (read-Written s key content content_type metadata
          (put-Written s key content content_type metadata h)).1;
    stat-kept = λ s key content content_type metadata h j e.
        let w = put-Written s key content content_type metadata h in
        let (held, old, found, same) = stat_lookup s j e in
        let kept = lookup-Written s key content content_type metadata w j found in
        ground (arith, kept, same);
    read-kept = λ s key content content_type metadata h j e.
        let w = put-Written s key content content_type metadata h in
        let (old, found) = read_lookup s j e in
        let kept = lookup-Written s key content content_type metadata w j found in
        ground (arith, kept);
  }

-- ===== src/Stores.antt =====
-- adapters/evidence/stores.py and the object store of application/ports.py: the store that keeps
-- its objects in memory. The hash and checksum functions are parameters.
pub mod Laws
pub mod Integrity
pub mod Listing
pub mod Reconciliation
pub mod Agreement
use sopara.Prelude.{
  ℕ, ◌+◌, String, ◌≡◌, Bool, true, false, not, Option, none, some, List, [], ◌∷◌, str_eq, Dict,
  lookup, insert, starts_with, bytes_eq, sorted_items, length, if◌then◌else◌,
}
use sopara.Errors.{Result, ok, err, value_error, object_not_found, raise_when, ◌>>◌}
use sopara.Evidence.{EvidenceClass, evidence_class, is_synthetic, synthetic_nes_proxy}

abbrev pub Bytes : Type 0
Bytes = List ℕ

pub record StoredObject : Type 0 where
  pub key : String
  pub generation : ℕ
  pub metageneration : ℕ
  pub size : ℕ
  pub crc32c : String
  pub sha256 : String
  pub content_type : String
  pub metadata : Dict String
  pub created : Bool

-- The protocol `ObjectStore` over a state: a method gives the next state where it changes it.
pub record ObjectStore (S : Type 0) : Type 0 where
  pub put_if_absent : S → String → Bytes → String → Dict String → Result (S × StoredObject)
  pub stat : S → String → Result StoredObject
  pub read : S → String → Result Bytes
  pub list : S → String → Result (List StoredObject)

-- `metadata.get("evidence_class") != EvidenceClass.SYNTHETIC_NES_PROXY.value`
abbrev pub has_class : EvidenceClass → Option String → Bool
has_class c none = false
has_class c (some found) = str_eq found (evidence_class.value c)

unfoldable pub require_synthetic_metadata : Dict String → Result (Unit {0})
require_synthetic_metadata metadata =
    raise_when (not (has_class synthetic_nes_proxy (lookup "evidence_class" metadata)))
      (value_error "local object stores accept synthetic proxy evidence only")

unfoldable pub replace_created : StoredObject → Bool → StoredObject
replace_created item created = record {
  key = item.key;
  generation = item.generation;
  metageneration = item.metageneration;
  size = item.size;
  crc32c = item.crc32c;
  sha256 = item.sha256;
  content_type = item.content_type;
  metadata = item.metadata;
  created = created;
}

pub record MemoryObjectStore : Type 0 where
  pub objects : Dict (Bytes × StoredObject)
  pub next_generation : ℕ

unfoldable pub new_store : EvidenceClass → Result MemoryObjectStore
new_store c =
    raise_when (not (is_synthetic c))
      (value_error "memory object stores are restricted to synthetic proxy evidence")
    >> ok (record { objects = []; next_generation = 1 })

-- `return _replace_created(existing[1], created=False)`, unless the content is another.
abbrev pub put_existing :
    MemoryObjectStore → Bytes → Bytes × StoredObject → Result (MemoryObjectStore × StoredObject)
put_existing store content (held, item) =
    if bytes_eq held content
    then ok (store, replace_created item false)
    else err (value_error "object key collision has different content")

unfoldable pub stat : MemoryObjectStore → String → Result StoredObject
stat store key = elim (lookup key store.objects) [
  | none ↦ err (object_not_found key)
  | some (held, item) ↦ ok (replace_created item false)
]

unfoldable pub read : MemoryObjectStore → String → Result Bytes
read store key = elim (lookup key store.objects) [
  | none ↦ err (object_not_found key)
  | some (held, item) ↦ ok held
]

-- The listed objects, of items in the order of their keys.
unfoldable pub select_prefix : String → Dict (Bytes × StoredObject) → List StoredObject
select_prefix prefix [] = []
select_prefix prefix ((key, (held, item)) ∷ rest) =
    let others = select_prefix prefix rest in
    if starts_with key prefix then replace_created item false ∷ others else others

unfoldable pub list : MemoryObjectStore → String → List StoredObject
unfolding select_prefix
list store prefix = select_prefix prefix (sorted_items store.objects)

module _ (crc32c sha256 : Bytes → String) where
  -- What a first write at a key records.
  abbrev pub sealed_object :
      MemoryObjectStore → String → Bytes → String → Dict String → StoredObject
  sealed_object store key content content_type metadata = record {
    key = key;
    generation = store.next_generation;
    metageneration = 1;
    size = length content;
    crc32c = crc32c content;
    sha256 = sha256 content;
    content_type = content_type;
    metadata = metadata;
    created = true;
  }

  abbrev pub with_object : MemoryObjectStore → String → Bytes → StoredObject → MemoryObjectStore
  with_object store key content item = record {
    objects = insert key (content, item) store.objects;
    next_generation = store.next_generation + 1;
  }

  unfoldable pub put_if_absent :
      MemoryObjectStore
      → String
      → Bytes
      → String
      → Dict String
      → Result (MemoryObjectStore × StoredObject)
  unfolding require_synthetic_metadata
  put_if_absent store key content content_type metadata =
      require_synthetic_metadata metadata >> (elim (lookup key store.objects) [
        | some existing ↦ put_existing store content existing
        | none ↦
            let item : StoredObject = sealed_object store key content content_type metadata in
            ok (with_object store key content item, item)
      ])

  abbrev pub memory_object_store : ObjectStore MemoryObjectStore
  memory_object_store = record {
    put_if_absent = put_if_absent;
    stat = stat;
    read = read;
    list = λ store prefix. ok (list store prefix);
  }

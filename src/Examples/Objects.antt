-- ===== src/Examples/Objects.antt =====
-- Runs of the object store, its reconciliation, and the records of its objects.
use sopara.Prelude.{
  String, ◌≡◌, refl, ◌↔◌, true, some, [], ◌∷◌, Dict, lookup, In, All, starts_with, mem_str, false,
  NodupKeys, insert, sorted_items,
}
use sopara.Errors.{ok}
use sopara.Evidence.{synthetic_nes_proxy, evidence_class}
use sopara.Stores.{
  Bytes, StoredObject, MemoryObjectStore, memory_object_store, put_if_absent, sealed_object,
  replace_created, list, stat, new_store,
}
use sopara.Stores.Laws.{IsObjectStore, memory-IsObjectStore}
use sopara.Stores.Integrity.{IsValid, put_if_absent-IsValid, new_store-IsValid}
use sopara.Stores.Listing.{list-stat_iff}
use sopara.Stores.Reconciliation.{EvidenceReconciliation, accepted, reconcile_objects}
use sopara.Stores.Agreement.{Confirmed, reconcile_objects-accepted_iff}
use sopara.Runs.{MarketObjectRow}
use sopara.Runs.Repository.{market_row}
use sopara.Repositories.Manifests.{
  record_market_object, AreConfirmed, record-AreConfirmed, expectation_of,
}

abbrev digest : Bytes → String
digest [] = "none"
digest (b ∷ bytes) = "some"

abbrev proxy : Dict String
proxy = ("evidence_class", "SYNTHETIC_NES_PROXY") ∷ []

abbrev empty_store : MemoryObjectStore
empty_store = record { objects = []; next_generation = 1 }

abbrev first_item : StoredObject
first_item =
    sealed_object digest digest empty_store "objects/a" (1 ∷ 2 ∷ []) "application/json" proxy

abbrev one_object : MemoryObjectStore
one_object = record { objects = ("objects/a", (1 ∷ 2 ∷ [], first_item)) ∷ []; next_generation = 2 }

put_first :
    put_if_absent digest digest empty_store "objects/a" (1 ∷ 2 ∷ []) "application/json" proxy
    ≡ ok (one_object, first_item)
unfolding put_if_absent lookup evidence_class insert
put_first = refl

empty_store-IsValid : IsValid digest digest empty_store
unfolding lookup new_store
empty_store-IsValid = new_store-IsValid digest digest synthetic_nes_proxy refl

memory-IsObjectStore_example : IsObjectStore (memory_object_store digest digest)
memory-IsObjectStore_example = memory-IsObjectStore digest digest

put_if_absent-IsValid_example : IsValid digest digest one_object
put_if_absent-IsValid_example =
    put_if_absent-IsValid digest digest empty_store "objects/a" (1 ∷ 2 ∷ []) "application/json"
      proxy empty_store-IsValid put_first

one_object_keys : NodupKeys one_object.objects
unfolding lookup new_store
one_object_keys = (refl, tt)

list-stat_iff_example : In (replace_created first_item true) (list one_object "objects/") ↔ (
    (key : String) × (starts_with key "objects/" ≡ true)
    × (stat one_object key ≡ ok (replace_created first_item true)))
list-stat_iff_example =
    list-stat_iff one_object "objects/" (replace_created first_item true) one_object_keys

abbrev first_row : MarketObjectRow
first_row = market_row "id" first_item "schema" synthetic_nes_proxy

abbrev reconciled_one : EvidenceReconciliation
reconciled_one = record { checked_objects = 1; mismatches = [] }

list_one : ok (list one_object "objects/") ≡ ok (replace_created first_item false ∷ [])
unfolding list sorted_items lookup starts_with replace_created
list_one = refl

reconcile_one :
    reconcile_objects
      (memory_object_store digest digest)
      one_object
      (expectation_of first_row ∷ [])
      "objects/"
    ≡ ok reconciled_one
unfolding reconcile_objects stat lookup replace_created evidence_class list sorted_items starts_with
reconcile_one = refl

reconcile_objects-accepted_iff_example : (accepted reconciled_one ≡ true) ↔ (
    All (Confirmed (memory_object_store digest digest) one_object) (expectation_of first_row ∷ [])
    × All (λ a. mem_str a.key ("objects/a" ∷ []) ≡ true) (replace_created first_item false ∷ []))
reconcile_objects-accepted_iff_example =
    reconcile_objects-accepted_iff (memory_object_store digest digest) one_object
      (expectation_of first_row ∷ []) "objects/" list_one reconcile_one

record_first :
    record_market_object [] "id" first_item "schema" synthetic_nes_proxy ≡ ok (first_row ∷ [])
unfolding record_market_object
record_first = refl

first_item_class :
    lookup "evidence_class" first_item.metadata ≡ some (evidence_class.value synthetic_nes_proxy)
unfolding lookup evidence_class
first_item_class = refl

record-AreConfirmed_example :
    AreConfirmed (memory_object_store digest digest) one_object (first_row ∷ [])
record-AreConfirmed_example =
    record-AreConfirmed (memory_object_store digest digest) (memory-IsObjectStore digest digest)
      empty_store "objects/a" (1 ∷ 2 ∷ []) "application/json" proxy "id" "schema"
      synthetic_nes_proxy [] tt put_first refl first_item_class record_first

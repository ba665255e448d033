-- ===== src/Stores/Listing.antt =====
-- adapters/evidence/stores.py: `list` gives the objects of a prefix, each as `stat` gives it.
use sopara.Prelude.{
  String, ◌≡◌, refl, ◌↔◌, true, false, [], ◌∷◌, Dict, starts_with, sorted_items, arith, Bool-cases,
  inl, inr, In, lookup-In, In-lookup, sorted_items-In, In-sorted_items, NodupKeys,
}
use sopara.Errors.{ok}
use sopara.Stores.{
  Bytes, StoredObject, MemoryObjectStore, replace_created, stat, list, select_prefix,
}
use sopara.Stores.Laws.{stat_lookup}

-- An entry at this key, with the prefix, whose object is listed as `found`.
abbrev Entry : String → Dict (Bytes × StoredObject) → StoredObject → Type 0
Entry prefix d found =
    (key : String) × (held : Bytes) × (item : StoredObject) × In (key, (held, item)) d
    × (starts_with key prefix ≡ true)
    × (found ≡ replace_created item false)

select-Entry :
    (prefix : String) (d : Dict (Bytes × StoredObject)) (found : StoredObject)
    → In found (select_prefix prefix d)
    → Entry prefix d found
unfolding select_prefix
select-Entry prefix [] found m = absurd m
select-Entry prefix ((key, (held, item)) ∷ rest) found m =
    elim (Bool-cases (starts_with key prefix)) [
      | inl fits ↦
          let n : In found (replace_created item false ∷ select_prefix prefix rest) =
            rw fits at m in
          elim n [
            | inl e ↦ (key, held, item, inl refl, fits, e)
            | inr r ↦
                let (k, h, i, member, p, e) = select-Entry prefix rest found r in
                (k, h, i, inr member, p, e)
          ]
      | inr other ↦
          let n : In found (select_prefix prefix rest) = rw other at m in
          let (k, h, i, member, p, e) = select-Entry prefix rest found n in
          (k, h, i, inr member, p, e)
    ]

Entry-select :
    (prefix : String) (d : Dict (Bytes × StoredObject)) (key : String) (held : Bytes)
    (item : StoredObject)
    → In (key, (held, item)) d
    → starts_with key prefix ≡ true
    → In (replace_created item false) (select_prefix prefix d)
unfolding select_prefix
Entry-select prefix [] key held item m p = absurd m
Entry-select prefix ((k, (h, i)) ∷ rest) key held item m p = elim m [
  | inl e ↦ let same : i ≡ item = cc in let named : k ≡ key = cc in rw (named, p, same) (inl refl)
  | inr r ↦
      let later = Entry-select prefix rest key held item r p in
      elim (Bool-cases (starts_with k prefix)) [
        | inl fits ↦ rw fits (inr later)
        | inr other ↦ rw other later
      ]
]

-- In a store with distinct keys, the objects listed for a prefix are exactly those that `stat`
-- gives for the keys with that prefix.
pub list-stat_iff :
    (store : MemoryObjectStore) (prefix : String) (found : StoredObject)
    → NodupKeys store.objects
    → In found (list store prefix)
      ↔ ((key : String) × (starts_with key prefix ≡ true) × (stat store key ≡ ok found))
unfolding list stat
list-stat_iff store prefix found distinct = (
  λ m.
      let (key, held, item, member, fits, e) =
        select-Entry prefix (sorted_items store.objects) found m in
      let there =
        In-lookup key (held, item) store.objects distinct
          (In-sorted_items (key, (held, item)) store.objects member) in
      (key, fits, ground (arith, there, e)),
  λ (key, fits, h).
      let (held, item, there, e) = stat_lookup store key h in
      let member =
        sorted_items-In (key, (held, item)) store.objects
          (lookup-In key (held, item) store.objects there) in
      rw e (Entry-select prefix (sorted_items store.objects) key held item member fits),
)

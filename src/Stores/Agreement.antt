-- ===== src/Stores/Agreement.antt =====
-- adapters/evidence/reconciliation.py: an accepted reconciliation means that records and objects agree.
use sopara.Prelude.{
  String, ◌≡◌, refl, sym, ◌↔◌, true, ◌&&◌, some, List, [], ◌∷◌, ◌++◌, map, null, lookup, mem_str,
  arith, eq_iff, All, Option-cases, inl, inr,
}
use sopara.Errors.{Result, ok, err, object_not_found, >>=-returned, ok-injective}
use sopara.Evidence.{evidence_class as classes}
use sopara.Stores.{StoredObject, ObjectStore}
use sopara.Stores.Reconciliation.{
  MarketObjectExpectation, EvidenceMismatch, EvidenceReconciliation, accepted, differences,
  unreferenced, expected_mismatches, check_expectations, reconcile_objects, comparisons,
}

-- The stored object is the one that the record names.
pub record Agrees (e : MarketObjectExpectation) (a : StoredObject) : Type 0 where
  pub generations : e.generation ≡ a.generation
  pub metagenerations : e.metageneration ≡ a.metageneration
  pub sizes : e.size ≡ a.size
  pub checksums : e.crc32c ≡ a.crc32c
  pub hashes : e.sha256 ≡ a.sha256
  pub classified : lookup "evidence_class" a.metadata ≡ some (classes.value e.evidence_class)

differences-Agrees :
    (key : String) (e : MarketObjectExpectation) (a : StoredObject)
    → (null (differences key (comparisons e a)) ≡ true) ↔ Agrees e a
unfolding differences
differences-Agrees key e a = elim (Option-cases (lookup "evidence_class" a.metadata)) [
  | inl unclassified ↦
      (λ h. ground (arith, unclassified), λ h. ground (arith, h.classified, unclassified))
  | inr (c, classified) ↦ (
    λ h. ground (
      arith,
      classified,
      eq_iff e.crc32c a.crc32c,
      eq_iff e.sha256 a.sha256,
      eq_iff (classes.value e.evidence_class) c,
    ),
    λ h. ground (
      arith,
      classified,
      h,
      eq_iff e.crc32c a.crc32c,
      eq_iff e.sha256 a.sha256,
      eq_iff (classes.value e.evidence_class) c,
    ),
  )
]

null-append : {A : Type 0} (xs ys : List A) → null (xs ++ ys) ≡ null xs && null ys
null-append [] ys = refl
null-append (x ∷ xs) ys = refl

unreferenced_iff :
    (keys : List String) (listed : List StoredObject)
    → (null (unreferenced keys listed) ≡ true) ↔ All (λ a. mem_str a.key keys ≡ true) listed
unfolding unreferenced
unreferenced_iff keys [] = (λ h. tt, λ h. refl)
unreferenced_iff keys (a ∷ rest) = (
  λ h. ground (arith, unreferenced_iff keys rest),
  λ (p, h). ground (arith, unreferenced_iff keys rest),
)

-- The mismatches of one expectation, by what `stat` gave.
expected_mismatches-null_iff :
    (e : MarketObjectExpectation) (given : Result StoredObject) {found : List EvidenceMismatch}
    → expected_mismatches e given ≡ ok found
    → (null found ≡ true) ↔ ((a : StoredObject) × (given ≡ ok a) × Agrees e a)
unfolding expected_mismatches
expected_mismatches-null_iff e (ok a) {found} h =
    let all = differences-Agrees e.object_key e a in
    let whole : found ≡ differences e.object_key (comparisons e a) = ground arith in
    (
      λ n. (a, refl, all.0 (ground (arith, whole))),
      λ (b, t, agrees).
          let same : a ≡ b = ok-injective t in
          ground (arith, whole, all.1 (rw (sym same) at agrees)),
    )
expected_mismatches-null_iff e (err (object_not_found key)) h =
    (λ n. absurd (ground arith), λ (a, t, agrees). cc)
expected_mismatches-null_iff e (err raised) h = (λ n. cc, λ (a, t, agrees). cc)

module _ {S : Type 0} (o : ObjectStore S) (store : S) where
  -- The object that the record names is in the store, as the record has it.
  abbrev pub Confirmed : MarketObjectExpectation → Type 0
  Confirmed e = (a : StoredObject) × (o.stat store e.object_key ≡ ok a) × Agrees e a

  check_expectations_iff :
      (es : List MarketObjectExpectation) {found : List EvidenceMismatch}
      → check_expectations o store es ≡ ok found
      → (null found ≡ true) ↔ All Confirmed es
  unfolding check_expectations
  check_expectations_iff [] h = (λ e. tt, λ e. ground arith)
  check_expectations_iff (e ∷ es) {found} h =
      let (first, returned, rest) =
        >>=-returned (expected_mismatches e (o.stat store e.object_key)) _ h in
      let (others, checked, done) = >>=-returned (check_expectations o store es) _ rest in
      let here = expected_mismatches-null_iff e (o.stat store e.object_key) returned in
      let there = check_expectations_iff es checked in
      let whole : found ≡ first ++ others = ground arith in
      (
        λ n. (
          here.0 (ground (arith, null-append first others, whole)),
          there.0 (ground (arith, null-append first others, whole)),
        ),
        λ (c, cs). ground (arith, null-append first others, whole, here.1 c, there.1 cs),
      )

  -- A reconciliation that returns accepts exactly if every expectation names an object of the
  -- store with the expected generation, metageneration, size, checksum, hash and evidence class,
  -- and every listed object has the key of an expectation.
  pub reconcile_objects-accepted_iff :
      (es : List MarketObjectExpectation) (prefix : String) {listed : List StoredObject}
      {r : EvidenceReconciliation}
      → o.list store prefix ≡ ok listed
      → reconcile_objects o store es prefix ≡ ok r
      → (accepted r ≡ true)
        ↔ (All Confirmed es × All (λ a. mem_str a.key (map (λ e. e.object_key) es) ≡ true) listed)
  unfolding reconcile_objects accepted
  reconcile_objects-accepted_iff es prefix {listed} {r} l h =
      let (found, checked, rest) = >>=-returned (check_expectations o store es) _ h in
      let (listed', l', done) = >>=-returned (o.list store prefix) _ rest in
      let keys = map (λ (e : MarketObjectExpectation). e.object_key) es in
      let whole : null r.mismatches ≡ null found && null (unreferenced keys listed) =
        ground (arith, null-append found (unreferenced keys listed)) in
      let objects = check_expectations_iff es checked in
      let references = unreferenced_iff keys listed in
      (
        λ n. (objects.0 (ground (arith, whole)), references.0 (ground (arith, whole))),
        λ (c, u). ground (arith, whole, objects.1 c, references.1 u),
      )

-- ===== src/Repositories/Manifests.antt =====
-- adapters/database/repositories.py: `EvidenceRepository`, which records stored objects and gives the
-- expectations that reconciliation checks.
use sopara.Prelude.{
  ℕ, String, ◌≡◌, refl, Bool, true, false, ◌&&◌, ◌||◌, Option, none, some, List, [], ◌∷◌, any,
  str_eq, lookup, starts_with, ltb, not, if◌then◌else◌, arith, Bool-cases, inl, inr, Dict, All, ap,
  ◌∙◌,
}
use sopara.Errors.{Result, ok, err, integrity_error}
use sopara.Evidence.{EvidenceClass, evidence_class as classes}
use sopara.Stores.{StoredObject, ObjectStore, Bytes, replace_created}
use sopara.Stores.Laws.{IsObjectStore}
use sopara.Stores.Reconciliation.{MarketObjectExpectation}
use sopara.Stores.Agreement.{Confirmed}
use sopara.Runs.{MarketObjectRow, ManifestRow}
use sopara.Runs.Repository.{market_row}

-- The keys of `market_object`: its id, its object key, and the key with the generation; and its checks.
unfoldable pub admits_object : List MarketObjectRow → MarketObjectRow → Bool
admits_object rows new =
    not (any (λ r. str_eq r.object_id new.object_id || str_eq r.object_key new.object_key) rows)
    && (ltb 0 new.generation && ltb 0 new.metageneration)

unfoldable pub record_market_object :
    List MarketObjectRow
    → String
    → StoredObject
    → String
    → EvidenceClass
    → Result (List MarketObjectRow)
unfolding admits_object
record_market_object rows object_id stored schema_id c =
    let new = market_row object_id stored schema_id c in
    if admits_object rows new then ok (new ∷ rows) else err integrity_error

unfoldable pub record_dataset_manifest :
    List ManifestRow
    → String
    → String
    → StoredObject
    → EvidenceClass
    → ℕ
    → Result (List ManifestRow)
record_dataset_manifest rows manifest_id dataset_id stored c object_count =
    if any
        (λ r.
          str_eq r.manifest_id manifest_id
          || (str_eq r.manifest_key stored.key || str_eq r.manifest_hash stored.sha256))
        rows
      || not (ltb 0 stored.generation)
    then err integrity_error
    else ok (
        record {
          manifest_id = manifest_id;
          dataset_id = dataset_id;
          manifest_key = stored.key;
          manifest_hash = stored.sha256;
          generation = stored.generation;
          evidence_class = c;
          object_count = object_count;
        }
        ∷ rows)

abbrev pub expectation_of : MarketObjectRow → MarketObjectExpectation
expectation_of r = record {
  object_key = r.object_key;
  generation = r.generation;
  metageneration = r.metageneration;
  size = r.size_bytes;
  crc32c = r.crc32c;
  sha256 = r.sha256;
  evidence_class = r.evidence_class;
}

-- `startswith(prefix)`, where a prefix is given.
abbrev pub selects : Option String → MarketObjectRow → Bool
selects none r = true
selects (some prefix) r = starts_with r.object_key prefix

unfoldable pub expectations : List MarketObjectRow → Option String → List MarketObjectExpectation
expectations [] prefix = []
expectations (r ∷ rows) prefix =
    let others = expectations rows prefix in
    if selects prefix r then expectation_of r ∷ others else others

module _ {S : Type 0} (o : ObjectStore S) where
  -- Every row names an object of the store as it is there.
  abbrev pub AreConfirmed : S → List MarketObjectRow → Type 0
  AreConfirmed s rows = All (λ r. Confirmed o s (expectation_of r)) rows

module _ {S : Type 0} (o : ObjectStore S) (laws : IsObjectStore o) where
  -- A write to the store confirms what was confirmed before it.
  put-AreConfirmed :
      (s : S) (key : String) (content : Bytes) (content_type : String) (metadata : Dict String)
      (rows : List MarketObjectRow) {s' : S} {item : StoredObject}
      → o.put_if_absent s key content content_type metadata ≡ ok (s', item)
      → AreConfirmed o s rows
      → AreConfirmed o s' rows
  put-AreConfirmed s key content content_type metadata [] h c = tt
  put-AreConfirmed s key content content_type metadata (r ∷ rows) h ((a, there, agrees), c) = (
    (a, laws.stat-kept s key content content_type metadata h r.object_key there, agrees),
    put-AreConfirmed s key content content_type metadata rows h c,
  )

  -- Where every recorded object is in the store as recorded, it still is after another object is
  -- written and recorded, the new one included; the write is to report the object under the key
  -- written and with the class that is recorded.
  pub record-AreConfirmed :
      (s : S) (key : String) (content : Bytes) (content_type : String) (metadata : Dict String)
      (object_id schema_id : String) (c : EvidenceClass) (rows : List MarketObjectRow) {s' : S}
      {item : StoredObject} {rows' : List MarketObjectRow}
      → AreConfirmed o s rows
      → o.put_if_absent s key content content_type metadata ≡ ok (s', item)
      → item.key ≡ key
      → lookup "evidence_class" item.metadata ≡ some (classes.value c)
      → record_market_object rows object_id item schema_id c ≡ ok rows'
      → AreConfirmed o s' rows'
  unfolding record_market_object replace_created
  record-AreConfirmed s key content content_type metadata object_id schema_id c rows {s'} {item}
        {rows'} before h keyed classed h2 =
      let new = market_row object_id item schema_id c in
      elim (Bool-cases (admits_object rows new)) [
        | inr refused ↦ absurd (ground (arith, refused))
        | inl admitted ↦
            let whole : rows' ≡ new ∷ rows = ground (arith, admitted) in
            let there : o.stat s' item.key ≡ ok (replace_created item false) =
              ap (λ (k : String). o.stat s' k) keyed
              ∙ laws.stat-put s key content content_type metadata h in
            rw whole (
              (
                replace_created item false,
                there,
                record {
                  generations = refl;
                  metagenerations = refl;
                  sizes = refl;
                  checksums = refl;
                  hashes = refl;
                  classified = classed;
                },
              ),
              put-AreConfirmed s key content content_type metadata rows h before,
            )
      ]

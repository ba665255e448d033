-- ===== src/Stores/Reconciliation.antt =====
-- adapters/evidence/reconciliation.py: the objects of a store against the records that name them.
use sopara.Prelude.{
  ℕ, ◌==◌, String, Bool, true, false, Option, none, some, List, [], ◌∷◌, ◌++◌, map, null, length,
  lookup, mem_str, str_eq, print_ℕ, if◌then◌else◌,
}
use sopara.Errors.{Result, ok, err, object_not_found, ◌>>=◌}
use sopara.Evidence.{EvidenceClass, evidence_class as classes}
use sopara.Stores.{StoredObject, ObjectStore}

pub record MarketObjectExpectation : Type 0 where
  pub object_key : String
  pub generation : ℕ
  pub metageneration : ℕ
  pub size : ℕ
  pub crc32c : String
  pub sha256 : String
  pub evidence_class : EvidenceClass

pub data MismatchKind : Type 0 where
  missing_object generation metageneration size crc32c sha256 evidence_class : MismatchKind
  unreferenced_object : MismatchKind

pub record EvidenceMismatch : Type 0 where
  pub object_key : String
  pub kind : MismatchKind
  pub expected : String
  pub actual : Option String

pub record EvidenceReconciliation : Type 0 where
  pub checked_objects : ℕ
  pub mismatches : List EvidenceMismatch

unfoldable pub accepted : EvidenceReconciliation → Bool
accepted r = null r.mismatches

-- The values that are compared: numbers, texts, and `None`.
pub data Compared : Type 0 where
  absent : Compared
  number : ℕ → Compared
  written : String → Compared

abbrev pub compared_eq : Compared → Compared → Bool
compared_eq absent absent = true
compared_eq absent (number n) = false
compared_eq absent (written s) = false
compared_eq (number n) absent = false
compared_eq (number m) (number n) = m == n
compared_eq (number n) (written s) = false
compared_eq (written s) absent = false
compared_eq (written s) (number n) = false
compared_eq (written s) (written t) = str_eq s t

-- `None if value is None else str(value)`
abbrev pub printed : Compared → Option String
printed absent = none
printed (number n) = some (print_ℕ n)
printed (written s) = some s

-- `str(value)`
abbrev pub str : Compared → String
str absent = "None"
str (number n) = print_ℕ n
str (written s) = s

abbrev pub of_option : Option String → Compared
of_option none = absent
of_option (some s) = written s

abbrev pub comparisons :
    MarketObjectExpectation → StoredObject → List (MismatchKind × Compared × Compared)
comparisons expected actual =
    (MismatchKind.generation, number expected.generation, number actual.generation)
    ∷ (MismatchKind.metageneration, number expected.metageneration, number actual.metageneration)
    ∷ (MismatchKind.size, number expected.size, number actual.size)
    ∷ (MismatchKind.crc32c, written expected.crc32c, written actual.crc32c)
    ∷ (MismatchKind.sha256, written expected.sha256, written actual.sha256)
    ∷ (
      MismatchKind.evidence_class,
      written (classes.value expected.evidence_class),
      of_option (lookup "evidence_class" actual.metadata),
    )
    ∷ []

-- The body of the loop over the comparisons.
unfoldable pub differences :
    String → List (MismatchKind × Compared × Compared) → List EvidenceMismatch
differences key [] = []
differences key ((kind, expected, actual) ∷ rest) =
    let others = differences key rest in
    if compared_eq expected actual
    then others
    else record { object_key = key; kind = kind; expected = str expected; actual = printed actual }
      ∷ others

unfoldable pub unreferenced : List String → List StoredObject → List EvidenceMismatch
unreferenced keys [] = []
unreferenced keys (actual ∷ rest) =
    let others = unreferenced keys rest in
    if mem_str actual.key keys
    then others
    else record {
      object_key = actual.key;
      kind = unreferenced_object;
      expected = "SQL market_object row";
      actual = some "object exists without SQL record";
    }
      ∷ others

abbrev pub missing : String → EvidenceMismatch
missing key = record {
  object_key = key;
  kind = missing_object;
  expected = "present";
  actual = none;
}

-- What `stat` gives for one expectation: an error other than ObjectNotFoundError goes on.
unfoldable pub expected_mismatches :
    MarketObjectExpectation → Result StoredObject → Result (List EvidenceMismatch)
unfolding differences
expected_mismatches expected (err (object_not_found key)) = ok (missing expected.object_key ∷ [])
expected_mismatches expected (err raised) = err raised
expected_mismatches expected (ok actual) =
    ok (differences expected.object_key (comparisons expected actual))

module _ {S : Type 0} (o : ObjectStore S) (store : S) where
  unfoldable pub check_expectations : List MarketObjectExpectation → Result (List EvidenceMismatch)
  unfolding expected_mismatches
  check_expectations [] = ok []
  check_expectations (expected ∷ rest) = do
    found ← expected_mismatches expected (o.stat store expected.object_key)
    others ← check_expectations rest
    ok (found ++ others)

  unfoldable pub reconcile_objects :
      List MarketObjectExpectation → String → Result EvidenceReconciliation
  unfolding check_expectations unreferenced
  reconcile_objects expectations prefix = do
    mismatches ← check_expectations expectations
    listed ← o.list store prefix
    ok (record {
      checked_objects = length expectations;
      mismatches = mismatches ++ unreferenced (map (λ e. e.object_key) expectations) listed;
    })

-- ===== src/Canonical.antt =====
-- domain/canonical.py: canonical values, their JSON text, hashes and idempotency keys. The hash
-- function is a parameter; the JSON text is that of `json.dumps` with its ASCII escapes.
pub mod Json
pub mod Support
use Prim.Native.String.{◌++◌ as str_append}
use sopara.Prelude.{
  ℕ, String, ◌≡◌, Bool, true, false, List, [], ◌∷◌, Date, print_ℕ, print_two, is_blank,
  if◌then◌else◌, ltb,
}
use sopara.Prelude.Int.{ℤ, pos, negsuc}
use sopara.Errors.{Result, ok, err, domain_error, ◌>>=◌}
use sopara.Instruments.Arithmetic.{Exact, Decimal, finite, infinity, nan}
use sopara.Canonical.Json.{Value, Values, Fields, dumps, sort_fields, insert_value, print_exact}

-- What `canonical_value` may be given. A member of an enumeration is its text; `unsupported` holds
-- the name of any other type.
mutual
  pub data Object : Type 0 where
    none : Object
    boolean : Bool → Object
    integer : ℤ → Object
    string : String → Object
    decimal : Decimal → Object
    date : Date → Object
    dataclass : Attributes → Object
    mapping : Attributes → Object
    untyped_mapping : Object
    sequence : Objects → Object
    collection : Objects → Object
    unsupported : String → Object

  pub data Objects : Type 0 where
    nil : Objects
    cons : Object → Objects → Objects

  pub data Attributes : Type 0 where
    end : Attributes
    attribute : String → Object → Attributes → Attributes

-- A year, in four digits.
abbrev print_four : ℕ → String
print_four n =
    str_append
      (if ltb n 10 then "000" else if ltb n 100 then "00" else if ltb n 1000 then "0" else "")
      (print_ℕ n)

-- `date.isoformat`
abbrev pub isoformat : Date → String
isoformat d =
    str_append (print_four d.year)
      (str_append "-" (str_append (print_two d.month) (str_append "-" (print_two d.day))))

unfoldable mutual
  pub canonical_value : Object → Result Value
  canonical_value none = ok Value.null
  canonical_value (boolean b) = ok (Value.boolean b)
  canonical_value (integer n) = ok (Value.integer n)
  canonical_value (string s) = ok (Value.string s)
  canonical_value (decimal (finite x)) = ok (Value.string (print_exact x))
  canonical_value (decimal infinity) = err (domain_error "canonical decimals must be finite")
  canonical_value (decimal nan) = err (domain_error "canonical decimals must be finite")
  canonical_value (date d) = ok (Value.string (isoformat d))
  canonical_value (dataclass fs) = do v ← canonical_fields fs; ok (Value.mapping v)
  canonical_value (mapping fs) = do v ← canonical_fields fs; ok (Value.mapping (sort_fields v))
  canonical_value untyped_mapping = err (domain_error "canonical mappings require string keys")
  canonical_value (sequence xs) = do v ← canonical_items xs; ok (Value.sequence v)
  canonical_value (collection xs) = do v ← canonical_collection xs; ok (Value.sequence v)
  canonical_value (unsupported name) =
      err (domain_error (str_append "unsupported canonical value: " name))

  -- The fields of a dataclass in their order, and the items of a mapping before they are sorted.
  pub canonical_fields : Attributes → Result Fields
  canonical_fields end = ok Fields.end
  canonical_fields (attribute k x fs) = do
    v ← canonical_value x
    rest ← canonical_fields fs
    ok (Fields.field k v rest)

  pub canonical_items : Objects → Result Values
  canonical_items nil = ok Values.nil
  canonical_items (cons x xs) = do
    v ← canonical_value x
    rest ← canonical_items xs
    ok (Values.cons v rest)

  -- The items of a set, sorted by their JSON text.
  pub canonical_collection : Objects → Result Values
  canonical_collection nil = ok Values.nil
  canonical_collection (cons x xs) = do
    v ← canonical_value x
    rest ← canonical_collection xs
    ok (insert_value v rest)

unfoldable pub canonical_json : Object → Result String
unfolding canonical_value
canonical_json x = do v ← canonical_value x; ok (dumps "," ":" v)

module _ (sha256 : String → String) where
  unfoldable pub canonical_sha256 : Object → Result String
  unfolding canonical_json
  canonical_sha256 x = do json ← canonical_json x; ok (sha256 json)

  -- `f"{namespace}:{canonical_sha256(parts)}"`
  unfoldable pub stable_idempotency_key : String → Objects → Result String
  unfolding canonical_sha256
  stable_idempotency_key namespace parts =
      if is_blank namespace then err (domain_error "idempotency namespace is required") else do
        digest ← canonical_sha256 (sequence parts)
        ok (str_append namespace (str_append ":" digest))

-- ===== src/Canonical/Json.antt =====
-- The JSON values that domain/canonical.py prints, and Python's `json.dumps(value, sort_keys=True)`.
use Prim.Native.Char.{Char, code}
use Prim.Native.String.{◌++◌, compare}
use text.Mathlib.Text.{is_lt}
use sopara.Prelude.{
  ℕ, zero, suc, ◌+◌, ◌-◌, ◌/◌, ◌%◌, ◌^◌, String, Bool, true, false, print_ℕ, ltb, leb, ◌==◌,
  if◌then◌else◌, ◌&&◌,
}
use sopara.Prelude.Int.{ℤ, pos, negsuc}
use sopara.Prelude.Numerals.{digit}
use sopara.Instruments.Arithmetic.{Exact}

mutual
  pub data Value : Type 0 where
    null : Value
    boolean : Bool → Value
    integer : ℤ → Value
    string : String → Value
    sequence : Values → Value
    mapping : Fields → Value

  pub data Values : Type 0 where
    nil : Values
    cons : Value → Values → Values

  pub data Fields : Type 0 where
    end : Fields
    field : String → Value → Fields → Fields

unfoldable pub print_ℤ : ℤ → String
print_ℤ (pos n) = print_ℕ n
print_ℤ (negsuc n) = "-" ++ print_ℕ (suc n)

-- The last `scale` digits of `n`, with leading zeros.
unfoldable pub print_fraction : ℕ → ℕ → String
print_fraction zero n = ""
print_fraction (suc scale) n = print_fraction scale (n / 10) ++ digit (n % 10)

unfoldable pub print_magnitude : ℕ → ℕ → String
unfolding print_fraction
print_magnitude zero n = print_ℕ n
print_magnitude (suc scale) n =
    print_ℕ (n / 10 ^ suc scale) ++ ("." ++ print_fraction (suc scale) (n % 10 ^ suc scale))

-- `format(value, "f")` of a finite decimal that is not the negative zero.
unfoldable pub print_exact : Exact → String
unfolding print_magnitude
print_exact x = elim x.coefficient [
  | pos n ↦ print_magnitude x.scale n
  | negsuc n ↦ "-" ++ print_magnitude x.scale (suc n)
]

abbrev hex_digit : ℕ → String
hex_digit n =
    if ltb n 10
    then digit n
    else if n == 10
    then "a"
    else if n == 11
    then "b"
    else if n == 12
    then "c"
    else if n == 13
    then "d"
    else if n == 14
    then "e"
    else "f"

abbrev unicode_escape : ℕ → String
unicode_escape n =
    "\\u"
    ++ (hex_digit (n / 4096)
        ++ (hex_digit (n / 256 % 16) ++ (hex_digit (n / 16 % 16) ++ hex_digit (n % 16))))

-- One character of a string, as `ensure_ascii` writes it: a pair of surrogates above the basic plane.
unfoldable pub escape : Char → String
escape c =
    let n = code c in
    if n == 34
    then "\\\""
    else if n == 92
    then "\\\\"
    else if n == 10
    then "\\n"
    else if n == 13
    then "\\r"
    else if n == 9
    then "\\t"
    else if n == 12
    then "\\f"
    else if n == 8
    then "\\b"
    else if leb 32 n && ltb n 127
    then String.◌∷◌ c String.[]
    else if ltb n 65536
    then unicode_escape n
    else unicode_escape (55296 + (n - 65536) / 1024) ++ unicode_escape (56320 + (n - 65536) % 1024)

unfoldable pub escape_all : String → String
unfolding escape
escape_all String.[] = ""
escape_all (String.◌∷◌ c s) = escape c ++ escape_all s

abbrev pub quote_text : String → String
quote_text s = "\"" ++ (escape_all s ++ "\"")

-- Insertion into fields that are sorted by key.
unfoldable pub insert_field : String → Value → Fields → Fields
insert_field k v end = field k v end
insert_field k v (field j w fs) =
    if is_lt (compare j k) then field j w (insert_field k v fs) else field k v (field j w fs)

unfoldable pub sort_fields : Fields → Fields
unfolding insert_field
sort_fields end = end
sort_fields (field k v fs) = insert_field k v (sort_fields fs)

module _ (item_separator key_separator : String) where
  unfoldable mutual
    pub print_value : Value → String
    print_value null = "null"
    print_value (boolean true) = "true"
    print_value (boolean false) = "false"
    print_value (integer n) = print_ℤ n
    print_value (string s) = quote_text s
    print_value (sequence xs) = "[" ++ (print_items xs ++ "]")
    print_value (mapping fs) = "{" ++ (print_fields fs ++ "}")

    pub print_items : Values → String
    print_items nil = ""
    print_items (cons v nil) = print_value v
    print_items (cons v (cons w vs)) = print_value v ++ (item_separator ++ print_items (cons w vs))

    pub print_fields : Fields → String
    print_fields end = ""
    print_fields (field k v end) = quote_text k ++ (key_separator ++ print_value v)
    print_fields (field k v (field j w fs)) =
        quote_text k
        ++ (key_separator ++ (print_value v ++ (item_separator ++ print_fields (field j w fs))))

-- `sort_keys=True` at every level.
unfoldable mutual
  pub sort_keys : Value → Value
  sort_keys null = null
  sort_keys (boolean b) = boolean b
  sort_keys (integer n) = integer n
  sort_keys (string s) = string s
  sort_keys (sequence xs) = sequence (sort_items xs)
  sort_keys (mapping fs) = mapping (sort_each fs)

  pub sort_items : Values → Values
  sort_items nil = nil
  sort_items (cons v vs) = cons (sort_keys v) (sort_items vs)

  pub sort_each : Fields → Fields
  sort_each end = end
  sort_each (field k v fs) = insert_field k (sort_keys v) (sort_each fs)

unfoldable pub dumps : String → String → Value → String
unfolding print_value sort_keys
dumps item_separator key_separator v = print_value item_separator key_separator (sort_keys v)

-- Insertion into items that are sorted by their JSON text, with `json.dumps`'s own separators.
unfoldable pub insert_value : Value → Values → Values
unfolding dumps
insert_value v nil = cons v nil
insert_value v (cons w ws) =
    if is_lt (compare (dumps ", " ": " w) (dumps ", " ": " v))
    then cons w (insert_value v ws)
    else cons v (cons w ws)

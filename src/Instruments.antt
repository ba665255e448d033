-- ===== src/Instruments.antt =====
-- domain/instruments.py: prices and money, products, contract specifications.
pub mod Arithmetic
pub mod Precision
pub mod Grid
pub mod Gross
pub mod Align
use Arithmetic.{
  Exact, Decimal, finite, infinity, nan, ltb_exact, leb_exact, of_int, add, sub, mul, divides,
  quotient,
}
use Prim.Native.String.{◌++◌ as str_append}
use sopara.Prelude.{
  ℕ, suc, ◌+◌, String, ◌≡◌, Bool, true, false, not, ◌&&◌, ◌||◌, ◌==◌, Date, print_ℕ, print_two,
  if◌then◌else◌,
}
use sopara.Prelude.Int.{ℤ, pos, negsuc, leb_ℤ}
use sopara.Errors.{Result, ok, err, domain_error, raise_if, ◌>>=◌, ◌>>◌}

-- What `exact_decimal` may be given; a text has been read by `Decimal` already.
pub data DecimalInput : Type 0 where
  boolean float : DecimalInput
  integer : ℤ → DecimalInput
  decimal : Decimal → DecimalInput

unfoldable pub exact_decimal : DecimalInput → Result Exact
exact_decimal boolean = err (domain_error "binary floating-point values are forbidden")
exact_decimal float = err (domain_error "binary floating-point values are forbidden")
exact_decimal (integer n) = ok (of_int n)
exact_decimal (decimal (finite x)) = ok x
exact_decimal (decimal infinity) = err (domain_error "numeric values must be finite")
exact_decimal (decimal nan) = err (domain_error "numeric values must be finite")

pub record Price : Type 0 where
  pub value : Exact

-- `Price(value)` with its `__post_init__`; its argument is finite wherever the program calls it.
unfoldable pub new_price : Exact → Result Price
new_price x =
    if leb_ℤ x.coefficient (pos 0)
    then err (domain_error "price must be finite and positive")
    else ok (record { value = x })

unfoldable pub parse_price : DecimalInput → Result Price
unfolding new_price exact_decimal
parse_price input = do x ← exact_decimal input; new_price x

pub record Money : Type 0 where
  pub value : Exact

unfoldable pub parse_money : DecimalInput → Result Money
unfolding exact_decimal
parse_money input = do x ← exact_decimal input; ok (record { value = x })

unfoldable pub add_money : Money → Money → Money
unfolding add
add_money a b = record { value = add a.value b.value }

unfoldable pub sub_money : Money → Money → Money
unfolding sub
sub_money a b = record { value = sub a.value b.value }

pub data Product : Type 0 where
  es nes : Product

abbrev pub product_value : Product → String
product_value es = "ES"
product_value nes = "NES"

abbrev pub is_nes : Product → Bool
is_nes es = false
is_nes nes = true

pub data Direction : Type 0 where
  long short : Direction

abbrev pub direction_value : Direction → String
direction_value long = "LONG"
direction_value short = "SHORT"

unfoldable pub sign : Direction → ℤ
sign long = pos 1
sign short = negsuc 0

pub record InstrumentSpec : Type 0 where
  pub product : Product
  pub tick_size : Exact
  pub multiplier : Exact

unfoldable pub check_spec : InstrumentSpec → Result InstrumentSpec
check_spec s = do
  raise_if (leb_ℤ s.tick_size.coefficient (pos 0) || leb_ℤ s.multiplier.coefficient (pos 0))
      "tick size and multiplier must be positive"
  ok s

unfoldable pub tick_value : InstrumentSpec → Money
unfolding mul
tick_value s = record { value = mul s.tick_size s.multiplier }

unfoldable pub is_on_grid : InstrumentSpec → Price → Result Bool
unfolding divides
is_on_grid s price = divides s.tick_size price.value

unfoldable pub ticks : InstrumentSpec → Price → Result ℤ
unfolding is_on_grid quotient
ticks s price = do
  on_grid ← is_on_grid s price
  raise_if (not on_grid) "price is off the price grid"
  ok (quotient price.value s.tick_size)

unfoldable pub price_from_ticks : InstrumentSpec → ℤ → Result Price
unfolding new_price mul
price_from_ticks s n = do
  raise_if (leb_ℤ n (pos 0)) "price ticks must be positive"
  new_price (mul s.tick_size (of_int n))

unfoldable pub gross_pnl : InstrumentSpec → Price → Price → Direction → ℤ → Result Money
unfolding ticks mul sub sign
gross_pnl s entry exit_price direction quantity = do
  raise_if (leb_ℤ quantity (pos 0)) "quantity must be positive"
  _ ← ticks s entry
  _ ← ticks s exit_price
  let points = mul (sub exit_price.value entry.value) (of_int (sign direction))
  ok (record { value = mul (mul points s.multiplier) (of_int quantity) })

abbrev pub es_spec : InstrumentSpec
es_spec = record {
  product = es;
  tick_size = record { coefficient = pos 25; scale = 2 };
  multiplier = record { coefficient = pos 50; scale = 0 };
}

abbrev pub nes_spec : InstrumentSpec
nes_spec = record {
  product = nes;
  tick_size = record { coefficient = pos 5; scale = 1 };
  multiplier = record { coefficient = pos 50; scale = 2 };
}

pub record ContractId : Type 0 where
  pub product : Product
  pub expiry : Date

-- `expiry.month not in {3, 6, 9, 12}`
unfoldable pub check_contract : ContractId → Result ContractId
check_contract c = do
  raise_if
      (not
        (c.expiry.month == 3 || c.expiry.month == 6 || c.expiry.month == 9 || c.expiry.month == 12))
      "only explicit quarterly contracts are supported"
  ok c

-- `f"{product}-{expiry:%Y-%m}"`
unfoldable pub canonical : ContractId → String
canonical c = str_append (product_value c.product) (
    str_append "-" (str_append (print_ℕ c.expiry.year) (str_append "-" (print_two c.expiry.month))))

abbrev pub spec : ContractId → InstrumentSpec
spec c = elim c.product [ es ↦ es_spec | nes ↦ nes_spec ]

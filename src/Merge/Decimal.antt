-- ===== src/Merge/Decimal.antt =====
-- `Decimal` values as financial_dashboard/services/txn_merge.py compares them, and its
-- `_quantize_balance`. A value is ±coefficient / 10 ^ places.
use Prim.Native.Nat.{◌^◌, ◌/◌, ◌%◌}
use bank_email_fetcher.Prelude.{
  ℕ, ◌+◌, ◌*◌, ◌-◌, Bool, ◌&&◌, ◌||◌, Option, none, some, true, false, leb, ltb, eqb, if◌then◌else◌,
}

pub record Decimal : Type 0 where
  pub negative : Bool
  pub coefficient : ℕ
  pub places : ℕ

abbrev pub bool_eq : Bool → Bool → Bool
bool_eq true b = b
bool_eq false true = false
bool_eq false false = true

-- `a == b`, which reads the value: 1.0 == 1.00, and -0 == 0
unfoldable pub dec_eq : Decimal → Decimal → Bool
dec_eq a b =
    eqb (a.coefficient * 10 ^ b.places) (b.coefficient * 10 ^ a.places)
    && (bool_eq a.negative b.negative || eqb a.coefficient 0)

-- n / d to the nearest number, a half to the even one
unfoldable pub half_even : ℕ → ℕ → ℕ
half_even n d =
    let q = n / d in
    let twice = 2 * (n % d) in if ltb twice d then q else if ltb d twice then q + 1 else q + q % 2

-- `value.quantize(Decimal("0.01"))`
unfoldable pub quantize : Decimal → Decimal
quantize a = record {
  negative = a.negative;
  coefficient =
      if leb a.places 2
      then a.coefficient * 10 ^ (2 - a.places)
      else half_even a.coefficient (10 ^ (a.places - 2));
  places = 2;
}

-- `_quantize_balance`
abbrev pub quantize_balance : Option Decimal → Option Decimal
quantize_balance none = none
quantize_balance (some a) = some (quantize a)

-- whether both balances are known and differ
abbrev pub quantized_differ : Option Decimal → Option Decimal → Bool
quantized_differ none b = false
quantized_differ (some a) none = false
quantized_differ (some a) (some b) = if dec_eq a b then false else true

unfoldable pub balances_differ : Option Decimal → Option Decimal → Bool
balances_differ a b = quantized_differ (quantize_balance a) (quantize_balance b)

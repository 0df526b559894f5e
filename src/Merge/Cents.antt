-- ===== src/Merge/Cents.antt =====
-- What a column of two decimal places keeps of an amount.
use bank_email_fetcher.Prelude.{
  ℕ, zero, suc, ◌≤◌, Bool, true, false, Option, none, some, ◌≡◌, refl, ap, arith, Bool-cases, inl,
  inr,
}
use bank_email_fetcher.Merge.Decimal.{
  Decimal, dec_eq, bool_eq, quantize, quantize_balance, balances_differ,
}

-- at most two decimal places
abbrev pub IsCents : Decimal → Type 0
IsCents a = a.places ≤ 2

abbrev pub AreCents : Option Decimal → Type 0
AreCents none = Unit
AreCents (some a) = IsCents a

pub dec_eq_refl : (a : Decimal) → dec_eq a a ≡ true
unfolding dec_eq
dec_eq_refl a = elim (Bool-cases a.negative) [
  | inl minus ↦ rw minus (ground arith)
  | inr plus ↦ rw plus (ground arith)
]

pub quantize_idem : (a : Decimal) → quantize (quantize a) ≡ quantize a
unfolding quantize
quantize_idem a =
    ap (λ c. record { negative = a.negative; coefficient = c; places = 2 }) (ground arith)

bool_eq_refl : (b : Bool) → bool_eq b b ≡ true
bool_eq_refl true = refl
bool_eq_refl false = refl

dec_eq-cents :
    (negative : Bool) (c p : ℕ)
    → p ≤ 2
    → dec_eq
        (quantize (record { negative = negative; coefficient = c; places = p }))
        (record { negative = negative; coefficient = c; places = p })
      ≡ true
unfolding quantize dec_eq
dec_eq-cents negative c zero h = rw (bool_eq_refl negative) (ground arith)
dec_eq-cents negative c (suc zero) h = rw (bool_eq_refl negative) (ground arith)
dec_eq-cents negative c (suc (suc zero)) h = rw (bool_eq_refl negative) (ground arith)
dec_eq-cents negative c (suc (suc (suc p))) h = absurd (omega arith)

pub dec_eq-quantize : (a : Decimal) → IsCents a → dec_eq (quantize a) a ≡ true
dec_eq-quantize a h = dec_eq-cents a.negative a.coefficient a.places h

pub balances_differ-quantize : (o : Option Decimal) → balances_differ o (quantize_balance o) ≡ false
unfolding balances_differ
balances_differ-quantize none = refl
balances_differ-quantize (some a) = rw (quantize_idem a, dec_eq_refl (quantize a))

-- ===== src/Merge/Candidates.antt =====
-- The candidates of the fuzzy pass (financial_dashboard/services/txn_merge.py) are rows that the query
-- selects, and equality of balances.
use bank_email_fetcher.Prelude.{
  ℕ, Bool, true, false, ◌||◌, Option, none, some, List, [], ◌∷◌, ◌≡◌, refl, In, arith, is_none,
  length, ltb,
}
use bank_email_fetcher.Masks.{normalize_mask}
use bank_email_fetcher.Merge.Decimal.{Decimal, dec_eq, quantize, quantize_balance, balances_differ}
use bank_email_fetcher.Merge.Row.{Text, Transaction, TxnData}
use bank_email_fetcher.Merge.Text.{card_payment_mask_match}
use bank_email_fetcher.Merge.Match.{
  keep, any, lacks_time, by_counterparty, same_terms, is_selected, in_time, by_account, narrowed,
  gather_on, gather_fuzzy_candidates, balance_is,
}
use bank_email_fetcher.Merge.Lists.{In-keep, In-or_keep, In-if}

In-in_time :
    (d : TxnData) (day : ℕ) (t : Option ℕ) (cs : List Transaction) (c : Transaction)
    → In c (in_time d day t cs)
    → In c cs
In-in_time d day none cs c i = i
In-in_time d day (some t) cs c i = (In-keep _ cs c i).0

pub In-by_account :
    (mask : Text) (cs : List Transaction) (c : Transaction) → In c (by_account mask cs) → In c cs
In-by_account [] cs c i = i
In-by_account (a ∷ mask) cs c i = (In-keep _ cs c i).0

pub In-narrowed :
    (d : TxnData) (cs : List Transaction) (c : Transaction) → In c (narrowed d cs) → In c cs
unfolding narrowed
In-narrowed d cs c i =
    In-if (is_none d.transaction_time || any lacks_time cs) _ _ cs c
      (λ j.
        In-or_keep (by_counterparty d cs) _ cs c (λ k. (In-keep _ cs c k).0)
          (λ k.
            In-or_keep (keep (λ c. card_payment_mask_match c d) cs) _ cs c
              (λ l. (In-keep _ cs c l).0) (λ l. (In-keep _ cs c l).0) k)
          j)
      (λ j.
        In-if (ltb 1 (length cs)) _ cs cs c
          (λ k. In-or_keep (by_counterparty d cs) cs cs c (λ l. (In-keep _ cs c l).0) (λ l. l) k)
          (λ k. k) j)
      i

In-gather_on :
    (currency : Text) (d : TxnData) (day : Option ℕ) (rows : List Transaction) (c : Transaction)
    → In c (gather_on currency d day rows)
    → In c rows × (same_terms currency d c ≡ true)
unfolding is_selected
In-gather_on currency d none rows c i = absurd i
In-gather_on currency d (some day) rows c i =
    let (found, selected) = In-keep (is_selected currency d day) rows c (
      In-in_time d day d.transaction_time _ c
        (In-by_account (normalize_mask d.account_mask) _ c (In-narrowed d _ c i))) in
    (found, ground arith)

-- A candidate of the fuzzy pass is a row that the query selects.
pub In-gather_fuzzy_candidates :
    (currency : Text) (d : TxnData) (rows : List Transaction) (c : Transaction)
    → In c (gather_fuzzy_candidates currency d rows)
    → In c rows × (same_terms currency d c ≡ true)
unfolding gather_fuzzy_candidates
In-gather_fuzzy_candidates currency d rows c i = In-gather_on currency d d.transaction_date rows c i

-- Equality at two places is symmetric.
dec_eq_sym :
    (m n : Bool) (k l : ℕ)
    → dec_eq
        (record { negative = n; coefficient = l; places = 2 })
        (record { negative = m; coefficient = k; places = 2 })
      ≡ true
    → dec_eq
        (record { negative = m; coefficient = k; places = 2 })
        (record { negative = n; coefficient = l; places = 2 })
      ≡ true
unfolding dec_eq
dec_eq_sym true true k l h = ground arith
dec_eq_sym true false k l h = ground arith
dec_eq_sym false true k l h = ground arith
dec_eq_sym false false k l h = ground arith

quantize_sym :
    (a b : Decimal)
    → dec_eq (quantize b) (quantize a) ≡ true
    → dec_eq (quantize a) (quantize b) ≡ true
unfolding quantize
quantize_sym a b h = dec_eq_sym a.negative b.negative _ _ h

pub known_balance-agrees :
    (a : Decimal) (b : Option Decimal)
    → balance_is (quantize a) (quantize_balance b) ≡ true
    → balances_differ (some a) b ≡ false
unfolding balances_differ
known_balance-agrees a none h = refl
known_balance-agrees a (some b) h = rw (quantize_sym a b h)

pub balances_differ-none : (b : Option Decimal) → balances_differ none b ≡ false
unfolding balances_differ
balances_differ-none b = refl

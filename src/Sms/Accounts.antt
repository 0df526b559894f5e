-- ===== src/Sms/Accounts.antt =====
-- What the SMS pipeline does to the account of a row: `link_transaction`
-- (financial_dashboard/services/linker.py) on the row of the table, and the gates of
-- financial_dashboard/services/cc_disambiguation.py. The column `card_id` is not one of the table here.
use bank_email_fetcher.Prelude.{
  ℕ, Bool, false, ◌&&◌, ◌||◌, not, Option, none, some, List, [], ◌∷◌, codes, str_eq, eqb, is_empty,
  is_none, if◌then◌else◌,
}
use bank_email_fetcher.Linker.Context.{LinkContext}
use bank_email_fetcher.Linker.Link
use bank_email_fetcher.Linker.Link.{link_transaction}
use bank_email_fetcher.Merge.Decimal.{Decimal}
use bank_email_fetcher.Merge.Row.{Text, Transaction}
use bank_email_fetcher.Merge.Text.{ends_with}
use bank_email_fetcher.Merge.Enrich.{Field, FieldType, Filled, card_mask, account_mask}

-- the row as the linker reads it
abbrev pub as_linked : Transaction → Link.Transaction
as_linked r = record {
  account_id = r.account_id;
  card_id = none;
  bank = r.bank;
  email_type = some r.email_type;
  card_mask = r.card_mask;
  account_mask = r.account_mask;
}

unfoldable pub link_row : LinkContext → Transaction → Transaction
link_row ctx r = record r { account_id = (link_transaction ctx (as_linked r)).1.account_id }

abbrev pub fills_mask : (f : Field) → FieldType f → Bool
fills_mask card_mask v = not (is_empty v)
fills_mask account_mask v = not (is_empty v)
fills_mask f v = false

-- diff.filled.get("card_mask") or diff.filled.get("account_mask")
abbrev pub has_mask : List Filled → Bool
has_mask [] = false
has_mask (c ∷ cs) = fills_mask c.field c.value || has_mask cs

-- `_CC_PAYMENT_RECEIVED_SUFFIXES`
abbrev pub cc_payment_received_suffixes : List Text
cc_payment_received_suffixes =
    codes "_cc_payment_alert"
    ∷ codes "_cc_upi_payment_alert"
    ∷ codes "_cc_credit_alert"
    ∷ codes "_cc_payment"
    ∷ codes "_cc_bill_paid"
    ∷ codes "_cc_payment_received_alert"
    ∷ codes "_cc_bill_paid_alert"
    ∷ codes "_cc_repayment_received_alert"
    ∷ codes "sbi_payment_ack"
    ∷ []

abbrev pub ends_in_any : Text → List Text → Bool
ends_in_any s [] = false
ends_in_any s (t ∷ ts) = ends_with s t || ends_in_any s ts

-- `is_cc_payment_received_email`
unfoldable pub is_cc_payment_received_email : Text → Bool
is_cc_payment_received_email email_type =
    if is_empty email_type then false else ends_in_any email_type cc_payment_received_suffixes

-- `should_auto_reconcile_statement`
unfoldable pub should_auto_reconcile_statement : Transaction → Bool
should_auto_reconcile_statement r =
    str_eq r.direction "credit"
    && not (is_none r.account_id)
    && is_cc_payment_received_email r.email_type

-- (txn_row.id, txn_row.account_id, txn_row.amount), where the account is known
abbrev pub payment_of : Transaction → Option ℕ → Option (ℕ × ℕ × Decimal)
payment_of r none = none
payment_of r (some account_id) = some (r.id, account_id, r.amount)

unfoldable pub pending_payment : Transaction → Option (ℕ × ℕ × Decimal)
pending_payment r = if should_auto_reconcile_statement r then payment_of r r.account_id else none

-- the account of the row afterwards, and the candidates of a prompt
pub record AccountChoice : Type 0 where
  pub account_id : Option ℕ
  pub prompt : Option (List ℕ)

-- amount <= 0
abbrev pub is_not_positive : Decimal → Bool
is_not_positive a = a.negative || eqb a.coefficient 0

-- `resolve_cc_payment_account` up to its gates; `choose` is its search among the cards of the bank
unfoldable pub resolve_cc_payment_account :
    (Transaction → AccountChoice) → Transaction → AccountChoice
resolve_cc_payment_account choose r =
    if not (is_none r.account_id)
      || not (str_eq r.direction "credit")
      || not (is_cc_payment_received_email r.email_type)
      || is_not_positive r.amount
    then record { account_id = r.account_id; prompt = none }
    else choose r

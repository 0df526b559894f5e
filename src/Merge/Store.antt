-- ===== src/Merge/Store.antt =====
-- The table of transactions as merging writes it: the insertion and the unique index on references, the
-- claim of a source slot (financial_dashboard/services/email_attachments.py), the UPDATE of a flush,
-- and the self-transfer rule on the table.
use Prim.Native.Nat.{max}
use bank_email_fetcher.Prelude.{
  ℕ, ◌+◌, String, Bool, true, false, ◌&&◌, Option, none, some, List, [], ◌∷◌, map, eqb, codes,
  codes_eq, str_eq, if◌then◌else◌,
}
use bank_email_fetcher.Categorize.Transfer
use bank_email_fetcher.Categorize.Transfer.{Category, Details, apply_reference_self_transfer_rule}
use bank_email_fetcher.Merge.Decimal.{quantize, quantize_balance}
use bank_email_fetcher.Merge.Row.{
  Text, Channel, sms, email, Transaction, TxnData, channel_text, slot_of,
}
use bank_email_fetcher.Merge.Match.{any}
use bank_email_fetcher.Merge.Find.{reference_is}

-- what the database gives as the id of a new row
abbrev pub next_id : List Transaction → ℕ
next_id [] = 1
next_id (r ∷ rows) = max (r.id + 1) (next_id rows)

abbrev pub no_category : Category
no_category = record {
  slug = none;
  method = none;
  confidence = none;
  model = none;
  input_hash = none;
  vocab_version = none;
  categorized_at = none;
  review_status = none;
  review_reason = none;
}

-- a column with a default takes it where the value is None
abbrev pub default_text : Option Text → Text → Option Text
default_text none d = some d
default_text (some s) d = some s

abbrev pub default_string : Option String → String → String
default_string none d = d
default_string (some s) d = s

-- `Transaction(**txn_data, source=channel, ...)` as the table stores it: the amount and the balance are
-- columns Numeric(12, 2), which round to two places. The driver rounds a float, so a tie in the third
-- place may go the other way there than here.
unfoldable pub new_row : ℕ → Channel → TxnData → Option ℕ → Option ℕ → Transaction
new_row id ch d sms_message_id email_id = record {
  id = id;
  email_id = email_id;
  sms_message_id = sms_message_id;
  account_id = none;
  bank = d.bank;
  email_type = d.email_type;
  direction = d.direction;
  amount = quantize d.amount;
  currency = default_text d.currency (codes "INR");
  transaction_date = d.transaction_date;
  transaction_time = d.transaction_time;
  identifies_by = default_string d.identifies_by "counterparty";
  transaction_time_is_received_time = d.transaction_time_is_received_time;
  counterparty = d.counterparty;
  card_mask = d.card_mask;
  account_mask = d.account_mask;
  reference_number = d.reference_number;
  channel = d.channel;
  balance = quantize_balance d.balance;
  raw_description = d.raw_description;
  source = some (channel_text ch);
  notified_channel = some (channel_text ch);
  enriched_at = none;
  category = no_category;
}

-- the row as the session that made it holds it, with the amount as it came
abbrev pub held_row : TxnData → Transaction → Transaction
held_row d r = record r { amount = d.amount }

-- the key of the partial unique index `uq_transactions_ref`, whether two rows have it in common
abbrev pub refers_to : Option Text → Option Text → Bool
refers_to stored none = false
refers_to stored (some r) = reference_is stored r

unfoldable pub same_key : Transaction → Transaction → Bool
same_key a b =
    codes_eq a.bank b.bank
    && str_eq a.direction b.direction
    && refers_to a.reference_number b.reference_number

-- whether the index admits the table
unfoldable pub has_unique_refs : List Transaction → Bool
has_unique_refs [] = true
has_unique_refs (r ∷ rows) =
    let rest = has_unique_refs rows in if any (same_key r) rows then false else rest

abbrev pub set_slot : Channel → ℕ → Transaction → Transaction
set_slot sms source_id r = record r { sms_message_id = some source_id }
set_slot email source_id r = record r { email_id = some source_id }

abbrev pub slot_admits : Option ℕ → ℕ → Bool
slot_admits none source_id = true
slot_admits (some owner) source_id = eqb owner source_id

-- UPDATE transactions SET ... WHERE id = :id
unfoldable pub update_row : ℕ → (Transaction → Transaction) → List Transaction → List Transaction
update_row id f [] = []
update_row id f (r ∷ rows) =
    let rest = update_row id f rows in if eqb r.id id then f r ∷ rest else r ∷ rest

abbrev pub may_claim : ℕ → Channel → ℕ → Transaction → Bool
may_claim id ch source_id r = eqb r.id id && slot_admits (slot_of ch r) source_id

abbrev pub claim_open : ℕ → Channel → ℕ → List Transaction → Option (List Transaction)
claim_open id ch source_id rows =
    if any (may_claim id ch source_id) rows
    then some (update_row id (set_slot ch source_id) rows)
    else none

abbrev pub claim_unless_filled :
    Option ℕ → ℕ → Channel → ℕ → List Transaction → Option (List Transaction)
claim_unless_filled (some owner) id ch source_id rows = some rows
claim_unless_filled none id ch source_id rows = claim_open id ch source_id rows

-- `claim_transaction_source_slot` for the row as the matcher read it, on the table as it now is; none is
-- a TransactionSlotConflict. An id names one row.
unfoldable pub claim_transaction_source_slot :
    Transaction → Channel → Option ℕ → List Transaction → Option (List Transaction)
claim_transaction_source_slot txn ch none rows = some rows
claim_transaction_source_slot txn ch (some source_id) rows =
    claim_unless_filled (slot_of ch txn) txn.id ch source_id rows

abbrev pub details_of : Transaction → Details
details_of r = record {
  reference_number = r.reference_number;
  direction = r.direction;
  amount = r.amount;
  currency = r.currency;
  account_id = r.account_id;
  account_mask = r.account_mask;
  counterparty = r.counterparty;
  raw_description = r.raw_description;
  channel = r.channel;
  email_type = some r.email_type;
  bank = some r.bank;
}

-- the row as the self-transfer rule reads it, and what the rule writes put back
abbrev pub as_categorized : Transaction → Transfer.Transaction
as_categorized r = record { id = r.id; details = details_of r; category = r.category }

abbrev pub with_categories : List Transaction → List Transfer.Transaction → List Transaction
with_categories [] ts = []
with_categories (r ∷ rows) [] = r ∷ rows
with_categories (r ∷ rows) (t ∷ ts) = record r { category = t.category } ∷ with_categories rows ts

-- `apply_reference_self_transfer_rule` for this row of the table
unfoldable pub apply_self_transfer :
    (Details → String) → ℕ → ℕ → Transaction → List Transaction → List Transaction
apply_self_transfer input_hash vocab_version now r rows =
    with_categories rows
      (apply_reference_self_transfer_rule input_hash vocab_version now r.id (details_of r)
        (map as_categorized rows)).1

abbrev pub find_row : (Transaction → Bool) → List Transaction → Option Transaction
find_row p [] = none
find_row p (r ∷ rows) = if p r then some r else find_row p rows

-- ===== src/Merge/Row.antt =====
-- The columns of `Transaction` (financial_dashboard/db/models.py) that merging reads or writes, and
-- the keys of `txn_data` (financial_dashboard/services/txn_merge.py).
use bank_email_fetcher.Prelude.{ℕ, String, Bool, Option, none, some, List, [], ◌∷◌, codes}
use bank_email_fetcher.Categorize.Transfer.{Category}
use bank_email_fetcher.Merge.Decimal.{Decimal}

abbrev pub Text : Type 0
Text = List ℕ

-- `Channel`
pub data Channel : Type 0 where
  sms email : Channel

-- A date is its ordinal, and a time the microseconds since midnight.
pub record Transaction : Type 0 where
  pub id : ℕ
  pub email_id : Option ℕ
  pub sms_message_id : Option ℕ
  pub account_id : Option ℕ
  pub bank : Text
  pub email_type : Text
  pub direction : String
  pub amount : Decimal
  pub currency : Option Text
  pub transaction_date : Option ℕ
  pub transaction_time : Option ℕ
  pub identifies_by : String
  pub transaction_time_is_received_time : Bool
  pub counterparty : Option Text
  pub card_mask : Option Text
  pub account_mask : Option Text
  pub reference_number : Option Text
  pub channel : Option Text
  pub balance : Option Decimal
  pub raw_description : Option Text
  pub source : Option String
  pub notified_channel : Option String
  pub enriched_at : Option ℕ
  pub category : Category

-- `txn_data`; a key that is missing is read as None
pub record TxnData : Type 0 where
  pub bank : Text
  pub email_type : Text
  pub direction : String
  pub amount : Decimal
  pub currency : Option Text
  pub transaction_date : Option ℕ
  pub transaction_time : Option ℕ
  pub identifies_by : Option String
  pub transaction_time_is_received_time : Bool
  pub counterparty : Option Text
  pub card_mask : Option Text
  pub account_mask : Option Text
  pub reference_number : Option Text
  pub channel : Option Text
  pub balance : Option Decimal
  pub raw_description : Option Text

-- `currency or "INR"`
abbrev pub or_inr : Option Text → Text
or_inr none = codes "INR"
or_inr (some []) = codes "INR"
or_inr (some (c ∷ s)) = c ∷ s

-- coalesce(currency, "INR"), which keeps the empty text
abbrev pub coalesce_inr : Option Text → Text
coalesce_inr none = codes "INR"
coalesce_inr (some s) = s

abbrev pub channel_text : Channel → String
channel_text sms = "sms"
channel_text email = "email"

-- the slot of a channel
abbrev pub slot_of : Channel → Transaction → Option ℕ
slot_of sms c = c.sms_message_id
slot_of email c = c.email_id

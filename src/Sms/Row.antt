-- ===== src/Sms/Row.antt =====
-- `SmsMessage` (financial_dashboard/db/models.py), what the parser gives, and `parsed_sms_to_txn_data`
-- of financial_dashboard/services/sms_pipeline.py.
use Prim.Native.Nat.{◌/◌, ◌%◌}
use bank_email_fetcher.Prelude.{ℕ, ◌+◌, ◌*◌, String, Option, none, some, List, str_eq}
use bank_email_fetcher.Merge.Decimal.{Decimal}
use bank_email_fetcher.Merge.Row.{Text, Transaction, TxnData}
use bank_email_fetcher.Merge.Window.{minute, day, date_of}
use bank_email_fetcher.Merge.Match.{DeferralReason}
use bank_email_fetcher.Merge.Enrich.{EnrichmentDiff}

-- `SmsMessage`; `received_at` is a point in UTC, which a value without a zone is read as
pub record SmsMessage : Type 0 where
  pub id : ℕ
  pub bank : Text
  pub sender : Text
  pub body : Text
  pub received_at : ℕ
  pub status : String
  pub transaction_id : Option ℕ
  pub parse_error : Option Text
  pub parsed_at : Option ℕ

-- the values of the package bank_sms_parser: a transaction, a message, and what `parse_sms` returns or
-- raises, with the text of the exception
pub record ParsedTransaction : Type 0 where
  pub direction : String
  pub amount : Decimal
  pub currency : Text
  pub transaction_date : Option ℕ
  pub transaction_time : Option ℕ
  pub counterparty : Option Text
  pub card_mask : Option Text
  pub account_mask : Option Text
  pub reference_number : Option Text
  pub channel : Option Text
  pub balance : Option Decimal
  pub raw_description : Option Text

pub record ParsedSms : Type 0 where
  pub bank : Text
  pub email_type : Text
  pub transaction : Option ParsedTransaction
  pub ledger_role : String
  pub event_time_source : String
  pub identifies_by : String

pub data ParseOutcome : Type 0 where
  unsupported_sms_type parse_failed : Text → ParseOutcome
  parsed : ParsedSms → ParseOutcome

-- `.astimezone(_IST)`, and `.time().replace(microsecond=0)` of a point
abbrev pub ist : ℕ → ℕ
ist point = point + 330 * minute

abbrev pub one_second : ℕ
one_second = 1000000

abbrev pub time_of : ℕ → ℕ
time_of point = point % day / one_second * one_second

-- the value, or what stands for None
abbrev pub or_received : Option ℕ → ℕ → Option ℕ
or_received (some x) received = some x
or_received none received = some received

abbrev pub txn_data_of : ParsedSms → ParsedTransaction → ℕ → TxnData
txn_data_of p txn received_at = record {
  bank = p.bank;
  email_type = p.email_type;
  direction = txn.direction;
  amount = txn.amount;
  currency = some txn.currency;
  transaction_date = or_received txn.transaction_date (date_of (ist received_at));
  transaction_time = or_received txn.transaction_time (time_of (ist received_at));
  identifies_by = some p.identifies_by;
  transaction_time_is_received_time = str_eq p.event_time_source "message_arrival";
  counterparty = txn.counterparty;
  card_mask = txn.card_mask;
  account_mask = txn.account_mask;
  reference_number = txn.reference_number;
  channel = txn.channel;
  balance = txn.balance;
  raw_description = txn.raw_description;
}

abbrev pub of_transaction : ParsedSms → ℕ → Option ParsedTransaction → Option TxnData
of_transaction p received_at none = none
of_transaction p received_at (some txn) = some (txn_data_of p txn received_at)

-- `parsed_sms_to_txn_data`
unfoldable pub parsed_sms_to_txn_data : ParsedSms → SmsMessage → Option TxnData
parsed_sms_to_txn_data p sms_row = of_transaction p sms_row.received_at p.transaction

pub data SmsStatus : Type 0 where
  parsed enriched error skipped : SmsStatus

abbrev pub status_text : SmsStatus → String
status_text parsed = "parsed"
status_text enriched = "enriched"
status_text error = "error"
status_text skipped = "skipped"

-- the dictionary of `primary_notification`
pub data Notice : Type 0 where
  of_role : TxnData → String → Notice
  of_declined : TxnData → Notice
  of_row : Transaction → Notice

-- `ProcessSmsOutcome`; a prompt is the ids of the candidate accounts
pub record ProcessSmsOutcome : Type 0 where
  pub status : SmsStatus
  pub transaction_id : Option ℕ
  pub primary_notification : Option Notice
  pub enrichment_notification : Option (ℕ × EnrichmentDiff × Transaction)
  pub pending_payment_check : Option (ℕ × ℕ × Decimal)
  pub pending_disambiguation : Option (List ℕ)
  pub pending_duplicate_disambiguation : Option (DeferralReason × List ℕ)

-- ProcessSmsOutcome(status=status, transaction_id=id)
abbrev pub plain_outcome : SmsStatus → Option ℕ → ProcessSmsOutcome
plain_outcome status id = record {
  status = status;
  transaction_id = id;
  primary_notification = none;
  enrichment_notification = none;
  pending_payment_check = none;
  pending_disambiguation = none;
  pending_duplicate_disambiguation = none;
}

-- what a call returns, with the message and the table of transactions as it leaves them; none is an
-- IntegrityError that leaves the call, on which the caller rolls back
abbrev pub Processing : Type 0
Processing = Option (ProcessSmsOutcome × SmsMessage × List Transaction)

-- the message is put aside with this status and this text
abbrev pub put_aside : SmsStatus → Text → SmsMessage → List Transaction → Processing
put_aside status why sms_row rows = some (
  plain_outcome status none,
  record sms_row { status = status_text status; parse_error = some why },
  rows,
)

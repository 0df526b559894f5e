-- ===== src/Sms/Process.antt =====
-- `process_sms_row` of financial_dashboard/services/sms_pipeline.py, for a session that no other writes
-- beside.
use bank_email_fetcher.Prelude.{
  ℕ, String, Bool, false, ◌&&◌, ◌||◌, not, Option, none, some, List, codes, contains, lower, eqb,
  str_eq, is_none, if◌then◌else◌,
}
use bank_email_fetcher.Categorize.Transfer.{Details}
use bank_email_fetcher.Linker.Context.{LinkContext}
use bank_email_fetcher.Merge.Decimal.{Decimal}
use bank_email_fetcher.Merge.Row.{Text, Transaction, TxnData, sms}
use bank_email_fetcher.Merge.Enrich.{EnrichmentDiff}
use bank_email_fetcher.Merge.Store.{update_row, find_row}
use bank_email_fetcher.Merge.Run
use bank_email_fetcher.Merge.Run.{MergeResult, merge_transaction, has_changes}
use bank_email_fetcher.Sms.Row.{
  SmsMessage, ParsedSms, ParseOutcome, unsupported_sms_type, parse_failed, SmsStatus, error,
  skipped, enriched, ProcessSmsOutcome, Notice, of_role, of_declined, of_row, Processing,
  plain_outcome, put_aside, parsed_sms_to_txn_data, status_text,
}
use bank_email_fetcher.Sms.Row
use bank_email_fetcher.Sms.Accounts.{
  link_row, has_mask, pending_payment, AccountChoice, resolve_cc_payment_account,
}
use bank_email_fetcher.Sms.Complete.{complete_reference}

-- `NOTIFY_ONLY_ROLES`
abbrev pub is_notify_only : String → Bool
is_notify_only role = str_eq role "provisional" || str_eq role "restatement"

-- the gate before the merge
unfoldable pub is_gated : Bool → String → TxnData → Bool
is_gated settle_provisional role d =
    not (settle_provisional && str_eq role "provisional")
    && is_notify_only role
    && str_eq d.direction "credit"

-- `DUP_DEFER_NOTE`
abbrev pub dup_defer_note : Text
dup_defer_note =
    codes
      "[dup-defer] possible duplicate (no balance to confirm) — click Parse if this is a real separate transaction"

-- the row with this id, as the flush left it
abbrev pub row_at : ℕ → List Transaction → Option Transaction
row_at id rows = find_row (λ r. eqb r.id id) rows

abbrev pub notice_of : Option Transaction → Option Notice
notice_of none = none
notice_of (some r) = some (of_row r)

abbrev pub payment_check_of : Option Transaction → Option (ℕ × ℕ × Decimal)
payment_check_of none = none
payment_check_of (some r) = pending_payment r

abbrev pub lacks_account : Option Transaction → Bool
lacks_account none = false
lacks_account (some r) = is_none r.account_id

abbrev pub enrichment_of :
    ℕ → EnrichmentDiff → Option Transaction → Option (ℕ × EnrichmentDiff × Transaction)
enrichment_of id diff none = none
enrichment_of id diff (some r) = if has_changes diff then some (id, diff, r) else none

abbrev pub with_notice : ProcessSmsOutcome → Notice → ProcessSmsOutcome
with_notice o n = record o { primary_notification = some n }

-- the part on a row that was created, once it is linked
abbrev pub set_account : Option ℕ → Transaction → Transaction
set_account account_id r = record r { account_id = account_id }

abbrev pub account_choice : (Transaction → AccountChoice) → Option Transaction → AccountChoice
account_choice choose none = record { account_id = none; prompt = none }
account_choice choose (some r) = resolve_cc_payment_account choose r

-- the message points at its row
abbrev pub settled_message : SmsStatus → ℕ → SmsMessage → SmsMessage
settled_message status id sms_row = record sms_row {
  status = status_text status;
  transaction_id = some id;
}

module _ (link_context : LinkContext) (choose : Transaction → AccountChoice) where
  -- steps 4 to 6 for a created row
  unfoldable pub after_created : ℕ → SmsMessage → List Transaction → Processing
  after_created id sms_row rows =
      let linked = update_row id (link_row link_context) rows in
      let choice = account_choice choose (row_at id linked) in
      let after = update_row id (set_account choice.account_id) linked in
      some (
        record (plain_outcome Row.parsed (some id)) {
          primary_notification = notice_of (row_at id after);
          pending_payment_check = payment_check_of (row_at id after);
          pending_disambiguation = choice.prompt;
        },
        settled_message Row.parsed id sms_row,
        after,
      )

  -- steps 4 and 6 for an enriched row
  unfoldable pub after_enriched : ℕ → EnrichmentDiff → SmsMessage → List Transaction → Processing
  after_enriched id diff sms_row rows =
      let after =
        if lacks_account (row_at id rows) && has_mask diff.filled
        then update_row id (link_row link_context) rows
        else rows in
      some (
        record (plain_outcome enriched (some id)) {
          enrichment_notification = enrichment_of id diff (row_at id after);
        },
        settled_message enriched id sms_row,
        after,
      )

  -- the steps after the merge
  abbrev pub after_merge : SmsMessage → MergeResult × List Transaction → Processing
  after_merge sms_row (Run.created id, rows) = after_created id sms_row rows
  after_merge sms_row (Run.enriched id diff, rows) = after_enriched id diff sms_row rows
  after_merge sms_row (Run.deferred reason ids, rows) = some (
    record (plain_outcome skipped none) { pending_duplicate_disambiguation = some (reason, ids) },
    record sms_row { status = "skipped"; transaction_id = none; parse_error = some dup_defer_note },
    rows,
  )
  after_merge sms_row (Run.integrity_error, rows) = none

  module _ (input_hash : Details → String) (vocab_version now : ℕ)
      (parse_sms : Text → Text → Text → ℕ → ParseOutcome) where
    -- the part after the gates
    abbrev pub merge_sms : Bool → SmsMessage → TxnData → List Transaction → Processing
    merge_sms force_new sms_row d rows = after_merge sms_row (
        merge_transaction input_hash vocab_version now sms d (some sms_row.id) none force_new rows
          rows)

    -- a message with a transaction, its earlier error cleared
    unfoldable pub on_txn_data :
        Bool → Bool → String → SmsMessage → TxnData → List Transaction → Processing
    on_txn_data force_new settle_provisional role sms_row d rows =
        if is_gated settle_provisional role d
        then some (
          with_notice (plain_outcome Row.parsed sms_row.transaction_id) (of_role d role),
          record sms_row { status = "parsed" },
          rows,
        )
        else if str_eq d.direction "declined"
        then some (
          with_notice (plain_outcome Row.parsed none) (of_declined d),
          record sms_row { status = "parsed" },
          rows,
        )
        else if str_eq role "completion"
        then complete_reference input_hash vocab_version now sms_row d rows
        else merge_sms force_new sms_row d rows

    abbrev pub on_mapped :
        Bool → Bool → String → SmsMessage → List Transaction → Option TxnData → Processing
    on_mapped force_new settle_provisional role sms_row rows none =
        put_aside skipped (codes "non-transaction SMS shape") sms_row rows
    on_mapped force_new settle_provisional role sms_row rows (some d) =
        on_txn_data force_new settle_provisional role (record sms_row { parse_error = none }) d rows

    abbrev pub on_parse : Bool → Bool → SmsMessage → List Transaction → ParseOutcome → Processing
    on_parse force_new settle_provisional sms_row rows (unsupported_sms_type e) =
        put_aside skipped e sms_row rows
    on_parse force_new settle_provisional sms_row rows (parse_failed e) =
        put_aside (if contains (codes "_stub") (lower e) then skipped else error) e sms_row rows
    on_parse force_new settle_provisional sms_row rows (ParseOutcome.parsed p) =
        on_mapped force_new settle_provisional p.ledger_role sms_row rows
          (parsed_sms_to_txn_data p sms_row)

    -- `process_sms_row`
    unfoldable pub process_sms_row : Bool → Bool → SmsMessage → List Transaction → Processing
    process_sms_row force_new settle_provisional sms_row rows =
        on_parse force_new settle_provisional (record sms_row { parsed_at = some now }) rows
          (parse_sms sms_row.bank sms_row.body sms_row.sender sms_row.received_at)

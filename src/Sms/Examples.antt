-- ===== src/Sms/Examples.antt =====
-- The theorems on messages at concrete ones, and tests.
use bank_email_fetcher.Prelude.{
  ℕ, ◌-◌, ◌*◌, String, Bool, true, false, Option, none, some, List, [], ◌∷◌, ◌++◌, ◌≡◌, refl, codes,
  strip, lower, In, length,
}
use bank_email_fetcher.Masks.{
  normalize_mask, mask_matches, trailing_visible_digits, overlap_agrees, chars_agree, char_kind,
  normalize_loop, is_separator, mask_digits,
}
use bank_email_fetcher.Categorize.Transfer.{
  Details, apply_reference_self_transfer_rule, may_pair, is_match, opposite_direction,
}
use bank_email_fetcher.Categorize.Rules.{is_fd_counterparty}
use bank_email_fetcher.Merge.Text.{
  normalize_counterparty, counterparty_match, reference_of, normalized_reference,
  shortened_reference_match, card_payment_mask_match, no_field_identifies_the_event,
  references_prove_distinct,
}
use bank_email_fetcher.Merge.Window.{combine, hour, minute, in_window, in_alias_window}
use bank_email_fetcher.Merge.Find.{
  same_reference, is_alias, find_am_pm_alias_match, match_without_reference, on_reference_row,
  find_match,
}
use bank_email_fetcher.Merge.Enrich.{
  change_of, on_conflict, is_information_downgrade, incoming_time_is_earlier,
  compute_enrichment_diff, compute_applied_enrichment_diff,
}
use bank_email_fetcher.Linker.Context.{bank_key, empty_context}
use bank_email_fetcher.Linker.Link.{
  link_transaction, stage_card, stage_account, stage_bank, usable, expected_account_type,
  find_card_match, find_account_match,
}
use bank_email_fetcher.Merge.Decimal.{Decimal, dec_eq, half_even, quantize, balances_differ}
use bank_email_fetcher.Merge.Row.{Text, Transaction, TxnData}
use bank_email_fetcher.Merge.Text.{normalized_currency}
use bank_email_fetcher.Merge.Window.{plausible_event_time}
use bank_email_fetcher.Merge.Match.{
  same_terms, is_selected, narrowed, gather_fuzzy_candidates, decide, multiple_candidates,
}
use bank_email_fetcher.Merge.Find.{same_identity, qualifies_as_explicit_match}
use bank_email_fetcher.Merge.Store.{
  no_category, new_row, same_key, has_unique_refs, update_row, claim_transaction_source_slot,
  apply_self_transfer,
}
use bank_email_fetcher.Merge.Run.{
  set_fields, enrich, existing_for_source, insert_new, act_on, apply_transaction_enrichment,
  merge_transaction,
}
use bank_email_fetcher.Sms.Row
use bank_email_fetcher.Sms.Row.{
  SmsMessage, ParsedTransaction, ParsedSms, ParseOutcome, ProcessSmsOutcome, Processing,
  plain_outcome, parsed_sms_to_txn_data, txn_data_of,
}
use bank_email_fetcher.Sms.Complete.{
  is_coarse, is_completable, find_completion_primary, completed, complete_reference,
}
use bank_email_fetcher.Sms.Accounts.{
  link_row, is_cc_payment_received_email, should_auto_reconcile_statement, pending_payment,
  AccountChoice, resolve_cc_payment_account,
}
use bank_email_fetcher.Sms.Process.{
  is_gated, after_created, after_enriched, on_txn_data, process_sms_row, dup_defer_note,
}
use bank_email_fetcher.Sms.Resolve.{
  merge, create_new, merged, already_resolved, ResolutionStatus, ResolutionResult,
  SmsDuplicateAction, Resolution, resolved, linked_transaction_id, is_deferred, enriched_message,
  resolve_merge, resolve_create_new, resolve_sms_duplicate,
}
use bank_email_fetcher.Sms.Unique.{IsPrimary, find_completion_primary-Only}
use bank_email_fetcher.Sms.Completed.{complete_reference-again}
use bank_email_fetcher.Sms.Outcome.{Agreed, process_sms_row-Agreed}
use bank_email_fetcher.Sms.Rows.{KeepsLength, process_sms_row-KeepsLength}
use bank_email_fetcher.Sms.Resolved.{resolve_sms_duplicate-again}
use bank_email_fetcher.Sms.Grounds.{Grounded, resolve_sms_duplicate-Grounded}

abbrev pub rupees : ℕ → Decimal
rupees n = record { negative = false; coefficient = n; places = 0 }

abbrev hash : Details → String
hash d = "hash"

-- a message received at 10:00 in India
abbrev message : SmsMessage
message = record {
  id = 11;
  bank = codes "hdfc";
  sender = codes "VM-HDFCBK";
  body = codes "Rs 500 sent";
  received_at = combine 739000 (10 * hour - 330 * minute);
  status = "pending";
  transaction_id = none;
  parse_error = none;
  parsed_at = none;
}

abbrev transfer : ParsedTransaction
transfer = record {
  direction = "debit";
  amount = rupees 500;
  currency = codes "INR";
  transaction_date = some 739000;
  transaction_time = none;
  counterparty = none;
  card_mask = none;
  account_mask = some (codes "XX1234");
  reference_number = none;
  channel = some (codes "imps");
  balance = none;
  raw_description = none;
}

abbrev parsed_message : String → ParsedSms
parsed_message role = record {
  bank = codes "hdfc";
  email_type = codes "hdfc_imps_alert";
  transaction = some transfer;
  ledger_role = role;
  event_time_source = "message_arrival";
  identifies_by = "counterparty";
}

abbrev parser : String → Text → Text → Text → ℕ → ParseOutcome
parser role bank body sender received_at = ParseOutcome.parsed (parsed_message role)

abbrev no_choice : Transaction → AccountChoice
no_choice r = record { account_id = none; prompt = none }

abbrev the_leg : TxnData
the_leg =
    record (txn_data_of (parsed_message "completion") transfer
      (combine 739000 (10 * hour - 330 * minute))) {
        reference_number = some (codes " 440011 ");
        counterparty = some (codes "Asha");
      }

abbrev pub stored : Transaction
stored = record {
  id = 1;
  email_id = none;
  sms_message_id = some 9;
  account_id = none;
  bank = codes "hdfc";
  email_type = codes "hdfc_imps_alert";
  direction = "debit";
  amount = record { negative = false; coefficient = 50000; places = 2 };
  currency = some (codes "INR");
  transaction_date = some 739000;
  transaction_time = some (combine 0 (10 * hour));
  identifies_by = "counterparty";
  transaction_time_is_received_time = true;
  counterparty = none;
  card_mask = none;
  account_mask = some (codes "XX1234");
  reference_number = none;
  channel = some (codes "imps");
  balance = none;
  raw_description = none;
  source = some "sms";
  notified_channel = some "sms";
  enriched_at = none;
  category = no_category;
}

-- two rows of the event, of which the second is an email's
abbrev rows_of_email : List Transaction
rows_of_email =
    record stored {
      id = 2;
      email_id = some 21;
      sms_message_id = none;
      source = some "email";
      identifies_by = "none";
    }
    ∷ []

run_process : String → Bool → SmsMessage → List Transaction → Processing
unfolding strip lower quantize half_even dec_eq balances_differ new_row find_match reference_of
    normalized_reference shortened_reference_match counterparty_match normalize_counterparty
    normalize_mask char_kind normalize_loop is_separator mask_matches overlap_agrees chars_agree
    mask_digits card_payment_mask_match no_field_identifies_the_event references_prove_distinct
    in_window in_alias_window same_terms is_selected narrowed gather_fuzzy_candidates decide
    same_reference is_alias find_am_pm_alias_match match_without_reference on_reference_row
    change_of on_conflict is_information_downgrade incoming_time_is_earlier compute_enrichment_diff
    compute_applied_enrichment_diff same_key has_unique_refs update_row
    claim_transaction_source_slot apply_self_transfer set_fields enrich existing_for_source
    insert_new act_on apply_transaction_enrichment merge_transaction
    apply_reference_self_transfer_rule may_pair is_match opposite_direction is_fd_counterparty
    parsed_sms_to_txn_data is_coarse is_completable find_completion_primary completed
    complete_reference link_row is_cc_payment_received_email should_auto_reconcile_statement
    pending_payment resolve_cc_payment_account is_gated after_created after_enriched on_txn_data
    process_sms_row linked_transaction_id is_deferred enriched_message resolve_merge
    resolve_create_new resolve_sms_duplicate same_identity qualifies_as_explicit_match
    normalized_currency plausible_event_time link_transaction stage_card stage_account stage_bank
    usable expected_account_type find_card_match find_account_match bank_key trailing_visible_digits
run_process role forced m rows =
    process_sms_row empty_context no_choice hash 1 100 (parser role) forced false m rows

run_complete : SmsMessage → TxnData → List Transaction → Processing
unfolding strip lower reference_of dec_eq same_terms shortened_reference_match normalized_reference
    same_key has_unique_refs update_row apply_self_transfer apply_reference_self_transfer_rule
    may_pair is_match opposite_direction is_fd_counterparty is_coarse is_completable
    find_completion_primary completed complete_reference
run_complete m d rows = complete_reference hash 1 100 m d rows

run_resolve : SmsDuplicateAction → Option ℕ → SmsMessage → List Transaction → Resolution
unfolding strip lower quantize half_even dec_eq balances_differ new_row find_match reference_of
    normalized_reference shortened_reference_match counterparty_match normalize_counterparty
    normalize_mask char_kind normalize_loop is_separator mask_matches overlap_agrees chars_agree
    mask_digits card_payment_mask_match no_field_identifies_the_event references_prove_distinct
    in_window in_alias_window same_terms is_selected narrowed gather_fuzzy_candidates decide
    same_reference is_alias find_am_pm_alias_match match_without_reference on_reference_row
    change_of on_conflict is_information_downgrade incoming_time_is_earlier compute_enrichment_diff
    compute_applied_enrichment_diff same_key has_unique_refs update_row
    claim_transaction_source_slot apply_self_transfer set_fields enrich existing_for_source
    insert_new act_on apply_transaction_enrichment merge_transaction
    apply_reference_self_transfer_rule may_pair is_match opposite_direction is_fd_counterparty
    parsed_sms_to_txn_data is_coarse is_completable find_completion_primary completed
    complete_reference link_row is_cc_payment_received_email should_auto_reconcile_statement
    pending_payment resolve_cc_payment_account is_gated after_created after_enriched on_txn_data
    process_sms_row linked_transaction_id is_deferred enriched_message resolve_merge
    resolve_create_new resolve_sms_duplicate same_identity qualifies_as_explicit_match
    normalized_currency plausible_event_time link_transaction stage_card stage_account stage_bank
    usable expected_account_type find_card_match find_account_match bank_key trailing_visible_digits
run_resolve a id m rows =
    resolve_sms_duplicate empty_context no_choice hash 1 100 (parser "none") a id (some m) rows

completed_row : Transaction
completed_row = record stored {
  reference_number = some (codes "440011");
  counterparty = some (codes "Asha");
}

completed_test :
    run_complete message the_leg (stored ∷ [])
    ≡ some (
      plain_outcome Row.parsed (some 1),
      record message { status = "parsed"; transaction_id = some 1 },
      completed_row ∷ [],
    )
unfolding run_complete completed_row
completed_test = refl

primary_test : (find_completion_primary the_leg (stored ∷ [])).primary ≡ some stored
unfolding strip lower reference_of dec_eq same_terms shortened_reference_match normalized_reference
    is_coarse is_completable find_completion_primary
primary_test = refl

-- A new event makes a row, which the message points at.
opened_test :
    run_process "none" false message []
    ≡ some (
      record (plain_outcome Row.parsed (some 1)) {
        primary_notification = some (Row.of_row (record stored { sms_message_id = some 11 }));
      },
      record message { status = "parsed"; transaction_id = some 1; parsed_at = some 100 },
      record stored { sms_message_id = some 11 } ∷ [],
    )
unfolding run_process
opened_test = refl

abbrev waiting : SmsMessage
waiting = record message { status = "skipped"; parse_error = some dup_defer_note }

-- Two rows that the message may be: it is deferred.
deferred_test :
    run_process "none" false message (rows_of_email ++ record stored { id = 3 } ∷ [])
    ≡ some (
      record (plain_outcome Row.skipped none) {
        pending_duplicate_disambiguation = some (multiple_candidates, 2 ∷ 3 ∷ []);
      },
      record waiting { parsed_at = some 100 },
      rows_of_email ++ record stored { id = 3 } ∷ [],
    )
unfolding run_process
deferred_test = refl

abbrev merged_rows : List Transaction
merged_rows =
    record stored {
      id = 2;
      email_id = some 21;
      sms_message_id = none;
      source = some "sms+email";
      identifies_by = "none";
    }
    ∷ []

abbrev merged_message : SmsMessage
merged_message = record message {
  status = "enriched";
  transaction_id = some 2;
  parsed_at = some 100;
}

abbrev answer : ResolutionStatus → ResolutionResult
answer status = record {
  status = status;
  transaction_id = 2;
  pending_payment_check = none;
  pending_disambiguation = none;
}

merged_test :
    run_resolve merge (some 2) waiting rows_of_email
    ≡ resolved (answer merged) merged_message merged_rows
unfolding run_resolve
merged_test = refl

find_completion_primary-Only_example :
    In stored (stored ∷ [])
    × IsPrimary the_leg stored
    × ((q : Transaction) → In q (stored ∷ []) → IsPrimary the_leg q → q ≡ stored)
find_completion_primary-Only_example =
    find_completion_primary-Only the_leg (stored ∷ []) stored primary_test

complete_reference-again_example :
    complete_reference hash 1 100
      (record message { status = "parsed"; transaction_id = some 1 })
      the_leg
      (completed_row ∷ [])
    ≡ some (
      plain_outcome Row.parsed (some 1),
      record message { status = "parsed"; transaction_id = some 1 },
      completed_row ∷ [],
    )
complete_reference-again_example =
    complete_reference-again the_leg hash 1 100 message (stored ∷ [])
      (
        plain_outcome Row.parsed (some 1),
        record message { status = "parsed"; transaction_id = some 1 },
        completed_row ∷ [],
      )
      (unfold run_complete in completed_test) refl

process_sms_row-Agreed_example : Agreed message rows_of_email (
    process_sms_row empty_context no_choice hash 1 100
      (parser "none")
      false
      false
      message
      rows_of_email)
process_sms_row-Agreed_example =
    process_sms_row-Agreed empty_context no_choice hash 1 100 (parser "none") false false message
      rows_of_email

process_sms_row-KeepsLength_example : KeepsLength rows_of_email (
    process_sms_row empty_context no_choice hash 1 100
      (parser "completion")
      true
      false
      message
      rows_of_email)
process_sms_row-KeepsLength_example =
    process_sms_row-KeepsLength hash 1 100 empty_context no_choice (parser "completion") true false
      message rows_of_email (parsed_message "completion")
      (txn_data_of (parsed_message "completion") transfer message.received_at) refl
      (unfold parsed_sms_to_txn_data in refl) (unfold is_gated in refl)

resolve_sms_duplicate-again_example :
    resolve_sms_duplicate empty_context no_choice hash 1 100
      (parser "none")
      create_new
      none
      (some merged_message)
      merged_rows
    ≡ resolved (answer already_resolved) merged_message merged_rows
resolve_sms_duplicate-again_example =
    resolve_sms_duplicate-again empty_context no_choice hash 1 100 (parser "none") merge (some 2)
      waiting merged_message rows_of_email merged_rows (answer merged)
      (unfold run_resolve in merged_test) create_new none

resolve_sms_duplicate-Grounded_example : Grounded (parser "none") waiting rows_of_email merge (
    resolve_sms_duplicate empty_context no_choice hash 1 100
      (parser "none")
      merge
      (some 2)
      (some waiting)
      rows_of_email)
resolve_sms_duplicate-Grounded_example =
    resolve_sms_duplicate-Grounded (parser "none") empty_context no_choice hash 1 100 merge (some 2)
      waiting rows_of_email

-- The merged row keeps its empty slot, so forcing the message again makes a second row.
row_count : Processing → ℕ
row_count none = 0
row_count (some (o, m, rows)) = length rows

forced_again_test : row_count (run_process "none" true merged_message merged_rows) ≡ 2
unfolding run_process row_count
forced_again_test = refl

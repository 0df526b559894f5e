-- ===== src/Sms/Resolve.antt =====
-- The operator's answer to a deferred message: financial_dashboard/services/sms_duplicate_resolution.py,
-- for a session that holds the write lock.
use bank_email_fetcher.Prelude.{
  ℕ, String, Bool, true, false, ◌&&◌, ◌||◌, Option, none, some, List, [], ◌∷◌, codes, begins_with,
  eqb, str_eq, if◌then◌else◌,
}
use bank_email_fetcher.Categorize.Transfer.{Details}
use bank_email_fetcher.Linker.Context.{LinkContext}
use bank_email_fetcher.Merge.Decimal.{Decimal}
use bank_email_fetcher.Merge.Row.{Text, Transaction, TxnData, sms}
use bank_email_fetcher.Merge.Match.{
  DeferralReason, reference_amount_mismatch, reference_balance_mismatch,
  multiple_reference_candidates, MatchDecision, match, insert, defer, standard,
}
use bank_email_fetcher.Merge.Find.{qualifies_as_explicit_match, find_match}
use bank_email_fetcher.Merge.Store.{update_row}
use bank_email_fetcher.Merge.Run
use bank_email_fetcher.Merge.Run.{MergeResult, linked, apply_transaction_enrichment}
use bank_email_fetcher.Merge.Store.{find_row}
use bank_email_fetcher.Sms.Row.{
  SmsMessage, ParseOutcome, unsupported_sms_type, parse_failed, ProcessSmsOutcome, Processing,
  parsed_sms_to_txn_data,
}
use bank_email_fetcher.Sms.Accounts.{link_row, has_mask, AccountChoice}
use bank_email_fetcher.Sms.Process.{
  row_at, lacks_account, set_account, account_choice, payment_check_of, process_sms_row,
}

pub data SmsDuplicateAction : Type 0 where
  merge create_new : SmsDuplicateAction

pub data ResolutionStatus : Type 0 where
  merged created already_resolved : ResolutionStatus

-- the messages of `SmsDuplicateResolutionError`, and the other exceptions that leave the call
pub data ResolutionError : Type 0 where
  sms_not_found no_longer_parses target_required target_missing not_compatible : ResolutionError
  no_longer_deferred reference_mismatch could_not_create not_deferred : ResolutionError
  slot_conflict integrity_error : ResolutionError

-- `SmsDuplicateResolutionResult`
pub record ResolutionResult : Type 0 where
  pub status : ResolutionStatus
  pub transaction_id : ℕ
  pub pending_payment_check : Option (ℕ × ℕ × Decimal)
  pub pending_disambiguation : Option (List ℕ)

-- A call raises, and its transaction is rolled back, or it returns with the message and the table as it
-- commits them.
pub data Resolution : Type 0 where
  rejected : ResolutionError → Resolution
  resolved : ResolutionResult → SmsMessage → List Transaction → Resolution

abbrev pub or_owner : Option ℕ → Option Transaction → Option ℕ
or_owner (some id) owner = some id
or_owner none none = none
or_owner none (some r) = some r.id

-- `_linked_transaction_id`
unfoldable pub linked_transaction_id : SmsMessage → List Transaction → Option ℕ
linked_transaction_id m rows =
    or_owner m.transaction_id (find_row (λ r. linked m.id r.sms_message_id) rows)

-- transaction_id in current_candidate_ids
abbrev pub is_in : ℕ → List ℕ → Bool
is_in id [] = false
is_in id (i ∷ is) = eqb i id || is_in id is

abbrev pub is_candidate : ℕ → MatchDecision → Bool
is_candidate id (match c kind) = eqb c.id id
is_candidate id insert = false
is_candidate id (defer reason ids) = is_in id ids

-- reason.startswith("reference_") or reason == "multiple_reference_candidates"
abbrev pub is_reference_reason : DeferralReason → Bool
is_reference_reason reference_amount_mismatch = true
is_reference_reason reference_balance_mismatch = true
is_reference_reason multiple_reference_candidates = true
is_reference_reason reason = false

-- `DUP_DEFER_PREFIX`
abbrev pub has_prefix : Option Text → Bool
has_prefix none = false
has_prefix (some s) = begins_with (codes "[dup-defer]") s

unfoldable pub is_deferred : SmsMessage → Bool
is_deferred m = str_eq m.status "skipped" && has_prefix m.parse_error

-- what the message says after a merge
unfoldable pub enriched_message : ℕ → ℕ → SmsMessage → SmsMessage
enriched_message now id m = record m {
  transaction_id = some id;
  status = "enriched";
  parse_error = none;
  parsed_at = some now;
}

-- `prior_account_id is None and should_auto_reconcile_statement(target)`
abbrev pub check_unless : Option ℕ → Option Transaction → Option (ℕ × ℕ × Decimal)
check_unless none row = payment_check_of row
check_unless (some account_id) row = none

module _ (link_context : LinkContext) (choose : Transaction → AccountChoice)
    (input_hash : Details → String) (vocab_version now : ℕ) where
  -- the part of `_resolve_merge` after the enrichment
  abbrev pub after_merge : SmsMessage → Transaction → MergeResult × List Transaction → Resolution
  after_merge m target (Run.enriched id diff, rows) =
      let linked_rows =
        if lacks_account (row_at target.id rows) && has_mask diff.filled
        then update_row target.id (link_row link_context) rows
        else rows in
      let choice = account_choice choose (row_at target.id linked_rows) in
      let after = update_row target.id (set_account choice.account_id) linked_rows in
      resolved
        (record {
          status = merged;
          transaction_id = target.id;
          pending_payment_check = check_unless target.account_id (row_at target.id after);
          pending_disambiguation = choice.prompt;
        })
        (enriched_message now target.id m) after
  after_merge m target (Run.created id, rows) = rejected integrity_error
  after_merge m target (Run.deferred reason ids, rows) = rejected slot_conflict
  after_merge m target (Run.integrity_error, rows) = rejected integrity_error

  abbrev pub on_target : SmsMessage → TxnData → List Transaction → Option Transaction → Resolution
  on_target m d rows none = rejected target_missing
  on_target m d rows (some target) =
      if is_candidate target.id (find_match d sms none rows)
        && qualifies_as_explicit_match rows d target
      then after_merge m target (
          apply_transaction_enrichment input_hash vocab_version now target d sms none standard rows)
      else rejected not_compatible

  -- `_resolve_merge`
  unfoldable pub resolve_merge : SmsMessage → TxnData → List Transaction → Option ℕ → Resolution
  resolve_merge m d rows none = rejected target_required
  resolve_merge m d rows (some id) = on_target m d rows (row_at id rows)

  module _ (parse_sms : Text → Text → Text → ℕ → ParseOutcome) where
    abbrev pub of_outcome :
        ProcessSmsOutcome → SmsMessage → List Transaction → Option ℕ → Resolution
    of_outcome o m rows none = rejected could_not_create
    of_outcome o m rows (some id) =
        resolved
          (record {
            status = created;
            transaction_id = id;
            pending_payment_check = o.pending_payment_check;
            pending_disambiguation = o.pending_disambiguation;
          })
          m rows

    abbrev pub of_processing : Processing → Resolution
    of_processing none = rejected integrity_error
    of_processing (some (o, m, rows)) = of_outcome o m rows o.transaction_id

    abbrev pub create : SmsMessage → String → List Transaction → Resolution
    create m role rows = of_processing (
        process_sms_row link_context choose input_hash vocab_version now parse_sms true
          (str_eq role "provisional") m rows)

    abbrev pub on_decision : SmsMessage → String → List Transaction → MatchDecision → Resolution
    on_decision m role rows (match c kind) = rejected no_longer_deferred
    on_decision m role rows insert = rejected no_longer_deferred
    on_decision m role rows (defer reason ids) =
        if is_reference_reason reason then rejected reference_mismatch else create m role rows

    -- `_resolve_create_new`
    unfoldable pub resolve_create_new :
        SmsMessage → String → TxnData → List Transaction → Resolution
    resolve_create_new m role d rows = on_decision m role rows (find_match d sms none rows)

    abbrev pub on_action :
        SmsDuplicateAction
        → Option ℕ
        → SmsMessage
        → String
        → List Transaction
        → Option TxnData
        → Resolution
    on_action action id m role rows none = rejected no_longer_parses
    on_action merge id m role rows (some d) = resolve_merge m d rows id
    on_action create_new id m role rows (some d) = resolve_create_new m role d rows

    -- `_parse_stored_sms`, and the action
    abbrev pub on_stored :
        SmsDuplicateAction → Option ℕ → SmsMessage → List Transaction → ParseOutcome → Resolution
    on_stored action id m rows (unsupported_sms_type e) = rejected no_longer_parses
    on_stored action id m rows (parse_failed e) = rejected no_longer_parses
    on_stored action id m rows (ParseOutcome.parsed p) =
        on_action action id m p.ledger_role rows (parsed_sms_to_txn_data p m)

    abbrev pub on_linked :
        SmsDuplicateAction → Option ℕ → SmsMessage → List Transaction → Option ℕ → Resolution
    on_linked action id m rows (some linked_id) =
        resolved
          (record {
            status = already_resolved;
            transaction_id = linked_id;
            pending_payment_check = none;
            pending_disambiguation = none;
          })
          m rows
    on_linked action id m rows none =
        if is_deferred m
        then on_stored action id m rows (parse_sms m.bank m.body m.sender m.received_at)
        else rejected not_deferred

    -- `resolve_sms_duplicate`, for the message that the lock read
    unfoldable pub resolve_sms_duplicate :
        SmsDuplicateAction → Option ℕ → Option SmsMessage → List Transaction → Resolution
    resolve_sms_duplicate action id none rows = rejected sms_not_found
    resolve_sms_duplicate action id (some m) rows =
        on_linked action id m rows (linked_transaction_id m rows)

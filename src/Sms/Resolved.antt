-- ===== src/Sms/Resolved.antt =====
-- What `resolve_sms_duplicate` (financial_dashboard/services/sms_duplicate_resolution.py) commits, and
-- on which grounds.
use mathlib.Core.Path.{subst}
use bank_email_fetcher.Prelude.{
  ℕ, String, true, ◌&&◌, Option, none, some, List, ◌≡◌, ◌⊎◌, refl, str_eq, Bool-cases, inl, inr,
}
use bank_email_fetcher.Categorize.Transfer.{Details}
use bank_email_fetcher.Linker.Context.{LinkContext}
use bank_email_fetcher.Merge.Row.{Text, Transaction, TxnData, sms}
use bank_email_fetcher.Merge.Match.{MatchDecision, match, insert, defer, standard}
use bank_email_fetcher.Merge.Find.{qualifies_as_explicit_match, find_match}
use bank_email_fetcher.Merge.Run
use bank_email_fetcher.Merge.Run.{MergeResult, apply_transaction_enrichment}
use bank_email_fetcher.Sms.Row.{
  SmsMessage, ParseOutcome, unsupported_sms_type, parse_failed, Processing, parsed_sms_to_txn_data,
}
use bank_email_fetcher.Sms.Accounts.{AccountChoice}
use bank_email_fetcher.Sms.Process.{row_at, process_sms_row}
use bank_email_fetcher.Sms.Outcome.{Agreed, process_sms_row-Agreed}
use bank_email_fetcher.Sms.Resolve.{
  SmsDuplicateAction, merge, create_new, already_resolved, ResolutionResult, Resolution, rejected,
  resolved, linked_transaction_id, is_candidate, is_reference_reason, is_deferred, enriched_message,
  after_merge, on_target, resolve_merge, of_outcome, of_processing, on_decision, resolve_create_new,
  on_action, on_stored, on_linked, resolve_sms_duplicate,
}

-- The message that is committed is linked to the transaction of the answer.
IsLinked : Resolution → Type 0
IsLinked (rejected e) = Unit
IsLinked (resolved r m rows) = linked_transaction_id m rows ≡ some r.transaction_id

linked_by :
    (m : SmsMessage) (rows : List Transaction) (id : ℕ)
    → m.transaction_id ≡ some id
    → linked_transaction_id m rows ≡ some id
unfolding linked_transaction_id
linked_by m rows id h = rw h refl

module _ (ctx : LinkContext) (choose : Transaction → AccountChoice) (input_hash : Details → String)
    (v now : ℕ) where
  after_merge-IsLinked :
      (m : SmsMessage) (p : Transaction) (x : MergeResult × List Transaction)
      → IsLinked (after_merge ctx choose input_hash v now m p x)
  unfolding IsLinked enriched_message
  after_merge-IsLinked m p (Run.enriched id diff, rows) = linked_by _ _ p.id refl
  after_merge-IsLinked m p (Run.created id, rows) = tt
  after_merge-IsLinked m p (Run.deferred reason ids, rows) = tt
  after_merge-IsLinked m p (Run.integrity_error, rows) = tt

  on_target-IsLinked :
      (m : SmsMessage) (d : TxnData) (rows : List Transaction) (o : Option Transaction)
      → IsLinked (on_target ctx choose input_hash v now m d rows o)
  unfolding IsLinked
  on_target-IsLinked m d rows none = tt
  on_target-IsLinked m d rows (some p) =
      elim (Bool-cases
        (is_candidate p.id (find_match d sms none rows) && qualifies_as_explicit_match rows d p)) [
          | inl fits ↦ rw fits (
              after_merge-IsLinked m p
                (apply_transaction_enrichment input_hash v now p d sms none standard rows))
          | inr unfit ↦ rw unfit tt
        ]

  module _ (parse_sms : Text → Text → Text → ℕ → ParseOutcome) where
    of_processing-IsLinked :
        (m : SmsMessage) (rows : List Transaction) (y : Processing)
        → Agreed m rows y
        → IsLinked (of_processing ctx choose input_hash v now parse_sms y)
    unfolding IsLinked
    of_processing-IsLinked m rows none h = tt
    of_processing-IsLinked m rows (some (o, n, after)) h = go o.transaction_id h.same_row
      where
        go :
            (t : Option ℕ)
            → (t ≡ none) ⊎ (n.transaction_id ≡ t)
            → IsLinked (of_outcome ctx choose input_hash v now parse_sms o n after t)
        go none k = tt
        go (some id) (inl k) = cc
        go (some id) (inr k) = linked_by n after id k

    on_decision-IsLinked :
        (m : SmsMessage) (role : String) (rows : List Transaction) (k : MatchDecision)
        → IsLinked (on_decision ctx choose input_hash v now parse_sms m role rows k)
    unfolding IsLinked
    on_decision-IsLinked m role rows (match c kind) = tt
    on_decision-IsLinked m role rows insert = tt
    on_decision-IsLinked m role rows (defer reason ids) =
        elim (Bool-cases (is_reference_reason reason)) [
          | inl known ↦ rw known tt
          | inr other ↦ rw other (
              of_processing-IsLinked m rows
                (process_sms_row ctx choose input_hash v now parse_sms true
                  (str_eq role "provisional") m rows)
                (process_sms_row-Agreed ctx choose input_hash v now parse_sms true
                  (str_eq role "provisional") m rows))
        ]

    on_action-IsLinked :
        (a : SmsDuplicateAction) (id : Option ℕ) (m : SmsMessage) (role : String)
        (rows : List Transaction) (o : Option TxnData)
        → IsLinked (on_action ctx choose input_hash v now parse_sms a id m role rows o)
    unfolding IsLinked resolve_merge resolve_create_new
    on_action-IsLinked a id m role rows none = tt
    on_action-IsLinked merge none m role rows (some d) = tt
    on_action-IsLinked merge (some id) m role rows (some d) =
        on_target-IsLinked m d rows (row_at id rows)
    on_action-IsLinked create_new id m role rows (some d) =
        on_decision-IsLinked m role rows (find_match d sms none rows)

    on_stored-IsLinked :
        (a : SmsDuplicateAction) (id : Option ℕ) (m : SmsMessage) (rows : List Transaction)
        (o : ParseOutcome)
        → IsLinked (on_stored ctx choose input_hash v now parse_sms a id m rows o)
    unfolding IsLinked
    on_stored-IsLinked a id m rows (unsupported_sms_type e) = tt
    on_stored-IsLinked a id m rows (parse_failed e) = tt
    on_stored-IsLinked a id m rows (ParseOutcome.parsed p) =
        on_action-IsLinked a id m p.ledger_role rows (parsed_sms_to_txn_data p m)

    on_linked-IsLinked :
        (a : SmsDuplicateAction) (id : Option ℕ) (m : SmsMessage) (rows : List Transaction)
        (o : Option ℕ)
        → linked_transaction_id m rows ≡ o
        → IsLinked (on_linked ctx choose input_hash v now parse_sms a id m rows o)
    unfolding IsLinked
    on_linked-IsLinked a id m rows (some linked_id) h = h
    on_linked-IsLinked a id m rows none h = elim (Bool-cases (is_deferred m)) [
      | inl waits ↦
          rw waits (on_stored-IsLinked a id m rows (parse_sms m.bank m.body m.sender m.received_at))
      | inr not_waiting ↦ rw not_waiting tt
    ]

    -- Once a call has answered with a transaction, whether it merged, created or found it, every later
    -- call for the message that it committed, with whatever action and target, answers
    -- already_resolved with the same transaction, and commits the message and the table unchanged.
    pub resolve_sms_duplicate-again :
        (a : SmsDuplicateAction) (id : Option ℕ) (m n : SmsMessage) (rows after : List Transaction)
        (r : ResolutionResult)
        → resolve_sms_duplicate ctx choose input_hash v now parse_sms a id (some m) rows
          ≡ resolved r n after
        → (b : SmsDuplicateAction) (other : Option ℕ)
        → resolve_sms_duplicate ctx choose input_hash v now parse_sms b other (some n) after
          ≡ resolved
              (record {
                status = already_resolved;
                transaction_id = r.transaction_id;
                pending_payment_check = none;
                pending_disambiguation = none;
              })
              n
              after
    unfolding resolve_sms_duplicate IsLinked
    resolve_sms_duplicate-again a id m n rows after r h b other =
        let linked : linked_transaction_id n after ≡ some r.transaction_id =
          subst IsLinked h (on_linked-IsLinked a id m rows (linked_transaction_id m rows) refl) in
        rw linked refl

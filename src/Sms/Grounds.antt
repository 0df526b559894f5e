-- ===== src/Sms/Grounds.antt =====
-- The grounds on which `resolve_sms_duplicate` (financial_dashboard/services/sms_duplicate_resolution.py)
-- answers with a transaction.
use bank_email_fetcher.Prelude.{
  ℕ, String, Bool, true, false, ◌&&◌, Option, none, some, List, ◌≡◌, refl, str_eq, Bool-cases, inl,
  inr,
}
use bank_email_fetcher.Categorize.Transfer.{Details}
use bank_email_fetcher.Linker.Context.{LinkContext}
use bank_email_fetcher.Merge.Row.{Text, Transaction, TxnData, sms}
use bank_email_fetcher.Merge.Match.{DeferralReason, MatchDecision, match, insert, defer, standard}
use bank_email_fetcher.Merge.Find.{qualifies_as_explicit_match, find_match}
use bank_email_fetcher.Merge.Run
use bank_email_fetcher.Merge.Run.{MergeResult, apply_transaction_enrichment}
use bank_email_fetcher.Sms.Row.{
  SmsMessage, ParsedSms, ParseOutcome, unsupported_sms_type, parse_failed, ProcessSmsOutcome,
  Processing, parsed_sms_to_txn_data,
}
use bank_email_fetcher.Sms.Accounts.{AccountChoice}
use bank_email_fetcher.Sms.Process.{row_at, process_sms_row}
use bank_email_fetcher.Sms.Resolve.{
  SmsDuplicateAction, merge, create_new, merged, created, already_resolved, ResolutionResult,
  Resolution, rejected, resolved, linked_transaction_id, is_candidate, is_reference_reason,
  is_deferred, after_merge, on_target, resolve_merge, of_outcome, of_processing, on_decision,
  resolve_create_new, on_action, on_stored, on_linked, resolve_sms_duplicate,
}

module _ (parse_sms : Text → Text → Text → ℕ → ParseOutcome) where
  -- the stored message is read again as these data
  pub record Reads (m : SmsMessage) (p : ParsedSms) (d : TxnData) : Type 0 where
    pub parsed_as : parse_sms m.bank m.body m.sender m.received_at ≡ ParseOutcome.parsed p
    pub mapped_to : parsed_sms_to_txn_data p m ≡ some d

  -- Why a call answers with a transaction: the message was linked to it already; or the operator chose
  -- to merge a message that waits, and the row is one that the matcher now offers and that qualifies
  -- for it; or the operator chose a new row, and the matcher still defers, for a reason that is not
  -- about references.
  pub data Grounds (m : SmsMessage) (rows : List Transaction) (a : SmsDuplicateAction)
      (r : ResolutionResult) : Type 0 where
    was_linked :
        r.status ≡ already_resolved
        → linked_transaction_id m rows ≡ some r.transaction_id
        → Grounds m rows a r
    was_merged :
        (p : ParsedSms) (d : TxnData) (target : Transaction)
        → a ≡ merge
        → r.status ≡ merged
        → r.transaction_id ≡ target.id
        → is_deferred m ≡ true
        → Reads m p d
        → is_candidate target.id (find_match d sms none rows) ≡ true
        → qualifies_as_explicit_match rows d target ≡ true
        → Grounds m rows a r
    was_created :
        (p : ParsedSms) (d : TxnData) (reason : DeferralReason) (ids : List ℕ)
        → a ≡ create_new
        → r.status ≡ created
        → is_deferred m ≡ true
        → Reads m p d
        → find_match d sms none rows ≡ defer reason ids
        → is_reference_reason reason ≡ false
        → Grounds m rows a r

  abbrev pub Grounded : SmsMessage → List Transaction → SmsDuplicateAction → Resolution → Type 0
  Grounded m rows a (rejected e) = Unit
  Grounded m rows a (resolved r n after) = Grounds m rows a r

  and_true : (b c : Bool) → (b && c) ≡ true → (b ≡ true) × (c ≡ true)
  and_true true c h = (refl, h)
  and_true false c h = cc

  module _ (ctx : LinkContext) (choose : Transaction → AccountChoice)
      (input_hash : Details → String) (v now : ℕ) (m : SmsMessage) (rows : List Transaction)
      (waits : is_deferred m ≡ true) (p : ParsedSms) (d : TxnData) (reads : Reads m p d) where
    after_merge-Grounded :
        (target : Transaction) (x : MergeResult × List Transaction)
        → is_candidate target.id (find_match d sms none rows) ≡ true
        → qualifies_as_explicit_match rows d target ≡ true
        → Grounded m rows merge (after_merge ctx choose input_hash v now m target x)
    after_merge-Grounded target (Run.enriched id diff, after) offered fits =
        Grounds.was_merged p d target refl refl refl waits reads offered fits
    after_merge-Grounded target (Run.created id, after) offered fits = tt
    after_merge-Grounded target (Run.deferred reason ids, after) offered fits = tt
    after_merge-Grounded target (Run.integrity_error, after) offered fits = tt

    on_target-Grounded :
        (o : Option Transaction)
        → Grounded m rows merge (on_target ctx choose input_hash v now m d rows o)
    on_target-Grounded none = tt
    on_target-Grounded (some target) =
        elim (Bool-cases (
          is_candidate target.id (find_match d sms none rows)
          && qualifies_as_explicit_match rows d target)) [
            | inl both ↦
                let (offered, fits) =
                  and_true (is_candidate target.id (find_match d sms none rows))
                    (qualifies_as_explicit_match rows d target) both in
                rw both (
                  after_merge-Grounded target
                    (apply_transaction_enrichment input_hash v now target d sms none standard rows)
                    offered fits)
            | inr unfit ↦ rw unfit tt
          ]

    of_outcome-Grounded :
        (o : ProcessSmsOutcome) (n : SmsMessage) (after : List Transaction)
        (reason : DeferralReason) (ids : List ℕ) (t : Option ℕ)
        → find_match d sms none rows ≡ defer reason ids
        → is_reference_reason reason ≡ false
        → Grounded m rows create_new (of_outcome ctx choose input_hash v now parse_sms o n after t)
    of_outcome-Grounded o n after reason ids none decision other = tt
    of_outcome-Grounded o n after reason ids (some id) decision other =
        Grounds.was_created p d reason ids refl refl waits reads decision other

    of_processing-Grounded :
        (y : Processing) (reason : DeferralReason) (ids : List ℕ)
        → find_match d sms none rows ≡ defer reason ids
        → is_reference_reason reason ≡ false
        → Grounded m rows create_new (of_processing ctx choose input_hash v now parse_sms y)
    of_processing-Grounded none reason ids decision other = tt
    of_processing-Grounded (some (o, n, after)) reason ids decision other =
        of_outcome-Grounded o n after reason ids o.transaction_id decision other

    on_decision-Grounded :
        (role : String) (k : MatchDecision)
        → find_match d sms none rows ≡ k
        → Grounded m rows create_new
            (on_decision ctx choose input_hash v now parse_sms m role rows k)
    on_decision-Grounded role (match c kind) decision = tt
    on_decision-Grounded role insert decision = tt
    on_decision-Grounded role (defer reason ids) decision =
        elim (Bool-cases (is_reference_reason reason)) [
          | inl known ↦ rw known tt
          | inr other ↦ rw other (
              of_processing-Grounded
                (process_sms_row ctx choose input_hash v now parse_sms true
                  (str_eq role "provisional") m rows)
                reason ids decision other)
        ]

    on_data-Grounded :
        (a : SmsDuplicateAction) (id : Option ℕ) (role : String)
        → Grounded m rows a
            (on_action ctx choose input_hash v now parse_sms a id m role rows (some d))
    unfolding resolve_merge resolve_create_new
    on_data-Grounded merge none role = tt
    on_data-Grounded merge (some id) role = on_target-Grounded (row_at id rows)
    on_data-Grounded create_new id role =
        on_decision-Grounded role (find_match d sms none rows) refl

  module _ (ctx : LinkContext) (choose : Transaction → AccountChoice)
      (input_hash : Details → String) (v now : ℕ) where
    on_mapped-Grounded :
        (a : SmsDuplicateAction) (id : Option ℕ) (m : SmsMessage) (rows : List Transaction)
        (p : ParsedSms) (o : Option TxnData)
        → is_deferred m ≡ true
        → parse_sms m.bank m.body m.sender m.received_at ≡ ParseOutcome.parsed p
        → parsed_sms_to_txn_data p m ≡ o
        → Grounded m rows a
            (on_action ctx choose input_hash v now parse_sms a id m p.ledger_role rows o)
    on_mapped-Grounded a id m rows p none waits read mapped = tt
    on_mapped-Grounded a id m rows p (some d) waits read mapped =
        on_data-Grounded ctx choose input_hash v now m rows waits p d
          (record { parsed_as = read; mapped_to = mapped }) a id p.ledger_role

    on_stored-Grounded :
        (a : SmsDuplicateAction) (id : Option ℕ) (m : SmsMessage) (rows : List Transaction)
        (o : ParseOutcome)
        → is_deferred m ≡ true
        → parse_sms m.bank m.body m.sender m.received_at ≡ o
        → Grounded m rows a (on_stored ctx choose input_hash v now parse_sms a id m rows o)
    on_stored-Grounded a id m rows (unsupported_sms_type e) waits read = tt
    on_stored-Grounded a id m rows (parse_failed e) waits read = tt
    on_stored-Grounded a id m rows (ParseOutcome.parsed p) waits read =
        on_mapped-Grounded a id m rows p (parsed_sms_to_txn_data p m) waits read refl

    on_linked-Grounded :
        (a : SmsDuplicateAction) (id : Option ℕ) (m : SmsMessage) (rows : List Transaction)
        (o : Option ℕ)
        → linked_transaction_id m rows ≡ o
        → Grounded m rows a (on_linked ctx choose input_hash v now parse_sms a id m rows o)
    on_linked-Grounded a id m rows (some linked_id) h = Grounds.was_linked refl h
    on_linked-Grounded a id m rows none h = elim (Bool-cases (is_deferred m)) [
      | inl waits ↦ rw waits (
          on_stored-Grounded a id m rows (parse_sms m.bank m.body m.sender m.received_at) waits
            refl)
      | inr not_waiting ↦ rw not_waiting tt
    ]

    -- A call that answers with a transaction has one of these grounds: the message was linked to that
    -- transaction already; or the action is merge, the message waits as a possible duplicate, and the
    -- transaction is one that the matcher offers now and that qualifies for the message as it is parsed
    -- again; or the action is create_new, the message waits, and the matcher still defers, for another
    -- reason than a reference that is known with other data or several times.
    pub resolve_sms_duplicate-Grounded :
        (a : SmsDuplicateAction) (id : Option ℕ) (m : SmsMessage) (rows : List Transaction)
        → Grounded m rows a
            (resolve_sms_duplicate ctx choose input_hash v now parse_sms a id (some m) rows)
    unfolding resolve_sms_duplicate
    resolve_sms_duplicate-Grounded a id m rows =
        on_linked-Grounded a id m rows (linked_transaction_id m rows) refl

-- ===== src/Sms/Outcome.antt =====
-- What `process_sms_row` (financial_dashboard/services/sms_pipeline.py) leaves behind.
use bank_email_fetcher.Prelude.{
  ℕ, String, Bool, true, false, ◌||◌, Option, none, some, List, ◌≡◌, ◌∙◌, ◌⊎◌, refl, sym, ap,
  is_none, str_eq, is_empty, Bool-cases, inl, inr, contains, codes, lower, if◌then◌else◌,
}
use bank_email_fetcher.Categorize.Transfer.{Details}
use bank_email_fetcher.Linker.Context.{LinkContext}
use bank_email_fetcher.Merge.Row.{Text, Transaction, TxnData, sms}
use bank_email_fetcher.Merge.Text.{text_or_empty, reference_of}
use bank_email_fetcher.Merge.Store.{has_unique_refs, update_row}
use bank_email_fetcher.Merge.Match.{DeferralReason}
use bank_email_fetcher.Merge.Run
use bank_email_fetcher.Merge.Run.{MergeResult, merge_transaction}
use bank_email_fetcher.Merge.Outcomes.{Writes, Merged}
use bank_email_fetcher.Merge.Merged.{merge_transaction-Merged}
use bank_email_fetcher.Sms.Row
use bank_email_fetcher.Sms.Row.{
  SmsMessage, ParseOutcome, unsupported_sms_type, parse_failed, SmsStatus, error, skipped, enriched,
  status_text, ProcessSmsOutcome, Processing, put_aside, parsed_sms_to_txn_data,
}
use bank_email_fetcher.Sms.Accounts.{AccountChoice}
use bank_email_fetcher.Sms.Complete.{
  completed, unpaired, is_completed, complete_row, on_primary, complete_reference,
  find_completion_primary,
}
use bank_email_fetcher.Sms.Process.{
  is_gated, after_merge, after_created, after_enriched, on_txn_data, on_mapped, on_parse,
  process_sms_row,
}

abbrev pub is_success : SmsStatus → Bool
is_success Row.parsed = true
is_success enriched = true
is_success error = false
is_success skipped = false

-- The message agrees with the outcome of the call; where nothing came of it, no transaction is named
-- and the table is as before.
pub record Agrees (m : SmsMessage) (rows : List Transaction)
    (x : ProcessSmsOutcome × SmsMessage × List Transaction) : Type 0 where
  pub same_message : x.1.id ≡ m.id
  pub same_status : x.1.status ≡ status_text x.0.status
  pub error_cleared : is_none x.1.parse_error ≡ is_success x.0.status
  pub same_row : (x.0.transaction_id ≡ none) ⊎ (x.1.transaction_id ≡ x.0.transaction_id)
  pub nothing_done : is_success x.0.status ≡ false → (x.0.transaction_id ≡ none) × (x.2 ≡ rows)

-- Every result of the call agrees; an IntegrityError has none.
abbrev pub Agreed : SmsMessage → List Transaction → Processing → Type 0
Agreed m rows none = Unit
Agreed m rows (some x) = Agrees m rows x

module _ (m : SmsMessage) (rows : List Transaction) where
  put_aside-Agreed :
      (n : SmsMessage) (s : SmsStatus) (why : Text)
      → n.id ≡ m.id
      → is_success s ≡ false
      → Agreed m rows (put_aside s why n rows)
  put_aside-Agreed n s why own h = record {
    same_message = own;
    same_status = refl;
    error_cleared = sym h;
    same_row = inl refl;
    nothing_done = λ k. (refl, refl);
  }

  -- A success clears the error and names the row of the message, or none.
  success-Agrees :
      (x : ProcessSmsOutcome × SmsMessage × List Transaction)
      → x.1.id ≡ m.id
      → x.1.status ≡ status_text x.0.status
      → x.1.parse_error ≡ none
      → (x.0.transaction_id ≡ none) ⊎ (x.1.transaction_id ≡ x.0.transaction_id)
      → is_success x.0.status ≡ true
      → Agrees m rows x
  success-Agrees x own st cleared row success = record {
    same_message = own;
    same_status = st;
    error_cleared = ap is_none cleared ∙ sym success;
    same_row = row;
    nothing_done = λ k. absurd (true_false (sym success ∙ k));
  }
    where
      true_false : true ≡ false → ⊥
      true_false h = cc

module _ (input_hash : Details → String) (v now : ℕ) where
  complete_row-Agreed :
      (m n : SmsMessage) (d : TxnData) (p : Transaction) (rows : List Transaction)
      → n.id ≡ m.id
      → Agreed m rows (complete_row input_hash v now n d p rows)
  complete_row-Agreed m n d p rows own =
      elim (Bool-cases (has_unique_refs (update_row p.id (completed d) rows))) [
        | inl unique ↦ rw unique (success-Agrees m rows _ own refl refl (inr refl) refl)
        | inr clash ↦ rw clash tt
      ]

  on_primary-Agreed :
      (m n : SmsMessage) (d : TxnData) (k : ℕ) (o : Option Transaction) (rows : List Transaction)
      → n.id ≡ m.id
      → Agreed m rows (on_primary input_hash v now n d k o rows)
  on_primary-Agreed m n d k none rows own =
      put_aside-Agreed m rows (record n { transaction_id = none }) skipped (unpaired k) own refl
  on_primary-Agreed m n d k (some p) rows own = complete_row-Agreed m n d p rows own

  complete_reference-Agreed :
      (m n : SmsMessage) (d : TxnData) (rows : List Transaction)
      → n.id ≡ m.id
      → Agreed m rows (complete_reference input_hash v now n d rows)
  unfolding complete_reference
  complete_reference-Agreed m n d rows own =
      elim (Bool-cases
        (is_empty (reference_of d.reference_number) || is_empty (text_or_empty d.channel))) [
          | inl lacks ↦ rw lacks (put_aside-Agreed m rows n skipped _ own refl)
          | inr named ↦
              elim (Bool-cases
                (is_completed (reference_of d.reference_number) n.transaction_id rows)) [
                  | inl done ↦
                      rw (named, done) (success-Agrees m rows _ own refl refl (inr refl) refl)
                  | inr fresh ↦
                      rw (named, fresh)
                        (on_primary-Agreed m n d (find_completion_primary d rows).count
                          (find_completion_primary d rows).primary rows own)
                ]
        ]

  -- A merge that defers leaves the table.
  deferred-same :
      (d : TxnData) (s e : Option ℕ) (forced : Bool) (rows after : List Transaction)
      (result : MergeResult) (reason : DeferralReason) (ids : List ℕ)
      → Merged now sms d s e forced rows rows result after
      → result ≡ Run.deferred reason ids
      → after ≡ rows
  deferred-same d s e forced rows after result reason ids (Merged.left_to_review r i f m eq t) h = t
  deferred-same d s e forced rows after result reason ids (Merged.conflict c k chosen denied eq t)
        h =
      t
  deferred-same d s e forced rows after result reason ids (Merged.present c f at own eq t) h = t
  deferred-same d s e forced rows after result reason ids (Merged.refused n x w clash eq t) h = t
  deferred-same d s e forced rows after result reason ids
        (Merged.wrote n (Writes.appends why eq table) same u) h =
      cc
  deferred-same d s e forced rows after result reason ids
        (Merged.wrote n (Writes.updates c k cl chosen claim eq table) same u) h =
      cc

module _ (ctx : LinkContext) (choose : Transaction → AccountChoice) where
  after_merge-Agreed :
      (m n : SmsMessage) (rows : List Transaction) (x : MergeResult × List Transaction)
      → n.id ≡ m.id
      → n.parse_error ≡ none
      → ((reason : DeferralReason) (ids : List ℕ) → x.0 ≡ Run.deferred reason ids → x.1 ≡ rows)
      → Agreed m rows (after_merge ctx choose n x)
  unfolding after_created after_enriched
  after_merge-Agreed m n rows (Run.created id, after) own clear f =
      success-Agrees m rows _ own refl clear (inr refl) refl
  after_merge-Agreed m n rows (Run.enriched id diff, after) own clear f =
      success-Agrees m rows _ own refl clear (inr refl) refl
  after_merge-Agreed m n rows (Run.deferred reason ids, after) own clear f = record {
    same_message = own;
    same_status = refl;
    error_cleared = refl;
    same_row = inl refl;
    nothing_done = λ k. (refl, f reason ids refl);
  }
  after_merge-Agreed m n rows (Run.integrity_error, after) own clear f = tt

  module _ (input_hash : Details → String) (v now : ℕ)
      (parse_sms : Text → Text → Text → ℕ → ParseOutcome) where
    on_txn_data-Agreed :
        (force_new settle : Bool) (role : String) (m n : SmsMessage) (d : TxnData)
        (rows : List Transaction)
        → n.id ≡ m.id
        → n.parse_error ≡ none
        → Agreed m rows
            (on_txn_data ctx choose input_hash v now parse_sms force_new settle role n d rows)
    unfolding on_txn_data
    on_txn_data-Agreed force_new settle role m n d rows own clear =
        elim (Bool-cases (is_gated settle role d)) [
          | inl gated ↦ rw gated (success-Agrees m rows _ own refl clear (inr refl) refl)
          | inr open_gate ↦ elim (Bool-cases (str_eq d.direction "declined")) [
            | inl declined ↦
                rw (open_gate, declined) (success-Agrees m rows _ own refl clear (inl refl) refl)
            | inr real ↦ elim (Bool-cases (str_eq role "completion")) [
              | inl leg ↦
                  rw (open_gate, real, leg)
                    (complete_reference-Agreed input_hash v now m n d rows own)
              | inr other ↦
                  rw (open_gate, real, other)
                    (after_merge-Agreed m n rows _ own clear (λ reason ids h.
                      deferred-same input_hash v now d (some n.id) none force_new rows _ _ reason
                        ids
                        (merge_transaction-Merged input_hash v now sms d (some n.id) none force_new
                          rows rows)
                        h))
            ]
          ]
        ]

    on_mapped-Agreed :
        (force_new settle : Bool) (role : String) (m n : SmsMessage) (rows : List Transaction)
        (o : Option TxnData)
        → n.id ≡ m.id
        → Agreed m rows
            (on_mapped ctx choose input_hash v now parse_sms force_new settle role n rows o)
    on_mapped-Agreed force_new settle role m n rows none own =
        put_aside-Agreed m rows n skipped _ own refl
    on_mapped-Agreed force_new settle role m n rows (some d) own =
        on_txn_data-Agreed force_new settle role m (record n { parse_error = none }) d rows own refl

    aside-status : (b : Bool) → is_success (if b then skipped else error) ≡ false
    aside-status true = refl
    aside-status false = refl

    on_parse-Agreed :
        (force_new settle : Bool) (m n : SmsMessage) (rows : List Transaction) (o : ParseOutcome)
        → n.id ≡ m.id
        → Agreed m rows (on_parse ctx choose input_hash v now parse_sms force_new settle n rows o)
    on_parse-Agreed force_new settle m n rows (unsupported_sms_type e) own =
        put_aside-Agreed m rows n skipped e own refl
    on_parse-Agreed force_new settle m n rows (parse_failed e) own =
        put_aside-Agreed m rows n _ e own (aside-status (contains (codes "_stub") (lower e)))
    on_parse-Agreed force_new settle m n rows (ParseOutcome.parsed p) own =
        on_mapped-Agreed force_new settle p.ledger_role m n rows _ own

    -- Whatever the parser answers and whatever the flags are, a call that returns leaves a message that
    -- agrees with its outcome: the id is kept, the status is that of the outcome, the error is cleared
    -- exactly on a success, and a transaction that the outcome names is the one that the message points
    -- at. A message that is skipped or an error names no transaction and leaves the table as it was.
    pub process_sms_row-Agreed :
        (force_new settle : Bool) (m : SmsMessage) (rows : List Transaction)
        → Agreed m rows
            (process_sms_row ctx choose input_hash v now parse_sms force_new settle m rows)
    unfolding process_sms_row
    process_sms_row-Agreed force_new settle m rows =
        on_parse-Agreed force_new settle m (record m { parsed_at = some now }) rows _ refl

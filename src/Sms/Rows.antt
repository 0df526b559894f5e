-- ===== src/Sms/Rows.antt =====
-- The messages for which `process_sms_row` (financial_dashboard/services/sms_pipeline.py) opens no row.
use bank_email_fetcher.Prelude.{
  ℕ, suc, String, Bool, true, ◌||◌, Option, none, some, List, [], ◌∷◌, ◌≡◌, ◌∙◌, refl, ap, eqb,
  str_eq, length, is_empty, Bool-cases, inl, inr,
}
use bank_email_fetcher.Categorize.Transfer.{Details}
use bank_email_fetcher.Linker.Context.{LinkContext}
use bank_email_fetcher.Merge.Row.{Text, Transaction, TxnData}
use bank_email_fetcher.Merge.Text.{text_or_empty, reference_of}
use bank_email_fetcher.Merge.Store.{has_unique_refs, update_row}
use bank_email_fetcher.Merge.Table.{SameRows, apply_self_transfer-SameRows}
use bank_email_fetcher.Sms.Row.{
  SmsMessage, ParsedSms, ParseOutcome, Processing, parsed_sms_to_txn_data,
}
use bank_email_fetcher.Sms.Accounts.{AccountChoice}
use bank_email_fetcher.Sms.Complete.{
  completed, is_completed, on_primary, complete_reference, find_completion_primary,
}
use bank_email_fetcher.Sms.Process.{is_gated, on_txn_data, process_sms_row}

length-update_row :
    (id : ℕ) (f : Transaction → Transaction) (rows : List Transaction)
    → length (update_row id f rows) ≡ length rows
unfolding update_row
length-update_row id f [] = refl
length-update_row id f (r ∷ rows) = elim (Bool-cases (eqb r.id id)) [
  | inl hit ↦ rw hit (ap suc (length-update_row id f rows))
  | inr miss ↦ rw miss (ap suc (length-update_row id f rows))
]

SameRows-length : (rs ss : List Transaction) → SameRows rs ss → length ss ≡ length rs
unfolding SameRows
SameRows-length [] [] h = refl
SameRows-length [] (s ∷ ss) h = absurd h
SameRows-length (r ∷ rs) [] h = absurd h
SameRows-length (r ∷ rs) (s ∷ ss) h = ap suc (SameRows-length rs ss h.1)

-- The table has as many rows as before.
abbrev pub KeepsLength : List Transaction → Processing → Type 0
KeepsLength rows none = Unit
KeepsLength rows (some x) = length x.2 ≡ length rows

module _ (input_hash : Details → String) (v now : ℕ) where
  on_primary-KeepsLength :
      (n : SmsMessage) (d : TxnData) (k : ℕ) (o : Option Transaction) (rows : List Transaction)
      → KeepsLength rows (on_primary input_hash v now n d k o rows)
  on_primary-KeepsLength n d k none rows = refl
  on_primary-KeepsLength n d k (some p) rows =
      elim (Bool-cases (has_unique_refs (update_row p.id (completed d) rows))) [
        | inl unique ↦ rw unique (
            SameRows-length (update_row p.id (completed d) rows) _ (
              apply_self_transfer-SameRows input_hash v now (completed d p)
                (update_row p.id (completed d) rows))
            ∙ length-update_row p.id (completed d) rows)
        | inr clash ↦ rw clash tt
      ]

  complete_reference-KeepsLength :
      (n : SmsMessage) (d : TxnData) (rows : List Transaction)
      → KeepsLength rows (complete_reference input_hash v now n d rows)
  unfolding complete_reference
  complete_reference-KeepsLength n d rows =
      elim (Bool-cases
        (is_empty (reference_of d.reference_number) || is_empty (text_or_empty d.channel))) [
          | inl lacks ↦ rw lacks refl
          | inr named ↦
              elim (Bool-cases
                (is_completed (reference_of d.reference_number) n.transaction_id rows)) [
                  | inl done ↦ rw (named, done) refl
                  | inr fresh ↦
                      rw (named, fresh)
                        (on_primary-KeepsLength n d (find_completion_primary d rows).count
                          (find_completion_primary d rows).primary rows)
                ]
        ]

  module _ (ctx : LinkContext) (choose : Transaction → AccountChoice)
      (parse_sms : Text → Text → Text → ℕ → ParseOutcome) where
    on_txn_data-KeepsLength :
        (force_new settle : Bool) (role : String) (n : SmsMessage) (d : TxnData)
        (rows : List Transaction)
        → (is_gated settle role d || str_eq d.direction "declined" || str_eq role "completion")
          ≡ true
        → KeepsLength rows
            (on_txn_data ctx choose input_hash v now parse_sms force_new settle role n d rows)
    unfolding on_txn_data
    on_txn_data-KeepsLength force_new settle role n d rows h =
        elim (Bool-cases (is_gated settle role d)) [
          | inl gated ↦ rw gated refl
          | inr open_gate ↦ elim (Bool-cases (str_eq d.direction "declined")) [
            | inl declined ↦ rw (open_gate, declined) refl
            | inr real ↦
                rw (open_gate, real, (rw (open_gate, real) at h))
                  (complete_reference-KeepsLength n d rows)
          ]
        ]

    -- A message that the parser reads as a notice only (a provisional or restated credit that is not
    -- being settled), as declined, or as a completion leg opens no row, even where a new row is forced:
    -- a call that returns leaves the table with as many rows as before.
    pub process_sms_row-KeepsLength :
        (force_new settle : Bool) (m : SmsMessage) (rows : List Transaction) (p : ParsedSms)
        (d : TxnData)
        → parse_sms m.bank m.body m.sender m.received_at ≡ ParseOutcome.parsed p
        → parsed_sms_to_txn_data p (record m { parsed_at = some now }) ≡ some d
        → (is_gated settle p.ledger_role d
            || str_eq d.direction "declined"
            || str_eq p.ledger_role "completion")
          ≡ true
        → KeepsLength rows
            (process_sms_row ctx choose input_hash v now parse_sms force_new settle m rows)
    unfolding process_sms_row
    process_sms_row-KeepsLength force_new settle m rows p d read mapped quiet =
        rw (read, mapped)
          (on_txn_data-KeepsLength force_new settle p.ledger_role
            (record m { parsed_at = some now; parse_error = none }) d rows quiet)

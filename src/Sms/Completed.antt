-- ===== src/Sms/Completed.antt =====
-- `_complete_reference` of financial_dashboard/services/sms_pipeline.py called twice.
use mathlib.Core.Path.{subst}
use bank_email_fetcher.Prelude.{
  ℕ, String, true, false, ◌||◌, Option, none, some, List, [], ◌∷◌, ◌≡◌, ◌∙◌, refl, sym, ap, arith,
  eqb, codes_eq, codes_eq_refl, is_empty, Bool-cases, inl, inr, In,
}
use bank_email_fetcher.Categorize.Transfer.{Details}
use bank_email_fetcher.Merge.Row.{Transaction, TxnData}
use bank_email_fetcher.Merge.Text.{text_or_empty, reference_of}
use bank_email_fetcher.Merge.Store.{has_unique_refs, update_row, apply_self_transfer, find_row}
use bank_email_fetcher.Merge.Table.{apply_self_transfer-SameRows}
use bank_email_fetcher.Merge.Force.{find_row-SameRows}
use bank_email_fetcher.Sms.Row.{
  SmsMessage, ProcessSmsOutcome, Processing, skipped, parsed, plain_outcome,
}
use bank_email_fetcher.Sms.Complete.{
  completed, has_reference, is_completed, complete_row, on_primary, complete_reference,
  find_completion_primary,
}
use bank_email_fetcher.Sms.Blanks.{strip_idem}
use bank_email_fetcher.Sms.Unique.{find_completion_primary-Only}

abbrev Result : Type 0
Result = ProcessSmsOutcome × SmsMessage × List Transaction

the_some : {a b : Result} → some a ≡ some b → a ≡ b
the_some e = cc

-- The row with the id is found after its update, updated.
find_row-update_row :
    (id : ℕ) (f : Transaction → Transaction)
    → ((r : Transaction) → (f r).id ≡ r.id)
    → (rows : List Transaction) (p : Transaction) → In p rows
    → p.id ≡ id
    → (r : Transaction) × (find_row (λ x. eqb x.id id) (update_row id f rows) ≡ some (f r))
unfolding update_row
find_row-update_row id f keeps [] p i h = absurd i
find_row-update_row id f keeps (r ∷ rows) p i h = elim (Bool-cases (eqb r.id id)) [
  | inl hit ↦ (r, rw (hit, keeps r, hit) refl)
  | inr miss ↦ elim i [
    | inl e ↦
        let own : r.id ≡ id = ap (λ (x : Transaction). x.id) (sym e) ∙ h in absurd (ground arith)
    | inr j ↦
        let (x, found) = find_row-update_row id f keeps rows p j h in (x, rw (miss, miss) found)
  ]
]

module _ (d : TxnData) where
  completed-id : (r : Transaction) → (completed d r).id ≡ r.id
  unfolding completed
  completed-id r = refl

  -- Whatever the rule makes of the category, the row that was completed has the reference.
  completed-reference :
      (r n : Transaction)
      → n ≡ record (completed d r) { category = n.category }
      → codes_eq (reference_of n.reference_number) (reference_of d.reference_number) ≡ true
  unfolding completed
  completed-reference r n e =
      let bare : reference_of n.reference_number ≡ reference_of d.reference_number =
        ap (λ (x : Transaction). reference_of x.reference_number) e
        ∙ (unfold reference_of in strip_idem (text_or_empty d.reference_number)) in
      ap (λ t. codes_eq t (reference_of d.reference_number)) bare
      ∙ codes_eq_refl (reference_of d.reference_number)

  module _ (input_hash : Details → String) (v now : ℕ) where
    is_completed-after :
        (rows : List Transaction) (p : Transaction)
        → In p rows
        → is_completed (reference_of d.reference_number) (some p.id) (
            apply_self_transfer input_hash v now
              (completed d p)
              (update_row p.id (completed d) rows))
          ≡ true
    is_completed-after rows p i =
        let after = update_row p.id (completed d) rows in
        let (r, found) = find_row-update_row p.id (completed d) completed-id rows p i refl in
        let (n, found_n, e) =
          find_row-SameRows (λ x. eqb x.id p.id)
            (λ x y h. ap (λ (z : Transaction). eqb z.id p.id) h) (completed d r) after
            (apply_self_transfer input_hash v now (completed d p) after)
            (apply_self_transfer-SameRows input_hash v now (completed d p) after) found in
        ap (has_reference (reference_of d.reference_number)) found_n ∙ completed-reference r n e

    again_completed :
        (m : SmsMessage) (id : Option ℕ) (rows : List Transaction)
        → (is_empty (reference_of d.reference_number) || is_empty (text_or_empty d.channel)) ≡ false
        → is_completed (reference_of d.reference_number) id rows ≡ true
        → complete_reference input_hash v now
            (record m { status = "parsed"; transaction_id = id; parse_error = none })
            d
            rows
          ≡ some (
            plain_outcome parsed id,
            record m { status = "parsed"; transaction_id = id; parse_error = none },
            rows,
          )
    unfolding complete_reference
    again_completed m id rows named done = rw (named, done)

    Again : Result → Type 0
    Again x = complete_reference input_hash v now x.1 d x.2 ≡ some x

    complete_row-Again :
        (m : SmsMessage) (p : Transaction) (rows : List Transaction) (x : Result)
        → (is_empty (reference_of d.reference_number) || is_empty (text_or_empty d.channel)) ≡ false
        → In p rows
        → complete_row input_hash v now m d p rows ≡ some x
        → Again x
    unfolding Again
    complete_row-Again m p rows x named i h =
        elim (Bool-cases (has_unique_refs (update_row p.id (completed d) rows))) [
          | inl unique ↦
              let same : some (
                plain_outcome parsed (some p.id),
                record m { status = "parsed"; transaction_id = some p.id; parse_error = none },
                apply_self_transfer input_hash v now (completed d p)
                    (update_row p.id (completed d) rows),
              )
                  ≡ some x =
                rw unique at h in
              subst (λ (y : Result). complete_reference input_hash v now y.1 d y.2 ≡ some y)
                (the_some same)
                (again_completed m (some p.id) _ named (is_completed-after rows p i))
          | inr clash ↦ let gone : none ≡ some x = rw clash at h in cc
        ]

    on_primary-Again :
        (m : SmsMessage) (n : ℕ) (o : Option Transaction) (rows : List Transaction) (x : Result)
        → (is_empty (reference_of d.reference_number) || is_empty (text_or_empty d.channel)) ≡ false
        → ((p : Transaction) → o ≡ some p → In p rows)
        → x.0.status ≡ parsed
        → on_primary input_hash v now m d n o rows ≡ some x
        → Again x
    on_primary-Again m n none rows x named f st h =
        let quiet : skipped ≡ x.0.status =
          ap (λ (y : Processing). elim y [ none ↦ skipped | some z ↦ z.0.status ]) h in
        let clash : skipped ≡ parsed = quiet ∙ st in cc
    on_primary-Again m n (some p) rows x named f st h =
        complete_row-Again m p rows x named (f p refl) h

    -- Where a completion leg was parsed, so that its reference is on its row, handling the message that
    -- was left behind a second time gives the same outcome, and changes neither the message nor the
    -- table.
    pub complete_reference-again :
        (m : SmsMessage) (rows : List Transaction)
        (x : ProcessSmsOutcome × SmsMessage × List Transaction)
        → complete_reference input_hash v now m d rows ≡ some x
        → x.0.status ≡ parsed
        → complete_reference input_hash v now x.1 d x.2 ≡ some x
    unfolding complete_reference Again
    complete_reference-again m rows x h st =
        elim (Bool-cases
          (is_empty (reference_of d.reference_number) || is_empty (text_or_empty d.channel))) [
            | inl lacks ↦
                let quiet : skipped ≡ x.0.status =
                  ap (λ (y : Processing). elim y [ none ↦ skipped | some z ↦ z.0.status ])
                    (rw lacks at h) in
                let clash : skipped ≡ parsed = quiet ∙ st in cc
            | inr named ↦
                elim (Bool-cases
                  (is_completed (reference_of d.reference_number) m.transaction_id rows)) [
                    | inl done ↦
                        let same : some (
                          plain_outcome parsed m.transaction_id,
                          record m { status = "parsed"; parse_error = none },
                          rows,
                        )
                            ≡ some x =
                          rw (named, done) at h in
                        subst
                          (λ (y : Result). complete_reference input_hash v now y.1 d y.2 ≡ some y)
                          (the_some same) (again_completed m m.transaction_id rows named done)
                    | inr fresh ↦
                        on_primary-Again m (find_completion_primary d rows).count
                          (find_completion_primary d rows).primary rows x named
                          (λ p e. (find_completion_primary-Only d rows p e).0) st
                          (rw (named, fresh) at h)
                  ]
          ]

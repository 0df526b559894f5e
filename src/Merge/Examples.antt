-- ===== src/Merge/Examples.antt =====
-- The theorems of the merge at concrete messages and rows, and tests.
use bank_email_fetcher.Prelude.{
  ℕ, ◌+◌, ◌-◌, ◌*◌, ◌≤◌, String, Bool, true, false, Option, none, some, List, [], ◌∷◌, ◌≡◌, refl,
  inl, inr, arith, codes, strip, lower,
}
use bank_email_fetcher.Masks.{
  normalize_mask, mask_matches, overlap_agrees, chars_agree, char_kind, normalize_loop,
  is_separator, mask_digits,
}
use bank_email_fetcher.Categorize.Transfer.{
  Details, apply_reference_self_transfer_rule, may_pair, is_match, opposite_direction,
}
use bank_email_fetcher.Categorize.Rules.{is_fd_counterparty}
use bank_email_fetcher.Merge.Decimal.{Decimal, dec_eq, half_even, quantize, balances_differ}
use bank_email_fetcher.Merge.Row.{Channel, sms, email, Transaction, TxnData}
use bank_email_fetcher.Merge.Text.{
  normalize_counterparty, counterparty_match, reference_of, normalized_reference,
  shortened_reference_match, card_payment_mask_match, no_field_identifies_the_event,
  references_prove_distinct,
}
use bank_email_fetcher.Merge.Window.{combine, hour, minute, in_window, in_alias_window}
use bank_email_fetcher.Merge.Match.{
  same_terms, is_selected, narrowed, gather_fuzzy_candidates, decide, standard, match,
  multiple_candidates, source_slot_conflict, reference_amount_mismatch,
}
use bank_email_fetcher.Merge.Find.{
  same_reference, is_alias, find_am_pm_alias_match, match_without_reference, on_reference_row,
  find_match,
}
use bank_email_fetcher.Merge.Enrich
use bank_email_fetcher.Merge.Enrich.{
  change_of, on_conflict, is_information_downgrade, incoming_time_is_earlier,
  compute_enrichment_diff, compute_applied_enrichment_diff, no_diff,
}
use bank_email_fetcher.Merge.Evidence.{SameEvent, find_match-SameEvent}
use bank_email_fetcher.Merge.Table.{SameRows}
use bank_email_fetcher.Merge.Outcomes.{Merged}
use bank_email_fetcher.Merge.Merged.{merge_transaction-Merged}
use bank_email_fetcher.Merge.Again.{merge_transaction-replay}
use bank_email_fetcher.Merge.Force.{merge_transaction-force_again, merge_transaction-lost_race}
use bank_email_fetcher.Merge.Kept.{enrich-sms, enrich-email_point}
use bank_email_fetcher.Merge.Store.{
  no_category, new_row, same_key, has_unique_refs, update_row, claim_transaction_source_slot,
  apply_self_transfer,
}
use bank_email_fetcher.Merge.Run.{
  MergeResult, created, enriched, deferred, integrity_error, set_fields, enrich,
  existing_for_source, insert_new, act_on, apply_transaction_enrichment, merge_transaction,
}

abbrev rupees : ℕ → Decimal
rupees n = record { negative = false; coefficient = n; places = 0 }

-- the same digits, as a column of two places keeps them
abbrev cents : ℕ → Decimal
cents n = record { negative = false; coefficient = n; places = 2 }

-- a UPI debit as the SMS reports it
abbrev alert : TxnData
alert = record {
  bank = codes "hdfc";
  email_type = codes "hdfc_upi_alert";
  direction = "debit";
  amount = rupees 500;
  currency = some (codes "INR");
  transaction_date = some 739000;
  transaction_time = some (combine 0 (10 * hour));
  identifies_by = some "counterparty";
  transaction_time_is_received_time = false;
  counterparty = some (codes "Zomato");
  card_mask = none;
  account_mask = some (codes "XX1234");
  reference_number = some (codes "UPI5551");
  channel = some (codes "upi");
  balance = none;
  raw_description = none;
}

abbrev hash : Details → String
hash d = "hash"

-- the mail about the event, four minutes earlier, with the name in full and a balance
abbrev mail : TxnData
mail = record alert {
  transaction_time = some (combine 0 (10 * hour) - 4 * minute);
  counterparty = some (codes "Zomato Limited");
  account_mask = some (codes "XXXXXX1234");
  balance = some (rupees 9000);
}

-- the same payment of a second merchant two minutes later
abbrev other_alert : TxnData
other_alert = record alert {
  transaction_time = some (combine 0 (10 * hour) + 2 * minute);
  counterparty = some (codes "Swiggy");
  reference_number = none;
}

-- what a merge answers, and the table after it
run :
    Channel
    → TxnData
    → Option ℕ
    → Option ℕ
    → Bool
    → List Transaction
    → MergeResult × List Transaction
unfolding strip lower quantize half_even dec_eq balances_differ new_row find_match reference_of
    normalized_reference shortened_reference_match counterparty_match normalize_counterparty
    normalize_mask char_kind normalize_loop is_separator mask_matches overlap_agrees chars_agree
    mask_digits card_payment_mask_match no_field_identifies_the_event references_prove_distinct
    in_window in_alias_window same_terms is_selected narrowed gather_fuzzy_candidates decide
    same_reference is_alias find_am_pm_alias_match match_without_reference on_reference_row
    change_of on_conflict is_information_downgrade incoming_time_is_earlier compute_enrichment_diff
    compute_applied_enrichment_diff same_key has_unique_refs update_row
    claim_transaction_source_slot apply_self_transfer set_fields enrich existing_for_source
    insert_new act_on apply_transaction_enrichment merge_transaction
    apply_reference_self_transfer_rule may_pair is_match opposite_direction is_fd_counterparty
run ch d s e forced rows = merge_transaction hash 1 100 ch d s e forced rows rows

abbrev stored_row : Transaction
stored_row = record {
  id = 1;
  email_id = none;
  sms_message_id = some 11;
  account_id = none;
  bank = codes "hdfc";
  email_type = codes "hdfc_upi_alert";
  direction = "debit";
  amount = cents 50000;
  currency = some (codes "INR");
  transaction_date = some 739000;
  transaction_time = some (combine 0 (10 * hour));
  identifies_by = "counterparty";
  transaction_time_is_received_time = false;
  counterparty = some (codes "Zomato");
  card_mask = none;
  account_mask = some (codes "XX1234");
  reference_number = some (codes "UPI5551");
  channel = some (codes "upi");
  balance = none;
  raw_description = none;
  source = some "sms";
  notified_channel = some "sms";
  enriched_at = none;
  category = no_category;
}

created_test : run sms alert (some 11) none false [] ≡ (created 1, stored_row ∷ [])
unfolding run
created_test = refl

-- The mail enriches the row: an earlier time, the longer name and the balance; the mask is the same.
enriched_test :
    (run email mail none (some 21) false (stored_row ∷ [])).1
    ≡ record stored_row {
      email_id = some 21;
      transaction_time = some (combine 0 (10 * hour) - 4 * minute);
      counterparty = some (codes "Zomato Limited");
      account_mask = some (codes "XX1234");
      balance = some (cents 900000);
      source = some "sms+email";
      enriched_at = some 100;
    }
      ∷ []
unfolding run
enriched_test = refl

-- a row that a mail without AM or PM left at 10:33, where the event was at 22:33
abbrev ambiguous_row : Transaction
ambiguous_row = record stored_row {
  email_type = codes "icici_cc_transaction_alert";
  transaction_time = some (combine 0 (10 * hour + 33 * minute));
  reference_number = none;
}

-- The time of the alias becomes the incoming one, twelve hours later.
alias_test :
    (run email
      (record mail {
        transaction_time = some (combine 0 (22 * hour + 33 * minute));
        reference_number = none;
      })
      none
      (some 21)
      false
      (ambiguous_row ∷ [])).1
    ≡ record ambiguous_row {
      email_id = some 21;
      transaction_time = some (combine 0 (22 * hour + 33 * minute));
      counterparty = some (codes "Zomato Limited");
      balance = some (cents 900000);
      source = some "sms+email";
      enriched_at = some 100;
    }
      ∷ []
unfolding run
alias_test = refl

-- Two rows that nothing tells apart: the message waits for a review.
deferred_test :
    (run sms other_alert (some 12) none false (stored_row ∷ record stored_row { id = 2 } ∷ [])).0
    ≡ deferred multiple_candidates (1 ∷ 2 ∷ [])
unfolding run
deferred_test = refl

-- The reference is known with another amount.
amount_test :
    (run sms (record alert { amount = rupees 700 }) (some 12) none false (stored_row ∷ [])).0
    ≡ deferred reference_amount_mismatch []
unfolding run
amount_test = refl

-- A reference with a blank before it is stored as it is and searched without: its second message is
-- inserted again, and the unique index refuses it.
blank_reference_test :
    (run sms
      (record alert { reference_number = some (codes " UPI5551"); balance = some (rupees 8000) })
      (some 12)
      none
      false
      (record stored_row {
        reference_number = some (codes " UPI5551");
        balance = some (rupees 9000);
      }
        ∷ [])).0
    ≡ integrity_error
unfolding run
blank_reference_test = refl

-- The mail is matched with the row of the alert, by its reference.
mail_decision : find_match mail email (some 21) (stored_row ∷ []) ≡ match stored_row standard
unfolding strip lower quantize half_even dec_eq balances_differ new_row find_match reference_of
    normalized_reference shortened_reference_match counterparty_match normalize_counterparty
    normalize_mask char_kind normalize_loop is_separator mask_matches overlap_agrees chars_agree
    card_payment_mask_match no_field_identifies_the_event references_prove_distinct in_window
    in_alias_window same_terms is_selected narrowed gather_fuzzy_candidates decide same_reference
    is_alias find_am_pm_alias_match match_without_reference on_reference_row
mail_decision = refl

find_match-SameEvent_example : SameEvent mail (stored_row ∷ []) stored_row
find_match-SameEvent_example =
    find_match-SameEvent mail email (some 21) stored_row standard (stored_row ∷ []) mail_decision

merge_transaction-Merged_example :
    Merged 100 email mail none
      (some 21)
      false
      (stored_row ∷ [])
      (stored_row ∷ [])
      (merge_transaction hash 1 100 email mail none
        (some 21)
        false
        (stored_row ∷ [])
        (stored_row ∷ [])).0
      (merge_transaction hash 1 100 email mail none
        (some 21)
        false
        (stored_row ∷ [])
        (stored_row ∷ [])).1
merge_transaction-Merged_example =
    merge_transaction-Merged hash 1 100 email mail none (some 21) false (stored_row ∷ [])
      (stored_row ∷ [])

merge_transaction-replay_example :
    ((merge_transaction hash 1 200 sms alert
        (some 11)
        none
        false
        (stored_row ∷ [])
        (stored_row ∷ [])).0
      ≡ enriched 1 no_diff)
    × SameRows
        (stored_row ∷ [])
        (merge_transaction hash 1 200 sms alert
          (some 11)
          none
          false
          (stored_row ∷ [])
          (stored_row ∷ [])).1
merge_transaction-replay_example =
    merge_transaction-replay hash 1 100 sms alert (some 11) none b'U' (codes "PI5551") [] []
      (stored_row ∷ []) 1 200 refl (unfold reference_of strip in refl) (omega arith) tt
      (unfold run in created_test)

forced_test : run sms alert (some 11) none true [] ≡ (created 1, stored_row ∷ [])
unfolding run
forced_test = refl

merge_transaction-force_again_example :
    merge_transaction hash 1 200 sms other_alert (some 11) none true [] (stored_row ∷ [])
    ≡ (enriched 1 no_diff, stored_row ∷ [])
merge_transaction-force_again_example =
    merge_transaction-force_again hash 1 100 sms alert (some 11) none [] [] (stored_row ∷ []) [] 1
      200 other_alert refl (unfold run in forced_test)

merge_transaction-lost_race_example :
    merge_transaction hash 1 100 email mail none
      (some 21)
      false
      (stored_row ∷ [])
      (record stored_row { email_id = some 33 } ∷ [])
    ≡ (deferred source_slot_conflict (1 ∷ []), record stored_row { email_id = some 33 } ∷ [])
merge_transaction-lost_race_example =
    merge_transaction-lost_race hash 1 100 email mail none (some 21) (stored_row ∷ [])
      (record stored_row { email_id = some 33 } ∷ []) stored_row standard 21 mail_decision refl refl
      (inr (33, refl, omega arith), tt)

enrich-sms_example :
    Enrich.stored Enrich.counterparty (
      enrich
        (compute_applied_enrichment_diff stored_row mail sms standard)
        mail
        sms
        100
        stored_row
        stored_row)
    ≡ some (codes "Zomato")
enrich-sms_example =
    enrich-sms standard Enrich.counterparty mail 100 stored_row (codes "Zomato") (inl refl) refl

enrich-email_point_example :
    combine 739000 (combine 0 (10 * hour) - 4 * minute) ≤ combine 739000 (combine 0 (10 * hour))
enrich-email_point_example =
    enrich-email_point mail 100 739000 (combine 0 (10 * hour)) 739000
      (combine 0 (10 * hour) - 4 * minute) stored_row refl refl standard
      (unfold mask_digits change_of on_conflict is_information_downgrade incoming_time_is_earlier
          compute_enrichment_diff compute_applied_enrichment_diff set_fields enrich
          normalize_counterparty lower dec_eq in
        refl)
      (unfold mask_digits change_of on_conflict is_information_downgrade incoming_time_is_earlier
          compute_enrichment_diff compute_applied_enrichment_diff set_fields enrich
          normalize_counterparty lower dec_eq in
        refl)

candidate_test : gather_fuzzy_candidates (codes "INR") mail (stored_row ∷ []) ≡ stored_row ∷ []
unfolding strip lower quantize half_even dec_eq balances_differ new_row find_match reference_of
    normalized_reference shortened_reference_match counterparty_match normalize_counterparty
    normalize_mask char_kind normalize_loop is_separator mask_matches overlap_agrees chars_agree
    card_payment_mask_match no_field_identifies_the_event references_prove_distinct in_window
    in_alias_window same_terms is_selected narrowed gather_fuzzy_candidates decide same_reference
    is_alias find_am_pm_alias_match match_without_reference on_reference_row
candidate_test = refl

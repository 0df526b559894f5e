-- ===== src/Merge/Again.antt =====
-- `merge_transaction` (financial_dashboard/services/txn_merge.py) called twice: a message that is merged
-- or forced again makes no second row.
use mathlib.Core.Path.{subst}
use bank_email_fetcher.Prelude.{
  ℕ, String, Bool, true, false, Option, none, some, List, [], ◌∷◌, ◌++◌, ◌≡◌, ◌∙◌, refl, sym, ap,
  eqb, str_eq_refl, Bool-cases, inl, inr,
}
use bank_email_fetcher.Categorize.Transfer.{Details}
use bank_email_fetcher.Merge.Row.{
  Text, Channel, sms, email, Transaction, TxnData, channel_text, slot_of,
}
use bank_email_fetcher.Merge.Text.{reference_of}
use bank_email_fetcher.Merge.Match.{standard, match}
use bank_email_fetcher.Merge.Find.{match_by_reference, find_match}
use bank_email_fetcher.Merge.Cents.{IsCents, AreCents}
use bank_email_fetcher.Merge.Enrich.{
  incoming, change_from, no_diff, compute_applied_enrichment_diff,
}
use bank_email_fetcher.Merge.Store.{
  new_row, has_unique_refs, next_id, update_row, claim_transaction_source_slot, apply_self_transfer,
}
use bank_email_fetcher.Merge.Run.{
  MergeResult, created, enriched, set_fields, is_other_source, enrich, source_id_of,
  apply_transaction_enrichment, on_match, act_on, merge_transaction,
}
use bank_email_fetcher.Merge.Table.{
  SameRows, apply_self_transfer-SameRows, SameRows-has_unique_refs,
}
use bank_email_fetcher.Merge.Outcomes.{Writes, Merged}
use bank_email_fetcher.Merge.Merged.{merge_transaction-Merged}
use bank_email_fetcher.Merge.Replay.{
  finds_again, change_from-new_row, stored-category, compute_enrichment_diff-no_diff,
}

-- An empty diff from the channel of the row leaves a row as it is.
enrich-no_diff :
    (d : TxnData) (ch : Channel) (now : ℕ) (row r : Transaction)
    → is_other_source row.source ch ≡ false
    → enrich no_diff d ch now row r ≡ r
unfolding enrich set_fields
enrich-no_diff d ch now row r own = rw own

update_row_same :
    (id : ℕ) (f : Transaction → Transaction) (rs : List Transaction)
    → ((r : Transaction) → f r ≡ r)
    → update_row id f rs ≡ rs
unfolding update_row
update_row_same id f [] same = refl
update_row_same id f (r ∷ rs) same = elim (Bool-cases (eqb r.id id)) [
  | inl hit ↦ rw (hit, same r, update_row_same id f rs same)
  | inr miss ↦ rw (miss, update_row_same id f rs same)
]

-- The slot that the row has is not claimed again.
claim-filled :
    (m : Transaction) (ch : Channel) (o : Option ℕ) (rows : List Transaction)
    → slot_of ch m ≡ o
    → claim_transaction_source_slot m ch o rows ≡ some rows
unfolding claim_transaction_source_slot
claim-filled m ch none rows h = refl
claim-filled m ch (some id) rows h = rw h

module _ (ch : Channel) (d : TxnData) (s e : Option ℕ) (id : ℕ) (m : Transaction)
    (h : m ≡ record (new_row id ch d s e) { category = m.category }) where
  own_slot : slot_of ch m ≡ source_id_of ch s e
  unfolding new_row
  own_slot = ap (slot_of ch) h ∙ new_row_slot ch
    where
      new_row_slot :
          (k : Channel)
          → slot_of k (record (new_row id ch d s e) { category = m.category }) ≡ source_id_of k s e
      new_row_slot sms = refl
      new_row_slot email = refl

  own_source : is_other_source m.source ch ≡ false
  unfolding new_row
  own_source =
      ap (λ (x : Transaction). is_other_source x.source ch) h ∙ rw (str_eq_refl (channel_text ch))

  own_id : m.id ≡ id
  unfolding new_row
  own_id = ap (λ (x : Transaction). x.id) h

  no_change : AreCents d.balance → compute_applied_enrichment_diff m d ch standard ≡ no_diff
  unfolding compute_applied_enrichment_diff
  no_change cents = compute_enrichment_diff-no_diff m d ch (λ f.
      ap (λ o. change_from f ch m d o (incoming f d)) (stored-category (new_row id ch d s e) m h f)
      ∙ change_from-new_row id ch d s e m cents f)

  module _ (input_hash : Details → String) (v now : ℕ) (rows : List Transaction)
      (unique : has_unique_refs rows ≡ true) (cents : AreCents d.balance) where
    -- what `apply_transaction_enrichment` does to the row that the message made
    rematch :
        on_match input_hash v now ch d s e m standard rows
        ≡ (enriched id no_diff, apply_self_transfer input_hash v now m rows)
    unfolding apply_transaction_enrichment
    rematch = rw (
      no_change cents,
      claim-filled m ch (source_id_of ch s e) rows own_slot,
      update_row_same m.id (enrich no_diff d ch now m) rows
          (λ r. enrich-no_diff d ch now m r own_source),
      unique,
      enrich-no_diff d ch now m m own_source,
      own_id,
    )

module _ (input_hash : Details → String) (v now : ℕ) (ch : Channel) (d : TxnData)
    (s e : Option ℕ) where
  pub created_by :
      (forced : Bool) (read rows after : List Transaction) (result : MergeResult) (id : ℕ)
      → Merged now ch d s e forced read rows result after
      → result ≡ created id
      → (id ≡ next_id rows)
        × SameRows (rows ++ new_row (next_id rows) ch d s e ∷ []) after
        × (has_unique_refs after ≡ true)
  created_by forced read rows after result id (Merged.left_to_review reason ids f m eq t) h = cc
  created_by forced read rows after result id (Merged.conflict c kind chosen denied eq t) h = cc
  created_by forced read rows after result id (Merged.present c f at own eq t) h = cc
  created_by forced read rows after result id (Merged.refused next intended w clash eq t) h = cc
  created_by forced read rows after result id
        (Merged.wrote next (Writes.appends why eq table) same unique) h =
      (cc, subst (λ x. SameRows x after) table same, unique)
  created_by forced read rows after result id
        (Merged.wrote next (Writes.updates c kind claimed chosen claim eq table) same unique) h =
      cc

  decision_again :
      (c : ℕ) (ref : Text) (m : Transaction) (rows : List Transaction)
      → d.reference_number ≡ some (c ∷ ref)
      → reference_of (some (c ∷ ref)) ≡ c ∷ ref
      → match_by_reference (c ∷ ref) d ch (source_id_of ch s e) rows ≡ match m standard
      → find_match d ch (source_id_of ch s e) rows ≡ match m standard
  unfolding find_match
  decision_again c ref m rows named bare found =
      ap (λ r. match_by_reference (reference_of r) d ch (source_id_of ch s e) rows) named
      ∙ (ap (λ r. match_by_reference r d ch (source_id_of ch s e) rows) bare ∙ found)

  merge_again :
      (id later : ℕ) (m : Transaction) (rows : List Transaction)
      → m ≡ record (new_row id ch d s e) { category = m.category }
      → has_unique_refs rows ≡ true
      → AreCents d.balance
      → find_match d ch (source_id_of ch s e) rows ≡ match m standard
      → merge_transaction input_hash v later ch d s e false rows rows
        ≡ (enriched id no_diff, apply_self_transfer input_hash v later m rows)
  unfolding merge_transaction act_on
  merge_again id later m rows own unique cents decision =
      ap (λ x. act_on input_hash v later ch d s e x rows) decision
      ∙ rematch ch d s e id m own input_hash v later rows unique cents

  -- Where a message with a reference that has no blanks around it, and with an amount and a balance of
  -- at most two decimal places, which the columns keep exactly, was inserted, merging the same message
  -- again, later and with the same source, finds that row: the answer is that row with an empty diff,
  -- and the table has the same rows, up to categories that the self-transfer rule sets.
  pub merge_transaction-replay :
      (c : ℕ) (ref : Text) (read rows after : List Transaction) (id later : ℕ)
      → d.reference_number ≡ some (c ∷ ref)
      → reference_of (some (c ∷ ref)) ≡ c ∷ ref
      → IsCents d.amount
      → AreCents d.balance
      → merge_transaction input_hash v now ch d s e false read rows ≡ (created id, after)
      → ((merge_transaction input_hash v later ch d s e false after after).0 ≡ enriched id no_diff)
        × SameRows after (merge_transaction input_hash v later ch d s e false after after).1
  merge_transaction-replay c ref read rows after id later named bare amount balance done =
      let merged : Merged now ch d s e false read rows (created id) after =
        subst (λ (x : MergeResult × List Transaction). Merged now ch d s e false read rows x.0 x.1)
          done (merge_transaction-Merged input_hash v now ch d s e false read rows) in
      let (at_end, same, unique) = created_by false read rows after (created id) id merged refl in
      let (m, found, eq) =
        finds_again ch d (next_id rows) s e ch (source_id_of ch s e) c ref rows after named amount
          same (sym (SameRows-has_unique_refs _ after same) ∙ unique) in
      let again =
        merge_again (next_id rows) later m after eq unique balance
          (decision_again c ref m after named bare found) in
      (
        ap (λ (x : MergeResult × List Transaction). x.0) again
            ∙ ap (λ k. enriched k no_diff) (sym at_end),
        subst (λ (x : MergeResult × List Transaction). SameRows after x.1) (sym again)
            (apply_self_transfer-SameRows input_hash v later m after),
      )

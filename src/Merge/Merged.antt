-- ===== src/Merge/Merged.antt =====
-- The proof that one call of `merge_transaction` (financial_dashboard/services/txn_merge.py) comes to one
-- of the outcomes.
use bank_email_fetcher.Prelude.{
  ℕ, String, Bool, true, false, Option, none, some, List, [], ◌∷◌, ◌≡◌, ◌∙◌, refl, ap, arith,
  Bool-cases, inl, inr, In,
}
use bank_email_fetcher.Categorize.Transfer.{Details}
use bank_email_fetcher.Merge.Row.{Channel, Transaction, TxnData}
use bank_email_fetcher.Merge.Match.{MatchKind, MatchDecision, match, insert, defer}
use bank_email_fetcher.Merge.Find.{find_match}
use bank_email_fetcher.Merge.Enrich.{compute_applied_enrichment_diff}
use bank_email_fetcher.Merge.Store.{
  next_id, new_row, held_row, has_unique_refs, claim_transaction_source_slot, find_row,
}
use bank_email_fetcher.Merge.Run.{
  MergeResult, created, source_id_of, linked, by_email, or_by_email, existing_for_source, flush,
  enrich_claimed, apply_transaction_enrichment, insert_new, on_match, after_duplicate, after_insert,
  act_on, force, merge_transaction,
}
use bank_email_fetcher.Merge.Table.{
  apply_self_transfer-SameRows, SameRows-has_unique_refs, claim_transaction_source_slot-Claimed,
  claim_transaction_source_slot-Refused,
}
use bank_email_fetcher.Merge.Outcomes.{Chosen, Owns, Writes, Merged, with_new_row}

find_row-In :
    (p : Transaction → Bool) (rows : List Transaction) (c : Transaction)
    → find_row p rows ≡ some c
    → In c rows × (p c ≡ true)
find_row-In p [] c h = cc
find_row-In p (r ∷ rows) c h = elim (Bool-cases (p r)) [
  | inl hit ↦ let found : some r ≡ some c = rw hit at h in go r hit found
  | inr miss ↦ let (i, k) = find_row-In p rows c (rw miss at h) in (inr i, k)
]
  where
    go : (r : Transaction) → p r ≡ true → some r ≡ some c → In c (r ∷ rows) × (p c ≡ true)
    go r hit found = let same : c ≡ r = cc in (inl same, ap p same ∙ hit)

linked-some : (i : ℕ) (o : Option ℕ) → linked i o ≡ true → o ≡ some i
linked-some i none h = cc
linked-some i (some j) h = ap some (ground arith)

module _ (input_hash : Details → String) (v now : ℕ) (ch : Channel) (d : TxnData) (s e : Option ℕ)
    (forced : Bool) (read rows : List Transaction) where
  abbrev Step : MergeResult × List Transaction → Type 0
  Step x = Merged now ch d s e forced read rows x.0 x.1

  flush-Step :
      (row : Transaction) (result : MergeResult) (next : List Transaction)
      → Writes now ch d s e forced read rows next result
      → Step (flush input_hash v now row result rows next)
  flush-Step row result next w = elim (Bool-cases (has_unique_refs next)) [
    | inl unique ↦ rw unique (
        let same = apply_self_transfer-SameRows input_hash v now row next in
        Merged.wrote next w same (SameRows-has_unique_refs next _ same ∙ unique))
    | inr clash ↦ rw clash (Merged.refused next result w clash refl refl)
  ]

  enrich_claimed-Step :
      (c : Transaction) (kind : MatchKind) (o : Option (List Transaction))
      → Chosen now ch d s e forced read rows c kind
      → claim_transaction_source_slot c ch (source_id_of ch s e) rows ≡ o
      → Step (
          enrich_claimed input_hash v now c d ch
            (compute_applied_enrichment_diff c d ch kind)
            rows
            o)
  enrich_claimed-Step c kind none chosen h =
      Merged.conflict c kind chosen
        (claim_transaction_source_slot-Refused c ch rows (source_id_of ch s e) h) refl refl
  enrich_claimed-Step c kind (some claimed) chosen h = flush-Step _ _ _ (
      Writes.updates c kind claimed chosen
        (claim_transaction_source_slot-Claimed c ch rows (source_id_of ch s e) claimed h) refl refl)

  on_match-Step :
      (c : Transaction) (kind : MatchKind)
      → Chosen now ch d s e forced read rows c kind
      → Step (on_match input_hash v now ch d s e c kind rows)
  unfolding apply_transaction_enrichment
  on_match-Step c kind chosen = enrich_claimed-Step c kind _ chosen refl

  module _ (said : (forced ≡ false) × (find_match d ch (source_id_of ch s e) read ≡ insert)) where
    appends-Writes :
        Writes now ch d s e forced read rows
          (with_new_row now ch d s e forced read rows)
          (created (next_id rows))
    appends-Writes = Writes.appends (inr said) refl refl

    after_duplicate-Step :
        (m : MatchDecision)
        → find_match d ch (source_id_of ch s e) rows ≡ m
        → has_unique_refs (with_new_row now ch d s e forced read rows) ≡ false
        → Step (after_duplicate input_hash v now ch d s e m rows)
    after_duplicate-Step (match c kind) h clash =
        on_match-Step c kind (Chosen.at_second said.0 said.1 clash h)
    after_duplicate-Step insert h clash = Merged.refused _ _ appends-Writes clash refl refl
    after_duplicate-Step (defer reason ids) h clash =
        Merged.refused _ _ appends-Writes clash refl refl

    after_insert-Step : Step (
        after_insert input_hash v now ch d s e
          (insert_new input_hash v now ch d s e rows)
          (find_match d ch (source_id_of ch s e) rows)
          rows)
    unfolding insert_new
    after_insert-Step =
        let next = with_new_row now ch d s e forced read rows in
        elim (Bool-cases (has_unique_refs next)) [
          | inl unique ↦ rw unique (
              let row = held_row d (new_row (next_id rows) ch d s e) in
              let same = apply_self_transfer-SameRows input_hash v now row next in
              Merged.wrote next appends-Writes same (SameRows-has_unique_refs next _ same ∙ unique))
          | inr clash ↦
              rw clash
                (after_duplicate-Step (find_match d ch (source_id_of ch s e) rows) refl clash)
        ]

  act_on-Step :
      (m : MatchDecision)
      → forced ≡ false
      → find_match d ch (source_id_of ch s e) read ≡ m
      → Step (act_on input_hash v now ch d s e m rows)
  unfolding act_on
  act_on-Step (match c kind) f h = on_match-Step c kind (Chosen.at_first f h)
  act_on-Step (defer reason ids) f h = Merged.left_to_review reason ids f h refl refl
  act_on-Step insert f h = after_insert-Step (f, h)

  by_email-Owns :
      (o : Option ℕ) (c : Transaction)
      → e ≡ o
      → by_email o rows ≡ some c
      → In c rows × Owns now ch d s e forced read rows c
  by_email-Owns none c h k = cc
  by_email-Owns (some i) c h k =
      let (at, own) = find_row-In (λ r. linked i r.email_id) rows c k in
      (at, (i, inr (h, linked-some i c.email_id own)))

  or_by_email-Owns :
      (i : ℕ) (o : Option Transaction) (c : Transaction)
      → s ≡ some i
      → find_row (λ r. linked i r.sms_message_id) rows ≡ o
      → or_by_email o e rows ≡ some c
      → In c rows × Owns now ch d s e forced read rows c
  or_by_email-Owns i none c h k l = by_email-Owns e c refl l
  or_by_email-Owns i (some r) c h k l =
      let (at, own) = find_row-In (λ r. linked i r.sms_message_id) rows c (k ∙ l) in
      (at, (i, inl (h, linked-some i c.sms_message_id own)))

  existing-Owns :
      (o : Option ℕ) (c : Transaction)
      → s ≡ o
      → existing_for_source o e rows ≡ some c
      → In c rows × Owns now ch d s e forced read rows c
  unfolding existing_for_source
  existing-Owns none c h k = by_email-Owns e c refl k
  existing-Owns (some i) c h k = or_by_email-Owns i _ c h refl k

  force-Step :
      (o : Option Transaction)
      → forced ≡ true
      → existing_for_source s e rows ≡ o
      → Step (force input_hash v now ch d s e o rows)
  unfolding insert_new
  force-Step (some c) f h =
      let (at, own) = existing-Owns s c refl h in Merged.present c f at own refl refl
  force-Step none f h = flush-Step _ _ _ (Writes.appends (inl (f, h)) refl refl)

module _ (input_hash : Details → String) (v now : ℕ) (ch : Channel) (d : TxnData)
    (s e : Option ℕ) where
  -- Every call of `merge_transaction`, forced or not, whatever table the matcher read before, is one of
  -- these. The table stays as it is and the answer is: the deferral that the matcher decided on; or a
  -- slot conflict, where no stored row with the id of the chosen row has its slot open or this source
  -- in it; or, forced, a row of the table that the source owns. Or there is a table to write: the new
  -- row alone appended, where the matcher said insert or a forced source owns no row; or the chosen
  -- row alone enriched by its diff, after the claim of its slot was granted by the table. It is
  -- written, up to categories, and references are unique; or the answer is an IntegrityError, because
  -- references would not be unique in it, and the table stays.
  pub merge_transaction-Merged :
      (forced : Bool) (read rows : List Transaction)
      → Merged now ch d s e forced read rows
          (merge_transaction input_hash v now ch d s e forced read rows).0
          (merge_transaction input_hash v now ch d s e forced read rows).1
  unfolding merge_transaction
  merge_transaction-Merged true read rows =
      force-Step input_hash v now ch d s e true read rows _ refl refl
  merge_transaction-Merged false read rows =
      act_on-Step input_hash v now ch d s e false read rows _ refl refl

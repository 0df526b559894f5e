-- ===== src/Merge/Force.antt =====
-- Forced merges and lost races of `merge_transaction` (financial_dashboard/services/txn_merge.py).
use mathlib.Core.Path.{subst}
use bank_email_fetcher.Prelude.{
  ℕ, String, Bool, true, false, Option, none, some, List, [], ◌∷◌, ◌++◌, ◌≡◌, ◌≢◌, ◌⊎◌, ◌∙◌, refl,
  sym, ap, arith, Bool-cases, inl, inr, All,
}
use bank_email_fetcher.Categorize.Transfer.{Details}
use bank_email_fetcher.Merge.Row.{Channel, Transaction, TxnData, slot_of}
use bank_email_fetcher.Merge.Match.{any, source_slot_conflict, MatchKind, match}
use bank_email_fetcher.Merge.Find.{find_match}
use bank_email_fetcher.Merge.Enrich.{no_diff}
use bank_email_fetcher.Merge.Store.{
  new_row, next_id, may_claim, claim_transaction_source_slot, find_row,
}
use bank_email_fetcher.Merge.Run.{
  MergeResult, created, enriched, deferred, source_id_of, linked, or_by_email, existing_for_source,
  force, act_on, apply_transaction_enrichment, merge_transaction,
}
use bank_email_fetcher.Merge.Table.{SameRows}
use bank_email_fetcher.Merge.Outcomes.{Merged}
use bank_email_fetcher.Merge.Merged.{merge_transaction-Merged}
use bank_email_fetcher.Merge.Again.{created_by}

module _ (p : Transaction → Bool) where
  find_row-snoc :
      (rows : List Transaction) (n : Transaction)
      → find_row p rows ≡ none
      → p n ≡ true
      → find_row p (rows ++ n ∷ []) ≡ some n
  find_row-snoc [] n h k = rw k
  find_row-snoc (r ∷ rows) n h k = elim (Bool-cases (p r)) [
    | inl hit ↦ let found : some r ≡ none = rw hit at h in cc
    | inr miss ↦ rw miss (find_row-snoc rows n (rw miss at h) k)
  ]

  pub find_row-SameRows :
      ((r s : Transaction) → s ≡ record r { category = s.category } → p s ≡ p r)
      → (n : Transaction) (rs ss : List Transaction) → SameRows rs ss
      → find_row p rs ≡ some n
      → (m : Transaction) × (find_row p ss ≡ some m) × (m ≡ record n { category = m.category })
  unfolding SameRows
  find_row-SameRows keeps n [] ss h k = cc
  find_row-SameRows keeps n (r ∷ rs) [] h k = absurd h
  find_row-SameRows keeps n (r ∷ rs) (s ∷ ss) h k = elim (Bool-cases (p r)) [
    | inl hit ↦
        let found : some r ≡ some n = rw hit at k in
        let same : r ≡ n = cc in
        (
          s,
          rw (keeps r s h.0, hit),
          subst (λ (x : Transaction). s ≡ record x { category = s.category }) same h.0,
        )
    | inr miss ↦
        let (m, found, e) = find_row-SameRows keeps n rs ss h.1 (rw miss at k) in
        (m, rw (keeps r s h.0, miss) found, e)
  ]

or_by_email-none :
    (o : Option Transaction) (e : Option ℕ) (rows : List Transaction)
    → or_by_email o e rows ≡ none
    → o ≡ none
or_by_email-none none e rows h = refl
or_by_email-none (some r) e rows h = cc

linked-sms :
    (i : ℕ) (r s : Transaction)
    → s ≡ record r { category = s.category }
    → linked i s.sms_message_id ≡ linked i r.sms_message_id
linked-sms i r s h = ap (λ (x : Transaction). linked i x.sms_message_id) h

linked-email :
    (i : ℕ) (r s : Transaction)
    → s ≡ record r { category = s.category }
    → linked i s.email_id ≡ linked i r.email_id
linked-email i r s h = ap (λ (x : Transaction). linked i x.email_id) h

abbrev has_source : Option ℕ → Option ℕ → Bool
has_source none none = false
has_source none (some e) = true
has_source (some s) e = true

module _ (ch : Channel) (d : TxnData) (id : ℕ) where
  -- The row that a source has just made is the one that the source finds.
  existing_for_source-new :
      (s e : Option ℕ) (rows after : List Transaction)
      → has_source s e ≡ true
      → existing_for_source s e rows ≡ none
      → SameRows (rows ++ new_row id ch d s e ∷ []) after
      → (m : Transaction) × (existing_for_source s e after ≡ some m)
        × (m ≡ record (new_row id ch d s e) { category = m.category })
  unfolding existing_for_source new_row
  existing_for_source-new none none rows after given free same = cc
  existing_for_source-new none (some i) rows after given free same =
      find_row-SameRows (λ r. linked i r.email_id) (linked-email i) (new_row id ch d none (some i))
        _ after same
        (find_row-snoc (λ r. linked i r.email_id) rows (new_row id ch d none (some i)) free
          (ground arith))
  existing_for_source-new (some i) e rows after given free same =
      let (m, found, eq) =
        find_row-SameRows (λ r. linked i r.sms_message_id) (linked-sms i)
          (new_row id ch d (some i) e) _ after same
          (find_row-snoc (λ r. linked i r.sms_message_id) rows (new_row id ch d (some i) e)
            (or_by_email-none _ e rows free) (ground arith)) in
      (m, rw found, eq)

module _ (input_hash : Details → String) (v now : ℕ) (ch : Channel) (d : TxnData)
    (s e : Option ℕ) where
  force-free :
      (o : Option Transaction) (rows after : List Transaction) (id : ℕ)
      → force input_hash v now ch d s e o rows ≡ (created id, after)
      → o ≡ none
  force-free none rows after id h = refl
  force-free (some r) rows after id h =
      let same : enriched r.id no_diff ≡ created id =
        ap (λ (x : MergeResult × List Transaction). x.0) h in
      cc

  -- Where a forced merge of a source made a row, forcing the same source again, with whatever data,
  -- answers with that row and an empty diff, and leaves the table exactly as it is.
  pub merge_transaction-force_again :
      (read rows after other : List Transaction) (id later : ℕ) (new : TxnData)
      → has_source s e ≡ true
      → merge_transaction input_hash v now ch d s e true read rows ≡ (created id, after)
      → merge_transaction input_hash v later ch new s e true other after
        ≡ (enriched id no_diff, after)
  unfolding merge_transaction
  merge_transaction-force_again read rows after other id later new given done =
      let merged : Merged now ch d s e true read rows (created id) after =
        subst (λ (x : MergeResult × List Transaction). Merged now ch d s e true read rows x.0 x.1)
          done (merge_transaction-Merged input_hash v now ch d s e true read rows) in
      let (at_end, same, unique) =
        created_by input_hash v now ch d s e true read rows after (created id) id merged refl in
      let free = force-free (existing_for_source s e rows) rows after id done in
      let (m, found, eq) =
        existing_for_source-new ch d (next_id rows) s e rows after given free same in
      let own : m.id ≡ next_id rows = unfold new_row in ap (λ (x : Transaction). x.id) eq in
      ap (λ o. force input_hash v later ch new s e o after) found
      ∙ ap (λ k. (enriched k no_diff, after)) (own ∙ sym at_end)

  -- every row with this id has its slot taken by another source
  abbrev pub IsTaken : ℕ → ℕ → List Transaction → Type 0
  IsTaken id source_id = All λ (r : Transaction).
      (r.id ≢ id) ⊎ ((owner : ℕ) × (slot_of ch r ≡ some owner) × (owner ≢ source_id))

  may_claim-taken :
      (id source_id : ℕ) (r : Transaction)
      → (r.id ≢ id) ⊎ ((owner : ℕ) × (slot_of ch r ≡ some owner) × (owner ≢ source_id))
      → may_claim id ch source_id r ≡ false
  may_claim-taken id source_id r (inl other) = ground arith
  may_claim-taken id source_id r (inr (owner, taken, differs)) = rw taken (ground arith)

  IsTaken-any :
      (id source_id : ℕ) (rows : List Transaction)
      → IsTaken id source_id rows
      → any (may_claim id ch source_id) rows ≡ false
  IsTaken-any id source_id [] h = refl
  IsTaken-any id source_id (r ∷ rows) h =
      rw (may_claim-taken id source_id r h.0, IsTaken-any id source_id rows h.1)

  -- A lost race: the matcher read the row with an open slot, and by the time of the claim another
  -- source has taken it. The message is deferred with the reason source_slot_conflict and the id of
  -- the row, and the table stays exactly as the other source left it.
  pub merge_transaction-lost_race :
      (read rows : List Transaction) (m : Transaction) (kind : MatchKind) (source_id : ℕ)
      → find_match d ch (source_id_of ch s e) read ≡ match m kind
      → slot_of ch m ≡ none
      → source_id_of ch s e ≡ some source_id
      → IsTaken m.id source_id rows
      → merge_transaction input_hash v now ch d s e false read rows
        ≡ (deferred source_slot_conflict (m.id ∷ []), rows)
  unfolding merge_transaction act_on apply_transaction_enrichment claim_transaction_source_slot
  merge_transaction-lost_race read rows m kind source_id decision open_slot source taken =
      rw (decision, source, open_slot, IsTaken-any m.id source_id rows taken)

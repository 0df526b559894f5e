-- ===== src/Merge/Outcomes.antt =====
-- What a call of `merge_transaction` (financial_dashboard/services/txn_merge.py) may come to, as a
-- relation on its answer and the two tables.
use bank_email_fetcher.Prelude.{
  ℕ, Bool, true, false, Option, none, some, List, [], ◌∷◌, ◌++◌, ◌≡◌, ◌⊎◌, In,
}
use bank_email_fetcher.Merge.Row.{Channel, Transaction, TxnData}
use bank_email_fetcher.Merge.Match.{
  DeferralReason, source_slot_conflict, MatchKind, match, insert, defer,
}
use bank_email_fetcher.Merge.Find.{find_match}
use bank_email_fetcher.Merge.Enrich.{no_diff, compute_applied_enrichment_diff}
use bank_email_fetcher.Merge.Store.{next_id, new_row, has_unique_refs, update_row}
use bank_email_fetcher.Merge.Run.{
  MergeResult, created, enriched, deferred, integrity_error, enrich, source_id_of,
  existing_for_source,
}
use bank_email_fetcher.Merge.Table.{SameRows, Claimed, Refused}

module _ (now : ℕ) (ch : Channel) (d : TxnData) (s e : Option ℕ) (forced : Bool)
    (read rows : List Transaction) where
  -- the table with the new row at its end
  abbrev pub with_new_row : List Transaction
  with_new_row = rows ++ new_row (next_id rows) ch d s e ∷ []

  -- The row is the one that the matcher answered with: on the table as it was read; or, where that told
  -- it to insert and the unique index refused the insertion, on the table as it is.
  pub data Chosen (c : Transaction) (kind : MatchKind) : Type 0 where
    at_first :
        forced ≡ false → find_match d ch (source_id_of ch s e) read ≡ match c kind → Chosen c kind
    at_second :
        forced ≡ false
        → find_match d ch (source_id_of ch s e) read ≡ insert
        → has_unique_refs with_new_row ≡ false
        → find_match d ch (source_id_of ch s e) rows ≡ match c kind
        → Chosen c kind

  -- the row is in the slot of the message or of the mail
  abbrev pub Owns : Transaction → Type 0
  Owns c =
      (i : ℕ) × (((s ≡ some i) × (c.sms_message_id ≡ some i))
        ⊎ ((e ≡ some i) × (c.email_id ≡ some i)))

  -- The table that a flush would write, and the answer if it does: the new row is appended, where the
  -- matcher said so or the call is forced and the source owns no row; or the chosen row is enriched by
  -- its diff, after the claim of its slot was granted.
  pub data Writes (next : List Transaction) (result : MergeResult) : Type 0 where
    appends :
        (((forced ≡ true) × (existing_for_source s e rows ≡ none))
          ⊎ ((forced ≡ false) × (find_match d ch (source_id_of ch s e) read ≡ insert)))
        → result ≡ created (next_id rows)
        → next ≡ with_new_row
        → Writes next result
    updates :
        (c : Transaction) (kind : MatchKind) (claimed : List Transaction)
        → Chosen c kind
        → Claimed c ch (source_id_of ch s e) rows claimed
        → result ≡ enriched c.id (compute_applied_enrichment_diff c d ch kind)
        → next
          ≡ update_row c.id
              (enrich (compute_applied_enrichment_diff c d ch kind) d ch now c)
              claimed
        → Writes next result

  pub data Merged (result : MergeResult) (after : List Transaction) : Type 0 where
    left_to_review :
        (reason : DeferralReason) (ids : List ℕ)
        → forced ≡ false
        → find_match d ch (source_id_of ch s e) read ≡ defer reason ids
        → result ≡ deferred reason ids
        → after ≡ rows
        → Merged result after
    conflict :
        (c : Transaction) (kind : MatchKind)
        → Chosen c kind
        → Refused c ch (source_id_of ch s e) rows
        → result ≡ deferred source_slot_conflict (c.id ∷ [])
        → after ≡ rows
        → Merged result after
    present :
        (c : Transaction)
        → forced ≡ true
        → In c rows
        → Owns c
        → result ≡ enriched c.id no_diff
        → after ≡ rows
        → Merged result after
    refused :
        (next : List Transaction) (intended : MergeResult)
        → Writes next intended
        → has_unique_refs next ≡ false
        → result ≡ integrity_error
        → after ≡ rows
        → Merged result after
    wrote :
        (next : List Transaction)
        → Writes next result
        → SameRows next after
        → has_unique_refs after ≡ true
        → Merged result after

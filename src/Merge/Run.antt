-- ===== src/Merge/Run.antt =====
-- `merge_transaction` and `apply_transaction_enrichment` of financial_dashboard/services/txn_merge.py.
use bank_email_fetcher.Prelude.{
  ℕ, String, Bool, true, false, ◌||◌, not, Option, none, some, List, [], ◌∷◌, ◌++◌, eqb, str_eq,
  if◌then◌else◌,
}
use bank_email_fetcher.Categorize.Transfer.{Details}
use bank_email_fetcher.Merge.Row.{Channel, sms, email, Transaction, TxnData, channel_text}
use bank_email_fetcher.Merge.Match.{
  DeferralReason, source_slot_conflict, MatchKind, MatchDecision, match, insert, defer,
}
use bank_email_fetcher.Merge.Find.{find_match}
use bank_email_fetcher.Merge.Enrich.{
  Filled, Overwritten, EnrichmentDiff, no_diff, set_field, is_time, compute_applied_enrichment_diff,
}
use bank_email_fetcher.Merge.Store.{
  next_id, new_row, held_row, has_unique_refs, update_row, claim_transaction_source_slot,
  apply_self_transfer, find_row,
}

-- `MergeTransactionResult` with the id of its row, or an IntegrityError that leaves the call
pub data MergeResult : Type 0 where
  created : ℕ → MergeResult
  enriched : ℕ → EnrichmentDiff → MergeResult
  deferred : DeferralReason → List ℕ → MergeResult
  integrity_error : MergeResult

abbrev pub apply_filled : List Filled → Transaction → Transaction
apply_filled [] r = r
apply_filled (c ∷ cs) r = apply_filled cs (set_field c.field c.value r)

abbrev pub apply_overwritten : List Overwritten → Transaction → Transaction
apply_overwritten [] r = r
apply_overwritten (c ∷ cs) r = apply_overwritten cs (set_field c.field c.value r)

abbrev pub fills_time : List Filled → Bool
fills_time [] = false
fills_time (c ∷ cs) = is_time c.field || fills_time cs

abbrev pub overwrites_time : List Overwritten → Bool
overwrites_time [] = false
overwrites_time (c ∷ cs) = is_time c.field || overwrites_time cs

-- "transaction_time" in diff.changed_fields
abbrev pub changes_time : EnrichmentDiff → Bool
changes_time diff = fills_time diff.filled || overwrites_time diff.overwritten

abbrev pub no_entries : List Filled → List Overwritten → Bool
no_entries [] [] = true
no_entries [] (o ∷ os) = false
no_entries (f ∷ fs) os = false

-- bool(diff.changed_fields)
abbrev pub has_changes : EnrichmentDiff → Bool
has_changes diff = not (no_entries diff.filled diff.overwritten)

-- the columns that the diff sets
unfoldable pub set_fields : EnrichmentDiff → Transaction → Transaction
set_fields diff r = apply_overwritten diff.overwritten (apply_filled diff.filled r)

abbrev pub set_received : Bool → Bool → Transaction → Transaction
set_received true received r = record r { transaction_time_is_received_time = received }
set_received false received r = r

abbrev pub is_other_source : Option String → Channel → Bool
is_other_source none ch = false
is_other_source (some s) ch = not (str_eq s (channel_text ch))

abbrev pub set_source : Bool → Transaction → Transaction
set_source true r = record r { source = some "sms+email" }
set_source false r = r

abbrev pub set_enriched : Bool → ℕ → Transaction → Transaction
set_enriched true now r = record r { enriched_at = some now }
set_enriched false now r = r

-- what the flush writes: `row` is the row as the matcher read it, and `r` the stored one
unfoldable pub enrich :
    EnrichmentDiff → TxnData → Channel → ℕ → Transaction → Transaction → Transaction
enrich diff d ch now row r = set_enriched (has_changes diff) now (
    set_source (is_other_source row.source ch)
      (set_received (changes_time diff) d.transaction_time_is_received_time (set_fields diff r)))

abbrev pub source_id_of : Channel → Option ℕ → Option ℕ → Option ℕ
source_id_of sms sms_message_id email_id = sms_message_id
source_id_of email sms_message_id email_id = email_id

abbrev pub linked : ℕ → Option ℕ → Bool
linked id none = false
linked id (some owner) = eqb owner id

abbrev pub by_email : Option ℕ → List Transaction → Option Transaction
by_email none rows = none
by_email (some id) rows = find_row (λ r. linked id r.email_id) rows

abbrev pub or_by_email : Option Transaction → Option ℕ → List Transaction → Option Transaction
or_by_email (some r) email_id rows = some r
or_by_email none email_id rows = by_email email_id rows

-- `_existing_for_source`
unfoldable pub existing_for_source : Option ℕ → Option ℕ → List Transaction → Option Transaction
existing_for_source none email_id rows = by_email email_id rows
existing_for_source (some id) email_id rows =
    or_by_email (find_row (λ r. linked id r.sms_message_id) rows) email_id rows

module _ (input_hash : Details → String) (vocab_version now : ℕ) where
  abbrev pub finish : Transaction → MergeResult → List Transaction → MergeResult × List Transaction
  finish row result rows = (result, apply_self_transfer input_hash vocab_version now row rows)

  -- a flush, which the unique index may refuse, and the rule for the row that the session holds
  abbrev pub flush :
      Transaction
      → MergeResult
      → List Transaction
      → List Transaction
      → MergeResult × List Transaction
  flush row result before after =
      if has_unique_refs after then finish row result after else (integrity_error, before)

  -- the part of `apply_transaction_enrichment` after the claim, and the handler of its conflict
  abbrev pub enrich_claimed :
      Transaction
      → TxnData
      → Channel
      → EnrichmentDiff
      → List Transaction
      → Option (List Transaction)
      → MergeResult × List Transaction
  enrich_claimed row d ch diff before none = (deferred source_slot_conflict (row.id ∷ []), before)
  enrich_claimed row d ch diff before (some rows) =
      flush (enrich diff d ch now row row) (enriched row.id diff) before
        (update_row row.id (enrich diff d ch now row) rows)

  -- `apply_transaction_enrichment`; the table may have changed since the matcher read `row`
  unfoldable pub apply_transaction_enrichment :
      Transaction
      → TxnData
      → Channel
      → Option ℕ
      → MatchKind
      → List Transaction
      → MergeResult × List Transaction
  apply_transaction_enrichment row d ch source_id kind rows =
      enrich_claimed row d ch (compute_applied_enrichment_diff row d ch kind) rows
        (claim_transaction_source_slot row ch source_id rows)

  module _ (ch : Channel) (d : TxnData) (sms_message_id email_id : Option ℕ) where
    abbrev pub inserted : List Transaction → Transaction
    inserted rows = new_row (next_id rows) ch d sms_message_id email_id

    -- `_insert_new`
    unfoldable pub insert_new : List Transaction → MergeResult × List Transaction
    insert_new rows =
        flush (held_row d (inserted rows)) (created (next_id rows)) rows
          (rows ++ inserted rows ∷ [])

    abbrev pub on_match :
        Transaction → MatchKind → List Transaction → MergeResult × List Transaction
    on_match row kind rows =
        apply_transaction_enrichment row d ch (source_id_of ch sms_message_id email_id) kind rows

    -- the second look after a refused insertion
    abbrev pub after_duplicate : MatchDecision → List Transaction → MergeResult × List Transaction
    after_duplicate (match row kind) rows = on_match row kind rows
    after_duplicate insert rows = (integrity_error, rows)
    after_duplicate (defer reason ids) rows = (integrity_error, rows)

    abbrev pub after_insert :
        MergeResult × List Transaction
        → MatchDecision
        → List Transaction
        → MergeResult × List Transaction
    after_insert (created id, after) again rows = (created id, after)
    after_insert (enriched id diff, after) again rows = (enriched id diff, after)
    after_insert (deferred reason ids, after) again rows = (deferred reason ids, after)
    after_insert (integrity_error, after) again rows = after_duplicate again rows

    -- The decision was taken on the table as it was read; `rows` is the table that is written.
    unfoldable pub act_on : MatchDecision → List Transaction → MergeResult × List Transaction
    act_on (match row kind) rows = on_match row kind rows
    act_on (defer reason ids) rows = (deferred reason ids, rows)
    act_on insert rows =
        after_insert (insert_new rows)
          (find_match d ch (source_id_of ch sms_message_id email_id) rows) rows

    abbrev pub force : Option Transaction → List Transaction → MergeResult × List Transaction
    force (some r) rows = (enriched r.id no_diff, rows)
    force none rows = insert_new rows

    -- `merge_transaction`: `read` is the table that the matcher reads, `rows` the table when it writes
    unfoldable pub merge_transaction :
        Bool → List Transaction → List Transaction → MergeResult × List Transaction
    merge_transaction true read rows = force (existing_for_source sms_message_id email_id rows) rows
    merge_transaction false read rows =
        act_on (find_match d ch (source_id_of ch sms_message_id email_id) read) rows

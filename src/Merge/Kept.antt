-- ===== src/Merge/Kept.antt =====
-- What enrichment (financial_dashboard/services/txn_merge.py) keeps of a row: an SMS overwrites no
-- enrichment field, and a mail moves no row forward in time, but for the time of an AM/PM alias.
use mathlib.Core.Path.{subst}
use bank_email_fetcher.Prelude.{
  ℕ, Bool, true, false, Option, none, some, ◌≡◌, ◌⊎◌, ◌∙◌, ◌≤◌, refl, sym, ap, arith, inl, inr,
}
use bank_email_fetcher.Merge.Row.{Channel, sms, email, Transaction, TxnData}
use bank_email_fetcher.Merge.Enrich.{
  Field, transaction_date, transaction_time, counterparty, card_mask, account_mask,
  reference_number, channel, balance, raw_description, FieldType, stored, incoming, Change,
  change_from, change_of, on_conflict, is_information_downgrade, incoming_time_is_earlier,
  EnrichmentDiff, compute_enrichment_diff, compute_applied_enrichment_diff, is_time, correct_time,
}
use bank_email_fetcher.Merge.Window.{combine}
use bank_email_fetcher.Merge.Match.{MatchKind, standard, am_pm_alias}
use bank_email_fetcher.Merge.Run.{
  set_fields, changes_time, has_changes, set_received, is_other_source, set_source, set_enriched,
  enrich,
}
use bank_email_fetcher.Merge.Fields.{decided, set_fields-decided}
use bank_email_fetcher.Merge.Alias.{set_fields-correct_time, set_fields-alias_time}

-- The flag, the source and the time of the enrichment are other columns.
stored-set_received :
    (f : Field) (b : Bool) (x : Bool) (r : Transaction) → stored f (set_received b x r) ≡ stored f r
stored-set_received transaction_date true x r = refl
stored-set_received transaction_time true x r = refl
stored-set_received counterparty true x r = refl
stored-set_received card_mask true x r = refl
stored-set_received account_mask true x r = refl
stored-set_received reference_number true x r = refl
stored-set_received channel true x r = refl
stored-set_received balance true x r = refl
stored-set_received raw_description true x r = refl
stored-set_received f false x r = refl

stored-set_source :
    (f : Field) (b : Bool) (r : Transaction) → stored f (set_source b r) ≡ stored f r
stored-set_source transaction_date true r = refl
stored-set_source transaction_time true r = refl
stored-set_source counterparty true r = refl
stored-set_source card_mask true r = refl
stored-set_source account_mask true r = refl
stored-set_source reference_number true r = refl
stored-set_source channel true r = refl
stored-set_source balance true r = refl
stored-set_source raw_description true r = refl
stored-set_source f false r = refl

stored-set_enriched :
    (f : Field) (b : Bool) (x : ℕ) (r : Transaction) → stored f (set_enriched b x r) ≡ stored f r
stored-set_enriched transaction_date true x r = refl
stored-set_enriched transaction_time true x r = refl
stored-set_enriched counterparty true x r = refl
stored-set_enriched card_mask true x r = refl
stored-set_enriched account_mask true x r = refl
stored-set_enriched reference_number true x r = refl
stored-set_enriched channel true x r = refl
stored-set_enriched balance true x r = refl
stored-set_enriched raw_description true x r = refl
stored-set_enriched f false x r = refl

pub stored-enrich :
    (f : Field) (diff : EnrichmentDiff) (d : TxnData) (ch : Channel) (now : ℕ) (row r : Transaction)
    → stored f (enrich diff d ch now row r) ≡ stored f (set_fields diff r)
unfolding enrich
stored-enrich f diff d ch now row r =
    stored-set_enriched f (has_changes diff) now _
    ∙ (stored-set_source f (is_other_source row.source ch) _
        ∙ stored-set_received f (changes_time diff) d.transaction_time_is_received_time _)

-- An SMS fills and never overwrites.
sms-change :
    (f : Field) (r : Transaction) (d : TxnData) (old new : Option (FieldType f)) (v : FieldType f)
    → old ≡ some v
    → decided f (change_from f sms r d old new) old ≡ some v
unfolding on_conflict
sms-change f r d none none v h = h
sms-change f r d none (some n) v h = cc
sms-change f r d (some o) none v h = h
sms-change f r d (some o) (some n) v h = h

-- Enriching a row from an SMS keeps the value that the row has in an enrichment field, from
-- transaction_date to raw_description: the SMS only fills such a field where it is NULL. Only the time
-- of an AM/PM alias is left out of this, as the correction may overwrite it from either channel.
pub enrich-sms :
    (kind : MatchKind) (f : Field) (d : TxnData) (now : ℕ) (row : Transaction) (v : FieldType f)
    → (kind ≡ standard) ⊎ (is_time f ≡ false)
    → stored f row ≡ some v
    → stored f (enrich (compute_applied_enrichment_diff row d sms kind) d sms now row row) ≡ some v
unfolding change_of compute_applied_enrichment_diff
enrich-sms standard f d now row v allowed h =
    stored-enrich f _ d sms now row row
    ∙ (set_fields-decided row row d sms f ∙ sms-change f row d (stored f row) (incoming f d) v h)
enrich-sms am_pm_alias f d now row v (inl k) h = cc
enrich-sms am_pm_alias f d now row v (inr k) h =
    stored-enrich f _ d sms now row row
    ∙ (set_fields-correct_time f row.transaction_time d.transaction_time
          (compute_enrichment_diff row d sms) row k
        ∙ (set_fields-decided row row d sms f
            ∙ sms-change f row d (stored f row) (incoming f d) v h))

-- the point in time that the loop decides on
point-le :
    (r : Transaction) (d : TxnData) (od ot vd vt : ℕ) (nd nt : Option ℕ)
    → nd ≡ d.transaction_date
    → r.transaction_date ≡ some od
    → decided transaction_date (change_from transaction_date email r d (some od) nd) (some od)
      ≡ some vd
    → decided transaction_time (change_from transaction_time email r d (some ot) nt) (some ot)
      ≡ some vt
    → combine vd vt ≤ combine od ot
unfolding on_conflict is_information_downgrade incoming_time_is_earlier
point-le r d od ot vd vt none none e h k l = ground arith
point-le r d od ot vd vt (some x) none e h k l = ground arith
point-le r d od ot vd vt none (some t) e h k l = ground arith
point-le r d od ot vd vt (some x) (some t) e h k l = ground arith

on_old :
    (f : Field) (c : Option (FieldType f) → Change f) (o : Option (FieldType f)) (v w : FieldType f)
    → o ≡ some v
    → decided f (c o) o ≡ some w
    → decided f (c (some v)) (some v) ≡ some w
on_old f c o v w h k = subst (λ x. decided f (c x) x ≡ some w) h k

-- Where a mail moves the time of a row to, by the kind of the match: not forward; or, for an AM/PM
-- alias, to the time of the mail, where it has one.
abbrev pub Moved : MatchKind → Option ℕ → ℕ → ℕ → ℕ → ℕ → Type 0
Moved standard t od ot vd vt = combine vd vt ≤ combine od ot
Moved am_pm_alias none od ot vd vt = combine vd vt ≤ combine od ot
Moved am_pm_alias (some t) od ot vd vt = vt ≡ t

module _ (d : TxnData) (now od ot vd vt : ℕ) (row : Transaction)
    (date : row.transaction_date ≡ some od) (time : row.transaction_time ≡ some ot) where
  abbrev after_mail : MatchKind → Transaction
  after_mail kind = enrich (compute_applied_enrichment_diff row d email kind) d email now row row

  standard_point :
      (after_mail standard).transaction_date ≡ some vd
      → (after_mail standard).transaction_time ≡ some vt
      → combine vd vt ≤ combine od ot
  unfolding change_of compute_applied_enrichment_diff
  standard_point new_date new_time =
      let diff = compute_enrichment_diff row d email in
      point-le row d od ot vd vt d.transaction_date d.transaction_time refl date
        (on_old transaction_date
          (λ o. change_from transaction_date email row d o d.transaction_date) row.transaction_date
          od vd date
          (sym (set_fields-decided row row d email transaction_date)
            ∙ (sym (stored-enrich transaction_date diff d email now row row) ∙ new_date)))
        (on_old transaction_time
          (λ o. change_from transaction_time email row d o d.transaction_time) row.transaction_time
          ot vt time
          (sym (set_fields-decided row row d email transaction_time)
            ∙ (sym (stored-enrich transaction_time diff d email now row row) ∙ new_time)))

  uncorrected :
      d.transaction_time ≡ none
      → compute_applied_enrichment_diff row d email am_pm_alias
        ≡ compute_applied_enrichment_diff row d email standard
  unfolding compute_applied_enrichment_diff
  uncorrected h =
      ap (λ o. correct_time row.transaction_time o (compute_enrichment_diff row d email)) h

  alias_point :
      (t : Option ℕ)
      → d.transaction_time ≡ t
      → (after_mail am_pm_alias).transaction_date ≡ some vd
      → (after_mail am_pm_alias).transaction_time ≡ some vt
      → Moved am_pm_alias t od ot vd vt
  alias_point none h new_date new_time =
      let same = uncorrected h in
      standard_point
        (ap (λ x. (enrich x d email now row row).transaction_date) (sym same) ∙ new_date)
        (ap (λ x. (enrich x d email now row row).transaction_time) (sym same) ∙ new_time)
  alias_point (some t) h new_date new_time =
      let moved =
        stored-enrich transaction_time (compute_applied_enrichment_diff row d email am_pm_alias) d
          email now row row
        ∙ set_fields-alias_time row d email t h in
      let same : some vt ≡ some t = sym new_time ∙ moved in cc

  -- Enriching from a mail a row that has a date and a time never moves its point in time, the date and
  -- the time together, forward: it becomes earlier or stays. The exception is a match as an AM/PM
  -- alias: there the time of the row becomes that of the mail, earlier or later, where the mail has one.
  pub enrich-email_point :
      (kind : MatchKind)
      → (after_mail kind).transaction_date ≡ some vd
      → (after_mail kind).transaction_time ≡ some vt
      → Moved kind d.transaction_time od ot vd vt
  enrich-email_point standard new_date new_time = standard_point new_date new_time
  enrich-email_point am_pm_alias new_date new_time =
      alias_point d.transaction_time refl new_date new_time

-- ===== src/Merge/Alias.antt =====
-- The correction of an AM/PM alias by `compute_applied_enrichment_diff`
-- (financial_dashboard/services/txn_merge.py): it writes the time of the row and no other field.
use bank_email_fetcher.Prelude.{
  ℕ, Bool, true, false, not, Option, none, some, List, [], ◌∷◌, ◌≡◌, ◌∙◌, refl, sym, ap, arith,
  Bool-cases, inl, inr, eqb, All, if◌then◌else◌,
}
use bank_email_fetcher.Merge.Row.{Channel, sms, email, Transaction, TxnData}
use bank_email_fetcher.Merge.Enrich.{
  Field, transaction_date, transaction_time, counterparty, card_mask, account_mask,
  reference_number, channel, balance, raw_description, FieldType, stored, Change, kept, fill,
  overwrite, change_of, change_from, on_conflict, Overwritten, EnrichmentDiff, add_change,
  diff_over, compute_enrichment_diff, compute_applied_enrichment_diff, is_time, put_time,
  time_differs, correct_time,
}
use bank_email_fetcher.Merge.Match.{am_pm_alias}
use bank_email_fetcher.Merge.Run.{apply_filled, apply_overwritten, overwrites_time, set_fields}
use bank_email_fetcher.Merge.Fields.{
  at_option, value_at, last_overwritten, or_else, stored-apply_overwritten, decided,
  set_fields-decided,
}

-- The time is no value of another field.
at_option-time :
    (f : Field) (o : Option ℕ) → is_time f ≡ false → at_option f transaction_time o ≡ none
unfolding at_option
at_option-time transaction_time o h = cc
at_option-time f o h = refl

value_at-time :
    (f g : Field) (v : FieldType g) → is_time f ≡ false → is_time g ≡ true → value_at f g v ≡ none
value_at-time f transaction_time v h k = at_option-time f (some v) h
value_at-time f transaction_date v h k = cc
value_at-time f counterparty v h k = cc
value_at-time f card_mask v h k = cc
value_at-time f account_mask v h k = cc
value_at-time f reference_number v h k = cc
value_at-time f channel v h k = cc
value_at-time f balance v h k = cc
value_at-time f raw_description v h k = cc

last_overwritten-put_time :
    (f : Field) (old : Option ℕ) (new : ℕ) (os : List Overwritten)
    → is_time f ≡ false
    → last_overwritten f (put_time old new os) ≡ last_overwritten f os
unfolding last_overwritten
last_overwritten-put_time f old new [] h = at_option-time f (some new) h
last_overwritten-put_time f old new (o ∷ os) h = elim (Bool-cases (is_time o.field)) [
  | inl hit ↦ rw (hit, value_at-time f o.field o.value h hit, at_option-time f (some new) h) refl
  | inr miss ↦ rw (miss, last_overwritten-put_time f old new os h) refl
]

-- A correction of the time changes no other field.
pub set_fields-correct_time :
    (f : Field) (old new : Option ℕ) (diff : EnrichmentDiff) (r : Transaction)
    → is_time f ≡ false
    → stored f (set_fields (correct_time old new diff) r) ≡ stored f (set_fields diff r)
unfolding set_fields
set_fields-correct_time f old none diff r h = refl
set_fields-correct_time f old (some new) diff r h = elim (Bool-cases (time_differs old new)) [
  | inl hit ↦ rw hit (
      stored-apply_overwritten f (put_time old new diff.overwritten) (apply_filled diff.filled r)
      ∙ (rw (last_overwritten-put_time f old new diff.overwritten h)
          (sym (stored-apply_overwritten f diff.overwritten (apply_filled diff.filled r)))))
  | inr miss ↦ rw miss refl
]

-- the fields after the time
abbrev others : List Field
others =
    counterparty ∷ card_mask ∷ account_mask ∷ reference_number ∷ channel ∷ balance ∷ raw_description
    ∷ []

-- at most one entry for the time, as the dictionary has
is_single : List Overwritten → Bool
is_single [] = true
is_single (o ∷ os) = if is_time o.field then not (overwrites_time os) else is_single os

true-false : true ≡ false → ⊥
true-false h = cc

-- A value of another field is none of the time.
value_at-other :
    (g : Field) (v : FieldType g) → is_time g ≡ false → value_at transaction_time g v ≡ none
unfolding at_option
value_at-other transaction_time v h = cc
value_at-other g v h = refl

timeless-is_single : (os : List Overwritten) → overwrites_time os ≡ false → is_single os ≡ true
unfolding is_single
timeless-is_single [] h = refl
timeless-is_single (o ∷ os) h = elim (Bool-cases (is_time o.field)) [
  | inl hit ↦ absurd (true-false (rw hit at h))
  | inr miss ↦ rw miss (timeless-is_single os (rw miss at h))
]

timeless-last :
    (os : List Overwritten)
    → overwrites_time os ≡ false
    → last_overwritten transaction_time os ≡ none
unfolding last_overwritten at_option
timeless-last [] h = refl
timeless-last (o ∷ os) h = elim (Bool-cases (is_time o.field)) [
  | inl hit ↦ absurd (true-false (rw hit at h))
  | inr miss ↦ rw (timeless-last os (rw miss at h), value_at-other o.field o.value miss) refl
]

module _ (r : Transaction) (d : TxnData) (ch : Channel) where
  add_change-timeless :
      (g : Field) (c : Change g) (diff : EnrichmentDiff)
      → is_time g ≡ false
      → overwrites_time diff.overwritten ≡ false
      → overwrites_time (add_change g c diff).overwritten ≡ false
  add_change-timeless g kept diff h k = k
  add_change-timeless g (fill v) diff h k = k
  add_change-timeless g (overwrite o v) diff h k = rw (h, k) refl

  diff_over-timeless :
      (gs : List Field)
      → All (λ g. is_time g ≡ false) gs
      → overwrites_time (diff_over r d ch gs).overwritten ≡ false
  diff_over-timeless [] h = refl
  diff_over-timeless (g ∷ gs) h =
      add_change-timeless g (change_of r d ch g) (diff_over r d ch gs) h.0
        (diff_over-timeless gs h.1)

  add_time-is_single :
      (c : Change transaction_time) (diff : EnrichmentDiff)
      → overwrites_time diff.overwritten ≡ false
      → is_single (add_change transaction_time c diff).overwritten ≡ true
  unfolding is_single
  add_time-is_single kept diff h = timeless-is_single diff.overwritten h
  add_time-is_single (fill v) diff h = timeless-is_single diff.overwritten h
  add_time-is_single (overwrite o v) diff h = rw h refl

  add_date-is_single :
      (c : Change transaction_date) (diff : EnrichmentDiff)
      → is_single diff.overwritten ≡ true
      → is_single (add_change transaction_date c diff).overwritten ≡ true
  unfolding is_single
  add_date-is_single kept diff h = h
  add_date-is_single (fill v) diff h = h
  add_date-is_single (overwrite o v) diff h = h

  compute_enrichment_diff-is_single : is_single (compute_enrichment_diff r d ch).overwritten ≡ true
  unfolding compute_enrichment_diff
  compute_enrichment_diff-is_single = add_date-is_single (change_of r d ch transaction_date) _ (
      add_time-is_single (change_of r d ch transaction_time) _
        (diff_over-timeless others (refl, (refl, (refl, (refl, (refl, (refl, (refl, tt)))))))))

last-put_time :
    (old : Option ℕ) (new : ℕ) (os : List Overwritten)
    → is_single os ≡ true
    → last_overwritten transaction_time (put_time old new os) ≡ some new
unfolding is_single last_overwritten at_option
last-put_time old new [] h = refl
last-put_time old new (o ∷ os) h = elim (Bool-cases (is_time o.field)) [
  | inl hit ↦
      let alone = timeless-last os (not-false (overwrites_time os) (rw hit at h)) in
      rw (hit, alone) refl
  | inr miss ↦ rw (miss, last-put_time old new os (rw miss at h)) refl
]
  where
    not-false : (b : Bool) → not b ≡ true → b ≡ false
    not-false false h = refl
    not-false true h = cc

corrected-time :
    (old : Option ℕ) (t : ℕ) (diff : EnrichmentDiff) (r : Transaction)
    → is_single diff.overwritten ≡ true
    → stored transaction_time
        (apply_overwritten (put_time old t diff.overwritten) (apply_filled diff.filled r))
      ≡ some t
corrected-time old t diff r h =
    stored-apply_overwritten transaction_time (put_time old t diff.overwritten)
      (apply_filled diff.filled r)
    ∙ ap (λ o. or_else o (stored transaction_time (apply_filled diff.filled r)))
        (last-put_time old t diff.overwritten h)

same-time : (old : Option ℕ) (t : ℕ) → time_differs old t ≡ false → old ≡ some t
same-time none t h = cc
same-time (some o) t h = ap some (ground arith)

decided-same :
    (ch : Channel) (row : Transaction) (d : TxnData) (t : ℕ) (old new : Option ℕ)
    → old ≡ some t
    → new ≡ some t
    → decided transaction_time (change_from transaction_time ch row d old new) old ≡ some t
unfolding on_conflict
decided-same ch row d t none new h k = cc
decided-same ch row d t (some o) none h k = cc
decided-same sms row d t (some o) (some n) h k = h
decided-same email row d t (some o) (some n) h k =
    let same : eqb o n ≡ true = ground arith in rw same h

-- Where the time is corrected, the row has the incoming time.
pub set_fields-alias_time :
    (row : Transaction) (d : TxnData) (ch : Channel) (t : ℕ)
    → d.transaction_time ≡ some t
    → stored transaction_time
        (set_fields (compute_applied_enrichment_diff row d ch am_pm_alias) row)
      ≡ some t
unfolding compute_applied_enrichment_diff set_fields change_of
set_fields-alias_time row d ch t h =
    ap
      (λ o.
        stored transaction_time
          (set_fields (correct_time row.transaction_time o (compute_enrichment_diff row d ch)) row))
      h
    ∙ elim (Bool-cases (time_differs row.transaction_time t)) [
      | inl differs ↦ rw differs (
          corrected-time row.transaction_time t (compute_enrichment_diff row d ch) row
            (compute_enrichment_diff-is_single row d ch))
      | inr same ↦ rw same (
          set_fields-decided row row d ch transaction_time
          ∙ decided-same ch row d t row.transaction_time d.transaction_time
              (same-time row.transaction_time t same) h)
    ]

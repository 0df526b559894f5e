-- ===== src/Merge/Replay.antt =====
-- The same message merged again (financial_dashboard/services/txn_merge.py): the row that it created is
-- found by its reference, and nothing is left to change.
use mathlib.Core.Path.{subst}
use bank_email_fetcher.Prelude.{
  ℕ, Bool, true, false, ◌&&◌, Option, none, some, List, [], ◌∷◌, ◌++◌, ◌≡◌, ◌∙◌, refl, sym, ap,
  arith, codes_eq, codes_eq_refl, str_eq, str_eq_refl, Bool-cases, inl, inr,
}
use bank_email_fetcher.Merge.Decimal.{Decimal, dec_eq, quantize_balance, balances_differ}
use bank_email_fetcher.Merge.Cents.{
  IsCents, AreCents, dec_eq_refl, dec_eq-quantize, balances_differ-quantize,
}
use bank_email_fetcher.Merge.Row.{Text, Channel, sms, email, Transaction, TxnData}
use bank_email_fetcher.Merge.Match.{keep, any, standard, match}
use bank_email_fetcher.Merge.Find.{
  same_reference, reference_is, on_reference_row, match_by_reference,
}
use bank_email_fetcher.Merge.Enrich.{
  Field, transaction_date, transaction_time, counterparty, card_mask, account_mask,
  reference_number, channel, balance, raw_description, enrichment_fields, FieldType, stored,
  incoming, kept, change_from, change_of, on_conflict, same_value, no_diff, diff_over,
  compute_enrichment_diff,
}
use bank_email_fetcher.Merge.Store.{new_row, same_key, has_unique_refs}
use bank_email_fetcher.Merge.Table.{SameRows}

same_value_refl : (f : Field) (v : FieldType f) → same_value f v v ≡ true
same_value_refl transaction_date v = ground arith
same_value_refl transaction_time v = ground arith
same_value_refl counterparty v = codes_eq_refl v
same_value_refl card_mask v = codes_eq_refl v
same_value_refl account_mask v = codes_eq_refl v
same_value_refl reference_number v = codes_eq_refl v
same_value_refl channel v = codes_eq_refl v
same_value_refl balance v = dec_eq_refl v
same_value_refl raw_description v = codes_eq_refl v

change_from_self :
    (f : Field) (ch : Channel) (r : Transaction) (d : TxnData) (o : Option (FieldType f))
    → change_from f ch r d o o ≡ kept
unfolding on_conflict
change_from_self f ch r d none = refl
change_from_self f sms r d (some v) = refl
change_from_self f email r d (some v) = rw (same_value_refl f v)

-- A balance that the column has rounded is the same balance.
change_from-cents :
    (ch : Channel) (r : Transaction) (d : TxnData) (o : Option Decimal)
    → AreCents o
    → change_from balance ch r d (quantize_balance o) o ≡ kept
unfolding on_conflict
change_from-cents ch r d none h = refl
change_from-cents sms r d (some a) h = refl
change_from-cents email r d (some a) h = rw (dec_eq-quantize a h)

module _ (r : Transaction) (d : TxnData) (ch : Channel)
    (same : (f : Field) → change_from f ch r d (stored f r) (incoming f d) ≡ kept) where
  diff_over-no_diff : (fs : List Field) → diff_over r d ch fs ≡ no_diff
  unfolding change_of
  diff_over-no_diff [] = refl
  diff_over-no_diff (f ∷ fs) = rw (same f) (diff_over-no_diff fs)

  -- A row of which the loop keeps every field is not enriched.
  pub compute_enrichment_diff-no_diff : compute_enrichment_diff r d ch ≡ no_diff
  unfolding compute_enrichment_diff
  compute_enrichment_diff-no_diff = diff_over-no_diff enrichment_fields

pub change_from-new_row :
    (id : ℕ) (ch : Channel) (d : TxnData) (s e : Option ℕ) (r : Transaction)
    → AreCents d.balance
    → (f : Field) → change_from f ch r d (stored f (new_row id ch d s e)) (incoming f d) ≡ kept
unfolding new_row
change_from-new_row id ch d s e r cents transaction_date =
    change_from_self transaction_date ch r d d.transaction_date
change_from-new_row id ch d s e r cents transaction_time =
    change_from_self transaction_time ch r d d.transaction_time
change_from-new_row id ch d s e r cents counterparty =
    change_from_self counterparty ch r d d.counterparty
change_from-new_row id ch d s e r cents card_mask = change_from_self card_mask ch r d d.card_mask
change_from-new_row id ch d s e r cents account_mask =
    change_from_self account_mask ch r d d.account_mask
change_from-new_row id ch d s e r cents reference_number =
    change_from_self reference_number ch r d d.reference_number
change_from-new_row id ch d s e r cents channel = change_from_self channel ch r d d.channel
change_from-new_row id ch d s e r cents balance = change_from-cents ch r d d.balance cents
change_from-new_row id ch d s e r cents raw_description =
    change_from_self raw_description ch r d d.raw_description

-- the category is none of the fields
pub stored-category :
    (r s : Transaction)
    → s ≡ record r { category = s.category }
    → (f : Field) → stored f s ≡ stored f r
stored-category r s h f = ap (stored f) h ∙ category_frame f
  where
    category_frame : (f : Field) → stored f (record r { category = s.category }) ≡ stored f r
    category_frame transaction_date = refl
    category_frame transaction_time = refl
    category_frame counterparty = refl
    category_frame card_mask = refl
    category_frame account_mask = refl
    category_frame reference_number = refl
    category_frame channel = refl
    category_frame balance = refl
    category_frame raw_description = refl

-- The row `n` alone passes the test, where every row that passes it shares the key of `n`.
module _ (p : Transaction → Bool) (n : Transaction) (hit : p n ≡ true)
    (shares : (x : Transaction) → p x ≡ true → same_key x n ≡ true) where
  any-snoc :
      (x : Transaction) (rows : List Transaction)
      → any (same_key x) (rows ++ n ∷ []) ≡ false
      → same_key x n ≡ false
  any-snoc x [] h = ground arith
  any-snoc x (r ∷ rows) h = any-snoc x rows (ground arith)

  keep_unique :
      (rows : List Transaction)
      → has_unique_refs (rows ++ n ∷ []) ≡ true
      → keep p (rows ++ n ∷ []) ≡ n ∷ []
  unfolding has_unique_refs
  keep_unique [] h = rw hit
  keep_unique (r ∷ rows) h = elim (Bool-cases (any (same_key r) (rows ++ n ∷ []))) [
    | inl clash ↦ cc (rw clash at h)
    | inr free ↦ elim (Bool-cases (p r)) [
      | inl passes ↦ let taken : true ≡ false = sym (shares r passes) ∙ any-snoc r rows free in cc
      | inr passed ↦ rw passed (keep_unique rows (rw free at h))
    ]
  ]

-- The test reads no category: it keeps the same rows of a table that differs in categories.
module _ (p : Transaction → Bool)
    (keeps : (r s : Transaction) → s ≡ record r { category = s.category } → p s ≡ p r) where
  keep-SameRows_none : (rs ss : List Transaction) → SameRows rs ss → keep p rs ≡ [] → keep p ss ≡ []
  unfolding SameRows
  keep-SameRows_none [] [] h k = refl
  keep-SameRows_none [] (s ∷ ss) h k = absurd h
  keep-SameRows_none (r ∷ rs) [] h k = absurd h
  keep-SameRows_none (r ∷ rs) (s ∷ ss) h k = elim (Bool-cases (p r)) [
    | inl passes ↦ let full : r ∷ keep p rs ≡ [] = rw passes at k in cc
    | inr passed ↦ rw (keeps r s h.0, passed) (keep-SameRows_none rs ss h.1 (rw passed at k))
  ]

  keep-SameRows :
      (n : Transaction) (rs ss : List Transaction)
      → SameRows rs ss
      → keep p rs ≡ n ∷ []
      → (m : Transaction) × (keep p ss ≡ m ∷ []) × (m ≡ record n { category = m.category })
  unfolding SameRows
  keep-SameRows n [] ss h k = cc
  keep-SameRows n (r ∷ rs) [] h k = absurd h
  keep-SameRows n (r ∷ rs) (s ∷ ss) h k = elim (Bool-cases (p r)) [
    | inl passes ↦
        let one : r ∷ keep p rs ≡ n ∷ [] = rw passes at k in
        let first : r ≡ n = cc in
        let rest : keep p rs ≡ [] = cc in
        (
          s,
          rw (keeps r s h.0, passes) (ap (λ xs. s ∷ xs) (keep-SameRows_none rs ss h.1 rest)),
          subst (λ (x : Transaction). s ≡ record x { category = s.category }) first h.0,
        )
    | inr passed ↦
        let (m, found, e) = keep-SameRows n rs ss h.1 (rw passed at k) in
        (m, rw (keeps r s h.0, passed) found, e)
  ]

same_reference-category :
    (ref : Text) (d : TxnData) (r s : Transaction)
    → s ≡ record r { category = s.category }
    → same_reference ref d s ≡ same_reference ref d r
unfolding same_reference
same_reference-category ref d r s h =
    ap
      (λ (x : Transaction).
        codes_eq x.bank d.bank
        && str_eq x.direction d.direction
        && reference_is x.reference_number ref)
      h

on_reference_row-category :
    (d : TxnData) (r s : Transaction)
    → s ≡ record r { category = s.category }
    → dec_eq r.amount d.amount ≡ true
    → balances_differ d.balance r.balance ≡ false
    → on_reference_row d s ≡ match s standard
unfolding on_reference_row
on_reference_row-category d r s h amount agree =
    let a : dec_eq s.amount d.amount ≡ true =
      ap (λ (x : Transaction). dec_eq x.amount d.amount) h ∙ amount in
    let b : balances_differ d.balance s.balance ≡ false =
      ap (λ (x : Transaction). balances_differ d.balance x.balance) h ∙ agree in
    rw (a, b)

module _ (ch : Channel) (d : TxnData) (id : ℕ) (s e : Option ℕ) where
  abbrev pub n : Transaction
  n = new_row id ch d s e

  shares_key :
      (ref : Text) (x : Transaction)
      → d.reference_number ≡ some ref
      → same_reference ref d x ≡ true
      → same_key x n ≡ true
  unfolding same_reference same_key new_row
  shares_key ref x h k = rw h k

  finds_itself : (ref : Text) → d.reference_number ≡ some ref → same_reference ref d n ≡ true
  unfolding same_reference new_row
  finds_itself ref h = rw (codes_eq_refl d.bank, str_eq_refl d.direction, h) (codes_eq_refl ref)

  pub finds_again :
      (other : Channel) (source_id : Option ℕ) (c : ℕ) (ref : Text) (rows after : List Transaction)
      → d.reference_number ≡ some (c ∷ ref)
      → IsCents d.amount
      → SameRows (rows ++ n ∷ []) after
      → has_unique_refs (rows ++ n ∷ []) ≡ true
      → (m : Transaction) × (match_by_reference (c ∷ ref) d other source_id after
          ≡ match m standard)
        × (m ≡ record n { category = m.category })
  finds_again other source_id c ref rows after h cents same unique =
      let p = same_reference (c ∷ ref) d in
      let (m, found, eq) =
        keep-SameRows p (same_reference-category (c ∷ ref) d) n (rows ++ n ∷ []) after same (
          keep_unique p n (finds_itself (c ∷ ref) h) (λ x. shares_key (c ∷ ref) x h) rows unique) in
      (
        m,
        rw found (
            on_reference_row-category d n m eq (unfold new_row in dec_eq-quantize d.amount cents)
              (unfold new_row in balances_differ-quantize d.balance)),
        eq,
      )

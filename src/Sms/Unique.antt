-- ===== src/Sms/Unique.antt =====
-- The primary row of a completion leg: `_find_completion_primary` of
-- financial_dashboard/services/sms_pipeline.py.
use mathlib.Core.Path.{subst}
use bank_email_fetcher.Prelude.{
  ℕ, zero, suc, true, false, ◌||◌, none, some, List, [], ◌∷◌, ◌≡◌, refl, sym, ap, arith, ltb,
  length, is_empty, Bool-cases, inl, inr, In,
}
use bank_email_fetcher.Merge.Row.{Text, Transaction, TxnData}
use bank_email_fetcher.Merge.Text.{text_or_empty, reference_of}
use bank_email_fetcher.Merge.Match.{keep}
use bank_email_fetcher.Merge.Lists.{In-keep, keep-In}
use bank_email_fetcher.Sms.Complete.{
  is_coarse, is_completable, take, completion_coarse_cap, the_candidate, among,
  find_completion_primary,
}

-- A query that stays below its limit returns every row.
take-all :
    (n : ℕ) (cs : List Transaction)
    → ltb n (length (take (suc n) cs)) ≡ false
    → take (suc n) cs ≡ cs
take-all n [] h = refl
take-all zero (c ∷ cs) h = absurd (ground arith)
take-all (suc n) (c ∷ cs) h = ap (λ r. c ∷ r) (take-all n cs (ground arith))

the_candidate-some :
    (cs : List Transaction) (p : Transaction) → (the_candidate cs).primary ≡ some p → cs ≡ p ∷ []
the_candidate-some [] p h = cc
the_candidate-some (c ∷ []) p h = let same : c ≡ p = cc in ap (λ (x : Transaction). x ∷ []) same
the_candidate-some (c ∷ e ∷ cs) p h = cc

-- The row completes this message: all the terms agree, it has an account, and its reference is missing
-- or a shortened form.
pub record IsPrimary (d : TxnData) (p : Transaction) : Type 0 where
  pub coarse : is_coarse (text_or_empty d.channel) d p ≡ true
  pub completable : is_completable (reference_of d.reference_number) p ≡ true

among-some :
    (d : TxnData) (reference : Text) (rows coarse : List Transaction) (p : Transaction)
    → (among reference (take (suc completion_coarse_cap) coarse)).primary ≡ some p
    → keep (is_completable reference) coarse ≡ p ∷ []
among-some d reference rows coarse p h =
    elim (Bool-cases
      (ltb completion_coarse_cap (length (take (suc completion_coarse_cap) coarse)))) [
        | inl over ↦ let gone : none ≡ some p = rw over at h in cc
        | inr below ↦
            let found : (the_candidate (
                  keep (is_completable reference)
                    (take (suc completion_coarse_cap) coarse))).primary
                ≡ some p =
              rw below at h in
            the_candidate-some (keep (is_completable reference) coarse) p (
              subst (λ cs. (the_candidate (keep (is_completable reference) cs)).primary ≡ some p)
                (take-all completion_coarse_cap coarse below) found)
      ]

find-kept :
    (d : TxnData) (rows : List Transaction) (p : Transaction)
    → (find_completion_primary d rows).primary ≡ some p
    → keep
        (is_completable (reference_of d.reference_number))
        (keep (is_coarse (text_or_empty d.channel) d) rows)
      ≡ p ∷ []
unfolding find_completion_primary
find-kept d rows p h =
    elim (Bool-cases
      (is_empty (reference_of d.reference_number) || is_empty (text_or_empty d.channel))) [
        | inl lacks ↦ let gone : none ≡ some p = rw lacks at h in cc
        | inr has ↦
            among-some d (reference_of d.reference_number) rows
              (keep (is_coarse (text_or_empty d.channel) d) rows) p (rw has at h)
      ]

In-only : (x p : Transaction) → In x (p ∷ []) → x ≡ p
In-only x p (inl e) = e
In-only x p (inr i) = absurd i

-- Where the search for the primary row answers with a row, that row is in the table and qualifies, and
-- every row of the whole table that qualifies is that row, although the query reads at most 26 rows.
pub find_completion_primary-Only :
    (d : TxnData) (rows : List Transaction) (p : Transaction)
    → (find_completion_primary d rows).primary ≡ some p
    → In p rows × IsPrimary d p × ((q : Transaction) → In q rows → IsPrimary d q → q ≡ p)
find_completion_primary-Only d rows p h =
    let kept = find-kept d rows p h in
    let (in_coarse, completable) =
      In-keep (is_completable (reference_of d.reference_number)) _ p
        (subst (In p) (sym kept) (inl refl)) in
    let (in_rows, coarse) = In-keep (is_coarse (text_or_empty d.channel) d) rows p in_coarse in
    (
      in_rows,
      record { coarse = coarse; completable = completable },
      λ q i k. In-only q p (
          subst (In q) kept (
            keep-In (is_completable (reference_of d.reference_number)) _ q
              (keep-In (is_coarse (text_or_empty d.channel) d) rows q i k.coarse) k.completable)),
    )

-- ===== src/Cashflow/Accounted.antt =====
-- No rupee of the bank vanishes from the report (financial_dashboard/services/cashflow/report.py): what
-- the headline leaves out is in the footnotes or in the uncategorized line.
use bank_email_fetcher.Prelude.{
  String, Bool, true, false, Option, none, some, List, [], ◌∷◌, ◌≡◌, ◌∙◌, refl, arith, Bool-cases,
  inl, inr, str_eq, In,
}
use mathlib.Core.Path.{subst}
use bank_email_fetcher.Categorize.Polarity.{mem}
use bank_email_fetcher.Cashflow.Buckets.{
  bank, Bucket, income, expense, investment, transfers_in, family, internal, uncategorized,
  bucket_by_slug, bucket_for_slug, internal_slugs_for_scope,
}
use bank_email_fetcher.Cashflow.Rows.{Account, Row, in_scope, inr_or_null, included}
use bank_email_fetcher.Cashflow.Report.{report_scope, where_rows, headline, uncategorized_rows}
use bank_email_fetcher.Cashflow.Footnotes.{
  is_internal, is_family, internal_rows, family_rows, excluded, excluded_rows, non_inr,
  non_inr_rows,
}
use bank_email_fetcher.Cashflow.Scopes.{is_uncategorized-bucket}
use bank_email_fetcher.Cashflow.Net.{counts}

pub where_rows-In :
    (p : Row → Bool) (rows : List Row) (r : Row) → In r rows → p r ≡ true → In r (where_rows p rows)
where_rows-In p (s ∷ rows) r (inl e) h = rw (subst (λ x. p x ≡ true) e h) (inl e)
where_rows-In p (s ∷ rows) r (inr i) h = elim (Bool-cases (p s)) [
  | inl hit ↦ rw hit (inr (where_rows-In p rows r i h))
  | inr miss ↦ rw miss (where_rows-In p rows r i h)
]
where_rows-In p [] r i h = absurd i

-- where a row of the range and of the bank is to be seen
pub data Shown (accounts : List Account) (dates : Row → Bool) (rows : List Row) (r : Row)
    : Type 0 where
  in_net :
      In r (where_rows (headline accounts dates) rows)
      → counts (bucket_for_slug r.category report_scope) ≡ true
      → Shown accounts dates rows r
  in_internal : In r (internal_rows accounts dates rows) → Shown accounts dates rows r
  in_family : In r (family_rows accounts dates rows) → Shown accounts dates rows r
  in_uncategorized : In r (uncategorized_rows accounts dates rows) → Shown accounts dates rows r
  in_excluded : In r (excluded_rows accounts dates rows) → Shown accounts dates rows r
  in_non_inr : In r (non_inr_rows accounts dates rows) → Shown accounts dates rows r

bucket_internal :
    (c : Option String)
    → bucket_for_slug c report_scope ≡ internal
    → elim c [ none ↦ false | some s ↦ mem s (internal_slugs_for_scope report_scope) ] ≡ true
unfolding bucket_for_slug bucket_by_slug internal_slugs_for_scope
bucket_internal none h = cc
bucket_internal (some s) h = ground arith

bucket_family :
    (c : Option String)
    → bucket_for_slug c report_scope ≡ family
    → elim c [ none ↦ false | some s ↦ str_eq s "family" ] ≡ true
unfolding bucket_for_slug bucket_by_slug
bucket_family none h = cc
bucket_family (some s) h = ground arith

included-excluded : (r : Row) → included r ≡ false → excluded r ≡ true
unfolding included excluded
included-excluded r h = ground arith

inr-non_inr : (r : Row) → inr_or_null r ≡ false → non_inr r ≡ true
unfolding inr_or_null non_inr
inr-non_inr r h = ground arith

module _ (accounts : List Account) (dates : Row → Bool) (rows : List Row) (r : Row)
    (here : In r rows) (dated : dates r ≡ true) (banked : in_scope accounts bank r ≡ true) where
  headline-Shown :
      included r ≡ true
      → inr_or_null r ≡ true
      → counts (bucket_for_slug r.category report_scope) ≡ true
      → Shown accounts dates rows r
  headline-Shown i n c =
      Shown.in_net (where_rows-In (headline accounts dates) rows r here (rw (dated, banked, i, n)))
        c

  bucket-Shown :
      (b : Bucket)
      → bucket_for_slug r.category report_scope ≡ b
      → included r ≡ true
      → inr_or_null r ≡ true
      → Shown accounts dates rows r
  unfolding is_internal is_family
  bucket-Shown income e i n = headline-Shown i n (rw e)
  bucket-Shown expense e i n = headline-Shown i n (rw e)
  bucket-Shown investment e i n = headline-Shown i n (rw e)
  bucket-Shown transfers_in e i n = headline-Shown i n (rw e)
  bucket-Shown family e i n =
      Shown.in_family (where_rows-In _ rows r here (rw (dated, i) (bucket_family r.category e)))
  bucket-Shown internal e i n =
      Shown.in_internal
        (where_rows-In _ rows r here (rw (dated, banked, i) (bucket_internal r.category e)))
  bucket-Shown uncategorized e i n = Shown.in_uncategorized (
      where_rows-In _ rows r here
        (rw (dated, banked, i) (is_uncategorized-bucket r.category report_scope ∙ rw e)))

  -- Every row of the bank in the range is shown somewhere: among the rows whose flow is retained, or
  -- in the internal, family, excluded or foreign-currency footnote, or on the uncategorized line.
  pub row-Shown : Shown accounts dates rows r
  row-Shown = elim (Bool-cases (included r)) [
    | inl i ↦ elim (Bool-cases (inr_or_null r)) [
      | inl n ↦ bucket-Shown (bucket_for_slug r.category report_scope) refl i n
      | inr foreign ↦
          Shown.in_non_inr
            (where_rows-In _ rows r here (rw (dated, banked, i) (inr-non_inr r foreign)))
    ]
    | inr out ↦ Shown.in_excluded (where_rows-In _ rows r here (rw dated (included-excluded r out)))
  ]

-- ===== src/Cashflow/Footnotes.antt =====
-- `_footnotes` of financial_dashboard/services/cashflow/report.py: the rows that the headline leaves out.
use bank_email_fetcher.Prelude.{
  ℕ, Bool, true, false, ◌&&◌, not, none, some, List, [], ◌∷◌, length, str_eq, is_none,
}
use bank_email_fetcher.Prelude.Int.{ℤ, pos, ◌+ℤ◌}
use bank_email_fetcher.Categorize.Polarity.{mem}
use bank_email_fetcher.Cashflow.Buckets.{bank, unaccounted, internal_slugs_for_scope}
use bank_email_fetcher.Cashflow.Rows.{Account, Row, in_scope, included, flow}
use bank_email_fetcher.Cashflow.Report.{where_rows, report_scope}

-- SUM(amount) and SIGNED_FLOW of the rows of a query
unfoldable pub gross : List Row → ℤ
gross [] = pos 0
gross (r ∷ rows) = r.amount +ℤ gross rows

unfoldable pub signed_flow : List Row → ℤ
signed_flow [] = pos 0
signed_flow (r ∷ rows) = flow r +ℤ signed_flow rows

-- `NON_INR` and `EXCLUDED`
unfoldable pub non_inr : Row → Bool
non_inr r = elim r.currency [ none ↦ false | some c ↦ not (str_eq c "INR") ]

unfoldable pub excluded : Row → Bool
excluded r = elim r.exclude_from_cashflow [ some true ↦ true | some false ↦ false | none ↦ false ]

-- category IN BANK_INTERNAL_SLUGS, and category = FAMILY_SLUG
unfoldable pub is_internal : Row → Bool
is_internal r = elim r.category [
  | none ↦ false
  | some c ↦ mem c (internal_slugs_for_scope report_scope)
]

unfoldable pub is_family : Row → Bool
is_family r = elim r.category [ none ↦ false | some c ↦ str_eq c "family" ]

pub record Footnotes : Type 0 where
  pub internal_count : ℕ
  pub internal_gross : ℤ
  pub internal_net : ℤ
  pub non_inr_count : ℕ
  pub undated_count : ℕ
  pub undated_net : ℤ
  pub unaccounted_count : ℕ
  pub unaccounted_net : ℤ
  pub family_count : ℕ
  pub family_net : ℤ
  pub excluded_count : ℕ
  pub excluded_gross : ℤ
  pub excluded_net : ℤ

module _ (accounts : List Account) (dates : Row → Bool) (rows : List Row) where
  abbrev pub internal_rows : List Row
  internal_rows =
      where_rows (λ r. dates r && in_scope accounts bank r && included r && is_internal r) rows

  abbrev pub non_inr_rows : List Row
  non_inr_rows =
      where_rows (λ r. dates r && in_scope accounts bank r && included r && non_inr r) rows

  abbrev pub undated_rows : List Row
  undated_rows = where_rows (λ r. is_none r.transaction_date) rows

  abbrev pub unaccounted_rows : List Row
  unaccounted_rows = where_rows (λ r. dates r && included r && in_scope accounts unaccounted r) rows

  abbrev pub family_rows : List Row
  family_rows = where_rows (λ r. dates r && included r && is_family r) rows

  abbrev pub excluded_rows : List Row
  excluded_rows = where_rows (λ r. dates r && excluded r) rows

  -- `_footnotes`
  unfoldable pub footnotes : Footnotes
  footnotes = record {
    internal_count = length internal_rows;
    internal_gross = gross internal_rows;
    internal_net = signed_flow internal_rows;
    non_inr_count = length non_inr_rows;
    undated_count = length undated_rows;
    undated_net = signed_flow undated_rows;
    unaccounted_count = length unaccounted_rows;
    unaccounted_net = signed_flow unaccounted_rows;
    family_count = length family_rows;
    family_net = signed_flow family_rows;
    excluded_count = length excluded_rows;
    excluded_gross = gross excluded_rows;
    excluded_net = signed_flow excluded_rows;
  }

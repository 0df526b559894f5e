-- ===== src/Cashflow/Net.antt =====
-- What the figures of the cashflow report (financial_dashboard/services/cashflow/report.py) are sums of,
-- and that the scopes of scope.py partition the rows.
use mathlib.Core.Path.{subst}
use bank_email_fetcher.Prelude.{
  String, Bool, true, false, ◌&&◌, Option, none, some, List, [], ◌∷◌, ◌≡◌, ◌∙◌, refl, sym, ap,
  arith, Bool-cases, inl, inr, str_eq, eq_iff,
}
use bank_email_fetcher.Prelude.Int.{ℤ, pos_part, neg_part, ◌+ℤ◌, ◌-ℤ◌, neg, int_laws}
use bank_email_fetcher.Cashflow.Buckets.{
  Bucket, income, expense, investment, transfers_in, family, internal, uncategorized,
  bucket_by_slug, bucket_for_slug,
}
use bank_email_fetcher.Cashflow.Rows.{Account, Row, flow, normalized}
use bank_email_fetcher.Cashflow.Report.{
  report_scope, where_rows, group_by, opt_str_eq, pair_eq, sum_totals, bucket_summary, is_income,
  is_expense, is_investment, income_lines, expense_lines, plain_lines, or_label, headline,
  category_is, transfers_in_summary, grouped, income_of, expense_of, investment_of, summary_over,
}
use bank_email_fetcher.Cashflow.Sums.{
  zero_unless, flows, flows-where_rows, flows-ext, flow_of, flow_of-group_by, sum_totals-sort,
  key_in, sum_totals-income_lines, sum_totals-expense_lines, net-investment, sum_totals-plain_lines,
  pair_eq-respects,
}

abbrev is_transfers_in : Bucket → Bool
is_transfers_in transfers_in = true
is_transfers_in b = false

and_true : (a b : Bool) → ((a && b) && true) ≡ (a && b)
and_true true true = refl
and_true true false = refl
and_true false b = refl

-- The transfers-in query selects the rows of the transfers-in bucket.
repayment-bucket :
    (s : String) → str_eq s "repayment" ≡ is_transfers_in (bucket_for_slug (some s) report_scope)
unfolding bucket_for_slug bucket_by_slug
repayment-bucket s = elim (Bool-cases (str_eq s "repayment")) [
  | inl same ↦
      subst (λ x. str_eq x "repayment" ≡ is_transfers_in (bucket_for_slug (some x) report_scope))
        (sym ((eq_iff s "repayment").0 same)) refl
  | inr other ↦ ground arith
]

-- the buckets whose rows change what is retained
abbrev pub counts : Bucket → Bool
counts income = true
counts expense = true
counts investment = true
counts transfers_in = true
counts family = false
counts internal = false
counts uncategorized = false

-- One row, by its bucket.
row_split :
    (h : Bool) (b : Bucket) (f : ℤ)
    → zero_unless (h && is_income b) f
        +ℤ zero_unless (h && is_transfers_in b) f
        +ℤ zero_unless (h && is_expense b) f
        +ℤ zero_unless (h && is_investment b) f
      ≡ zero_unless (h && counts b) f
row_split false b f = omega int_laws
row_split true income f = omega int_laws
row_split true expense f = omega int_laws
row_split true investment f = omega int_laws
row_split true transfers_in f = omega int_laws
row_split true family f = omega int_laws
row_split true internal f = omega int_laws
row_split true uncategorized f = omega int_laws

add_split :
    (a b c d e x y z w v : ℤ)
    → a +ℤ b +ℤ c +ℤ d ≡ e
    → x +ℤ y +ℤ z +ℤ w ≡ v
    → (a +ℤ x) +ℤ (b +ℤ y) +ℤ (c +ℤ z) +ℤ (d +ℤ w) ≡ e +ℤ v
add_split a b c d e x y z w v h k =
    omega (int_laws, ap pos_part h, ap neg_part h, ap pos_part k, ap neg_part k)

module _ (h : Row → Bool) (b : Row → Bucket) where
  flows_split :
      (rows : List Row)
      → flows (λ r. h r && is_income (b r)) rows
          +ℤ flows (λ r. h r && is_transfers_in (b r)) rows
          +ℤ flows (λ r. h r && is_expense (b r)) rows
          +ℤ flows (λ r. h r && is_investment (b r)) rows
        ≡ flows (λ r. h r && counts (b r)) rows
  unfolding flows
  flows_split [] = omega int_laws
  flows_split (r ∷ rows) =
      add_split (zero_unless (h r && is_income (b r)) (flow r)) _ _ _ _
        (flows (λ r. h r && is_income (b r)) rows) _ _ _ _ (row_split (h r) (b r) (flow r))
        (flows_split rows)

abbrev row_bucket : Row → Bucket
row_bucket r = bucket_for_slug r.category report_scope

category_is-bucket :
    (c : Option String)
    → elim c [ none ↦ false | some s ↦ str_eq s "repayment" ]
      ≡ is_transfers_in (bucket_for_slug c report_scope)
unfolding bucket_for_slug
category_is-bucket none = refl
category_is-bucket (some s) = repayment-bucket s

module _ (accounts : List Account) (dates : Row → Bool) (rows : List Row) where
  grouped-flow :
      (p : Bucket → Bool)
      → flow_of (key_in p) (grouped accounts dates rows)
        ≡ flows (λ r. headline accounts dates r && p (row_bucket r)) rows
  unfolding grouped
  grouped-flow p =
      flow_of-group_by (key_in p) pair_eq (pair_eq-respects p) (λ r. (r.category, r.direction)) _
      ∙ flows-where_rows (λ r. p (row_bucket r)) (headline accounts dates) rows

  income-flows :
      (income_of (grouped accounts dates rows)).total
      ≡ flows (λ r. headline accounts dates r && is_income (row_bucket r)) rows
  unfolding bucket_summary
  income-flows =
      sum_totals-sort (income_lines [] (grouped accounts dates rows))
      ∙ (sum_totals-income_lines [] (grouped accounts dates rows)
          ∙ (from_nothing (flow_of (key_in is_income) (grouped accounts dates rows))
              ∙ grouped-flow is_income))
    where
      from_nothing : (z : ℤ) → sum_totals [] +ℤ z ≡ z
      from_nothing z = unfold sum_totals in omega int_laws

  expense-flows :
      (expense_of (grouped accounts dates rows)).total
      ≡ neg (flows (λ r. headline accounts dates r && is_expense (row_bucket r)) rows)
  unfolding bucket_summary
  expense-flows =
      sum_totals-sort (expense_lines [] (grouped accounts dates rows))
      ∙ (sum_totals-expense_lines [] (grouped accounts dates rows)
          ∙ (from_nothing (flow_of (key_in is_expense) (grouped accounts dates rows))
              ∙ ap neg (grouped-flow is_expense)))
    where
      from_nothing : (z : ℤ) → sum_totals [] -ℤ z ≡ neg z
      from_nothing z = unfold sum_totals in omega int_laws

  investment-flows :
      (investment_of (grouped accounts dates rows)).net
      ≡ neg (flows (λ r. headline accounts dates r && is_investment (row_bucket r)) rows)
  investment-flows =
      net-investment (grouped accounts dates rows) ∙ ap neg (grouped-flow is_investment)

  transfers_in-flows :
      (transfers_in_summary accounts dates rows).total
      ≡ flows (λ r. headline accounts dates r && is_transfers_in (row_bucket r)) rows
  unfolding transfers_in_summary bucket_summary
  transfers_in-flows =
      let p = λ (r : Row). headline accounts dates r && category_is accounts dates "repayment" r in
      sum_totals-sort (
        plain_lines or_label
          (group_by opt_str_eq (λ r. normalized r.counterparty) (where_rows p rows)))
      ∙ (sum_totals-plain_lines or_label _
          ∙ (flow_of-group_by (λ k. true) opt_str_eq (λ a b h. refl)
                (λ r. normalized r.counterparty) (where_rows p rows)
              ∙ (flows-where_rows (λ r. true) p rows
                  ∙ flows-ext _ _ (λ r. by_bucket (headline accounts dates r) r.category) rows)))
    where
      by_bucket :
          (h : Bool) (c : Option String)
          → ((h && elim c [ none ↦ false | some s ↦ str_eq s "repayment" ]) && true)
            ≡ (h && is_transfers_in (bucket_for_slug c report_scope))
      by_bucket h c = rw (sym (category_is-bucket c)) (and_true h _)

  net_sum : (i t e v : ℤ) (x : ℤ) → i +ℤ t +ℤ e +ℤ v ≡ x → i +ℤ t -ℤ neg e -ℤ neg v ≡ x
  net_sum i t e v x h = omega (int_laws, ap pos_part h, ap neg_part h)

  -- What is retained is the signed flow of the rows of the headline, those in the range, in rupees, on
  -- a bank account and not excluded, whose bucket under the bank scope is income, expense, investment
  -- or transfers in: grouping, merging, negating, sorting and the separate query of the transfers
  -- neither lose a row nor count one twice, and internal, family and uncategorized rows do not count.
  pub net_cash_retained-flows :
      (summary_over accounts dates rows).net_cash_retained
      ≡ flows
          (λ r. headline accounts dates r && counts (bucket_for_slug r.category report_scope))
          rows
  unfolding summary_over
  net_cash_retained-flows =
      rw (income-flows, transfers_in-flows, expense-flows, investment-flows)
        (net_sum _ _ _ _ _ (flows_split (headline accounts dates) row_bucket rows))

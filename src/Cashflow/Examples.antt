-- ===== src/Cashflow/Examples.antt =====
-- The theorems of the cashflow report at concrete rows, and tests.
use bank_email_fetcher.Prelude.{
  ℕ, String, false, ◌&&◌, none, some, List, [], ◌∷◌, ◌≡◌, refl, inl, arith, codes, Option,
}
use bank_email_fetcher.Prelude.Int.{pos, negsuc, ◌+ℤ◌, ◌-ℤ◌, neg}
use bank_email_fetcher.Cashflow.Buckets.{
  bank, card, unaccounted, in_income_bucket, in_expense_bucket, bucket_by_slug, bucket_for_slug,
  internal_slugs_for_scope, label_override, title, label_for_slug,
}
use bank_email_fetcher.Cashflow.Rows.{
  Date, date_le, Account, Row, linked_to, in_scope, inr_or_null, included, flow, in_range,
  normalized, is_uncategorized,
}
use bank_email_fetcher.Cashflow.Report.{
  report_scope, add_to, group_by, merge, by_magnitude, insert_line, sort_lines, sum_totals,
  sum_counts, bucket_summary, income_lines, expense_lines, investment_lines, investment_summary,
  headline, transfers_in_summary, uncategorized_summary, expense_detail, grouped, CashflowSummary,
  summary_over, cashflow_summary,
}
use bank_email_fetcher.Cashflow.Footnotes.{
  gross, signed_flow, non_inr, excluded, is_internal, is_family, footnotes,
}
use bank_email_fetcher.Cashflow.Sums.{flows}
use bank_email_fetcher.Cashflow.Net.{counts, net_cash_retained-flows}
use bank_email_fetcher.Cashflow.Scopes.{
  IsOneOf, in_scope-partition, is_uncategorized_bucket, is_uncategorized-bucket,
}
use bank_email_fetcher.Cashflow.Accounted.{Shown, row-Shown}

abbrev accounts : List Account
accounts = record { id = 1; type = "bank_account" } ∷ record { id = 2; type = "credit_card" } ∷ []

abbrev july : ℕ → Date
july day = record { year = 2026; month = 7; day = day }

abbrev row : ℕ → String → ℕ → ℕ → String → Row
row account direction amount day category = record {
  account_id = some account;
  direction = direction;
  amount = pos amount;
  currency = some "INR";
  transaction_date = some (july day);
  category = some category;
  counterparty = some "Asha";
  exclude_from_cashflow = some false;
}

-- a salary, the bill of a card, two swipes of the card, a loan given back, an own transfer, a deposit,
-- a grocery with its refund, and a row of August
abbrev rows : List Row
rows =
    row 1 "credit" 90000 1 "salary"
    ∷ row 1 "debit" 12000 5 "credit_card_payment"
    ∷ row 2 "debit" 7000 3 "dining"
    ∷ row 2 "debit" 5000 4 "travel"
    ∷ row 1 "credit" 2000 6 "repayment"
    ∷ row 1 "debit" 3000 7 "self_transfer"
    ∷ row 1 "debit" 20000 8 "investment"
    ∷ row 1 "debit" 4000 9 "groceries"
    ∷ row 1 "credit" 1000 10 "refund"
    ∷ record (row 1 "debit" 8000 10 "rent") {
      transaction_date = some (record { year = 2026; month = 8; day = 1 });
    }
    ∷ []

summary : CashflowSummary
unfolding cashflow_summary summary_over grouped group_by add_to income_lines expense_lines
    investment_lines investment_summary transfers_in_summary uncategorized_summary expense_detail
    bucket_summary sort_lines insert_line by_magnitude merge sum_totals sum_counts in_range date_le
    inr_or_null included in_scope linked_to flow normalized is_uncategorized bucket_for_slug
    bucket_by_slug in_expense_bucket in_income_bucket label_for_slug label_override title ◌+ℤ◌ ◌-ℤ◌
    neg
summary = cashflow_summary accounts (july 1) (july 31) rows

income_test : summary.income.total ≡ pos 90000
unfolding summary
income_test = refl

-- The bill of the card and the groceries less the refund; the swipes are on the detail only.
expense_test : summary.expense.total ≡ pos 15000
unfolding summary
expense_test = refl

detail_test : summary.expense_detail.total ≡ pos 15000
unfolding summary
detail_test = refl

net_test : summary.net_cash_retained ≡ pos 57000
unfolding summary
net_test = refl

footnote_test : (footnotes accounts (in_range (july 1) (july 31)) rows).internal_net ≡ negsuc 2999
unfolding footnotes signed_flow gross non_inr excluded is_internal is_family
    internal_slugs_for_scope in_range date_le included in_scope linked_to flow neg ◌+ℤ◌
footnote_test = refl

label_test : label_for_slug (some "personal_care") ≡ codes "Personal Care"
unfolding label_for_slug label_override title bucket_by_slug in_expense_bucket
label_test = refl

unmapped_test : label_for_slug (some "pets") ≡ codes "unmapped: pets"
unfolding label_for_slug label_override title bucket_by_slug in_expense_bucket in_income_bucket
unmapped_test = refl

net_cash_retained-flows_example :
    (summary_over accounts (in_range (july 1) (july 31)) rows).net_cash_retained
    ≡ flows
        (λ r.
          headline accounts (in_range (july 1) (july 31)) r
          && counts (bucket_for_slug r.category report_scope))
        rows
net_cash_retained-flows_example =
    net_cash_retained-flows accounts (in_range (july 1) (july 31)) rows

abbrev lost : Row
lost = record (row 9 "debit" 100 2 "dining") { currency = none }

in_scope-partition_example :
    IsOneOf
      (in_scope accounts bank lost)
      (in_scope accounts card lost)
      (in_scope accounts unaccounted lost)
in_scope-partition_example = in_scope-partition accounts lost ((omega arith, tt), (tt, tt))

is_uncategorized-bucket_example :
    is_uncategorized (some " ") ≡ is_uncategorized_bucket (bucket_for_slug (some " ") none)
is_uncategorized-bucket_example = is_uncategorized-bucket (some " ") none

abbrev dining : Option String
dining = some "dining"

row-Shown_example :
    Shown accounts
      (in_range (july 1) (july 31))
      (row 1 "debit" 3000 7 "self_transfer" ∷ [])
      (row 1 "debit" 3000 7 "self_transfer")
row-Shown_example =
    row-Shown accounts (in_range (july 1) (july 31)) (row 1 "debit" 3000 7 "self_transfer" ∷ [])
      (row 1 "debit" 3000 7 "self_transfer") (inl refl) (unfold in_range date_le in refl)
      (unfold in_scope linked_to in refl)

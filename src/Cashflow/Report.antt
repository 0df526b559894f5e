-- ===== src/Cashflow/Report.antt =====
-- `cashflow_summary` and the aggregations under it (financial_dashboard/services/cashflow/report.py).
use bank_email_fetcher.Prelude.{
  ℕ, ◌+◌, String, Bool, true, false, ◌&&◌, ◌||◌, Option, none, some, List, [], ◌∷◌, codes, str_eq,
  eqb, ltb, is_empty, if◌then◌else◌,
}
use bank_email_fetcher.Prelude.Int.{ℤ, pos, ◌+ℤ◌, ◌-ℤ◌, neg, abs}
use bank_email_fetcher.Cashflow.Buckets.{
  Scope, bank, Bucket, income, expense, investment, bucket_for_slug, label_for_slug,
}
use bank_email_fetcher.Cashflow.Rows.{
  Date, Account, Row, in_scope, inr_or_null, included, flow, in_range, normalized, is_uncategorized,
}

-- `REPORT_SCOPE`
abbrev pub report_scope : Option Scope
report_scope = some bank

-- [r for r in rows if p(r)], the rows of a WHERE
abbrev pub where_rows : (Row → Bool) → List Row → List Row
where_rows p [] = []
where_rows p (r ∷ rows) = let rest = where_rows p rows in if p r then r ∷ rest else rest

-- One group of a GROUP BY with its SUM and COUNT.
pub record Group (K : Type 0) : Type 0 where
  pub key : K
  pub flow : ℤ
  pub count : ℕ

module _ {K : Type 0} (eq : K → K → Bool) where
  -- A row joins the group of its key.
  unfoldable pub add_to : K → ℤ → List (Group K) → List (Group K)
  add_to k f [] = record { key = k; flow = f; count = 1 } ∷ []
  add_to k f (g ∷ gs) =
      let rest = add_to k f gs in
      if eq g.key k
      then record { key = g.key; flow = g.flow +ℤ f; count = g.count + 1 } ∷ gs
      else g ∷ rest

  -- SELECT key, SIGNED_FLOW, COUNT(*) ... GROUP BY key
  unfoldable pub group_by : (Row → K) → List Row → List (Group K)
  group_by key [] = []
  group_by key (r ∷ rows) = add_to (key r) (flow r) (group_by key rows)

abbrev pub opt_str_eq : Option String → Option String → Bool
opt_str_eq none none = true
opt_str_eq none (some t) = false
opt_str_eq (some s) none = false
opt_str_eq (some s) (some t) = str_eq s t

abbrev pub pair_eq : Option String × String → Option String × String → Bool
pair_eq (a, x) (b, y) = opt_str_eq a b && str_eq x y

pub data Kind : Type 0 where
  contribution redemption : Kind

-- `CategoryLine` and `CounterpartyLine`; `name` is the slug or the counterparty
pub record Line : Type 0 where
  pub name : Option String
  pub label : List ℕ
  pub total : ℤ
  pub count : ℕ
  pub kind : Option Kind

-- `BucketSummary` and `TransfersInSummary`
pub record BucketSummary : Type 0 where
  pub total : ℤ
  pub count : ℕ
  pub lines : List Line

pub record InvestmentSummary : Type 0 where
  pub contributions : ℤ
  pub redemptions : ℤ
  pub net : ℤ
  pub count : ℕ
  pub lines : List Line

-- `_merge`
unfoldable pub merge : List Line → Option String → ℤ → ℕ → List Line
merge [] slug total count =
    record { name = slug; label = label_for_slug slug; total = total; count = count; kind = none }
    ∷ []
merge (l ∷ ls) slug total count =
    let rest = merge ls slug total count in
    if opt_str_eq l.name slug
    then record l { total = l.total +ℤ total; count = l.count + count } ∷ ls
    else l ∷ rest

-- label order: one text before another or the same
abbrev pub text_le : List ℕ → List ℕ → Bool
text_le [] t = true
text_le (c ∷ s) [] = false
text_le (c ∷ s) (d ∷ t) = ltb c d || (eqb c d && text_le s t)

-- the order of `_by_magnitude`
unfoldable pub by_magnitude : Line → Line → Bool
by_magnitude a b =
    ltb (abs b.total) (abs a.total) || (eqb (abs a.total) (abs b.total) && text_le a.label b.label)

unfoldable pub insert_line : Line → List Line → List Line
insert_line l [] = l ∷ []
insert_line l (m ∷ ls) =
    let rest = insert_line l ls in if by_magnitude l m then l ∷ m ∷ ls else m ∷ rest

-- `sorted(lines, key=_by_magnitude)`
unfoldable pub sort_lines : List Line → List Line
sort_lines [] = []
sort_lines (l ∷ ls) = insert_line l (sort_lines ls)

unfoldable pub sum_totals : List Line → ℤ
sum_totals [] = pos 0
sum_totals (l ∷ ls) = l.total +ℤ sum_totals ls

unfoldable pub sum_counts : List Line → ℕ
sum_counts [] = 0
sum_counts (l ∷ ls) = l.count + sum_counts ls

-- `_bucket`
unfoldable pub bucket_summary : List Line → BucketSummary
bucket_summary lines = record { total = sum_totals lines; count = sum_counts lines; lines = lines }

abbrev pub is_income : Bucket → Bool
is_income income = true
is_income b = false

abbrev pub is_expense : Bucket → Bool
is_expense expense = true
is_expense b = false

abbrev pub is_investment : Bucket → Bool
is_investment investment = true
is_investment b = false

abbrev pub Grouped : Type 0
Grouped = Group (Option String × String)

abbrev pub bucket_of_group : Grouped → Bucket
bucket_of_group g = bucket_for_slug g.key.0 report_scope

-- the dictionaries `income` and `expense` after the loop over the groups, the latter negated
unfoldable pub income_lines : List Line → List Grouped → List Line
income_lines lines [] = lines
income_lines lines (g ∷ gs) =
    income_lines
      (if is_income (bucket_of_group g) then merge lines g.key.0 g.flow g.count else lines) gs

unfoldable pub expense_lines : List Line → List Grouped → List Line
expense_lines lines [] = lines
expense_lines lines (g ∷ gs) =
    expense_lines
      (if is_expense (bucket_of_group g) then merge lines g.key.0 (neg g.flow) g.count else lines)
      gs

abbrev pub investment_line : Grouped → Line
investment_line g = record {
  name = g.key.0;
  label = label_for_slug g.key.0;
  total = neg g.flow;
  count = g.count;
  kind = some (if str_eq g.key.1 "debit" then contribution else redemption);
}

-- the list `investment`
unfoldable pub investment_lines : List Grouped → List Line
investment_lines [] = []
investment_lines (g ∷ gs) =
    let rest = investment_lines gs in
    if is_investment (bucket_of_group g) then investment_line g ∷ rest else rest

abbrev pub is_contribution : Option Kind → Bool
is_contribution (some contribution) = true
is_contribution k = false

abbrev pub is_redemption : Option Kind → Bool
is_redemption (some redemption) = true
is_redemption k = false

abbrev pub lines_of : (Option Kind → Bool) → List Line → List Line
lines_of p [] = []
lines_of p (l ∷ ls) = let rest = lines_of p ls in if p l.kind then l ∷ rest else rest

unfoldable pub investment_summary : List Line → InvestmentSummary
investment_summary lines =
    let contributions = sum_totals (lines_of is_contribution lines) in
    let redemptions = neg (sum_totals (lines_of is_redemption lines)) in
    record {
      contributions = contributions;
      redemptions = redemptions;
      net = contributions -ℤ redemptions;
      count = sum_counts lines;
      lines = lines;
    }

abbrev pub or_label : Option String → List ℕ
or_label none = codes "(no counterparty)"
or_label (some s) = if is_empty (codes s) then codes "(no counterparty)" else codes s

abbrev pub plain_lines : (Option String → List ℕ) → List (Group (Option String)) → List Line
plain_lines label [] = []
plain_lines label (g ∷ gs) =
    record { name = g.key; label = label g.key; total = g.flow; count = g.count; kind = none }
    ∷ plain_lines label gs

abbrev pub detail_lines : List Line → List (Group (Option String)) → List Line
detail_lines lines [] = lines
detail_lines lines (g ∷ gs) =
    detail_lines
      (if is_expense (bucket_for_slug g.key none)
        then merge lines g.key (neg g.flow) g.count
        else lines)
      gs

module _ (accounts : List Account) (dates : Row → Bool) where
  -- WHERE in_range, INR_OR_NULL, BANK_SCOPE, INCLUDED
  abbrev pub headline : Row → Bool
  headline r = dates r && inr_or_null r && in_scope accounts bank r && included r

  abbrev pub category_is : String → Row → Bool
  category_is slug r = elim r.category [ none ↦ false | some c ↦ str_eq c slug ]

  -- `_transfers_in`
  unfoldable pub transfers_in_summary : List Row → BucketSummary
  transfers_in_summary rows = bucket_summary (
      sort_lines (
        plain_lines or_label (
          group_by opt_str_eq (λ r. normalized r.counterparty)
            (where_rows (λ r. headline r && category_is "repayment" r) rows))))

  abbrev pub uncategorized_rows : List Row → List Row
  uncategorized_rows rows =
      where_rows
        (λ r. dates r && in_scope accounts bank r && included r && is_uncategorized r.category) rows

  -- `_uncategorized`
  unfoldable pub uncategorized_summary : List Row → BucketSummary
  uncategorized_summary rows = bucket_summary (
      sort_lines (
        plain_lines label_for_slug
          (group_by opt_str_eq (λ r. normalized r.category) (uncategorized_rows rows))))

  -- `_expense_detail`, over every account
  unfoldable pub expense_detail : List Row → BucketSummary
  expense_detail rows = bucket_summary (
      sort_lines (
        detail_lines [] (
          group_by opt_str_eq (λ r. r.category)
            (where_rows (λ r. dates r && inr_or_null r && included r) rows))))

  -- `grouped`
  unfoldable pub grouped : List Row → List Grouped
  grouped rows = group_by pair_eq (λ r. (r.category, r.direction)) (where_rows headline rows)

-- `CashflowSummary`, without the footnotes
pub record CashflowSummary : Type 0 where
  pub income : BucketSummary
  pub expense : BucketSummary
  pub expense_detail : BucketSummary
  pub investment : InvestmentSummary
  pub transfers_in : BucketSummary
  pub uncategorized : BucketSummary
  pub net_cash_retained : ℤ

abbrev pub income_of : List Grouped → BucketSummary
income_of groups = bucket_summary (sort_lines (income_lines [] groups))

abbrev pub expense_of : List Grouped → BucketSummary
expense_of groups = bucket_summary (sort_lines (expense_lines [] groups))

abbrev pub investment_of : List Grouped → InvestmentSummary
investment_of groups = investment_summary (sort_lines (investment_lines groups))

-- `cashflow_summary` for a predicate on dates
unfoldable pub summary_over : List Account → (Row → Bool) → List Row → CashflowSummary
summary_over accounts dates rows =
    let groups = grouped accounts dates rows in
    record {
      income = income_of groups;
      expense = expense_of groups;
      expense_detail = expense_detail accounts dates rows;
      investment = investment_of groups;
      transfers_in = transfers_in_summary accounts dates rows;
      uncategorized = uncategorized_summary accounts dates rows;
      net_cash_retained =
          (income_of groups).total
          +ℤ (transfers_in_summary accounts dates rows).total
          -ℤ (expense_of groups).total
          -ℤ (investment_of groups).net;
    }

-- `cashflow_summary`
unfoldable pub cashflow_summary : List Account → Date → Date → List Row → CashflowSummary
cashflow_summary accounts date_from date_to rows =
    summary_over accounts (in_range date_from date_to) rows

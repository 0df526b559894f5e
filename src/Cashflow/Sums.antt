-- ===== src/Cashflow/Sums.antt =====
-- The sums of the cashflow report: grouping, merging and sorting lose and add nothing.
use bank_email_fetcher.Prelude.{
  ℕ, String, Bool, true, false, ◌&&◌, Option, none, some, List, [], ◌∷◌, ◌≡◌, ◌∙◌, refl, sym, ap,
  arith, Bool-cases, inl, inr, str_eq, eq_iff,
}
use bank_email_fetcher.Prelude.Int.{ℤ, pos, pos_part, neg_part, ◌+ℤ◌, ◌-ℤ◌, neg, int_laws}
use bank_email_fetcher.Cashflow.Buckets.{Bucket, bucket_for_slug}
use bank_email_fetcher.Cashflow.Rows.{Row, flow}
use bank_email_fetcher.Cashflow.Report.{
  where_rows, Group, add_to, group_by, opt_str_eq, pair_eq, Kind, Line, merge, by_magnitude,
  insert_line, sort_lines, sum_totals, Grouped, bucket_of_group, report_scope, is_income,
  is_expense, is_investment, income_lines, expense_lines, investment_lines, is_contribution,
  is_redemption, lines_of, investment_summary, plain_lines,
}

abbrev pub zero_unless : Bool → ℤ → ℤ
zero_unless true a = a
zero_unless false a = pos 0

-- The signed flow of the rows that pass a test, taken straight from the rows.
unfoldable pub flows : (Row → Bool) → List Row → ℤ
flows p [] = pos 0
flows p (r ∷ rows) = zero_unless (p r) (flow r) +ℤ flows p rows

pub flows-where_rows :
    (p q : Row → Bool) (rows : List Row)
    → flows p (where_rows q rows) ≡ flows (λ r. q r && p r) rows
unfolding flows
flows-where_rows p q [] = refl
flows-where_rows p q (r ∷ rows) = elim (Bool-cases (q r)) [
  | inl passes ↦ rw (passes, flows-where_rows p q rows)
  | inr fails ↦ rw (fails, flows-where_rows p q rows) (omega int_laws)
]

pub flows-ext :
    (p q : Row → Bool) → ((r : Row) → p r ≡ q r) → (rows : List Row) → flows p rows ≡ flows q rows
unfolding flows
flows-ext p q same [] = refl
flows-ext p q same (r ∷ rows) = rw (same r, flows-ext p q same rows)

-- The flow of the groups whose key passes a test.
module _ {K : Type 0} (p : K → Bool) where
  unfoldable pub flow_of : List (Group K) → ℤ
  flow_of [] = pos 0
  flow_of (g ∷ gs) = zero_unless (p g.key) g.flow +ℤ flow_of gs

  module _ (eq : K → K → Bool) (respects : (a b : K) → eq a b ≡ true → p a ≡ p b) where
    flow_of-add_to :
        (k : K) (f : ℤ) (gs : List (Group K))
        → flow_of (add_to eq k f gs) ≡ zero_unless (p k) f +ℤ flow_of gs
    unfolding flow_of add_to
    flow_of-add_to k f [] = refl
    flow_of-add_to k f (g ∷ gs) = elim (Bool-cases (eq g.key k)) [
      | inl same ↦ rw (same, sym (respects g.key k same)) (joined (p g.key) f g.flow (flow_of gs))
      | inr other ↦ rw (other, flow_of-add_to k f gs) (omega int_laws)
    ]
      where
        joined :
            (b : Bool) (x y z : ℤ)
            → zero_unless b (y +ℤ x) +ℤ z ≡ zero_unless b x +ℤ (zero_unless b y +ℤ z)
        joined true x y z = omega int_laws
        joined false x y z = omega int_laws

    -- GROUP BY keeps the flow of every set of keys.
    pub flow_of-group_by :
        (key : Row → K) (rows : List Row)
        → flow_of (group_by eq key rows) ≡ flows (λ r. p (key r)) rows
    unfolding flow_of group_by flows
    flow_of-group_by key [] = refl
    flow_of-group_by key (r ∷ rows) =
        flow_of-add_to (key r) (flow r) (group_by eq key rows)
        ∙ ap (λ x. zero_unless (p (key r)) (flow r) +ℤ x) (flow_of-group_by key rows)

pub sum_totals-merge :
    (ls : List Line) (slug : Option String) (total : ℤ) (count : ℕ)
    → sum_totals (merge ls slug total count) ≡ sum_totals ls +ℤ total
unfolding sum_totals merge
sum_totals-merge [] slug total count = omega int_laws
sum_totals-merge (l ∷ ls) slug total count = elim (Bool-cases (opt_str_eq l.name slug)) [
  | inl same ↦ rw same (omega int_laws)
  | inr other ↦ rw (other, sum_totals-merge ls slug total count) (omega int_laws)
]

-- Sorting keeps the total of the lines of every kind.
module _ (p : Option Kind → Bool) where
  total_where : List Line → ℤ
  total_where [] = pos 0
  total_where (l ∷ ls) = zero_unless (p l.kind) l.total +ℤ total_where ls

  sum_totals-lines_of : (ls : List Line) → sum_totals (lines_of p ls) ≡ total_where ls
  unfolding sum_totals total_where
  sum_totals-lines_of [] = refl
  sum_totals-lines_of (l ∷ ls) = elim (Bool-cases (p l.kind)) [
    | inl hit ↦ rw (hit, sum_totals-lines_of ls)
    | inr miss ↦ rw (miss, sum_totals-lines_of ls) (omega int_laws)
  ]

  total_where-insert :
      (l : Line) (ls : List Line) → total_where (insert_line l ls) ≡ total_where (l ∷ ls)
  unfolding total_where insert_line
  total_where-insert l [] = refl
  total_where-insert l (m ∷ ls) = elim (Bool-cases (by_magnitude l m)) [
    | inl before ↦ rw before
    | inr after ↦ rw (after, total_where-insert l ls) (omega int_laws)
  ]

  total_where-sort : (ls : List Line) → total_where (sort_lines ls) ≡ total_where ls
  unfolding total_where sort_lines
  total_where-sort [] = refl
  total_where-sort (l ∷ ls) =
      total_where-insert l (sort_lines ls)
      ∙ ap (λ x. zero_unless (p l.kind) l.total +ℤ x) (total_where-sort ls)

  pub lines_of-sort :
      (ls : List Line) → sum_totals (lines_of p (sort_lines ls)) ≡ sum_totals (lines_of p ls)
  lines_of-sort ls =
      sum_totals-lines_of (sort_lines ls) ∙ (total_where-sort ls ∙ sym (sum_totals-lines_of ls))

lines_of_all : (ls : List Line) → lines_of (λ k. true) ls ≡ ls
lines_of_all [] = refl
lines_of_all (l ∷ ls) = ap (λ xs. l ∷ xs) (lines_of_all ls)

pub sum_totals-sort : (ls : List Line) → sum_totals (sort_lines ls) ≡ sum_totals ls
sum_totals-sort ls =
    ap sum_totals (sym (lines_of_all (sort_lines ls)))
    ∙ (lines_of-sort (λ k. true) ls ∙ ap sum_totals (lines_of_all ls))

-- a test of the bucket of a group, as a test of its key
abbrev pub key_in : (Bucket → Bool) → Option String × String → Bool
key_in p k = p (bucket_for_slug k.0 report_scope)

-- The loops over the groups keep the flow of the bucket that they collect.
pub sum_totals-income_lines :
    (ls : List Line) (gs : List Grouped)
    → sum_totals (income_lines ls gs) ≡ sum_totals ls +ℤ flow_of (key_in is_income) gs
unfolding income_lines flow_of
sum_totals-income_lines ls [] = omega int_laws
sum_totals-income_lines ls (g ∷ gs) = elim (Bool-cases (is_income (bucket_of_group g))) [
  | inl hit ↦
      rw
        (
          hit,
          sum_totals-income_lines (merge ls g.key.0 g.flow g.count) gs,
          sum_totals-merge ls g.key.0 g.flow g.count,
        )
        (omega int_laws)
  | inr miss ↦ rw (miss, sum_totals-income_lines ls gs) (omega int_laws)
]

pub sum_totals-expense_lines :
    (ls : List Line) (gs : List Grouped)
    → sum_totals (expense_lines ls gs) ≡ sum_totals ls -ℤ flow_of (key_in is_expense) gs
unfolding expense_lines flow_of
sum_totals-expense_lines ls [] = omega int_laws
sum_totals-expense_lines ls (g ∷ gs) = elim (Bool-cases (is_expense (bucket_of_group g))) [
  | inl hit ↦
      rw
        (
          hit,
          sum_totals-expense_lines (merge ls g.key.0 (neg g.flow) g.count) gs,
          sum_totals-merge ls g.key.0 (neg g.flow) g.count,
        )
        (omega int_laws)
  | inr miss ↦ rw (miss, sum_totals-expense_lines ls gs) (omega int_laws)
]

-- Adding to either part, or nothing, where the two parts make the negative of a sum.
module _ (x y z : ℤ) (h : x +ℤ y ≡ neg z) where
  first_part : (f : ℤ) → (neg f +ℤ x) +ℤ y ≡ neg (f +ℤ z)
  first_part f = omega (int_laws, ap pos_part h, ap neg_part h)

  second_part : (f : ℤ) → x +ℤ (neg f +ℤ y) ≡ neg (f +ℤ z)
  second_part f = omega (int_laws, ap pos_part h, ap neg_part h)

  no_part : x +ℤ y ≡ neg (pos 0 +ℤ z)
  no_part = omega (int_laws, ap pos_part h, ap neg_part h)

  minus_parts : x -ℤ neg y ≡ neg z
  minus_parts = omega (int_laws, ap pos_part h, ap neg_part h)

-- Every investment line is a contribution or a redemption.
kinds-investment_lines :
    (gs : List Grouped)
    → sum_totals (lines_of is_contribution (investment_lines gs))
        +ℤ sum_totals (lines_of is_redemption (investment_lines gs))
      ≡ neg (flow_of (key_in is_investment) gs)
unfolding investment_lines flow_of sum_totals
kinds-investment_lines [] = omega int_laws
kinds-investment_lines (g ∷ gs) = elim (Bool-cases (is_investment (bucket_of_group g))) [
  | inl hit ↦ elim (Bool-cases (str_eq g.key.1 "debit")) [
    | inl debit ↦ rw (hit, debit) (first_part _ _ _ (kinds-investment_lines gs) g.flow)
    | inr credit ↦ rw (hit, credit) (second_part _ _ _ (kinds-investment_lines gs) g.flow)
  ]
  | inr miss ↦ rw miss (no_part _ _ _ (kinds-investment_lines gs))
]

pub net-investment :
    (gs : List Grouped)
    → (investment_summary (sort_lines (investment_lines gs))).net
      ≡ neg (flow_of (key_in is_investment) gs)
unfolding investment_summary
net-investment gs =
    rw
      (
        lines_of-sort is_contribution (investment_lines gs),
        lines_of-sort is_redemption (investment_lines gs),
      )
      (minus_parts _ _ _ (kinds-investment_lines gs))

pub sum_totals-plain_lines :
    (label : Option String → List ℕ) (gs : List (Group (Option String)))
    → sum_totals (plain_lines label gs) ≡ flow_of (λ k. true) gs
unfolding flow_of sum_totals
sum_totals-plain_lines label [] = refl
sum_totals-plain_lines label (g ∷ gs) = ap (λ x. g.flow +ℤ x) (sum_totals-plain_lines label gs)

-- Keys that SQL takes for the same are the same.
opt_str_eq-respects : (a b : Option String) → opt_str_eq a b ≡ true → a ≡ b
opt_str_eq-respects none none h = refl
opt_str_eq-respects none (some t) h = cc
opt_str_eq-respects (some s) none h = cc
opt_str_eq-respects (some s) (some t) h = ap (λ x. some x) ((eq_iff s t).0 h)

pub pair_eq-respects :
    (p : Bucket → Bool) (a b : Option String × String)
    → pair_eq a b ≡ true
    → key_in p a ≡ key_in p b
pair_eq-respects p (a, x) (b, y) h =
    ap (λ k. p (bucket_for_slug k report_scope)) (opt_str_eq-respects a b (ground arith))

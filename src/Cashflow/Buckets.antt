-- ===== src/Cashflow/Buckets.antt =====
-- financial_dashboard/services/cashflow/buckets.py and scope.py: the bucket of a category, and the
-- scope of an account.
use bank_email_fetcher.Prelude.{
  ℕ, ◌-◌, String, Bool, true, false, ◌&&◌, ◌||◌, not, Option, none, some, List, [], ◌∷◌, ◌++◌,
  codes, str_eq, eqb, leb, lower_ascii, map, is_empty, if◌then◌else◌,
}
use bank_email_fetcher.Categorize.Polarity.{mem, expense_slugs, income_slugs}

-- `Scope`
pub data Scope : Type 0 where
  bank card unaccounted : Scope

-- The buckets of the report, and the line of what has none.
pub data Bucket : Type 0 where
  income expense investment transfers_in family internal uncategorized : Bucket

-- `CONTRA_EXPENSE_SLUGS`
abbrev pub contra_expense_slugs : List String
contra_expense_slugs = "refund" ∷ "cashback_rewards" ∷ "reimbursement" ∷ []

-- `INTERNAL_SLUGS` and `BANK_INTERNAL_SLUGS`
abbrev pub internal_slugs : List String
internal_slugs = "self_transfer" ∷ "credit_card_payment" ∷ []

abbrev pub bank_internal_slugs : List String
bank_internal_slugs = "self_transfer" ∷ []

-- `slug in INCOME_BUCKET`, `EXPENSE_BUCKET` and `INVESTMENT_BUCKET`
unfoldable pub in_income_bucket : String → Bool
in_income_bucket slug =
    mem slug income_slugs
    && not (mem slug contra_expense_slugs)
    && not (mem slug ("investment_redemption" ∷ "repayment" ∷ []))

unfoldable pub in_expense_bucket : String → Bool
in_expense_bucket slug =
    mem slug expense_slugs
    || mem slug contra_expense_slugs
    || mem slug ("cash_withdrawal" ∷ "misc" ∷ [])

abbrev pub investment_bucket : List String
investment_bucket = "investment" ∷ "investment_redemption" ∷ []

-- `BUCKET_BY_SLUG.get(slug)`: a later entry of the literal replaces an earlier one
unfoldable pub bucket_by_slug : String → Option Bucket
bucket_by_slug slug =
    if str_eq slug "family"
    then some family
    else if str_eq slug "repayment"
    then some transfers_in
    else if mem slug internal_slugs
    then some internal
    else if mem slug investment_bucket
    then some investment
    else if in_expense_bucket slug
    then some expense
    else if in_income_bucket slug
    then some income
    else none

abbrev pub or_uncategorized : Option Bucket → Bucket
or_uncategorized none = uncategorized
or_uncategorized (some b) = b

abbrev pub is_bank : Option Scope → Bool
is_bank (some bank) = true
is_bank scope = false

abbrev pub bucket_of_text : String → Option Scope → Bucket
bucket_of_text slug scope =
    if is_empty (codes slug) || str_eq slug "unknown"
    then uncategorized
    else if is_bank scope && str_eq slug "credit_card_payment"
    then expense
    else or_uncategorized (bucket_by_slug slug)

-- `bucket_for_slug`
unfoldable pub bucket_for_slug : Option String → Option Scope → Bucket
bucket_for_slug none scope = uncategorized
bucket_for_slug (some slug) scope = bucket_of_text slug scope

-- `internal_slugs_for_scope`
unfoldable pub internal_slugs_for_scope : Option Scope → List String
internal_slugs_for_scope scope = if is_bank scope then bank_internal_slugs else internal_slugs

-- `LABEL_OVERRIDES.get(slug)`
unfoldable pub label_override : String → Option String
label_override slug =
    if str_eq slug "credit_card_payment"
    then some "Card bills"
    else if str_eq slug "emi_loan"
    then some "EMI / Loan"
    else if str_eq slug "cash_withdrawal"
    then some "Cash Withdrawal"
    else if str_eq slug "cashback_rewards"
    then some "Cashback Rewards"
    else if str_eq slug "fees_charges"
    then some "Fees & Charges"
    else if str_eq slug "charity_gift"
    then some "Charity & Gifts"
    else none

abbrev pub is_letter : ℕ → Bool
is_letter c = (leb b'a' c && leb c b'z') || (leb b'A' c && leb c b'Z')

abbrev pub to_upper : ℕ → ℕ
to_upper c = if leb b'a' c && leb c b'z' then c - 32 else c

-- `.title()` of an ASCII text; `inside` says that a letter stands before
unfoldable pub title : Bool → List ℕ → List ℕ
title inside [] = []
title inside (c ∷ s) =
    let rest = title (is_letter c) s in (if inside then lower_ascii c else to_upper c) ∷ rest

abbrev pub underscore_to_space : ℕ → ℕ
underscore_to_space c = if eqb c b'_' then b' ' else c

abbrev pub is_unmapped : String → Bool
is_unmapped slug = elim (bucket_by_slug slug) [
  | none ↦ not (str_eq slug "unknown")
  | some b ↦ false
]

abbrev pub or_title : Option String → String → List ℕ
or_title (some label) slug = codes label
or_title none slug =
    if is_unmapped slug
    then codes "unmapped: " ++ codes slug
    else title false (map underscore_to_space (codes slug))

-- `label_for_slug`
unfoldable pub label_for_slug : Option String → List ℕ
label_for_slug none = codes "(uncategorized)"
label_for_slug (some slug) = or_title (label_override slug) slug

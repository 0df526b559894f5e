-- ===== src/Categorize/Polarity.antt =====
-- financial_dashboard/services/categorization/polarity.py, with the slugs that slugs.py names.
use text.Mathlib.Text.{◌==◌}
use bank_email_fetcher.Prelude.{
  String, Bool, true, false, ◌||◌, Option, none, some, List, [], ◌∷◌, ◌≡◌, refl, if◌then◌else◌, inl,
  inr, Bool-cases,
}

-- `slug in SLUGS`
abbrev pub mem : String → List String → Bool
mem slug [] = false
mem slug (s ∷ slugs) = slug == s || mem slug slugs

-- `EXPENSE_SLUGS`
abbrev pub expense_slugs : List String
expense_slugs =
    "expense" ∷ "bill_payment" ∷ "groceries" ∷ "dining" ∷ "fuel" ∷ "car_maintenance" ∷ "transport"
    ∷ "shopping" ∷ "utilities" ∷ "subscriptions" ∷ "rent" ∷ "emi_loan" ∷ "insurance" ∷ "healthcare"
    ∷ "entertainment" ∷ "travel" ∷ "education" ∷ "personal_care" ∷ "fees_charges" ∷ "tax"
    ∷ "cash_withdrawal" ∷ "charity_gift" ∷ "gift" ∷ []

-- `INCOME_SLUGS`
abbrev pub income_slugs : List String
income_slugs =
    "salary" ∷ "interest" ∷ "refund" ∷ "cashback_rewards" ∷ "other_income" ∷ "repayment"
    ∷ "investment_redemption" ∷ "tax_refund" ∷ []

-- `CC_IMPOSSIBLE_CREDIT_SLUGS`
abbrev pub cc_impossible_credit_slugs : List String
cc_impossible_credit_slugs = "repayment" ∷ "salary" ∷ "other_income" ∷ "interest" ∷ []

abbrev pub is_credit_card : Option String → Bool
is_credit_card none = false
is_credit_card (some type) = type == "credit_card"

-- Whether the classifier's slug cannot stand, on a row of that direction and account type.
unfoldable pub is_impossible : String → String → Option String → Bool
is_impossible slug direction account_type =
    if direction == "debit"
    then mem slug income_slugs || slug == "unknown"
    else if direction == "credit"
    then (if is_credit_card account_type
        then mem slug expense_slugs || mem slug cc_impossible_credit_slugs || slug == "unknown"
        else mem slug expense_slugs || slug == "unknown")
    else false

-- what replaces it
unfoldable pub default_slug : String → Option String → String
default_slug direction account_type =
    if direction == "debit"
    then "expense"
    else if is_credit_card account_type
    then "credit_card_payment"
    else "repayment"

-- `resolve_direction`: the slug, and whether it was changed
unfoldable pub resolve_direction : String → String → Option String → String × Bool
unfolding is_impossible default_slug
resolve_direction slug direction account_type =
    if is_impossible slug direction account_type
    then (default_slug direction account_type, true)
    else (slug, false)

default_slug-possible :
    (direction : String) (account_type : Option String)
    → is_impossible (default_slug direction account_type) direction account_type ≡ false
unfolding is_impossible default_slug
default_slug-possible direction account_type = elim (Bool-cases (direction == "debit")) [
  | inl debit ↦ rw debit refl
  | inr other ↦ rw other (elim (Bool-cases (direction == "credit")) [
    | inr neither ↦ rw neither refl
    | inl credit ↦ rw credit (elim (Bool-cases (is_credit_card account_type)) [
      | inl card ↦ rw card refl
      | inr bank ↦ rw bank refl
    ])
  ])
]

-- The slug that the guard returns can stand on the row: the guard leaves it as it is. So a debit never
-- ends as income or unknown, a credit never as an expense or unknown, and a credit on a card never as
-- inbound money.
pub resolve_direction_idem :
    (slug direction : String) (account_type : Option String)
    → let (resolved, changed) = resolve_direction slug direction account_type in
      (is_impossible resolved direction account_type ≡ false)
      × (resolve_direction resolved direction account_type ≡ (resolved, false))
unfolding resolve_direction
resolve_direction_idem slug direction account_type =
    elim (Bool-cases (is_impossible slug direction account_type)) [
      | inl bad ↦
          let good = default_slug-possible direction account_type in rw bad (good, rw good refl)
      | inr good ↦ rw good (good, rw good refl)
    ]

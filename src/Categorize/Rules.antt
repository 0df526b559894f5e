-- ===== src/Categorize/Rules.antt =====
-- `match_rules` and `is_fd_counterparty` of financial_dashboard/services/categorization/rules.py.
use bank_email_fetcher.Prelude.{
  ℕ, String, Bool, false, ◌&&◌, ◌||◌, not, Option, none, some, List, [], ◌∷◌, ◌++◌, codes, codes_eq,
  contains, begins_with, is_empty, strip, lower, if◌then◌else◌,
}
use text.Mathlib.Text.{◌==◌}
use bank_email_fetcher.Categorize.Polarity.{mem, expense_slugs, income_slugs, is_credit_card}
use bank_email_fetcher.Categorize.Text.{text_or_empty, normalize_text, normalize_counterparty}

-- the entries of `fields` that the rules read
pub record Fields : Type 0 where
  pub counterparty : Option (List ℕ)
  pub raw_description : Option (List ℕ)
  pub channel : Option (List ℕ)
  pub email_type : Option (List ℕ)
  pub direction : String
  pub bank : Option (List ℕ)
  pub account_type : Option String

-- `RuleConfig`
pub record RuleConfig : Type 0 where
  pub self_name_tokens : List (List ℕ)
  pub merchant_rules : List (List ℕ × String)

-- `RuleResult`
pub record RuleResult : Type 0 where
  pub slug : String
  pub confidence : ℕ

-- `is_fd_counterparty`
unfoldable pub is_fd_counterparty : Option (List ℕ) → Option (List ℕ) → Bool
is_fd_counterparty counterparty bank =
    let bank_norm = lower (strip (text_or_empty bank)) in
    if is_empty bank_norm
    then false
    else codes_eq (lower (strip (text_or_empty counterparty))) (bank_norm ++ codes " fd")

abbrev pub card_bill_payment_markers : List String
card_bill_payment_markers =
    "cc payment" ∷ "credit card payment" ∷ "card payment" ∷ "bill payment" ∷ "bill repayment"
    ∷ "bppy" ∷ "bbps pmt" ∷ "payment received" ∷ []

abbrev pub card_refund_markers : List String
card_refund_markers =
    "refund" ∷ "refunded" ∷ "reversal" ∷ "reversed" ∷ "chargeback" ∷ "cancellation" ∷ []

abbrev pub fee_reversal_markers : List String
fee_reversal_markers =
    "fee reversal" ∷ "fee reversed" ∷ "fee refund" ∷ "fee waived" ∷ "fees reversed" ∷ "fees refund"
    ∷ "fees waived" ∷ "annual fee reversal" ∷ "annual fee reversed" ∷ "annual fee refund"
    ∷ "annual charges reversal" ∷ "annual charges reversed" ∷ "joining fee reversal"
    ∷ "joining fee reversed" ∷ "card fee reversal" ∷ "card fee reversed" ∷ "late fee reversal"
    ∷ "late fee reversed" ∷ "finance charges reversal" ∷ "finance charges reversed" ∷ []

abbrev pub dividend_markers : List String
dividend_markers = "dividend" ∷ "div" ∷ "divd" ∷ []

abbrev pub any_marker : List String → List ℕ → Bool
any_marker [] padded = false
any_marker (marker ∷ markers) padded =
    contains (b' ' ∷ codes marker ++ b' ' ∷ []) padded || any_marker markers padded

-- `_has_marker`
unfoldable pub has_marker : List ℕ → List String → Bool
has_marker text_norm markers = any_marker markers (b' ' ∷ text_norm ++ b' ' ∷ [])

-- " ".join(filter(None, (a, b)))
abbrev pub join_two : List ℕ → List ℕ → List ℕ
join_two [] b = b
join_two (c ∷ a) [] = c ∷ a
join_two (c ∷ a) (d ∷ b) = (c ∷ a) ++ b' ' ∷ d ∷ b

unfoldable pub text_of : Fields → List ℕ
text_of f =
    normalize_text
      (some (join_two (text_or_empty f.counterparty) (text_or_empty f.raw_description)))

unfoldable pub is_credit : Fields → Bool
is_credit f = codes_eq (lower (codes f.direction)) (codes "credit")

unfoldable pub is_debit : Fields → Bool
is_debit f = codes_eq (lower (codes f.direction)) (codes "debit")

unfoldable pub is_card_credit : Fields → Bool
is_card_credit f = is_credit f && is_credit_card f.account_type

unfoldable pub channel_is : String → Fields → Bool
channel_is name f = codes_eq (lower (text_or_empty f.channel)) (codes name)

unfoldable pub email_has : String → Fields → Bool
email_has token f = contains (codes token) (lower (text_or_empty f.email_type))

abbrev pub result : String → ℕ → Option RuleResult
result slug confidence = some (record { slug = slug; confidence = confidence })

-- The rules, in the order of the function; each gives none where it does not fire.
unfoldable pub fd_rule : Fields → Option RuleResult
fd_rule f =
    if is_fd_counterparty f.counterparty f.bank
    then (if is_credit f then result "investment_redemption" 950000 else result "investment" 950000)
    else none

unfoldable pub interest_rule : Fields → Option RuleResult
interest_rule f =
    if channel_is "interest" f && not (is_debit f) then result "interest" 1000000 else none

unfoldable pub email_rule : Fields → Option RuleResult
email_rule f =
    if email_has "cc_refund" f
    then result "refund" 900000
    else if email_has "cc_payment" f || email_has "cc_bill_paid" f || email_has "cc_smartpay" f
    then result "credit_card_payment" 950000
    else none

unfoldable pub fee_rule : Fields → Option RuleResult
fee_rule f =
    if is_credit f && has_marker (text_of f) fee_reversal_markers
    then result "fees_charges" 900000
    else none

unfoldable pub card_rule : Fields → Option RuleResult
card_rule f =
    if is_card_credit f
    then (if has_marker (text_of f) card_refund_markers
        then result "refund" 900000
        else if has_marker (text_of f) card_bill_payment_markers
            || begins_with (codes "payment ") (text_of f)
        then result "credit_card_payment" 950000
        else none)
    else none

unfoldable pub dividend_rule : Fields → Option RuleResult
dividend_rule f =
    if is_credit f && not (is_card_credit f) && has_marker (text_of f) dividend_markers
    then result "other_income" 900000
    else none

-- the tests that let the loop go on to the next merchant rule
unfoldable pub is_passed_over : Fields → String → Bool
is_passed_over f category =
    (contains (codes "spent on") (text_of f)
      && contains (codes "credit card") (text_of f)
      && category == "credit_card_payment")
    || (is_credit f && mem category expense_slugs)
    || (is_debit f && mem category income_slugs)

unfoldable pub merchant_rule : Fields → List (List ℕ × String) → Option RuleResult
merchant_rule f [] = none
merchant_rule f ((pattern, category) ∷ rules) =
    let rest = merchant_rule f rules in
    if is_passed_over f category
    then rest
    else if contains pattern (text_of f)
    then (if category == "investment" && is_credit f
        then result "investment_redemption" 900000
        else result category 900000)
    else rest

unfoldable pub ach_rule : Fields → Option RuleResult
ach_rule f =
    if is_credit f
      && not (is_card_credit f)
      && (channel_is "ach_credit" f || begins_with (codes "ach c ") (text_of f))
    then result "other_income" 900000
    else none

abbrev pub any_token : List (List ℕ) → List ℕ → Bool
any_token [] cp_norm = false
any_token (token ∷ tokens) cp_norm =
    let tok = normalize_counterparty (some token) in
    (not (is_empty tok) && contains tok cp_norm) || any_token tokens cp_norm

unfoldable pub self_rule : Fields → List (List ℕ) → Option RuleResult
self_rule f tokens =
    if any_token tokens (normalize_counterparty f.counterparty)
    then result "self_transfer" 900000
    else none

unfoldable pub card_default : Fields → Option RuleResult
card_default f = if is_card_credit f then result "credit_card_payment" 700000 else none

abbrev pub or_else : Option RuleResult → Option RuleResult → Option RuleResult
or_else none rest = rest
or_else (some r) rest = some r

unfoldable pub match_rules : Fields → RuleConfig → Option RuleResult
match_rules f config = or_else (fd_rule f) (
    or_else (interest_rule f) (
      or_else (email_rule f) (
        or_else (fee_rule f) (
          or_else (card_rule f) (
            or_else (dividend_rule f) (
              or_else (merchant_rule f config.merchant_rules) (
                or_else (ach_rule f)
                  (or_else (self_rule f config.self_name_tokens) (card_default f)))))))))

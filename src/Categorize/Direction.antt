-- ===== src/Categorize/Direction.antt =====
-- What slugs the rules can give to a debit and to a credit.
use bank_email_fetcher.Prelude.{
  ℕ, String, Bool, true, false, ◌&&◌, ◌||◌, Option, none, some, List, [], ◌∷◌, ◌≡◌, refl, arith,
  inl, inr, Bool-cases, if◌then◌else◌,
}
use bank_email_fetcher.Categorize.Polarity.{mem, expense_slugs}
use bank_email_fetcher.Categorize.Rules.{
  Fields, RuleConfig, RuleResult, is_credit, has_marker, text_of, fee_reversal_markers, fd_rule,
  interest_rule, email_rule, fee_rule, card_rule, dividend_rule, result, is_passed_over,
  merchant_rule, ach_rule, self_rule, card_default, or_else, match_rules,
}

-- the slug of the result, if there is one, has the property
unfoldable pub Gives : (String → Type 0) → Option RuleResult → Type 0
Gives P none = Unit
Gives P (some r) = P r.slug

module _ (P : String → Type 0) where
  gives_none : Gives P none
  gives_none = unfold Gives in tt

  gives_some : (slug : String) (confidence : ℕ) → P slug → Gives P (result slug confidence)
  gives_some slug confidence p = unfold Gives in p

  or_else-Gives : (a b : Option RuleResult) → Gives P a → Gives P b → Gives P (or_else a b)
  or_else-Gives none b p q = q
  or_else-Gives (some r) b p q = p

  if-Gives :
      (b : Bool) (x y : Option RuleResult) → Gives P x → Gives P y → Gives P (if b then x else y)
  if-Gives true x y p q = p
  if-Gives false x y p q = q

abbrev pub NoExpense : String → Type 0
NoExpense slug = mem slug expense_slugs ≡ false

middle_false : (a b c : Bool) → (a || (true && b) || c) ≡ false → b ≡ false
middle_false a b c h = ground arith

-- A credit, and no marker of a reversed fee.
module _ (f : Fields) (credit : is_credit f ≡ true)
    (no_fee : has_marker (text_of f) fee_reversal_markers ≡ false) where
  abbrev ok :
      (slug : String) (confidence : ℕ) → NoExpense slug → Gives NoExpense (result slug confidence)
  ok = gives_some NoExpense

  abbrev nil : Gives NoExpense none
  nil = gives_none NoExpense

  credit-fd_rule : Gives NoExpense (fd_rule f)
  unfolding fd_rule
  credit-fd_rule =
      if-Gives NoExpense _ _ _
        (if-Gives NoExpense _ _ _ (ok "investment_redemption" _ refl) (ok "investment" _ refl)) nil

  credit-interest_rule : Gives NoExpense (interest_rule f)
  unfolding interest_rule
  credit-interest_rule = if-Gives NoExpense _ _ _ (ok "interest" _ refl) nil

  credit-email_rule : Gives NoExpense (email_rule f)
  unfolding email_rule
  credit-email_rule =
      if-Gives NoExpense _ _ _ (ok "refund" _ refl)
        (if-Gives NoExpense _ _ _ (ok "credit_card_payment" _ refl) nil)

  credit-fee_rule : Gives NoExpense (fee_rule f)
  unfolding fee_rule
  credit-fee_rule = rw (credit, no_fee) nil

  credit-card_rule : Gives NoExpense (card_rule f)
  unfolding card_rule
  credit-card_rule =
      if-Gives NoExpense _ _ _
        (if-Gives NoExpense _ _ _ (ok "refund" _ refl)
          (if-Gives NoExpense _ _ _ (ok "credit_card_payment" _ refl) nil))
        nil

  credit-dividend_rule : Gives NoExpense (dividend_rule f)
  unfolding dividend_rule
  credit-dividend_rule = if-Gives NoExpense _ _ _ (ok "other_income" _ refl) nil

  credit-merchant_rule : (rules : List (List ℕ × String)) → Gives NoExpense (merchant_rule f rules)
  unfolding merchant_rule is_passed_over
  credit-merchant_rule [] = nil
  credit-merchant_rule ((pattern, category) ∷ rules) =
      let rest = credit-merchant_rule rules in
      elim (Bool-cases (is_passed_over f category)) [
        | inl skip ↦ rw skip rest
        | inr keep ↦
            let fits : mem category expense_slugs ≡ false =
              middle_false _ _ _ (rw (is_passed_over, credit) at keep) in
            rw keep (
              if-Gives NoExpense _ _ _
                (if-Gives NoExpense _ _ _ (ok "investment_redemption" _ refl) (ok category _ fits))
                rest)
      ]

  credit-ach_rule : Gives NoExpense (ach_rule f)
  unfolding ach_rule
  credit-ach_rule = if-Gives NoExpense _ _ _ (ok "other_income" _ refl) nil

  credit-self_rule : (tokens : List (List ℕ)) → Gives NoExpense (self_rule f tokens)
  unfolding self_rule
  credit-self_rule tokens = if-Gives NoExpense _ _ _ (ok "self_transfer" _ refl) nil

  credit-card_default : Gives NoExpense (card_default f)
  unfolding card_default
  credit-card_default = if-Gives NoExpense _ _ _ (ok "credit_card_payment" _ refl) nil

  -- No rule gives an expense slug to a credit whose narration has no marker of a reversed fee,
  -- whatever merchant rules are configured.
  pub match_rules-NoExpense : (config : RuleConfig) → Gives NoExpense (match_rules f config)
  unfolding match_rules
  match_rules-NoExpense config =
      let or = or_else-Gives NoExpense in
      or _ _ credit-fd_rule (
        or _ _ credit-interest_rule (
          or _ _ credit-email_rule (
            or _ _ credit-fee_rule (
              or _ _ credit-card_rule (
                or _ _ credit-dividend_rule (
                  or _ _ (credit-merchant_rule config.merchant_rules) (
                    or _ _ credit-ach_rule
                      (or _ _ (credit-self_rule config.self_name_tokens) credit-card_default))))))))

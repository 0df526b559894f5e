-- ===== src/Merge/Find.antt =====
-- `qualifies_as_explicit_match`, `_find_am_pm_alias_match` and `find_match` of
-- financial_dashboard/services/txn_merge.py, over the rows of the table. The evidence that `find_match`
-- records on the side is not modelled: no decision reads it.
use bank_email_fetcher.Prelude.{
  ℕ, Bool, false, ◌&&◌, ◌||◌, not, Option, none, some, List, [], ◌∷◌, eqb, codes, codes_eq,
  is_empty, str_eq, if◌then◌else◌,
}
use bank_email_fetcher.Merge.Decimal.{dec_eq, balances_differ}
use bank_email_fetcher.Merge.Row.{Text, Channel, Transaction, TxnData, or_inr, coalesce_inr}
use bank_email_fetcher.Merge.Text.{
  text_or_empty, counterparty_match, reference_of, shortened_reference_match, normalized_currency,
}
use bank_email_fetcher.Merge.Window.{plausible_event_time, in_alias_window}
use bank_email_fetcher.Merge.Match.{
  keep, any, ids, same_terms, gather_fuzzy_candidates, decide, reference_amount_mismatch,
  reference_balance_mismatch, multiple_reference_candidates, standard, am_pm_alias, MatchDecision,
  match, insert, defer,
}

-- the immutable identity gates of an explicit target
unfoldable pub same_identity : Transaction → TxnData → Bool
same_identity target d =
    codes_eq target.bank d.bank
    && str_eq target.direction d.direction
    && dec_eq target.amount d.amount
    && codes_eq (normalized_currency (or_inr target.currency))
        (normalized_currency (or_inr d.currency))
    && plausible_event_time target d

-- `qualifies_as_explicit_match`
unfoldable pub qualifies_as_explicit_match : List Transaction → TxnData → Transaction → Bool
qualifies_as_explicit_match rows d target =
    if not (same_identity target d)
    then false
    else if balances_differ d.balance target.balance
    then false
    else any (λ c. eqb c.id target.id)
        (gather_fuzzy_candidates (coalesce_inr target.currency) d rows)
      || shortened_reference_match target.reference_number d.reference_number

-- Transaction.reference_number == ref
abbrev pub reference_is : Option Text → Text → Bool
reference_is none ref = false
reference_is (some r) ref = codes_eq r ref

-- the query by reference, before its `.limit(2)`
unfoldable pub same_reference : Text → TxnData → Transaction → Bool
same_reference ref d c =
    codes_eq c.bank d.bank && str_eq c.direction d.direction && reference_is c.reference_number ref

abbrev pub first_two : List Transaction → List Transaction
first_two [] = []
first_two (c ∷ []) = c ∷ []
first_two (c ∷ e ∷ cs) = c ∷ e ∷ []

-- `AMBIGUOUS_12H_TIME_EMAIL_TYPES` of financial_dashboard/services/parser_quirks.py
abbrev pub is_ambiguous_type : Text → Bool
is_ambiguous_type email_type = codes_eq email_type (codes "icici_cc_transaction_alert")

unfoldable pub is_alias : TxnData → ℕ → ℕ → Transaction → Bool
is_alias d txn_date incoming_time c =
    same_terms (or_inr d.currency) d c
    && is_ambiguous_type c.email_type
    && in_alias_window txn_date incoming_time c
    && counterparty_match c.counterparty d.counterparty

abbrev pub the_only : List Transaction → Option Transaction
the_only [] = none
the_only (c ∷ []) = some c
the_only (c ∷ e ∷ cs) = none

-- `_find_am_pm_alias_match`
unfoldable pub find_am_pm_alias_match : TxnData → ℕ → ℕ → List Transaction → Option Transaction
find_am_pm_alias_match d txn_date incoming_time rows =
    if is_empty (text_or_empty d.counterparty)
    then none
    else the_only (keep (is_alias d txn_date incoming_time) rows)

-- the balance filter on the aliased row
abbrev pub on_alias : TxnData → Option Transaction → MatchDecision
on_alias d none = insert
on_alias d (some c) = if balances_differ d.balance c.balance then insert else match c am_pm_alias

abbrev pub alias_pass : TxnData → Option ℕ → Option ℕ → List Transaction → MatchDecision
alias_pass d none t rows = insert
alias_pass d (some txn_date) none rows = insert
alias_pass d (some txn_date) (some t) rows = on_alias d (find_am_pm_alias_match d txn_date t rows)

abbrev pub fuzzy_pass :
    TxnData → Channel → Option ℕ → List Transaction → List Transaction → MatchDecision
fuzzy_pass d channel source_id [] rows = alias_pass d d.transaction_date d.transaction_time rows
fuzzy_pass d channel source_id (c ∷ cs) rows = decide d channel source_id (c ∷ cs)

-- the part after the reference
unfoldable pub match_without_reference :
    TxnData → Channel → Option ℕ → List Transaction → MatchDecision
match_without_reference d channel source_id rows =
    fuzzy_pass d channel source_id (gather_fuzzy_candidates (or_inr d.currency) d rows) rows

-- one row with the reference: the guards by amount and by balance
unfoldable pub on_reference_row : TxnData → Transaction → MatchDecision
on_reference_row d c =
    if not (dec_eq c.amount d.amount)
    then defer reference_amount_mismatch []
    else if balances_differ d.balance c.balance
    then defer reference_balance_mismatch []
    else match c standard

abbrev pub on_reference_rows :
    TxnData → Channel → Option ℕ → List Transaction → List Transaction → MatchDecision
on_reference_rows d channel source_id [] rows = match_without_reference d channel source_id rows
on_reference_rows d channel source_id (c ∷ []) rows = on_reference_row d c
on_reference_rows d channel source_id (c ∷ e ∷ cs) rows =
    defer multiple_reference_candidates
      (ids (keep (qualifies_as_explicit_match rows d) (c ∷ e ∷ cs)))

abbrev pub match_by_reference :
    Text → TxnData → Channel → Option ℕ → List Transaction → MatchDecision
match_by_reference [] d channel source_id rows = match_without_reference d channel source_id rows
match_by_reference (r ∷ ref) d channel source_id rows =
    on_reference_rows d channel source_id (first_two (keep (same_reference (r ∷ ref) d) rows)) rows

-- `find_match`
unfoldable pub find_match : TxnData → Channel → Option ℕ → List Transaction → MatchDecision
find_match d channel source_id rows =
    match_by_reference (reference_of d.reference_number) d channel source_id rows

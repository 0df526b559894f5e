-- ===== src/Merge/Match.antt =====
-- `_gather_fuzzy_candidates` and `_decide` of financial_dashboard/services/txn_merge.py, over the rows
-- of the table.
use bank_email_fetcher.Prelude.{
  ℕ, Bool, false, ◌&&◌, ◌||◌, not, Option, none, some, List, [], ◌∷◌, eqb, ltb, length, codes_eq,
  str_eq, is_none, map, if◌then◌else◌,
}
use bank_email_fetcher.Masks.{normalize_mask}
use bank_email_fetcher.Merge.Decimal.{Decimal, dec_eq, quantize_balance}
use bank_email_fetcher.Merge.Row.{Text, Channel, Transaction, TxnData, coalesce_inr, slot_of}
use bank_email_fetcher.Merge.Text.{
  counterparty_match, card_payment_mask_match, no_field_identifies_the_event, account_agrees,
  reference_of, references_prove_distinct,
}
use bank_email_fetcher.Merge.Window.{combine, window_of, in_dates, in_window}

-- [c for c in xs if p(c)]
abbrev pub keep : {A : Type 0} → (A → Bool) → List A → List A
keep p [] = []
keep p (x ∷ xs) = let rest = keep p xs in if p x then x ∷ rest else rest

abbrev pub any : (Transaction → Bool) → List Transaction → Bool
any p [] = false
any p (x ∷ xs) = p x || any p xs

-- `if by: return by`
abbrev pub or_keep : List Transaction → List Transaction → List Transaction
or_keep [] rest = rest
or_keep (x ∷ xs) rest = x ∷ xs

-- the WHERE clauses on bank, direction, amount and currency
unfoldable pub same_terms : Text → TxnData → Transaction → Bool
same_terms currency d c =
    codes_eq c.bank d.bank
    && str_eq c.direction d.direction
    && dec_eq c.amount d.amount
    && codes_eq (coalesce_inr c.currency) currency

-- the query
unfoldable pub is_selected : Text → TxnData → ℕ → Transaction → Bool
is_selected currency d txn_date c =
    same_terms currency d c
    && in_dates d.transaction_time_is_received_time txn_date d.transaction_time c.transaction_date

-- the filter by time
abbrev pub in_time : TxnData → ℕ → Option ℕ → List Transaction → List Transaction
in_time d txn_date none cs = cs
in_time d txn_date (some t) cs =
    keep (in_window (window_of d.transaction_time_is_received_time) (combine txn_date t)) cs

-- the filter by account
abbrev pub by_account : Text → List Transaction → List Transaction
by_account [] cs = cs
by_account (a ∷ mask) cs = keep (λ c. account_agrees (a ∷ mask) (normalize_mask c.account_mask)) cs

abbrev pub by_counterparty : TxnData → List Transaction → List Transaction
by_counterparty d cs = keep (λ c. counterparty_match c.counterparty d.counterparty) cs

abbrev pub lacks_time : Transaction → Bool
lacks_time c = is_none c.transaction_time

-- the gates by counterparty, card mask and declared absence
unfoldable pub narrowed : TxnData → List Transaction → List Transaction
narrowed d cs =
    if is_none d.transaction_time || any lacks_time cs
    then or_keep (by_counterparty d cs) (
        or_keep (keep (λ c. card_payment_mask_match c d) cs)
          (keep (λ c. no_field_identifies_the_event c d) cs))
    else if ltb 1 (length cs)
    then or_keep (by_counterparty d cs) cs
    else cs

abbrev pub gather_on : Text → TxnData → Option ℕ → List Transaction → List Transaction
gather_on currency d none rows = []
gather_on currency d (some txn_date) rows = narrowed d (
    by_account (normalize_mask d.account_mask)
      (in_time d txn_date d.transaction_time (keep (is_selected currency d txn_date) rows)))

-- `_gather_fuzzy_candidates`
unfoldable pub gather_fuzzy_candidates : Text → TxnData → List Transaction → List Transaction
gather_fuzzy_candidates currency d rows = gather_on currency d d.transaction_date rows

pub data DeferralReason : Type 0 where
  reference_amount_mismatch reference_balance_mismatch multiple_reference_candidates :
      DeferralReason
  balance_ambiguous multiple_candidates source_slot_filled source_slot_conflict : DeferralReason

pub data MatchKind : Type 0 where
  standard am_pm_alias : MatchKind

-- `MatchDecision`
pub data MatchDecision : Type 0 where
  match : Transaction → MatchKind → MatchDecision
  insert : MatchDecision
  defer : DeferralReason → List ℕ → MatchDecision

abbrev pub ids : List Transaction → List ℕ
ids cs = map (λ c. c.id) cs

-- the second step of `_decide`, with the rows `eq` of an equal known balance
abbrev pub confirmed : List Transaction → List Transaction → MatchDecision
confirmed (c ∷ []) cs = match c standard
confirmed [] cs = defer balance_ambiguous (ids cs)
confirmed (c ∷ e ∷ eq) cs = defer balance_ambiguous (ids cs)

abbrev pub balance_is : Decimal → Option Decimal → Bool
balance_is incoming none = false
balance_is incoming (some b) = dec_eq b incoming

abbrev pub known_balance : Decimal → Transaction → Bool
known_balance incoming c = balance_is incoming (quantize_balance c.balance)

abbrev pub may_have_balance : Decimal → Transaction → Bool
may_have_balance incoming c = is_none c.balance || known_balance incoming c

abbrev pub by_balance : Decimal → List Transaction → MatchDecision
by_balance incoming [] = insert
by_balance incoming (c ∷ cs) = confirmed (keep (known_balance incoming) (c ∷ cs)) (c ∷ cs)

-- `_is_source_row`
abbrev pub owns_slot : Option ℕ → Option ℕ → Bool
owns_slot slot none = false
owns_slot none (some source_id) = false
owns_slot (some owner) (some source_id) = eqb owner source_id

abbrev pub is_source_row : Channel → Option ℕ → Transaction → Bool
is_source_row channel source_id c = owns_slot (slot_of channel c) source_id

-- the reference split, with the stripped reference of the incoming message
abbrev pub by_reference : Text → TxnData → Channel → Option ℕ → List Transaction → List Transaction
by_reference [] d channel source_id cs = cs
by_reference (r ∷ ref) d channel source_id cs =
    keep
      (λ c.
        is_source_row channel source_id c
        || not (references_prove_distinct (r ∷ ref) d.email_type channel c))
      cs

-- `_slot_open`
abbrev pub slot_open : Channel → Transaction → Bool
slot_open channel c = is_none (slot_of channel c)

abbrev pub balanceless : List Transaction → List Transaction
balanceless cs = keep (λ c. is_none c.balance) cs

abbrev pub open_balanceless : Channel → List Transaction → List Transaction
open_balanceless channel cs = keep (slot_open channel) (balanceless cs)

abbrev pub slot_reason : List Transaction → List Transaction → DeferralReason
slot_reason cs open_rows =
    if ltb 1 (length cs)
    then multiple_candidates
    else if eqb (length open_rows) 0
    then source_slot_filled
    else balance_ambiguous

-- the third step
abbrev pub by_slot : Channel → List Transaction → MatchDecision
by_slot channel [] = insert
by_slot channel (c ∷ cs) =
    let open_rows = open_balanceless channel (c ∷ cs) in
    if eqb (length (c ∷ cs)) 1 && eqb (length (balanceless (c ∷ cs))) 1 && eqb (length open_rows) 1
    then match c standard
    else defer (slot_reason (c ∷ cs) open_rows) (ids (c ∷ cs))

abbrev pub decide_on :
    Option Decimal → TxnData → Channel → Option ℕ → List Transaction → MatchDecision
decide_on (some incoming) d channel source_id cs =
    by_balance incoming (keep (may_have_balance incoming) cs)
decide_on none d channel source_id cs =
    by_slot channel (by_reference (reference_of d.reference_number) d channel source_id cs)

-- `_decide`, for candidates that are not empty
unfoldable pub decide : TxnData → Channel → Option ℕ → List Transaction → MatchDecision
decide d channel source_id cs = decide_on (quantize_balance d.balance) d channel source_id cs

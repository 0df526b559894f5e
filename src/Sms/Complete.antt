-- ===== src/Sms/Complete.antt =====
-- The completion leg: `_find_completion_primary` and `_complete_reference` of
-- financial_dashboard/services/sms_pipeline.py.
use Prim.Native.Nat.{◌/◌, ◌%◌}
use bank_email_fetcher.Prelude.{
  ◌+◌, ℕ, zero, suc, String, Bool, true, false, ◌&&◌, ◌||◌, not, Option, none, some, List, [], ◌∷◌,
  ◌++◌, eqb, ltb, codes, codes_eq, length, is_empty, is_none, if◌then◌else◌,
}
use bank_email_fetcher.Categorize.Transfer.{Details}
use bank_email_fetcher.Merge.Row.{Text, Transaction, TxnData, or_inr}
use bank_email_fetcher.Merge.Text.{text_or_empty, reference_of, shortened_reference_match}
use bank_email_fetcher.Merge.Match.{keep, same_terms}
use bank_email_fetcher.Merge.Store.{has_unique_refs, update_row, apply_self_transfer, find_row}
use bank_email_fetcher.Sms.Row.{SmsMessage, Processing, skipped, parsed, plain_outcome, put_aside}

-- `_COMPLETION_COARSE_CAP`
abbrev pub completion_coarse_cap : ℕ
completion_coarse_cap = 25

-- `CompletionMatch`
pub record CompletionMatch : Type 0 where
  pub primary : Option Transaction
  pub count : ℕ

abbrev pub text_is : Option Text → Text → Bool
text_is none t = false
text_is (some s) t = codes_eq s t

-- transaction_date == :date, where None reads as IS NULL
abbrev pub same_date : Option ℕ → Option ℕ → Bool
same_date none none = true
same_date none (some e) = false
same_date (some d) none = false
same_date (some d) (some e) = eqb d e

-- the WHERE of the query
unfoldable pub is_coarse : Text → TxnData → Transaction → Bool
is_coarse channel d c =
    same_terms (or_inr d.currency) d c
    && text_is c.channel channel
    && same_date c.transaction_date d.transaction_date
    && not (is_none c.account_mask)

-- no reference yet, or a shortened form of this one
unfoldable pub is_completable : Text → Transaction → Bool
is_completable reference c =
    is_empty (reference_of c.reference_number)
    || shortened_reference_match c.reference_number (some reference)

-- LIMIT n
abbrev pub take : ℕ → List Transaction → List Transaction
take zero cs = []
take (suc n) [] = []
take (suc n) (c ∷ cs) = c ∷ take n cs

abbrev pub the_candidate : List Transaction → CompletionMatch
the_candidate [] = record { primary = none; count = 0 }
the_candidate (c ∷ []) = record { primary = some c; count = 1 }
the_candidate (c ∷ e ∷ cs) = record { primary = none; count = length (c ∷ e ∷ cs) }

abbrev pub among : Text → List Transaction → CompletionMatch
among reference coarse =
    if ltb completion_coarse_cap (length coarse)
    then record { primary = none; count = length coarse }
    else the_candidate (keep (is_completable reference) coarse)

-- `_find_completion_primary`
unfoldable pub find_completion_primary : TxnData → List Transaction → CompletionMatch
find_completion_primary d rows =
    let reference = reference_of d.reference_number in
    let channel = text_or_empty d.channel in
    if is_empty reference || is_empty channel
    then record { primary = none; count = 0 }
    else among reference (take (suc completion_coarse_cap) (keep (is_coarse channel d) rows))

-- a decimal number as a text, for a count below 100
abbrev pub digits : ℕ → Text
digits n = if ltb n 10 then (b'0' + n) ∷ [] else (b'0' + n / 10) ∷ (b'0' + n % 10) ∷ []

abbrev pub unpaired : ℕ → Text
unpaired count =
    codes "completion leg: no unique primary row to complete (found "
    ++ digits count
    ++ codes "); left unpaired"

abbrev pub or_given : Option Text → Option Text → Option Text
or_given (some s) given = some s
or_given none given = if is_empty (text_or_empty given) then none else given

-- what is written on the row
unfoldable pub completed : TxnData → Transaction → Transaction
completed d r = record r {
  reference_number = some (reference_of d.reference_number);
  counterparty = or_given r.counterparty d.counterparty;
}

abbrev pub has_reference : Text → Option Transaction → Bool
has_reference reference none = false
has_reference reference (some r) = codes_eq (reference_of r.reference_number) reference

-- whether the message completed this row before
abbrev pub is_completed : Text → Option ℕ → List Transaction → Bool
is_completed reference none rows = false
is_completed reference (some id) rows = has_reference reference (find_row (λ r. eqb r.id id) rows)

module _ (input_hash : Details → String) (vocab_version now : ℕ) where
  -- the flush, which the unique index may refuse, and the self-transfer rule
  abbrev pub complete_row : SmsMessage → TxnData → Transaction → List Transaction → Processing
  complete_row sms_row d p rows =
      let after = update_row p.id (completed d) rows in
      if has_unique_refs after
      then some (
        plain_outcome parsed (some p.id),
        record sms_row { status = "parsed"; transaction_id = some p.id; parse_error = none },
        apply_self_transfer input_hash vocab_version now (completed d p) after,
      )
      else none

  abbrev pub on_primary :
      SmsMessage → TxnData → ℕ → Option Transaction → List Transaction → Processing
  on_primary sms_row d count none rows =
      put_aside skipped (unpaired count) (record sms_row { transaction_id = none }) rows
  on_primary sms_row d count (some p) rows = complete_row sms_row d p rows

  abbrev pub on_completion_match :
      SmsMessage → TxnData → CompletionMatch → List Transaction → Processing
  on_completion_match sms_row d m rows = on_primary sms_row d m.count m.primary rows

  -- `_complete_reference`
  unfoldable pub complete_reference : SmsMessage → TxnData → List Transaction → Processing
  complete_reference sms_row d rows =
      let reference = reference_of d.reference_number in
      if is_empty reference || is_empty (text_or_empty d.channel)
      then put_aside skipped (codes "completion leg: no reference or channel to complete") sms_row
          rows
      else if is_completed reference sms_row.transaction_id rows
      then some (
        plain_outcome parsed sms_row.transaction_id,
        record sms_row { status = "parsed"; parse_error = none },
        rows,
      )
      else on_completion_match sms_row d (find_completion_primary d rows) rows

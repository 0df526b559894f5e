-- ===== src/Merge/Text.antt =====
-- The comparisons of texts and masks of financial_dashboard/services/txn_merge.py. Letters are ASCII,
-- as the banks' alerts write them.
use Prim.Native.Nat.{min}
use bank_email_fetcher.Prelude.{
  ℕ, ◌-◌, String, Bool, false, ◌&&◌, ◌||◌, not, Option, none, some, [], ◌∷◌, map, reverse, leb, ltb,
  length, codes_eq, contains, begins_with, is_digit, is_empty, strip, lower, str_eq, if◌then◌else◌,
}
use bank_email_fetcher.Masks.{wildcard, normalize_mask, mask_matches}
use bank_email_fetcher.Merge.Row.{Text, Transaction, TxnData, Channel, channel_text}

-- `ch.isalnum()`
abbrev pub is_alnum : ℕ → Bool
is_alnum c = (leb b'a' c && leb c b'z') || (leb b'A' c && leb c b'Z') || is_digit c

abbrev pub keep_alnum : Text → Text
keep_alnum [] = []
keep_alnum (c ∷ s) = let rest = keep_alnum s in if is_alnum c then c ∷ rest else rest

-- `ch.upper()`
abbrev pub upper_ascii : ℕ → ℕ
upper_ascii c = if leb b'a' c && leb c b'z' then c - 32 else c

-- `s or ""`
abbrev pub text_or_empty : Option Text → Text
text_or_empty none = []
text_or_empty (some s) = s

-- `_normalize_counterparty`
unfoldable pub normalize_counterparty : Option Text → Text
normalize_counterparty s = keep_alnum (lower (text_or_empty s))

abbrev pub overlaps : Text → Text → Bool
overlaps a b = if is_empty a || is_empty b then false else contains a b || contains b a

-- `_counterparty_match`
unfoldable pub counterparty_match : Option Text → Option Text → Bool
counterparty_match a b = overlaps (normalize_counterparty a) (normalize_counterparty b)

-- `(reference_number or "").strip()`
unfoldable pub reference_of : Option Text → Text
reference_of r = strip (text_or_empty r)

unfoldable pub normalized_reference : Option Text → Text
normalized_reference r = keep_alnum (map upper_ascii (text_or_empty r))

abbrev pub ends_with : Text → Text → Bool
ends_with first second = begins_with (reverse second) (reverse first)

-- `_shortened_reference_match`
unfoldable pub shortened_reference_match : Option Text → Option Text → Bool
shortened_reference_match first second =
    let a = normalized_reference first in
    let b = normalized_reference second in
    if ltb (min (length a) (length b)) 4
    then false
    else begins_with b a || begins_with a b || ends_with a b || ends_with b a

-- `_normalized_currency`, of `value or "INR"`
unfoldable pub normalized_currency : Text → Text
normalized_currency value = map upper_ascii (strip value)

abbrev pub says : Option String → String → Bool
says none word = false
says (some s) word = str_eq s word

-- stored[-1] == WILDCARD
abbrev pub ends_in_wildcard : Text → Bool
ends_in_wildcard mask = begins_with (wildcard ∷ []) (reverse mask)

abbrev pub same_mask : Text → Text → Bool
same_mask stored incoming =
    if is_empty stored || is_empty incoming
    then false
    else if ends_in_wildcard stored || ends_in_wildcard incoming
    then false
    else mask_matches incoming stored || mask_matches stored incoming

-- `_card_payment_mask_match`
unfoldable pub card_payment_mask_match : Transaction → TxnData → Bool
card_payment_mask_match existing d =
    str_eq existing.identifies_by "card_mask"
    && says d.identifies_by "card_mask"
    && same_mask (normalize_mask existing.card_mask) (normalize_mask d.card_mask)

-- `_no_field_identifies_the_event`
unfoldable pub no_field_identifies_the_event : Transaction → TxnData → Bool
no_field_identifies_the_event existing d =
    str_eq existing.identifies_by "none" && says d.identifies_by "none"

-- the test of the filter by account, where `incoming_account` is not empty
abbrev pub account_agrees : Text → Text → Bool
account_agrees incoming stored =
    is_empty stored || mask_matches incoming stored || mask_matches stored incoming

-- `_references_prove_distinct`
unfoldable pub references_prove_distinct : Text → Text → Channel → Transaction → Bool
references_prove_distinct incoming_ref incoming_email_type channel candidate =
    let candidate_ref = reference_of candidate.reference_number in
    if is_empty candidate_ref || is_empty incoming_ref
    then false
    else if not (codes_eq candidate.email_type incoming_email_type)
    then false
    else if not (says candidate.source (channel_text channel))
    then false
    else if codes_eq candidate_ref incoming_ref
    then false
    else not (shortened_reference_match (some incoming_ref) (some candidate_ref))

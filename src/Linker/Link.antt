-- ===== src/Linker/Link.antt =====
-- `link_transaction` of financial_dashboard/services/linker.py and the searches that it makes.
use bank_email_fetcher.Prelude.{
  ℕ, Bool, true, false, ◌&&◌, ◌||◌, Option, none, some, List, [], ◌∷◌, leb, codes, codes_eq,
  contains, is_empty, is_falsy, is_none, if◌then◌else◌,
}
use bank_email_fetcher.Masks.{normalize_mask, trailing_visible_digits, mask_matches}
use bank_email_fetcher.Linker.Context.{Text, CardEntry, AccountEntry, LinkContext, bank_key}

-- the columns of `Transaction` that the linker reads and writes
pub record Transaction : Type 0 where
  pub account_id : Option ℕ
  pub card_id : Option ℕ
  pub bank : Text
  pub email_type : Option Text
  pub card_mask : Option Text
  pub account_mask : Option Text

-- `MIN_MASK_DIGITS`
abbrev pub min_mask_digits : ℕ
min_mask_digits = 3

-- `_usable`
unfoldable pub usable : Text → Bool
usable normalized = leb min_mask_digits (trailing_visible_digits normalized)

-- `_expected_account_type`
unfoldable pub expected_account_type : Option Text → Option Text
expected_account_type none = none
expected_account_type (some email_type) =
    if is_empty email_type
    then none
    else if contains (codes "_cc_") email_type
    then some (codes "credit_card")
    else if contains (codes "_account_") email_type || contains (codes "_dc_") email_type
    then some (codes "bank_account")
    else none

-- the list, if it has one element
abbrev pub the_only : {A : Type 0} → List A → Option A
the_only [] = none
the_only (x ∷ []) = some x
the_only (x ∷ y ∷ xs) = none

abbrev pub matching_cards : Text → List CardEntry → List CardEntry
matching_cards incoming [] = []
matching_cards incoming (entry ∷ entries) =
    let rest = matching_cards incoming entries in
    if mask_matches incoming entry.mask then entry ∷ rest else rest

-- `_find_card_match`
unfoldable pub find_card_match : LinkContext → Text → Text → Option CardEntry
find_card_match ctx key incoming = the_only (matching_cards incoming (ctx.cards_by_bank key))

abbrev pub matching_accounts : Text → List AccountEntry → List AccountEntry
matching_accounts incoming [] = []
matching_accounts incoming (entry ∷ entries) =
    let rest = matching_accounts incoming entries in
    if mask_matches incoming entry.mask then entry ∷ rest else rest

-- `_find_account_match`
unfoldable pub find_account_match : LinkContext → Text → Text → Option AccountEntry
find_account_match ctx key incoming =
    the_only (matching_accounts incoming (ctx.accounts_by_bank_with_masks key))

-- `ctx.account_types.get(a) == expected_type`
abbrev pub has_type : Text → Option Text → Bool
has_type expected none = false
has_type expected (some type) = codes_eq type expected

abbrev pub of_type : LinkContext → Text → List ℕ → List ℕ
of_type ctx expected [] = []
of_type ctx expected (id ∷ ids) =
    let rest = of_type ctx expected ids in
    if has_type expected (ctx.account_types id) then id ∷ rest else rest

abbrev pub narrowed : LinkContext → Option Text → List ℕ → List ℕ
narrowed ctx none ids = ids
narrowed ctx (some expected) ids = of_type ctx expected ids

-- the searches of the four stages
unfoldable pub stage_card : LinkContext → Transaction → Option CardEntry
stage_card ctx txn =
    let mask = normalize_mask txn.card_mask in
    if usable mask then find_card_match ctx (bank_key txn.bank) mask else none

unfoldable pub stage_account : LinkContext → Transaction → Option Text → Option AccountEntry
stage_account ctx txn carried =
    let mask = normalize_mask carried in
    if usable mask then find_account_match ctx (bank_key txn.bank) mask else none

unfoldable pub stage_bank : LinkContext → Transaction → Option ℕ
stage_bank ctx txn =
    if is_falsy txn.card_mask && is_falsy txn.account_mask
    then the_only (
        narrowed ctx (expected_account_type txn.email_type)
          (ctx.accounts_by_bank (bank_key txn.bank)))
    else none

abbrev pub link_card : Transaction → Option CardEntry → Bool × Transaction → Bool × Transaction
link_card txn none rest = rest
link_card txn (some hit) rest =
    (true, record txn { account_id = some hit.account_id; card_id = some hit.card_id })

abbrev pub link_account :
    Transaction → Option AccountEntry → Bool × Transaction → Bool × Transaction
link_account txn none rest = rest
link_account txn (some hit) rest = (true, record txn { account_id = some hit.account_id })

abbrev pub link_bank : Transaction → Option ℕ → Bool × Transaction
link_bank txn none = (false, txn)
link_bank txn (some id) = (true, record txn { account_id = some id })

-- whether a link was established, and the transaction as it is left
unfoldable pub link_transaction : LinkContext → Transaction → Bool × Transaction
link_transaction ctx txn =
    if is_none txn.account_id
    then link_card txn (stage_card ctx txn) (
        link_account txn (stage_account ctx txn txn.card_mask) (
          link_account txn (stage_account ctx txn txn.account_mask)
            (link_bank txn (stage_bank ctx txn))))
    else (true, txn)

-- ===== src/Linker/Examples.antt =====
-- The theorems of the linker at concrete accounts, cards and transactions, and tests.
use bank_email_fetcher.Prelude.{
  ◌+◌, true, false, none, some, List, [], ◌∷◌, ◌≡◌, refl, codes, strip, lower,
}
use bank_email_fetcher.Masks.{
  is_separator, char_kind, normalize_loop, normalize_mask, trailing_visible_digits, chars_agree,
  overlap_agrees, mask_matches,
}
use bank_email_fetcher.Linker.Context.{
  Account, Card, CardEntry, LinkContext, bank_key, add_account, add_accounts, find_account,
  add_card, add_cards, build_link_context,
}
use bank_email_fetcher.Linker.Link.{
  Transaction, usable, expected_account_type, find_card_match, find_account_match, stage_card,
  stage_account, stage_bank, link_transaction,
}
use bank_email_fetcher.Linker.Evidence.{Justified, link_transaction-Justified}
use bank_email_fetcher.Linker.Relink.{count_orphans, relink, relink_orphans, relink_orphans-settles}

abbrev savings : Account
savings = record {
  id = 1;
  bank = codes "HDFC";
  type = codes "bank_account";
  account_number = some (codes "50100012345678");
}

abbrev credit : Account
credit = record { id = 2; bank = codes "hdfc "; type = codes "credit_card"; account_number = none }

abbrev accounts : List Account
accounts = savings ∷ credit ∷ []

abbrev visa : Card
visa = record { id = 7; account_id = 2; card_mask = codes "XXXX-1234" }

abbrev cards : List Card
cards = visa ∷ []

-- a purchase with the card, a transfer that carries no mask, and a mail of another bank
abbrev purchase : Transaction
purchase = record {
  account_id = none;
  card_id = none;
  bank = codes "hdfc";
  email_type = some (codes "hdfc_cc_debit_alert");
  card_mask = some (codes "**1234");
  account_mask = none;
}

abbrev transfer : Transaction
transfer = record purchase { email_type = some (codes "hdfc_account_update"); card_mask = none }

abbrev elsewhere : Transaction
elsewhere = record purchase { bank = codes "icici" }

abbrev context : LinkContext
context = build_link_context accounts cards

purchase_test :
    link_transaction context purchase
    ≡ (true, record purchase { account_id = some 2; card_id = some 7 })
unfolding build_link_context add_accounts add_account add_cards add_card find_account bank_key strip
    lower link_transaction stage_card stage_account stage_bank usable find_card_match
    find_account_match expected_account_type normalize_mask normalize_loop char_kind is_separator
    trailing_visible_digits mask_matches overlap_agrees chars_agree
purchase_test = refl

transfer_test : link_transaction context transfer ≡ (true, record transfer { account_id = some 1 })
unfolding build_link_context add_accounts add_account add_cards add_card find_account bank_key strip
    lower link_transaction stage_card stage_account stage_bank usable find_card_match
    find_account_match expected_account_type normalize_mask normalize_loop char_kind is_separator
    trailing_visible_digits mask_matches overlap_agrees chars_agree
transfer_test = refl

elsewhere_test : link_transaction context elsewhere ≡ (false, elsewhere)
unfolding build_link_context add_accounts add_account add_cards add_card find_account bank_key strip
    lower link_transaction stage_card stage_account stage_bank usable find_card_match
    find_account_match expected_account_type normalize_mask normalize_loop char_kind is_separator
    trailing_visible_digits mask_matches overlap_agrees chars_agree
elsewhere_test = refl

link_transaction-Justified_example :
    Justified accounts cards purchase (link_transaction context purchase)
link_transaction-Justified_example = link_transaction-Justified accounts cards purchase refl

abbrev entry : CardEntry
entry = record { mask = codes "XXXX1234"; account_id = 2; card_id = 7 }

relink_orphans-settles_example :
    let ((linked, remaining), after) =
      relink_orphans accounts cards (purchase ∷ transfer ∷ elsewhere ∷ []) in
    (linked + remaining ≡ count_orphans (purchase ∷ transfer ∷ elsewhere ∷ []))
    × (relink_orphans accounts cards after ≡ ((0, remaining), after))
relink_orphans-settles_example =
    relink_orphans-settles accounts cards (purchase ∷ transfer ∷ elsewhere ∷ [])

relink_test : (relink_orphans accounts cards (purchase ∷ transfer ∷ elsewhere ∷ [])).0 ≡ (2, 1)
unfolding relink_orphans relink build_link_context add_accounts add_account add_cards add_card
    find_account bank_key strip lower link_transaction stage_card stage_account stage_bank usable
    find_card_match find_account_match expected_account_type normalize_mask normalize_loop char_kind
    is_separator trailing_visible_digits mask_matches overlap_agrees chars_agree
relink_test = refl

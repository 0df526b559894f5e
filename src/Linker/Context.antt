-- ===== src/Linker/Context.antt =====
-- `LinkContext` and `build_link_context` of financial_dashboard/services/linker.py.
use bank_email_fetcher.Prelude.{
  ℕ, Option, none, some, List, [], ◌∷◌, ◌++◌, eqb, codes_eq, strip, lower, is_empty, if◌then◌else◌,
}
use bank_email_fetcher.Masks.{normalize_mask}

abbrev pub Text : Type 0
Text = List ℕ

-- the columns of `Account` and `Card` (financial_dashboard/db/models.py) that the linker reads
pub record Account : Type 0 where
  pub id : ℕ
  pub bank : Text
  pub type : Text
  pub account_number : Option Text

pub record Card : Type 0 where
  pub id : ℕ
  pub account_id : ℕ
  pub card_mask : Text

pub record CardEntry : Type 0 where
  pub mask : Text
  pub account_id : ℕ
  pub card_id : ℕ

pub record AccountEntry : Type 0 where
  pub mask : Text
  pub account_id : ℕ

pub record LinkContext : Type 0 where
  pub cards_by_bank : Text → List CardEntry
  pub accounts_by_bank_with_masks : Text → List AccountEntry
  pub accounts_by_bank : Text → List ℕ
  pub account_types : ℕ → Option Text

-- `bank.strip().lower()`
unfoldable pub bank_key : Text → Text
bank_key bank = lower (strip bank)

-- d.setdefault(key, []).append(x)
abbrev pub append_at : {A : Type 0} → Text → A → (Text → List A) → Text → List A
append_at key x d k = if codes_eq key k then d k ++ x ∷ [] else d k

abbrev pub set_type : ℕ → Text → (ℕ → Option Text) → ℕ → Option Text
set_type id type d k = if eqb id k then some type else d k

-- the `stored` mask of an account, where its number is not empty and reads as a mask
abbrev pub stored_number : Option Text → Text
stored_number none = []
stored_number (some number) = if is_empty number then [] else normalize_mask (some number)

-- one round of the loop over the accounts
unfoldable pub add_account : LinkContext → Account → LinkContext
add_account ctx acct =
    let key = bank_key acct.bank in
    let stored = stored_number acct.account_number in
    record ctx {
      accounts_by_bank = append_at key acct.id ctx.accounts_by_bank;
      account_types =
          (if is_empty acct.type
            then ctx.account_types
            else set_type acct.id acct.type ctx.account_types);
      accounts_by_bank_with_masks =
          (if is_empty stored
            then ctx.accounts_by_bank_with_masks
            else append_at key (record { mask = stored; account_id = acct.id })
                ctx.accounts_by_bank_with_masks);
    }

unfoldable pub add_accounts : LinkContext → List Account → LinkContext
add_accounts ctx [] = ctx
add_accounts ctx (acct ∷ accounts) = add_accounts (add_account ctx acct) accounts

-- next((a for a in accounts if a.id == id), None)
unfoldable pub find_account : ℕ → List Account → Option Account
find_account id [] = none
find_account id (acct ∷ accounts) = if eqb acct.id id then some acct else find_account id accounts

abbrev pub append_card : LinkContext → Card → Text → Option Account → LinkContext
append_card ctx card stored none = ctx
append_card ctx card stored (some acct) = record ctx {
  cards_by_bank =
      append_at (bank_key acct.bank)
        (record { mask = stored; account_id = card.account_id; card_id = card.id })
        ctx.cards_by_bank;
}

-- one round of the loop over the cards
unfoldable pub add_card : List Account → LinkContext → Card → LinkContext
add_card accounts ctx card =
    let stored = normalize_mask (some card.card_mask) in
    if is_empty stored
    then ctx
    else append_card ctx card stored (find_account card.account_id accounts)

unfoldable pub add_cards : List Account → LinkContext → List Card → LinkContext
add_cards accounts ctx [] = ctx
add_cards accounts ctx (card ∷ cards) = add_cards accounts (add_card accounts ctx card) cards

abbrev pub empty_context : LinkContext
empty_context = record {
  cards_by_bank = λ k. [];
  accounts_by_bank_with_masks = λ k. [];
  accounts_by_bank = λ k. [];
  account_types = λ k. none;
}

-- over the rows that the two SELECTs return
unfoldable pub build_link_context : List Account → List Card → LinkContext
build_link_context accounts cards = add_cards accounts (add_accounts empty_context accounts) cards

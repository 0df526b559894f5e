-- ===== src/Linker/Evidence.antt =====
-- What a link rests on: the rows of the database, and the mask that the transaction carries.
use bank_email_fetcher.Prelude.{
  ℕ, Bool, true, false, ◌&&◌, Option, none, some, List, ◌≡◌, ◌⊎◌, refl, ap, inl, inr, arith,
  is_falsy, is_none, In, Bool-cases, Option-cases,
}
use bank_email_fetcher.Masks.{normalize_mask, mask_matches}
use bank_email_fetcher.Linker.Context.{
  Text, Account, Card, CardEntry, AccountEntry, LinkContext, bank_key, stored_number,
  build_link_context,
}
use bank_email_fetcher.Linker.Link.{
  Transaction, usable, expected_account_type, the_only, matching_cards, matching_accounts,
  find_card_match, find_account_match, narrowed, stage_card, stage_account, stage_bank,
  link_transaction,
}
use bank_email_fetcher.Linker.Sources.{
  FromCard, FromNumber, FromAccount, build_link_context-IsSourced,
}
use bank_email_fetcher.Linker.Lookup.{
  In-All, the_only-In, In-matching_cards, In-matching_accounts, In-narrowed,
}

-- The id `a`, and the card id `c` that goes with it, are those of rows of the transaction's own
-- bank that the transaction points at.
pub data Evidence (accounts : List Account) (cards : List Card) (txn : Transaction) (a : ℕ)
    (c : Option ℕ) : Type 0 where
  -- its card mask matches the mask of a card, which the account owns
  by_card :
      (card : Card) (owner : Account)
      → In card cards
      → In owner accounts
      → usable (normalize_mask txn.card_mask) ≡ true
      → mask_matches (normalize_mask txn.card_mask) (normalize_mask (some card.card_mask)) ≡ true
      → bank_key owner.bank ≡ bank_key txn.bank
      → owner.id ≡ card.account_id
      → a ≡ owner.id
      → c ≡ some card.id
      → Evidence accounts cards txn a c
  -- its card mask or its account mask matches the number of the account
  by_number :
      (carried : Option Text) (acct : Account)
      → In acct accounts
      → (carried ≡ txn.card_mask) ⊎ (carried ≡ txn.account_mask)
      → usable (normalize_mask carried) ≡ true
      → mask_matches (normalize_mask carried) (stored_number acct.account_number) ≡ true
      → bank_key acct.bank ≡ bank_key txn.bank
      → a ≡ acct.id
      → c ≡ txn.card_id
      → Evidence accounts cards txn a c
  -- it carries no mask, and the account is one of its bank
  by_bank :
      (acct : Account)
      → In acct accounts
      → is_falsy txn.card_mask ≡ true
      → is_falsy txn.account_mask ≡ true
      → bank_key acct.bank ≡ bank_key txn.bank
      → a ≡ acct.id
      → c ≡ txn.card_id
      → Evidence accounts cards txn a c

module _ (accounts : List Account) (cards : List Card) (txn : Transaction) where
  abbrev context : LinkContext
  context = build_link_context accounts cards

  stage_card-Evidence :
      (hit : CardEntry)
      → stage_card context txn ≡ some hit
      → Evidence accounts cards txn hit.account_id (some hit.card_id)
  unfolding stage_card find_card_match
  stage_card-Evidence hit h = elim (Bool-cases (usable (normalize_mask txn.card_mask))) [
    | inl enough ↦
        let mask = normalize_mask txn.card_mask in
        let entries = context.cards_by_bank (bank_key txn.bank) in
        let found : the_only (matching_cards mask entries) ≡ some hit = rw enough at h in
        let (i, m) =
          In-matching_cards mask entries hit
            (the_only-In (matching_cards mask entries) hit found) in
        let (card, owner, card_in, owner_in, cid, aid, mask_of, bank_of, owned) =
          In-All (FromCard accounts cards (bank_key txn.bank)) entries hit
            ((build_link_context-IsSourced accounts cards).cards_sourced (bank_key txn.bank)) i in
        by_card card owner card_in owner_in enough (rw mask_of at m) bank_of owned aid (ap some cid)
    | inr short ↦ let never : none ≡ some hit = rw short at h in cc
  ]

  stage_account-Evidence :
      (carried : Option Text) (hit : AccountEntry)
      → (carried ≡ txn.card_mask) ⊎ (carried ≡ txn.account_mask)
      → stage_account context txn carried ≡ some hit
      → Evidence accounts cards txn hit.account_id txn.card_id
  unfolding stage_account find_account_match
  stage_account-Evidence carried hit from h = elim (Bool-cases (usable (normalize_mask carried))) [
    | inl enough ↦
        let mask = normalize_mask carried in
        let entries = context.accounts_by_bank_with_masks (bank_key txn.bank) in
        let found : the_only (matching_accounts mask entries) ≡ some hit = rw enough at h in
        let (i, m) =
          In-matching_accounts mask entries hit
            (the_only-In (matching_accounts mask entries) hit found) in
        let (acct, acct_in, aid, mask_of, bank_of) =
          In-All (FromNumber accounts cards (bank_key txn.bank)) entries hit
            ((build_link_context-IsSourced accounts cards).numbers_sourced (bank_key txn.bank)) i in
        by_number carried acct acct_in from enough (rw mask_of at m) bank_of aid refl
    | inr short ↦ let never : none ≡ some hit = rw short at h in cc
  ]

  stage_bank-Evidence :
      (a : ℕ) → stage_bank context txn ≡ some a → Evidence accounts cards txn a txn.card_id
  unfolding stage_bank
  stage_bank-Evidence a h =
      elim (Bool-cases (is_falsy txn.card_mask && is_falsy txn.account_mask)) [
        | inl maskless ↦
            let ids = context.accounts_by_bank (bank_key txn.bank) in
            let expected = expected_account_type txn.email_type in
            let found : the_only (narrowed context expected ids) ≡ some a = rw maskless at h in
            let i =
              In-narrowed context expected ids a
                (the_only-In (narrowed context expected ids) a found) in
            let (acct, acct_in, aid, bank_of) =
              In-All (FromAccount accounts cards (bank_key txn.bank)) ids a
                ((build_link_context-IsSourced accounts cards).accounts_sourced (bank_key txn.bank))
                i in
            by_bank acct acct_in (ground arith) (ground arith) bank_of aid refl
        | inr masked ↦ let never : none ≡ some a = rw masked at h in cc
      ]

  -- The evidence of the ids that a linked transaction has.
  abbrev pub Justified : Bool × Transaction → Type 0
  Justified (false, left) = left ≡ txn
  Justified (true, left) =
      (a : ℕ) × (left.account_id ≡ some a)
      × Evidence accounts cards txn a left.card_id
      × (left.bank ≡ txn.bank)
      × (left.card_mask ≡ txn.card_mask)
      × (left.account_mask ≡ txn.account_mask)

  -- With the context built from the rows of the database, a transaction that has no account yet is
  -- either left as it is, and the call says that it is not linked; or it is linked, and then the
  -- account is one of its own bank, and is the owner of a card that its card mask matches, or has a
  -- number that its card mask or account mask matches, or, where it carries neither mask, is an
  -- account of the bank; the card id changes in the first case only, to the id of that card.
  pub link_transaction-Justified : txn.account_id ≡ none → Justified (link_transaction context txn)
  unfolding link_transaction
  link_transaction-Justified unlinked =
      let fresh : is_none txn.account_id ≡ true = ap is_none unlinked in
      rw fresh (elim (Option-cases (stage_card context txn)) [
        | inr (hit, e) ↦ rw e (hit.account_id, refl, stage_card-Evidence hit e, refl, refl, refl)
        | inl no_card ↦ rw no_card (elim (Option-cases (stage_account context txn txn.card_mask)) [
          | inr (hit, e) ↦ rw e (
            hit.account_id,
            refl,
            stage_account-Evidence txn.card_mask hit (inl refl) e,
            refl,
            refl,
            refl,
          )
          | inl no_number ↦
              rw no_number (elim (Option-cases (stage_account context txn txn.account_mask)) [
                | inr (hit, e) ↦ rw e (
                  hit.account_id,
                  refl,
                  stage_account-Evidence txn.account_mask hit (inr refl) e,
                  refl,
                  refl,
                  refl,
                )
                | inl no_account ↦ rw no_account (elim (Option-cases (stage_bank context txn)) [
                  | inr (a, e) ↦ rw e (a, refl, stage_bank-Evidence a e, refl, refl, refl)
                  | inl nothing ↦ rw nothing refl
                ])
              ])
        ])
      ])

-- A transaction that has an account is left as it is.
pub link_transaction-linked :
    (ctx : LinkContext) (txn : Transaction) (a : ℕ)
    → txn.account_id ≡ some a
    → link_transaction ctx txn ≡ (true, txn)
unfolding link_transaction
link_transaction-linked ctx txn a h = ground arith

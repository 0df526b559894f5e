-- ===== src/Linker/Sources.antt =====
-- Where the entries of a context come from: every one stands for rows of the database, under the
-- key of the bank of the account.
use bank_email_fetcher.Prelude.{
  ℕ, Option, none, some, List, [], ◌∷◌, ◌≡◌, refl, sym, inl, inr, arith, eqb, codes_eq, codes_eq→eq,
  is_empty, All, All-append, In, Bool-cases,
}
use mathlib.Core.Path.{subst}
use bank_email_fetcher.Masks.{normalize_mask}
use bank_email_fetcher.Linker.Context.{
  Text, Account, Card, CardEntry, AccountEntry, LinkContext, bank_key, append_at, stored_number,
  add_account, add_accounts, find_account, append_card, add_card, add_cards, empty_context,
  build_link_context,
}

module _ (accounts : List Account) (cards : List Card) where
  -- the entry stands for a card of the bank, and for the account that owns it
  abbrev pub FromCard : Text → CardEntry → Type 0
  FromCard key entry =
      (card : Card) × (owner : Account) × In card cards
      × In owner accounts
      × (entry.card_id ≡ card.id)
      × (entry.account_id ≡ owner.id)
      × (entry.mask ≡ normalize_mask (some card.card_mask))
      × (bank_key owner.bank ≡ key)
      × (owner.id ≡ card.account_id)

  -- the entry stands for the number of an account of the bank
  abbrev pub FromNumber : Text → AccountEntry → Type 0
  FromNumber key entry =
      (acct : Account) × In acct accounts
      × (entry.account_id ≡ acct.id)
      × (entry.mask ≡ stored_number acct.account_number)
      × (bank_key acct.bank ≡ key)

  -- the id is that of an account of the bank
  abbrev pub FromAccount : Text → ℕ → Type 0
  FromAccount key id =
      (acct : Account) × In acct accounts × (id ≡ acct.id) × (bank_key acct.bank ≡ key)

  pub record IsSourced (ctx : LinkContext) : Type 0 where
    pub cards_sourced : (key : Text) → All (FromCard key) (ctx.cards_by_bank key)
    pub numbers_sourced : (key : Text) → All (FromNumber key) (ctx.accounts_by_bank_with_masks key)
    pub accounts_sourced : (key : Text) → All (FromAccount key) (ctx.accounts_by_bank key)

append_at-All :
    {A : Type 0} (P : Text → A → Type 0) (key : Text) (x : A) (d : Text → List A)
    → ((k : Text) → All (P k) (d k))
    → P key x
    → (k : Text) → All (P k) (append_at key x d k)
append_at-All P key x d h p k = elim (Bool-cases (codes_eq key k)) [
  | inl same ↦
      let e = codes_eq→eq key k same in
      rw same (All-append (P k) (d k) (x ∷ []) (h k) (subst (λ j. P j x) e p, tt))
  | inr differ ↦ rw differ (h k)
]

module _ (accounts : List Account) (cards : List Card) where
  numbers-add_account :
      (ctx : LinkContext) (acct : Account)
      → In acct accounts
      → ((key : Text) → All (FromNumber accounts cards key) (ctx.accounts_by_bank_with_masks key))
      → (key : Text)
      → All (FromNumber accounts cards key) ((add_account ctx acct).accounts_by_bank_with_masks key)
  unfolding add_account
  numbers-add_account ctx acct there h key =
      elim (Bool-cases (is_empty (stored_number acct.account_number))) [
        | inl unreadable ↦ rw unreadable (h key)
        | inr readable ↦ rw readable (
            append_at-All (FromNumber accounts cards) (bank_key acct.bank)
              (record { mask = stored_number acct.account_number; account_id = acct.id })
              ctx.accounts_by_bank_with_masks h (acct, there, refl, refl, refl) key)
      ]

  IsSourced-add_account :
      (ctx : LinkContext) (acct : Account)
      → In acct accounts
      → IsSourced accounts cards ctx
      → IsSourced accounts cards (add_account ctx acct)
  IsSourced-add_account ctx acct there h = record {
    cards_sourced = unfold add_account in h.cards_sourced;
    numbers_sourced = numbers-add_account ctx acct there h.numbers_sourced;
    accounts_sourced =
        unfold add_account in
        append_at-All (FromAccount accounts cards) (bank_key acct.bank) acct.id ctx.accounts_by_bank
          h.accounts_sourced (acct, there, refl, refl);
  }

  IsSourced-add_accounts :
      (ctx : LinkContext) (rest : List Account)
      → All (λ acct. In acct accounts) rest
      → IsSourced accounts cards ctx
      → IsSourced accounts cards (add_accounts ctx rest)
  unfolding add_accounts
  IsSourced-add_accounts ctx [] there h = h
  IsSourced-add_accounts ctx (acct ∷ rest) there h =
      IsSourced-add_accounts (add_account ctx acct) rest there.1
        (IsSourced-add_account ctx acct there.0 h)

find_account_lem :
    (id : ℕ) (accounts : List Account) (acct : Account)
    → find_account id accounts ≡ some acct
    → In acct accounts × (acct.id ≡ id)
unfolding find_account
find_account_lem id [] acct h = cc
find_account_lem id (a ∷ accounts) acct h = elim (Bool-cases (eqb a.id id)) [
  | inl same ↦ (inl (ground arith), ground arith)
  | inr differ ↦
      let found = find_account_lem id accounts acct (ground arith) in (inr found.0, found.1)
]

module _ (accounts : List Account) (cards : List Card) where
  IsSourced-append_card :
      (ctx : LinkContext) (card : Card) (owner : Option Account)
      → In card cards
      → find_account card.account_id accounts ≡ owner
      → IsSourced accounts cards ctx
      → IsSourced accounts cards (append_card ctx card (normalize_mask (some card.card_mask)) owner)
  IsSourced-append_card ctx card none there e h = h
  IsSourced-append_card ctx card (some owner) there e h =
      let found = find_account_lem card.account_id accounts owner e in
      record {
        cards_sourced =
            append_at-All (FromCard accounts cards) (bank_key owner.bank)
              (record {
                mask = normalize_mask (some card.card_mask);
                account_id = card.account_id;
                card_id = card.id;
              })
              ctx.cards_by_bank h.cards_sourced
              (card, owner, there, found.0, refl, sym found.1, refl, refl, found.1);
        numbers_sourced = h.numbers_sourced;
        accounts_sourced = h.accounts_sourced;
      }

  IsSourced-add_cards :
      (ctx : LinkContext) (rest : List Card)
      → All (λ card. In card cards) rest
      → IsSourced accounts cards ctx
      → IsSourced accounts cards (add_cards accounts ctx rest)
  unfolding add_cards add_card
  IsSourced-add_cards ctx [] there h = h
  IsSourced-add_cards ctx (card ∷ rest) there h =
      IsSourced-add_cards (add_card accounts ctx card) rest there.1
        (elim (Bool-cases (is_empty (normalize_mask (some card.card_mask)))) [
          | inl unreadable ↦ rw unreadable h
          | inr readable ↦ rw readable (
              IsSourced-append_card ctx card (find_account card.account_id accounts) there.0 refl h)
        ])

All-In : {A : Type 0} (xs ys : List A) → ((x : A) → In x xs → In x ys) → All (λ x. In x ys) xs
All-In [] ys f = tt
All-In (x ∷ xs) ys f = (f x (inl refl), All-In xs ys (λ y i. f y (inr i)))

pub build_link_context-IsSourced :
    (accounts : List Account) (cards : List Card)
    → IsSourced accounts cards (build_link_context accounts cards)
unfolding build_link_context
build_link_context-IsSourced accounts cards =
    IsSourced-add_cards accounts cards (add_accounts empty_context accounts) cards
      (All-In cards cards (λ x i. i))
      (IsSourced-add_accounts accounts cards empty_context accounts
        (All-In accounts accounts (λ x i. i))
        (record { cards_sourced = λ k. tt; numbers_sourced = λ k. tt; accounts_sourced = λ k. tt }))

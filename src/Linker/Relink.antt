-- ===== src/Linker/Relink.antt =====
-- `relink_orphans` of financial_dashboard/services/linker.py, over the table of transactions.
use bank_email_fetcher.Prelude.{
  ℕ, ◌+◌, Bool, true, false, List, [], ◌∷◌, ◌≡◌, ◌⊎◌, refl, inl, inr, arith, is_none, Bool-cases,
  Option-cases, if◌then◌else◌,
}
use bank_email_fetcher.Linker.Context.{Account, Card, LinkContext, build_link_context}
use bank_email_fetcher.Linker.Link.{
  Transaction, stage_card, stage_account, stage_bank, link_transaction,
}

abbrev pub one_if : Bool → ℕ
one_if true = 1
one_if false = 0

abbrev keep_linked : Transaction → ℕ × List Transaction → ℕ × List Transaction
keep_linked txn (linked, rest) = (linked, txn ∷ rest)

abbrev add_linked : Bool × Transaction → ℕ × List Transaction → ℕ × List Transaction
add_linked (done, txn) (linked, rest) = (one_if done + linked, txn ∷ rest)

-- The loop over the rows whose account is NULL: how many were linked, and the table as it is left.
unfoldable pub relink : LinkContext → List Transaction → ℕ × List Transaction
relink ctx [] = (0, [])
relink ctx (txn ∷ txns) =
    let rest = relink ctx txns in
    if is_none txn.account_id
    then add_linked (link_transaction ctx txn) rest
    else keep_linked txn rest

-- the rows that the second SELECT counts
abbrev pub count_orphans : List Transaction → ℕ
count_orphans [] = 0
count_orphans (txn ∷ txns) = one_if (is_none txn.account_id) + count_orphans txns

-- the counts that are returned, and the table
unfoldable pub relink_orphans :
    List Account → List Card → List Transaction → (ℕ × ℕ) × List Transaction
unfolding relink
relink_orphans accounts cards txns =
    let (linked, after) = relink (build_link_context accounts cards) txns in
    ((linked, count_orphans after), after)

-- The call's answer is true exactly where it set an account; where it is false nothing is set.
pub link_transaction-cases :
    (ctx : LinkContext) (txn : Transaction)
    → is_none txn.account_id ≡ true
    → (link_transaction ctx txn ≡ (false, txn))
      ⊎ (((link_transaction ctx txn).0 ≡ true)
          × (is_none (link_transaction ctx txn).1.account_id ≡ false))
unfolding link_transaction
link_transaction-cases ctx txn h = rw h (elim (Option-cases (stage_card ctx txn)) [
  | inr (hit, e) ↦ rw e (inr (refl, refl))
  | inl no_card ↦ rw no_card (elim (Option-cases (stage_account ctx txn txn.card_mask)) [
    | inr (hit, e) ↦ rw e (inr (refl, refl))
    | inl no_number ↦ rw no_number (elim (Option-cases (stage_account ctx txn txn.account_mask)) [
      | inr (hit, e) ↦ rw e (inr (refl, refl))
      | inl no_account ↦ rw no_account (elim (Option-cases (stage_bank ctx txn)) [
        | inr (a, e) ↦ rw e (inr (refl, refl))
        | inl nothing ↦ rw nothing (inl refl)
      ])
    ])
  ])
])

relink-counts :
    (ctx : LinkContext) (txns : List Transaction)
    → (relink ctx txns).0 + count_orphans (relink ctx txns).1 ≡ count_orphans txns
unfolding relink
relink-counts ctx [] = refl
relink-counts ctx (txn ∷ txns) = elim (Bool-cases (is_none txn.account_id)) [
  | inr linked ↦ rw linked (rw linked (omega (arith, relink-counts ctx txns)))
  | inl orphan ↦ elim (link_transaction-cases ctx txn orphan) [
    | inl same ↦ rw orphan (rw same (rw orphan (omega (arith, relink-counts ctx txns))))
    | inr (done, set) ↦ rw orphan (rw (done, set) (omega (arith, relink-counts ctx txns)))
  ]
]

relink-again :
    (ctx : LinkContext) (txns : List Transaction)
    → relink ctx (relink ctx txns).1 ≡ (0, (relink ctx txns).1)
unfolding relink
relink-again ctx [] = refl
relink-again ctx (txn ∷ txns) = elim (Bool-cases (is_none txn.account_id)) [
  | inr linked ↦ rw linked (rw linked (rw (relink-again ctx txns)))
  | inl orphan ↦ elim (link_transaction-cases ctx txn orphan) [
    | inl same ↦ rw orphan (rw same (rw orphan (rw same (rw (relink-again ctx txns)))))
    | inr (done, set) ↦ rw orphan (rw set (rw (relink-again ctx txns)))
  ]
]

-- The two counts that are returned add up to the number of transactions that had no account before;
-- and a second call, with no change to the accounts and cards, links nothing more and leaves the
-- table as it is.
pub relink_orphans-settles :
    (accounts : List Account) (cards : List Card) (txns : List Transaction)
    → let ((linked, remaining), after) = relink_orphans accounts cards txns in
      (linked + remaining ≡ count_orphans txns)
      × (relink_orphans accounts cards after ≡ ((0, remaining), after))
unfolding relink_orphans
relink_orphans-settles accounts cards txns =
    let ctx = build_link_context accounts cards in
    (relink-counts ctx txns, rw (relink-again ctx txns))

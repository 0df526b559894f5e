-- ===== src/Sms/Chosen.antt =====
-- Which card the search of financial_dashboard/services/cc_disambiguation.py may choose.
use mathlib.Core.Path.{subst}
use bank_email_fetcher.Prelude.{
  ℕ, Bool, true, false, ◌&&◌, ◌||◌, not, Option, none, some, List, [], ◌∷◌, ◌≡◌, ◌⊎◌, refl, ap,
  arith, eqb, ltb, length, is_none, Bool-cases, inl, inr, In, All, codes, codes_eq,
}
use bank_email_fetcher.Linker.Context.{Account}
use bank_email_fetcher.Merge.Decimal.{Decimal}
use bank_email_fetcher.Merge.Row.{Text, Transaction}
use bank_email_fetcher.Sms.Accounts.{AccountChoice}
use bank_email_fetcher.Sms.Cards.{
  Upload, load_cc_candidates, member, select_uploads, is_ranked, is_active, totals_match,
  is_untracked, owes, owes_exactly, owes_at_least, only_account, all_covered, any_upload, all_among,
  upload_of, or_choice, if_at_least, sole_of, by_outstanding, latest_per_account, latest_statements,
  find_cc_account_by_total_due, choose_among, choose_account,
}
use bank_email_fetcher.Sms.Uploads.{
  latest_per_account-All, only_account-selected, upload_of-P, Alone, only_account-Alone,
  upload_of-account,
}

-- The statement `u` speaks for paying this amount to the card `a`, and the statements of the list
-- speak for no other card: by their totals, by what is left of them, or as the only ones of which
-- anything is left.
abbrev pub Fits : Decimal → List Upload → List Upload → ℕ → Upload → Type 0
Fits amount active latest a u =
    ((totals_match amount u ≡ true) × Alone (totals_match amount) active a)
    ⊎ ((owes_exactly amount u ≡ true) × Alone (owes_exactly amount) latest a)
    ⊎ ((owes_at_least amount u ≡ true) × Alone owes latest a)

and_left : (b c : Bool) → (b && c) ≡ true → b ≡ true
and_left true c h = refl
and_left false c h = cc

ranked-member :
    (ids : List ℕ) (u : Upload) → is_ranked ids u ≡ true → member u.account_id ids ≡ true
ranked-member ids u h = and_left (member u.account_id ids) (not (is_none u.due_date)) (
    and_left (member u.account_id ids && not (is_none u.due_date))
      (not (is_none u.total_amount_due)) h)

or_choice-cases :
    (o : Option ℕ) (rest : AccountChoice) (a : ℕ)
    → (or_choice o rest).account_id ≡ some a
    → (o ≡ some a) ⊎ (rest.account_id ≡ some a)
or_choice-cases none rest a h = inr h
or_choice-cases (some id) rest a h = inl h

module _ (uploads : List Upload) (ids : List ℕ) where
  -- the statement is stored, for one of the candidates
  abbrev pub IsCandidates : Upload → Type 0
  IsCandidates u = (member u.account_id ids ≡ true) × In u uploads

  ranked-IsCandidates :
      (q : Upload → Bool) (us : List Upload)
      → ((u : Upload) → In u us → In u uploads)
      → ((u : Upload) → q u ≡ true → member u.account_id ids ≡ true)
      → All IsCandidates (select_uploads q us)
  ranked-IsCandidates q [] i m = tt
  ranked-IsCandidates q (u ∷ us) i m =
      let rest = ranked-IsCandidates q us (λ w k. i w (inr k)) m in
      elim (Bool-cases (q u)) [
        | inl hit ↦ rw hit ((m u hit, i u (inl refl)), rest)
        | inr miss ↦ rw miss rest
      ]

  module _ (amount : Decimal) (active latest : List Upload) where
    -- a stored statement of the card `a`, which is a candidate, speaks for it
    abbrev pub Backed : ℕ → Type 0
    Backed a = (u : Upload) × (u.account_id ≡ a) × IsCandidates u × Fits amount active latest a u

    sole-Backed :
        (o : Option ℕ) (a : ℕ)
        → ((id : ℕ) → o ≡ some id → Alone owes latest id)
        → All IsCandidates latest
        → sole_of amount latest o ≡ some a
        → Backed a
    sole-Backed none a f h e = cc
    sole-Backed (some id) a f h e = go (upload_of id latest) refl e
      where
        go :
            (o : Option Upload) → upload_of id latest ≡ o → if_at_least amount o ≡ some a → Backed a
        go none k e = cc
        go (some u) k e = elim (Bool-cases (owes_at_least amount u)) [
          | inl enough ↦
              let own : some u.account_id ≡ some a = rw enough at e in
              let found : u.account_id ≡ id = upload_of-account id latest u k in
              let same : id ≡ a = cc in
              (
                u,
                cc,
                upload_of-P IsCandidates id latest u h k,
                inr (inr (enough, subst (λ x. Alone owes latest x) same (f id refl))),
              )
          | inr short ↦ let gone : none ≡ some a = rw short at e in cc
        ]

    outstanding-Backed :
        (a : ℕ)
        → All IsCandidates latest
        → (by_outstanding amount ids latest).account_id ≡ some a
        → Backed a
    unfolding by_outstanding
    outstanding-Backed a h e =
        elim (Bool-cases (
          not (all_covered latest ids && all_among latest ids) || any_upload is_untracked latest)) [
            | inl unsafe ↦ let gone : none ≡ some a = rw unsafe at e in cc
            | inr safe ↦
                let tiers : (or_choice (only_account (select_uploads (owes_exactly amount) latest))
                      (or_choice (sole_of amount latest (only_account (select_uploads owes latest)))
                        (record { account_id = none; prompt = some ids }))).account_id
                    ≡ some a =
                  rw safe at e in
                elim (or_choice-cases _ _ a tiers) [
                  | inl exact ↦
                      let (u, own, c, fits) =
                        only_account-selected IsCandidates (owes_exactly amount) latest a h exact in
                      (
                        u,
                        own,
                        c,
                        inr (inl (fits, only_account-Alone (owes_exactly amount) latest a exact)),
                      )
                  | inr later ↦ elim (or_choice-cases _ _ a later) [
                    | inl sole ↦
                        sole-Backed (only_account (select_uploads owes latest)) a
                          (λ id k. only_account-Alone owes latest id k) h sole
                    | inr last ↦ let gone : none ≡ some a = last in cc
                  ]
                ]
          ]

  module _ (parse_cc_date : Text → Option ℕ) where
    latest-IsCandidates :
        (q : Upload → Bool)
        → ((u : Upload) → q u ≡ true → member u.account_id ids ≡ true)
        → All IsCandidates (latest_per_account parse_cc_date (select_uploads q uploads))
    latest-IsCandidates q m =
        latest_per_account-All IsCandidates parse_cc_date (select_uploads q uploads)
          (ranked-IsCandidates q uploads (λ u i. i) m)

    -- the latest statements of the candidates that are not paid
    abbrev pub latest_active : List Upload
    latest_active =
        latest_per_account parse_cc_date
          (select_uploads (λ u. is_ranked ids u && is_active u.payment_status) uploads)

    module _ (amount : Decimal) where
      abbrev pub Chosen : ℕ → Type 0
      Chosen a = Backed amount latest_active (latest_statements parse_cc_date uploads ids) a

      total-Backed :
          (a : ℕ)
          → find_cc_account_by_total_due parse_cc_date uploads ids amount ≡ some a
          → Chosen a
      unfolding find_cc_account_by_total_due
      total-Backed a e = elim (Bool-cases (ltb (length ids) 2)) [
        | inl few ↦ let gone : none ≡ some a = rw few at e in cc
        | inr many ↦
            let one : only_account (select_uploads (totals_match amount) latest_active) ≡ some a =
              rw many at e in
            let (u, own, c, fits) =
              only_account-selected IsCandidates (totals_match amount) latest_active a
                (latest-IsCandidates (λ u. is_ranked ids u && is_active u.payment_status)
                  (λ u h.
                    ranked-member ids u
                      (and_left (is_ranked ids u) (is_active u.payment_status) h)))
                one in
            (u, own, c, inl (fits, only_account-Alone (totals_match amount) latest_active a one))
      ]

      several-Backed :
          (a : ℕ)
          → (or_choice
              (find_cc_account_by_total_due parse_cc_date uploads ids amount)
              (by_outstanding amount ids (latest_statements parse_cc_date uploads ids))).account_id
            ≡ some a
          → Chosen a
      several-Backed a e = elim (or_choice-cases _ _ a e) [
        | inl total ↦ total-Backed a total
        | inr rest ↦
            outstanding-Backed amount latest_active (latest_statements parse_cc_date uploads ids) a
              (unfold latest_statements in latest-IsCandidates (is_ranked ids) (ranked-member ids))
              rest
      ]

-- a credit card of the bank
abbrev pub IsCard : Text → List Account → ℕ → Type 0
IsCard bank accounts a =
    (acct : Account) × In acct accounts
    × (acct.id ≡ a)
    × (codes_eq acct.bank bank ≡ true)
    × (codes_eq acct.type (codes "credit_card") ≡ true)

member-IsCard :
    (bank : Text) (accounts : List Account) (a : ℕ)
    → member a (load_cc_candidates bank accounts) ≡ true
    → IsCard bank accounts a
unfolding load_cc_candidates
member-IsCard bank [] a h = cc
member-IsCard bank (x ∷ accounts) a h =
    elim (Bool-cases (codes_eq x.bank bank && codes_eq x.type (codes "credit_card"))) [
      | inl card ↦
          let both = and_both (codes_eq x.bank bank) (codes_eq x.type (codes "credit_card")) card in
          elim (Bool-cases (eqb x.id a)) [
            | inl same ↦ (x, inl refl, ground arith, both.0, both.1)
            | inr other ↦
                let rest : member a (load_cc_candidates bank accounts) ≡ true =
                  rw other at (rw card at h) in
                later (member-IsCard bank accounts a rest)
          ]
      | inr no_card ↦ later (member-IsCard bank accounts a (rw no_card at h))
    ]
  where
    and_both : (b c : Bool) → (b && c) ≡ true → (b ≡ true) × (c ≡ true)
    and_both true c h = (refl, h)
    and_both false c h = cc

    later : {y : Account} → IsCard bank accounts a → IsCard bank (y ∷ accounts) a
    later (acct, i, own, of_bank, of_type) = (acct, inr i, own, of_bank, of_type)

-- Where the search settles on an account, that is a credit card of the transaction's bank; and either
-- it is the only one of the bank, or a stored statement of it speaks for it and none of another card
-- does: the amount is its total, and no other card has that total among the latest unpaid statements;
-- or the amount is what is left of it, and no other card has that left among the latest statements; or
-- the amount is at most what is left of it, and no other card has anything left among them.
pub choose_account-Backed :
    (parse_cc_date : Text → Option ℕ) (uploads : List Upload) (accounts : List Account)
    (r : Transaction) (a : ℕ)
    → (choose_account parse_cc_date uploads accounts r).account_id ≡ some a
    → IsCard r.bank accounts a
      × ((load_cc_candidates r.bank accounts ≡ a ∷ [])
          ⊎ Chosen uploads (load_cc_candidates r.bank accounts) parse_cc_date r.amount a)
unfolding choose_account choose_among
choose_account-Backed parse_cc_date uploads accounts r a h =
    go (load_cc_candidates r.bank accounts) (member-IsCard r.bank accounts a) h
  where
    go :
        (ids : List ℕ)
        → (member a ids ≡ true → IsCard r.bank accounts a)
        → (choose_among parse_cc_date uploads ids r.amount).account_id ≡ some a
        → IsCard r.bank accounts a × ((ids ≡ a ∷ []) ⊎ Chosen uploads ids parse_cc_date r.amount a)
    go [] card e = cc
    go (id ∷ []) card e =
        let same : id ≡ a = cc in (card (ground arith), inl (ap (λ x. x ∷ []) same))
    go (id ∷ other ∷ ids) card e =
        let backed = several-Backed uploads (id ∷ other ∷ ids) parse_cc_date r.amount a e in
        let (u, own, c, fits) = backed in
        (card (subst (λ x. member x (id ∷ other ∷ ids) ≡ true) own c.0), inr backed)

-- ===== src/Merge/Evidence.antt =====
-- What a match of `find_match` (financial_dashboard/services/txn_merge.py) says of the row.
use mathlib.Core.Path.{subst}
use bank_email_fetcher.Prelude.{
  ℕ, true, false, Option, none, some, List, [], ◌∷◌, ◌≡◌, refl, inl, inr, In, Bool-cases, arith,
  codes_eq→eq, eq_iff, is_empty,
}
use bank_email_fetcher.Merge.Decimal.{Decimal, dec_eq, quantize, quantize_balance, balances_differ}
use bank_email_fetcher.Merge.Row.{Text, Channel, Transaction, TxnData, or_inr}
use bank_email_fetcher.Merge.Text.{text_or_empty, reference_of}
use bank_email_fetcher.Merge.Match.{
  keep, same_terms, gather_fuzzy_candidates, MatchKind, standard, am_pm_alias, match, confirmed,
  known_balance, may_have_balance, by_balance, by_reference, by_slot, decide_on, decide,
}
use bank_email_fetcher.Merge.Find.{
  same_reference, first_two, is_alias, find_am_pm_alias_match, on_alias, alias_pass, fuzzy_pass,
  match_without_reference, on_reference_row, on_reference_rows, match_by_reference, find_match,
}
use bank_email_fetcher.Merge.Lists.{In-keep, In-first_two, In-the_only}
use bank_email_fetcher.Merge.Candidates.{
  In-gather_fuzzy_candidates, known_balance-agrees, balances_differ-none,
}

-- The row reports the event of the message: it is in the table, with the same bank, direction and
-- amount, and the balances do not contradict one another.
pub record SameEvent (d : TxnData) (rows : List Transaction) (c : Transaction) : Type 0 where
  pub found : In c rows
  pub bank : c.bank ≡ d.bank
  pub direction : c.direction ≡ d.direction
  pub amount : dec_eq c.amount d.amount ≡ true
  pub balance : balances_differ d.balance c.balance ≡ false

module _ (d : TxnData) (ch : Channel) (source_id : Option ℕ) (c : Transaction)
    (kind : MatchKind) where
  -- What `_decide` answers with, it found among the candidates, and no known balances differ.
  abbrev Agrees : List Transaction → Type 0
  Agrees cs = In c cs × (balances_differ d.balance c.balance ≡ false)

  confirmed-In : (eq cs : List Transaction) → confirmed eq cs ≡ match c kind → In c eq
  confirmed-In [] cs h = cc
  confirmed-In (e ∷ []) cs h = inl (cc)
  confirmed-In (e ∷ f ∷ eq) cs h = cc

  by_balance-In :
      (b : Decimal) (cs : List Transaction)
      → by_balance (quantize b) cs ≡ match c kind
      → In c cs × (known_balance (quantize b) c ≡ true)
  by_balance-In b [] h = cc
  by_balance-In b (e ∷ cs) h =
      In-keep (known_balance (quantize b)) (e ∷ cs) c (confirmed-In _ (e ∷ cs) h)

  by_slot-In : (cs : List Transaction) → by_slot ch cs ≡ match c kind → In c cs
  by_slot-In [] h = cc
  by_slot-In (e ∷ cs) h = inl (ground arith)

  In-by_reference :
      (ref : Text) (cs : List Transaction) → In c (by_reference ref d ch source_id cs) → In c cs
  In-by_reference [] cs i = i
  In-by_reference (r ∷ ref) cs i = (In-keep _ cs c i).0

  decide_on-Agrees :
      (b : Option Decimal) (cs : List Transaction)
      → decide_on (quantize_balance b) d ch source_id cs ≡ match c kind
      → In c cs × (balances_differ b c.balance ≡ false)
  decide_on-Agrees none cs h = (
    In-by_reference (reference_of d.reference_number) cs (by_slot-In _ h),
    balances_differ-none _,
  )
  decide_on-Agrees (some b) cs h =
      let (i, known) = by_balance-In b (keep (may_have_balance (quantize b)) cs) h in
      ((In-keep _ cs c i).0, known_balance-agrees b c.balance known)

  pub decide-Agrees : (cs : List Transaction) → decide d ch source_id cs ≡ match c kind → Agrees cs
  unfolding decide
  decide-Agrees cs h = decide_on-Agrees d.balance cs h

  same_terms-SameEvent :
      (currency : Text) (rows : List Transaction)
      → In c rows
      → same_terms currency d c ≡ true
      → balances_differ d.balance c.balance ≡ false
      → SameEvent d rows c
  unfolding same_terms
  same_terms-SameEvent currency rows found same balance = record {
    found = found;
    bank = codes_eq→eq c.bank d.bank (ground arith);
    direction = (eq_iff c.direction d.direction).0 (ground arith);
    amount = ground arith;
    balance = balance;
  }

  pub on_alias-some :
      (o : Option Transaction)
      → on_alias d o ≡ match c kind
      → (o ≡ some c) × (balances_differ d.balance c.balance ≡ false) × (kind ≡ am_pm_alias)
  on_alias-some none h = cc
  on_alias-some (some e) h = elim (Bool-cases (balances_differ d.balance e.balance)) [
    | inl differ ↦ cc (rw differ at h)
    | inr agree ↦
        let same : match e am_pm_alias ≡ match c kind = rw agree at h in
        let eq : e ≡ c = cc in
        (cc, subst (λ (x : Transaction). balances_differ d.balance x.balance ≡ false) eq agree, cc)
  ]

  -- An aliased row passes every test of the alias, and is the only row that does.
  pub find_am_pm_alias_match-In :
      (day t : ℕ) (rows : List Transaction)
      → find_am_pm_alias_match d day t rows ≡ some c
      → In c rows × (is_alias d day t c ≡ true)
  unfolding find_am_pm_alias_match
  find_am_pm_alias_match-In day t rows h =
      elim (Bool-cases (is_empty (text_or_empty d.counterparty))) [
        | inl empty ↦ cc (rw empty at h)
        | inr named ↦
            In-keep (is_alias d day t) rows c
              (In-the_only (keep (is_alias d day t) rows) c (rw named at h))
      ]

  alias_pass-SameEvent :
      (day t : Option ℕ) (rows : List Transaction)
      → alias_pass d day t rows ≡ match c kind
      → SameEvent d rows c
  unfolding is_alias
  alias_pass-SameEvent none t rows h = cc
  alias_pass-SameEvent (some day) none rows h = cc
  alias_pass-SameEvent (some day) (some t) rows h =
      let (one, agree, _) = on_alias-some (find_am_pm_alias_match d day t rows) h in
      let (i, alias) = find_am_pm_alias_match-In day t rows one in
      same_terms-SameEvent (or_inr d.currency) rows i (ground arith) agree

  fuzzy_pass-SameEvent :
      (cs rows : List Transaction)
      → ((e : Transaction) → In e cs → In e rows × (same_terms (or_inr d.currency) d e ≡ true))
      → fuzzy_pass d ch source_id cs rows ≡ match c kind
      → SameEvent d rows c
  fuzzy_pass-SameEvent [] rows f h =
      alias_pass-SameEvent d.transaction_date d.transaction_time rows h
  fuzzy_pass-SameEvent (e ∷ cs) rows f h =
      let (i, agree) = decide-Agrees (e ∷ cs) h in
      let (found, same) = f c i in same_terms-SameEvent (or_inr d.currency) rows found same agree

  on_reference_row-agrees :
      (e : Transaction)
      → on_reference_row d e ≡ match c kind
      → (e ≡ c) × (dec_eq e.amount d.amount ≡ true) × (balances_differ d.balance e.balance ≡ false)
  unfolding on_reference_row
  on_reference_row-agrees e h = elim (Bool-cases (dec_eq e.amount d.amount)) [
    | inl amount ↦ elim (Bool-cases (balances_differ d.balance e.balance)) [
      | inl differ ↦ cc (rw (amount, differ) at h)
      | inr agree ↦
          let same : match e standard ≡ match c kind = rw (amount, agree) at h in
          (cc same, amount, agree)
    ]
    | inr other ↦ cc (rw other at h)
  ]

  same_reference-SameEvent :
      (ref : Text) (rows : List Transaction) (e : Transaction)
      → In e rows
      → same_reference ref d e ≡ true
      → on_reference_row d e ≡ match c kind
      → SameEvent d rows c
  unfolding same_reference
  same_reference-SameEvent ref rows e found same h =
      let (eq, amount, agree) = on_reference_row-agrees e h in
      subst (SameEvent d rows) eq record {
        found = found;
        bank = codes_eq→eq e.bank d.bank (ground arith);
        direction = (eq_iff e.direction d.direction).0 (ground arith);
        amount = amount;
        balance = agree;
      }

  match_without_reference-SameEvent :
      (rows : List Transaction)
      → match_without_reference d ch source_id rows ≡ match c kind
      → SameEvent d rows c
  unfolding match_without_reference
  match_without_reference-SameEvent rows h =
      fuzzy_pass-SameEvent (gather_fuzzy_candidates (or_inr d.currency) d rows) rows
        (λ e i. In-gather_fuzzy_candidates (or_inr d.currency) d rows e i) h

  on_reference_rows-SameEvent :
      (ref : Text) (found rows : List Transaction)
      → ((e : Transaction) → In e found → In e rows × (same_reference ref d e ≡ true))
      → on_reference_rows d ch source_id found rows ≡ match c kind
      → SameEvent d rows c
  on_reference_rows-SameEvent ref [] rows f h = match_without_reference-SameEvent rows h
  on_reference_rows-SameEvent ref (e ∷ []) rows f h =
      let (i, same) = f e (inl refl) in same_reference-SameEvent ref rows e i same h
  on_reference_rows-SameEvent ref (e ∷ g ∷ found) rows f h = cc

  match_by_reference-SameEvent :
      (ref : Text) (rows : List Transaction)
      → match_by_reference ref d ch source_id rows ≡ match c kind
      → SameEvent d rows c
  match_by_reference-SameEvent [] rows h = match_without_reference-SameEvent rows h
  match_by_reference-SameEvent (r ∷ ref) rows h =
      on_reference_rows-SameEvent (r ∷ ref) (first_two (keep (same_reference (r ∷ ref) d) rows))
        rows (λ e i. In-keep (same_reference (r ∷ ref) d) rows e (In-first_two _ e i)) h

  -- Whatever path `find_match` takes, a match names a row of the table with the bank, the direction
  -- and the amount of the message, and never one whose known balance, at two places, differs from a
  -- known balance of the message.
  pub find_match-SameEvent :
      (rows : List Transaction) → find_match d ch source_id rows ≡ match c kind → SameEvent d rows c
  unfolding find_match
  find_match-SameEvent rows h =
      match_by_reference-SameEvent (reference_of d.reference_number) rows h

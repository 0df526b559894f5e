-- ===== src/Merge/Near.antt =====
-- How near in time a match of `find_match` (financial_dashboard/services/txn_merge.py) is.
use mathlib.Core.Path.{subst}
use bank_email_fetcher.Prelude.{
  ℕ, ◌≤◌, Bool, true, false, ◌||◌, Option, none, some, List, ◌≡◌, ◌∙◌, sym, ap, In, arith,
}
use bank_email_fetcher.Masks.{normalize_mask}
use bank_email_fetcher.Merge.Row.{Text, Transaction, TxnData}
use bank_email_fetcher.Merge.Window.{
  combine, window_of, within, in_window_at, with_date, in_window, distance,
}
use bank_email_fetcher.Merge.Match.{keep, is_selected, in_time, gather_on, gather_fuzzy_candidates}
use bank_email_fetcher.Merge.Lists.{In-keep}
use bank_email_fetcher.Merge.Candidates.{In-narrowed, In-by_account}

within-distance : (w a b : ℕ) → within w a b ≡ true → distance b a ≤ w
within-distance w a b h = ground arith

-- `in_window`, with both points known
in_window-distance :
    (d_received c_received : Bool) (anchor day t : ℕ)
    → in_window_at (window_of d_received) anchor day (some t) c_received ≡ true
    → distance (combine day t) anchor ≤ window_of (d_received || c_received)
in_window-distance true true anchor day t h = ground arith
in_window-distance true false anchor day t h = ground arith
in_window-distance false true anchor day t h = ground arith
in_window-distance false false anchor day t h = ground arith

module _ (d : TxnData) (c : Transaction) (day t c_day u : ℕ) (date : d.transaction_date ≡ some day)
    (time : d.transaction_time ≡ some t) (c_date : c.transaction_date ≡ some c_day)
    (c_time : c.transaction_time ≡ some u) where
  in_window-at :
      in_window (window_of d.transaction_time_is_received_time) (combine day t) c ≡ true
      → distance (combine c_day u) (combine day t)
        ≤ window_of (d.transaction_time_is_received_time || c.transaction_time_is_received_time)
  unfolding in_window
  in_window-at h =
      in_window-distance d.transaction_time_is_received_time c.transaction_time_is_received_time
        (combine day t) c_day u
        (sym (
            ap
              (λ o. with_date o (λ k.
                in_window_at (window_of d.transaction_time_is_received_time) (combine day t) k
                  c.transaction_time c.transaction_time_is_received_time))
              c_date
            ∙ ap
                (λ o.
                  in_window_at (window_of d.transaction_time_is_received_time) (combine day t) c_day
                    o c.transaction_time_is_received_time)
                c_time)
          ∙ h)

  gather_on-window :
      (currency : Text) (od : Option ℕ) (rows : List Transaction)
      → od ≡ some day
      → In c (gather_on currency d od rows)
      → in_window (window_of d.transaction_time_is_received_time) (combine day t) c ≡ true
  gather_on-window currency none rows e i = absurd i
  gather_on-window currency (some k) rows e i =
      let j = In-by_account (normalize_mask d.account_mask) _ c (In-narrowed d _ c i) in
      let same : k ≡ day = cc in
      subst (λ x. in_window (window_of d.transaction_time_is_received_time) (combine x t) c ≡ true)
        same (timed d.transaction_time time k (keep (is_selected currency d k) rows) j)
    where
      timed :
          (o : Option ℕ)
          → o ≡ some t
          → (x : ℕ) (cs : List Transaction) → In c (in_time d x o cs)
          → in_window (window_of d.transaction_time_is_received_time) (combine x t) c ≡ true
      timed none e x cs i = cc
      timed (some y) e x cs i =
          let same : y ≡ t = cc in
          subst
            (λ z. in_window (window_of d.transaction_time_is_received_time) (combine x z) c ≡ true)
            same (In-keep _ cs c i).1

  -- A candidate of the fuzzy pass whose time is known lies within ten minutes of a message whose time
  -- is known, and within one minute where either time is only when a message arrived.
  pub gather_fuzzy_candidates-distance :
      (currency : Text) (rows : List Transaction)
      → In c (gather_fuzzy_candidates currency d rows)
      → distance (combine c_day u) (combine day t)
        ≤ window_of (d.transaction_time_is_received_time || c.transaction_time_is_received_time)
  unfolding gather_fuzzy_candidates
  gather_fuzzy_candidates-distance currency rows i =
      in_window-at (gather_on-window currency d.transaction_date rows date i)

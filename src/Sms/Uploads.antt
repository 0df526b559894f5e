-- ===== src/Sms/Uploads.antt =====
-- What `latest_per_account` (financial_dashboard/services/reminders.py) and the searches among
-- statements keep.
use mathlib.Core.Path.{subst}
use bank_email_fetcher.Prelude.{
  ℕ, Bool, true, Option, none, some, List, [], ◌∷◌, ◌≡◌, ◌∙◌, ap, arith, eqb, ltb, Bool-cases, inl,
  inr, In, All,
}
use bank_email_fetcher.Merge.Row.{Text}
use bank_email_fetcher.Sms.Cards.{
  Upload, select_uploads, put_later, put_dated, date_in, uploads_of, only_account, upload_of,
  latest_from, latest_per_account,
}

module _ (P : Upload → Type 0) where
  abbrev Dated : List (ℕ × Upload) → Type 0
  Dated [] = Unit
  Dated ((d, u) ∷ rest) = P u × Dated rest

  put_later-Dated :
      (due : ℕ) (u : Upload) (ls : List (ℕ × Upload)) → P u → Dated ls → Dated (put_later due u ls)
  put_later-Dated due u [] p h = (p, tt)
  put_later-Dated due u ((d, w) ∷ rest) p h = elim (Bool-cases (eqb w.account_id u.account_id)) [
    | inl same ↦ elim (Bool-cases (ltb d due)) [
      | inl later ↦ rw (same, later) (p, h.1)
      | inr earlier ↦ rw (same, earlier) (h.0, h.1)
    ]
    | inr other ↦ rw other (h.0, put_later-Dated due u rest p h.1)
  ]

  put_dated-Dated :
      (o : Option ℕ) (u : Upload) (ls : List (ℕ × Upload))
      → P u
      → Dated ls
      → Dated (put_dated o u ls)
  put_dated-Dated none u ls p h = h
  put_dated-Dated (some due) u ls p h = put_later-Dated due u ls p h

  Dated-All : (ls : List (ℕ × Upload)) → Dated ls → All P (uploads_of ls)
  Dated-All [] h = tt
  Dated-All ((d, u) ∷ rest) h = (h.0, Dated-All rest h.1)

  module _ (parse_cc_date : Text → Option ℕ) where
    latest_from-Dated :
        (us : List Upload) (ls : List (ℕ × Upload))
        → All P us
        → Dated ls
        → Dated (latest_from parse_cc_date ls us)
    latest_from-Dated [] ls a h = h
    latest_from-Dated (u ∷ us) ls a h =
        latest_from-Dated us (put_dated (date_in parse_cc_date u.due_date) u ls) a.1
          (put_dated-Dated (date_in parse_cc_date u.due_date) u ls a.0 h)

    pub latest_per_account-All :
        (us : List Upload) → All P us → All P (latest_per_account parse_cc_date us)
    unfolding latest_per_account
    latest_per_account-All us a =
        Dated-All (latest_from parse_cc_date [] us) (latest_from-Dated us [] a tt)

  -- Where one upload alone passes the test, it is one of the list.
  pub only_account-selected :
      (p : Upload → Bool) (us : List Upload) (a : ℕ)
      → All P us
      → only_account (select_uploads p us) ≡ some a
      → (u : Upload) × (u.account_id ≡ a) × P u × (p u ≡ true)
  only_account-selected p us a h e = go (select_uploads p us) (selected p us h) e
    where
      selected :
          (p : Upload → Bool) (us : List Upload)
          → All P us
          → All (λ (u : Upload). P u × (p u ≡ true)) (select_uploads p us)
      selected p [] h = tt
      selected p (u ∷ us) h = elim (Bool-cases (p u)) [
        | inl hit ↦ rw hit ((h.0, hit), selected p us h.1)
        | inr miss ↦ rw miss (selected p us h.1)
      ]

      go :
          (vs : List Upload)
          → All (λ (u : Upload). P u × (p u ≡ true)) vs
          → only_account vs ≡ some a
          → (u : Upload) × (u.account_id ≡ a) × P u × (p u ≡ true)
      go [] k e = cc
      go (u ∷ []) k e = (u, cc, k.0.0, k.0.1)
      go (u ∷ w ∷ vs) k e = cc

  pub upload_of-P :
      (id : ℕ) (us : List Upload) (w : Upload) → All P us → upload_of id us ≡ some w → P w
  upload_of-P id [] w h e = cc
  upload_of-P id (u ∷ us) w h e = elim (Bool-cases (eqb u.account_id id)) [
    | inl hit ↦ go u h.0 (rw hit at e)
    | inr miss ↦ upload_of-P id us w h.1 (rw miss at e)
  ]
    where
      go : (u : Upload) → P u → some u ≡ some w → P w
      go u p e = let same : u ≡ w = cc in subst P same p

select_uploads-In :
    (p : Upload → Bool) (us : List Upload) (w : Upload)
    → In w us
    → p w ≡ true
    → In w (select_uploads p us)
select_uploads-In p [] w i h = absurd i
select_uploads-In p (u ∷ us) w (inl e) h = rw (subst (λ x. p x ≡ true) e h) (inl e)
select_uploads-In p (u ∷ us) w (inr i) h = elim (Bool-cases (p u)) [
  | inl hit ↦ rw hit (inr (select_uploads-In p us w i h))
  | inr miss ↦ rw miss (select_uploads-In p us w i h)
]

-- Every statement of the list that passes the test is one of the card `a`.
abbrev pub Alone : (Upload → Bool) → List Upload → ℕ → Type 0
Alone p us a = (w : Upload) → In w us → p w ≡ true → w.account_id ≡ a

pub only_account-Alone :
    (p : Upload → Bool) (us : List Upload) (a : ℕ)
    → only_account (select_uploads p us) ≡ some a
    → Alone p us a
only_account-Alone p us a h w i k = go (select_uploads p us) h (select_uploads-In p us w i k)
  where
    go : (vs : List Upload) → only_account vs ≡ some a → In w vs → w.account_id ≡ a
    go [] e j = absurd j
    go (u ∷ []) e (inl same) =
        let own : u.account_id ≡ a = cc in ap (λ (x : Upload). x.account_id) same ∙ own
    go (u ∷ []) e (inr j) = absurd j
    go (u ∷ v ∷ vs) e j = cc

pub upload_of-account :
    (id : ℕ) (us : List Upload) (w : Upload) → upload_of id us ≡ some w → w.account_id ≡ id
upload_of-account id [] w e = cc
upload_of-account id (u ∷ us) w e = elim (Bool-cases (eqb u.account_id id)) [
  | inl hit ↦ let same : some u ≡ some w = rw hit at e in go u (ground arith) same
  | inr miss ↦ upload_of-account id us w (rw miss at e)
]
  where
    go : (u : Upload) → u.account_id ≡ id → some u ≡ some w → w.account_id ≡ id
    go u own e = let same : u ≡ w = cc in subst (λ (x : Upload). x.account_id ≡ id) same own

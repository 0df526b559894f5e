-- ===== src/Cycle/Rows.antt =====
-- The anchors of an account and the uploads that they stand for.
use bank_email_fetcher.Prelude.{
  ℕ, String, true, Option, none, some, List, [], ◌∷◌, ◌≡◌, ◌≢◌, refl, inl, inr, arith, All, In, eqb,
  Bool-cases, Option-cases, ap, sym, ◌∙◌,
}
use bank_email_fetcher.Cycle.{
  StatementUpload, Anchor, sort, due, anchors, window_between, cc_cycle_window,
}
use bank_email_fetcher.Cycle.Order.{IsDistinct, sort-IsDistinct, sort-In}
use bank_email_fetcher.Cycle.Places.{At, In-At, neighbours-At}

-- `id` is a primary key
abbrev pub HasKeys : List StatementUpload → Type 0
HasKeys [] = Unit
HasKeys (row ∷ rows) = All (λ r. r.id ≢ row.id) rows × HasKeys rows

module _ (parse_cc_date : String → Option ℕ) where
  All-anchors :
      (P : ℕ → Type 0) (account : ℕ) (rows : List StatementUpload)
      → All (λ r. P r.id) rows
      → All (λ a. P a.id) (anchors parse_cc_date account rows)
  unfolding anchors
  All-anchors P account [] h = tt
  All-anchors P account (row ∷ rows) h = elim (Bool-cases (eqb row.account_id account)) [
    | inr e ↦ rw e (All-anchors P account rows h.1)
    | inl e ↦ rw e (elim (Option-cases (due parse_cc_date row.due_date)) [
      | inl f ↦ rw f (All-anchors P account rows h.1)
      | inr (d, f) ↦ rw f (h.0, All-anchors P account rows h.1)
    ])
  ]

  anchors-IsDistinct :
      (account : ℕ) (rows : List StatementUpload)
      → HasKeys rows
      → IsDistinct (anchors parse_cc_date account rows)
  unfolding anchors
  anchors-IsDistinct account [] h = tt
  anchors-IsDistinct account (row ∷ rows) h = elim (Bool-cases (eqb row.account_id account)) [
    | inr e ↦ rw e (anchors-IsDistinct account rows h.1)
    | inl e ↦ rw e (elim (Option-cases (due parse_cc_date row.due_date)) [
      | inl f ↦ rw f (anchors-IsDistinct account rows h.1)
      | inr (d, f) ↦
          rw f
            (All-anchors (λ id. id ≢ row.id) account rows h.0, anchors-IsDistinct account rows h.1)
    ])
  ]

  -- the anchor of an upload that is due on `d`
  abbrev pub anchor_of : StatementUpload → ℕ → Anchor
  anchor_of row d = record { due = d; id = row.id; created_at = row.created_at }

  anchors-In :
      (rows : List StatementUpload) (row : StatementUpload) (account d : ℕ)
      → In row rows
      → row.account_id ≡ account
      → due parse_cc_date row.due_date ≡ some d
      → In (anchor_of row d) (anchors parse_cc_date account rows)
  unfolding anchors
  anchors-In [] row account d i same e = absurd i
  anchors-In (r ∷ rows) row account d (inl here) same e =
      let mine : eqb r.account_id account ≡ true =
        ap (λ x. eqb x account) (ap (λ x. x.account_id) (sym here) ∙ same) ∙ ground arith in
      let dated : due parse_cc_date r.due_date ≡ some d =
        ap (λ x. due parse_cc_date x.due_date) (sym here) ∙ e in
      rw mine (rw dated (inl (ap (λ x. anchor_of x d) here)))
  anchors-In (r ∷ rows) row account d (inr i) same e =
      let rest = anchors-In rows row account d i same e in
      elim (Bool-cases (eqb r.account_id account)) [
        | inr f ↦ rw f rest
        | inl f ↦ rw f (elim (Option-cases (due parse_cc_date r.due_date)) [
          | inl g ↦ rw g rest
          | inr (d', g) ↦ rw g (inr rest)
        ])
      ]

  -- the anchor stands for an upload of the account
  abbrev pub IsOf : ℕ → List StatementUpload → Anchor → Type 0
  IsOf account rows a =
      (row : StatementUpload) × In row rows
      × (row.account_id ≡ account)
      × (due parse_cc_date row.due_date ≡ some a.due)
      × (row.id ≡ a.id)

  later-IsOf :
      (account : ℕ) (r : StatementUpload) (rows : List StatementUpload) (a : Anchor)
      → IsOf account rows a
      → IsOf account (r ∷ rows) a
  later-IsOf account r rows a (row, i, owned, dated, same) = (row, inr i, owned, dated, same)

  pub In-anchors :
      (account : ℕ) (rows : List StatementUpload) (a : Anchor)
      → In a (anchors parse_cc_date account rows)
      → IsOf account rows a
  unfolding anchors
  In-anchors account [] a i = absurd i
  In-anchors account (r ∷ rows) a i = elim (Bool-cases (eqb r.account_id account)) [
    | inr f ↦ later-IsOf account r rows a (In-anchors account rows a (rw f at i))
    | inl f ↦ elim (Option-cases (due parse_cc_date r.due_date)) [
      | inl g ↦ later-IsOf account r rows a (In-anchors account rows a (rw (f, g) at i))
      | inr (d, g) ↦ elim (rw (f, g) at i) [
        | inl same ↦ (
          r,
          inl refl,
          ground arith,
          g ∙ ap some (sym (ap (λ x. x.due) same)),
          sym (ap (λ x. x.id) same),
        )
        | inr j ↦ later-IsOf account r rows a (In-anchors account rows a j)
      ]
    ]
  ]

  module _ (rows : List StatementUpload) (keys : HasKeys rows) where
    abbrev pub ordered : ℕ → List Anchor
    ordered account = sort (anchors parse_cc_date account rows)

    -- an anchored upload stands among the sorted anchors of its account
    pub placed :
        (row : StatementUpload) (d : ℕ)
        → In row rows
        → due parse_cc_date row.due_date ≡ some d
        → (p : Option Anchor) × (n : Option Anchor) × At none
            (ordered row.account_id)
            p
            (anchor_of row d)
            n
    placed row d i e = In-At none (ordered row.account_id) (anchor_of row d) (
        sort-In (anchor_of row d) (anchors parse_cc_date row.account_id rows)
          (anchors-In rows row row.account_id d i refl e))

    -- and its window lies between its neighbours
    pub cc_cycle_window-At :
        (now : ℕ) (row : StatementUpload) (p : Option Anchor) (b : Anchor) (n : Option Anchor)
        → due parse_cc_date row.due_date ≡ some b.due
        → row.id ≡ b.id
        → At none (ordered row.account_id) p b n
        → cc_cycle_window parse_cc_date now rows row ≡ window_between now row b.due (some (p, n))
    unfolding cc_cycle_window
    cc_cycle_window-At now row p b n e same h = rw e (
        rw same (
          rw
            (neighbours-At none (ordered row.account_id) p b n
              (sort-IsDistinct (anchors parse_cc_date row.account_id rows)
                (anchors-IsDistinct row.account_id rows keys))
              h)
            refl))

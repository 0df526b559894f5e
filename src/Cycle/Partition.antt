-- ===== src/Cycle/Partition.antt =====
-- The windows of the anchored statements of an account neither overlap nor leave a gap.
use mathlib.Core.Path.{subst}
use bank_email_fetcher.Prelude.{
  ℕ, suc, ◌≤◌, ◌<◌, String, true, Option, none, some, List, [], ◌∷◌, ◌≡◌, ◌⊎◌, refl, sym, inl, inr,
  arith, In, leb, ltb, eqb, Bool-cases, Option-cases,
}
use bank_email_fetcher.Cycle.{
  StatementUpload, CycleWindow, Anchor, due, anchors, boundary, in_window, window_between, is_below,
  end_of, cc_cycle_window, date_of, transactions_in_cycle,
}
use bank_email_fetcher.Cycle.Order.{sort-IsSorted, In-sort}
use bank_email_fetcher.Cycle.Places.{At, At-In, At-IsApart, IsApart}
use bank_email_fetcher.Cycle.Rows.{
  HasKeys, anchor_of, ordered, placed, cc_cycle_window-At, In-anchors,
}

-- no date is both before the end of the one window and after the start of the other
apart-windows :
    (now d : ℕ) (u v : StatementUpload) (p : Option Anchor) (a : Anchor) (n : Option Anchor)
    (p' : Option Anchor) (b : Anchor) (n' : Option Anchor)
    → IsApart a n p'
    → in_window d (window_between now u a.due (some (p, n))) ≡ true
    → in_window d (window_between now v b.due (some (p', n'))) ≡ true
    → ⊥
unfolding boundary
apart-windows now d u v p a n p' b n' (m, r, e, f, le) h k =
    let below : ltb d (suc a.due) ≡ true = ground (arith, rw e at h) in
    let above : leb (suc r.due) d ≡ true = ground (arith, rw f at k) in ground arith

module _ (parse_cc_date : String → Option ℕ) (now : ℕ) (uploads : List StatementUpload)
    (keys : HasKeys uploads) where
  -- A date lies in the windows of two statements of one account, each with a due date that reads as
  -- one, only where the two are the same statement; due dates may be equal.
  pub cc_cycle_window_unique :
      (d due_u due_v : ℕ) (u v : StatementUpload)
      → In u uploads
      → In v uploads
      → u.account_id ≡ v.account_id
      → due parse_cc_date u.due_date ≡ some due_u
      → due parse_cc_date v.due_date ≡ some due_v
      → in_window d (cc_cycle_window parse_cc_date now uploads u) ≡ true
      → in_window d (cc_cycle_window parse_cc_date now uploads v) ≡ true
      → u.id ≡ v.id
  cc_cycle_window_unique d due_u due_v u v i j same e f h k = elim (Bool-cases (eqb u.id v.id)) [
    | inl yes_same ↦ ground arith
    | inr differ ↦
        let a = anchor_of parse_cc_date u due_u in
        let b = anchor_of parse_cc_date v due_v in
        let (p, n, at_u) = placed parse_cc_date uploads keys u due_u i e in
        let (p', n', at_v) = placed parse_cc_date uploads keys v due_v j f in
        let in_u =
          rw (cc_cycle_window-At parse_cc_date uploads keys now u p a n e refl at_u) at h in
        let in_v =
          rw (cc_cycle_window-At parse_cc_date uploads keys now v p' b n' f refl at_v) at k in
        let at_u' =
          subst (λ account. At none (ordered parse_cc_date uploads keys account) p a n) same at_u in
        absurd
          (elim (At-IsApart none (ordered parse_cc_date uploads keys v.account_id) p a n p' b n'
            (sort-IsSorted (anchors parse_cc_date v.account_id uploads)) at_u' at_v
            (λ eq. ground arith)) [
              | inl z ↦ apart-windows now d u v p a n p' b n' z in_u in_v
              | inr z ↦ apart-windows now d v u p' b n' p a n z in_v in_u
            ])
  ]

-- the window of a place that starts the day after the anchor before it, and takes in `d`
abbrev IsCover : ℕ → Option Anchor → List Anchor → Type 0
IsCover d prev xs =
    (p : Option Anchor) × (b : Anchor) × (n : Option Anchor) × (r : Anchor) × At prev xs p b n
    × (p ≡ some r)
    × (r.due < d)
    × ((d ≤ b.due) ⊎ (n ≡ none))

later-IsCover :
    (d : ℕ) (prev : Option Anchor) (a : Anchor) (xs : List Anchor)
    → IsCover d (some a) xs
    → IsCover d prev (a ∷ xs)
later-IsCover d prev a xs (p, b, n, r, place, e, after, covers) =
    (p, b, n, r, inr place, e, after, covers)

-- Where `d` is past the due date of `q`, one of the places after `q` takes it in.
IsCover-after : (d : ℕ) (q c : Anchor) (xs : List Anchor) → q.due < d → IsCover d (some q) (c ∷ xs)
IsCover-after d q c [] h = (some q, c, none, q, inl (refl, refl, refl), refl, h, inr refl)
IsCover-after d q c (e ∷ xs) h = elim (Bool-cases (leb d c.due)) [
  | inl before_due ↦ (some q, c, some e, q, inl (refl, refl, refl), refl, h, inl (ground arith))
  | inr past ↦ later-IsCover d (some q) c (e ∷ xs) (IsCover-after d c e xs (ground arith))
]

-- A place takes in `d`, or a later one does.
IsCover-from :
    (d : ℕ) (prev : Option Anchor) (xs : List Anchor) (p : Option Anchor) (b : Anchor)
    (n : Option Anchor)
    → At prev xs p b n
    → ((d ≤ b.due) ⊎ (n ≡ none)) ⊎ IsCover d prev xs
IsCover-from d prev [] p b n h = absurd h
IsCover-from d prev (a ∷ []) p b n (inl h) = inl (inr h.2)
IsCover-from d prev (a ∷ c ∷ xs) p b n (inl h) = elim (Bool-cases (leb d a.due)) [
  | inl before_due ↦ inl (inl (rw h.1 (ground arith)))
  | inr past ↦ inr (later-IsCover d prev a (c ∷ xs) (IsCover-after d a c xs (ground arith)))
]
IsCover-from d prev (a ∷ xs) p b n (inr h) = elim (IsCover-from d (some a) xs p b n h) [
  | inl here ↦ inl here
  | inr cover ↦ inr (later-IsCover d prev a xs cover)
]

end-covers :
    (d this_due : ℕ) (n : Option Anchor)
    → (d ≤ this_due) ⊎ (n ≡ none)
    → is_below d (end_of this_due n) ≡ true
unfolding boundary
end-covers d this_due none h = refl
end-covers d this_due (some m) (inl le) = ground arith
end-covers d this_due (some m) (inr never) = cc

start-covers :
    (now d : ℕ) (v : StatementUpload) (b r : Anchor) (n : Option Anchor)
    → r.due < d
    → (d ≤ b.due) ⊎ (n ≡ none)
    → in_window d (window_between now v b.due (some (some r, n))) ≡ true
unfolding boundary
start-covers now d v b r n after covers = ground (arith, end-covers d b.due n covers)

module _ (parse_cc_date : String → Option ℕ) (now : ℕ) (uploads : List StatementUpload)
    (keys : HasKeys uploads) where
  -- Every date from the start of the window of a statement on, whose due date reads as one, lies in
  -- the window of some statement of the same account: there is no gap between two windows, and none
  -- after the last one.
  pub cc_cycle_window_covers :
      (d due_u : ℕ) (u : StatementUpload)
      → In u uploads
      → due parse_cc_date u.due_date ≡ some due_u
      → (cc_cycle_window parse_cc_date now uploads u).start ≤ d
      → (v : StatementUpload) × In v uploads
        × (v.account_id ≡ u.account_id)
        × (in_window d (cc_cycle_window parse_cc_date now uploads v) ≡ true)
  cc_cycle_window_covers d due_u u i e started =
      let a = anchor_of parse_cc_date u due_u in
      let xs = ordered parse_cc_date uploads keys u.account_id in
      let (p, n, at_u) = placed parse_cc_date uploads keys u due_u i e in
      let window_u = cc_cycle_window-At parse_cc_date uploads keys now u p a n e refl at_u in
      elim (IsCover-from d none xs p a n at_u) [
        | inl here ↦ (
          u,
          i,
          refl,
          rw window_u (ground (arith, rw window_u at started, end-covers d due_u n here)),
        )
        | inr (q, b, m, r, place, after_r, after, covers) ↦
            let (v, j, same, dated, keyed) = In-anchors parse_cc_date u.account_id uploads b (
              In-sort b (anchors parse_cc_date u.account_id uploads) (At-In none xs q b m place)) in
            let place' =
              subst (λ account. At none (ordered parse_cc_date uploads keys account) q b m)
                (sym same) place in
            (
              v,
              j,
              same,
              rw (cc_cycle_window-At parse_cc_date uploads keys now v q b m dated keyed place')
                  (rw after_r (start-covers now d v b r m after covers)),
            )
      ]

-- A row without a date is placed as a row of the day on which it was created.
pub transactions_in_cycle-dateless :
    (window : CycleWindow) (created_at : ℕ)
    → transactions_in_cycle window none created_at
      ≡ transactions_in_cycle window (some (date_of created_at)) created_at
unfolding transactions_in_cycle
transactions_in_cycle-dateless window created_at = elim (Option-cases window.end) [
  | inl e ↦ rw e (ground arith)
  | inr (x, e) ↦ rw e (ground arith)
]

-- ===== src/Merge/Lists.antt =====
-- The list functions of the matcher: what they keep is in the list.
use mathlib.Core.Path.{subst}
use bank_email_fetcher.Prelude.{
  Bool, true, false, if◌then◌else◌, some, List, [], ◌∷◌, ◌≡◌, sym, inl, inr, In, Bool-cases,
}
use bank_email_fetcher.Merge.Row.{Transaction}
use bank_email_fetcher.Merge.Match.{keep, or_keep}
use bank_email_fetcher.Merge.Find.{first_two, the_only}

module _ (p : Transaction → Bool) where
  pub In-keep :
      (xs : List Transaction) (x : Transaction) → In x (keep p xs) → In x xs × (p x ≡ true)
  In-keep [] x i = absurd i
  In-keep (y ∷ xs) x i = elim (Bool-cases (p y)) [
    | inl hit ↦ elim (rw hit at i) [
      | inl e ↦ (inl e, subst (λ z. p z ≡ true) (sym e) hit)
      | inr j ↦ let (k, m) = In-keep xs x j in (inr k, m)
    ]
    | inr miss ↦ let (k, m) = In-keep xs x (rw miss at i) in (inr k, m)
  ]

  pub keep-In : (xs : List Transaction) (x : Transaction) → In x xs → p x ≡ true → In x (keep p xs)
  keep-In [] x i h = absurd i
  keep-In (y ∷ xs) x (inl e) h = rw (subst (λ z. p z ≡ true) e h) (inl e)
  keep-In (y ∷ xs) x (inr i) h = elim (Bool-cases (p y)) [
    | inl hit ↦ rw hit (inr (keep-In xs x i h))
    | inr miss ↦ rw miss (keep-In xs x i h)
  ]

pub In-or_keep :
    (xs ys zs : List Transaction) (x : Transaction)
    → (In x xs → In x zs)
    → (In x ys → In x zs)
    → In x (or_keep xs ys)
    → In x zs
In-or_keep [] ys zs x f g i = g i
In-or_keep (y ∷ xs) ys zs x f g i = f i

pub In-first_two : (xs : List Transaction) (x : Transaction) → In x (first_two xs) → In x xs
In-first_two [] x i = i
In-first_two (c ∷ []) x i = i
In-first_two (c ∷ e ∷ cs) x (inl h) = inl h
In-first_two (c ∷ e ∷ cs) x (inr (inl h)) = inr (inl h)
In-first_two (c ∷ e ∷ cs) x (inr (inr h)) = absurd h

pub In-the_only : (xs : List Transaction) (x : Transaction) → the_only xs ≡ some x → In x xs
In-the_only [] x h = cc
In-the_only (y ∷ []) x h = inl (cc)
In-the_only (y ∷ z ∷ xs) x h = cc

pub In-if :
    (b : Bool) (xs ys zs : List Transaction) (x : Transaction)
    → (In x xs → In x zs)
    → (In x ys → In x zs)
    → In x (if b then xs else ys)
    → In x zs
In-if true xs ys zs x f g i = f i
In-if false xs ys zs x f g i = g i

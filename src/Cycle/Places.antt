-- ===== src/Cycle/Places.antt =====
-- Where an anchor stands among the sorted anchors, and between which others.
use bank_email_fetcher.Prelude.{
  ℕ, ◌≤◌, true, false, Option, some, List, [], ◌∷◌, ◌≡◌, ◌≢◌, ◌⊎◌, refl, sym, ◌∙◌, ap, inl, inr,
  arith, In, eqb,
}
use bank_email_fetcher.Cycle.{Anchor, head, neighbours}
use bank_email_fetcher.Cycle.Order.{Above, IsSorted, Fresh, IsDistinct}

-- the anchor `b` stands in the list, between `p` and `n`; before the list stands `prev`
abbrev pub At : Option Anchor → List Anchor → Option Anchor → Anchor → Option Anchor → Type 0
At prev [] p b n = ⊥
At prev (a ∷ xs) p b n = ((p ≡ prev) × (b ≡ a) × (n ≡ head xs)) ⊎ At (some a) xs p b n

pub In-At :
    (prev : Option Anchor) (xs : List Anchor) (b : Anchor)
    → In b xs
    → (p : Option Anchor) × (n : Option Anchor) × At prev xs p b n
In-At prev [] b i = absurd i
In-At prev (a ∷ xs) b (inl same) = (prev, head xs, inl (refl, same, refl))
In-At prev (a ∷ xs) b (inr i) = let (p, n, h) = In-At (some a) xs b i in (p, n, inr h)

pub At-In :
    (prev : Option Anchor) (xs : List Anchor) (p : Option Anchor) (b : Anchor) (n : Option Anchor)
    → At prev xs p b n
    → In b xs
At-In prev [] p b n h = absurd h
At-In prev (a ∷ xs) p b n (inl h) = inl h.1
At-In prev (a ∷ xs) p b n (inr h) = inr (At-In (some a) xs p b n h)

At-Above :
    (q : Anchor) (xs : List Anchor) (p : Option Anchor) (b : Anchor) (n : Option Anchor)
    → Above q.due xs
    → IsSorted xs
    → At (some q) xs p b n
    → (r : Anchor) × (p ≡ some r) × (q.due ≤ r.due)
At-Above q [] p b n above sorted h = absurd h
At-Above q (a ∷ xs) p b n above sorted (inl h) = (q, h.0, omega arith)
At-Above q (a ∷ xs) p b n above sorted (inr h) =
    let (r, e, le) = At-Above a xs p b n sorted.0 sorted.1 h in (r, e, omega (arith, above.0, le))

head-some :
    (prev : Option Anchor) (xs : List Anchor) (p : Option Anchor) (b : Anchor) (n : Option Anchor)
    → At prev xs p b n
    → (m : Anchor) × (head xs ≡ some m)
head-some prev [] p b n h = absurd h
head-some prev (a ∷ xs) p b n h = (a, refl)

-- `b` has a next anchor, and the anchor before the other place is due no earlier than `b`
abbrev pub IsApart : Anchor → Option Anchor → Option Anchor → Type 0
IsApart b n p = (m : Anchor) × (r : Anchor) × (n ≡ some m) × (p ≡ some r) × (b.due ≤ r.due)

pub At-IsApart :
    (prev : Option Anchor) (xs : List Anchor) (p : Option Anchor) (b : Anchor) (n : Option Anchor)
    (p' : Option Anchor) (b' : Anchor) (n' : Option Anchor)
    → IsSorted xs
    → At prev xs p b n
    → At prev xs p' b' n'
    → b.id ≢ b'.id
    → IsApart b n p' ⊎ IsApart b' n' p
At-IsApart prev [] p b n p' b' n' sorted h k differ = absurd h
At-IsApart prev (a ∷ xs) p b n p' b' n' sorted (inl h) (inl k) differ =
    absurd (differ (ap (λ c. c.id) (h.1 ∙ sym k.1)))
At-IsApart prev (a ∷ xs) p b n p' b' n' sorted (inl h) (inr k) differ =
    let (r, e, le) = At-Above a xs p' b' n' sorted.0 sorted.1 k in
    let (m, f) = head-some (some a) xs p' b' n' k in inl (m, r, h.2 ∙ f, e, rw h.1 le)
At-IsApart prev (a ∷ xs) p b n p' b' n' sorted (inr h) (inl k) differ =
    let (r, e, le) = At-Above a xs p b n sorted.0 sorted.1 h in
    let (m, f) = head-some (some a) xs p b n h in inr (m, r, k.2 ∙ f, e, rw k.1 le)
At-IsApart prev (a ∷ xs) p b n p' b' n' sorted (inr h) (inr k) differ =
    At-IsApart (some a) xs p b n p' b' n' sorted.1 h k differ

In-Fresh : (id : ℕ) (xs : List Anchor) (b : Anchor) → Fresh id xs → In b xs → b.id ≢ id
In-Fresh id [] b f i = absurd i
In-Fresh id (a ∷ xs) b f (inl same) = rw same f.0
In-Fresh id (a ∷ xs) b f (inr i) = In-Fresh id xs b f.1 i

pub neighbours-At :
    (prev : Option Anchor) (xs : List Anchor) (p : Option Anchor) (b : Anchor) (n : Option Anchor)
    → IsDistinct xs
    → At prev xs p b n
    → neighbours b.id prev xs ≡ some (p, n)
unfolding neighbours
neighbours-At prev [] p b n d h = absurd h
neighbours-At prev (a ∷ xs) p b n d (inl h) =
    let same : eqb a.id b.id ≡ true = rw h.1 (ground arith) in rw same (rw (h.0, h.2) refl)
neighbours-At prev (a ∷ xs) p b n d (inr h) =
    let other : b.id ≢ a.id = In-Fresh a.id xs b d.0 (At-In (some a) xs p b n h) in
    let differ : eqb a.id b.id ≡ false = ground arith in
    rw differ (neighbours-At (some a) xs p b n d.1 h)

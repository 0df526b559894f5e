-- ===== src/Cycle/Order.antt =====
-- The anchors in the order of their due dates: what sorting keeps.
use bank_email_fetcher.Prelude.{
  ℕ, ◌≤◌, List, [], ◌∷◌, ◌≡◌, ◌≢◌, ◌⊎◌, sym, inl, inr, arith, All, In, Bool-cases,
}
use bank_email_fetcher.Cycle.{Anchor, before, insert, sort}

-- sorted by the due date
abbrev pub Above : ℕ → List Anchor → Type 0
Above d = All (λ a. d ≤ a.due)

abbrev pub IsSorted : List Anchor → Type 0
IsSorted [] = Unit
IsSorted (a ∷ xs) = Above a.due xs × IsSorted xs

-- no id stands there twice
abbrev pub Fresh : ℕ → List Anchor → Type 0
Fresh id = All (λ a. a.id ≢ id)

abbrev pub IsDistinct : List Anchor → Type 0
IsDistinct [] = Unit
IsDistinct (a ∷ xs) = Fresh a.id xs × IsDistinct xs

Above-mono : (d e : ℕ) (xs : List Anchor) → d ≤ e → Above e xs → Above d xs
Above-mono d e [] h k = tt
Above-mono d e (a ∷ xs) h k = (omega (arith, h, k.0), Above-mono d e xs h k.1)

All-insert :
    (P : Anchor → Type 0) (a : Anchor) (xs : List Anchor) → P a → All P xs → All P (insert a xs)
unfolding insert
All-insert P a [] p h = (p, tt)
All-insert P a (b ∷ xs) p h = elim (Bool-cases (before a b)) [
  | inl e ↦ rw e (p, h)
  | inr e ↦ rw e (h.0, All-insert P a xs p h.1)
]

insert-IsSorted : (a : Anchor) (xs : List Anchor) → IsSorted xs → IsSorted (insert a xs)
unfolding insert
insert-IsSorted a [] h = (tt, tt)
insert-IsSorted a (b ∷ xs) h = elim (Bool-cases (before a b)) [
  | inl e ↦
      let le : a.due ≤ b.due = unfold before in ground arith in
      rw e ((le, Above-mono a.due b.due xs le h.0), h)
  | inr e ↦
      let le : b.due ≤ a.due = unfold before in ground arith in
      rw e (All-insert (λ c. b.due ≤ c.due) a xs le h.0, insert-IsSorted a xs h.1)
]

pub sort-IsSorted : (xs : List Anchor) → IsSorted (sort xs)
unfolding sort
sort-IsSorted [] = tt
sort-IsSorted (a ∷ xs) = insert-IsSorted a (sort xs) (sort-IsSorted xs)

All-sort : (P : Anchor → Type 0) (xs : List Anchor) → All P xs → All P (sort xs)
unfolding sort
All-sort P [] h = tt
All-sort P (a ∷ xs) h = All-insert P a (sort xs) h.0 (All-sort P xs h.1)

insert-IsDistinct :
    (a : Anchor) (xs : List Anchor) → Fresh a.id xs → IsDistinct xs → IsDistinct (insert a xs)
unfolding insert
insert-IsDistinct a [] f h = (tt, tt)
insert-IsDistinct a (b ∷ xs) f h = elim (Bool-cases (before a b)) [
  | inl e ↦ rw e (f, h)
  | inr e ↦ rw e (
    All-insert (λ c. c.id ≢ b.id) a xs (λ same. f.0 (sym same)) h.0,
    insert-IsDistinct a xs f.1 h.1,
  )
]

pub sort-IsDistinct : (xs : List Anchor) → IsDistinct xs → IsDistinct (sort xs)
unfolding sort
sort-IsDistinct [] h = tt
sort-IsDistinct (a ∷ xs) h =
    insert-IsDistinct a (sort xs) (All-sort (λ b. b.id ≢ a.id) xs h.0) (sort-IsDistinct xs h.1)

In-insert : (a b : Anchor) (xs : List Anchor) → In b (insert a xs) → (b ≡ a) ⊎ In b xs
unfolding insert
In-insert a b [] i = i
In-insert a b (c ∷ xs) i = elim (Bool-cases (before a c)) [
  | inl e ↦ rw e at i
  | inr e ↦ elim (rw e at i) [
    | inl same ↦ inr (inl same)
    | inr j ↦ elim (In-insert a b xs j) [ inl same ↦ inl same | inr k ↦ inr (inr k) ]
  ]
]

pub In-sort : (b : Anchor) (xs : List Anchor) → In b (sort xs) → In b xs
unfolding sort
In-sort b [] i = i
In-sort b (a ∷ xs) i = elim (In-insert a b (sort xs) i) [
  | inl same ↦ inl same
  | inr j ↦ inr (In-sort b xs j)
]

insert-In : (a b : Anchor) (xs : List Anchor) → (b ≡ a) ⊎ In b xs → In b (insert a xs)
unfolding insert
insert-In a b [] i = i
insert-In a b (c ∷ xs) i = elim (Bool-cases (before a c)) [
  | inl e ↦ rw e i
  | inr e ↦ elim i [
    | inl same ↦ rw e (inr (insert-In a b xs (inl same)))
    | inr j ↦ elim j [ inl same ↦ rw e (inl same) | inr k ↦ rw e (inr (insert-In a b xs (inr k))) ]
  ]
]

pub sort-In : (b : Anchor) (xs : List Anchor) → In b xs → In b (sort xs)
unfolding sort
sort-In b [] i = i
sort-In b (a ∷ xs) (inl same) = insert-In a b (sort xs) (inl same)
sort-In b (a ∷ xs) (inr i) = insert-In a b (sort xs) (inr (sort-In b xs i))

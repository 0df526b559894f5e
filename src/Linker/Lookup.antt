-- ===== src/Linker/Lookup.antt =====
-- What the searches of the linker find is what they search.
use mathlib.Core.Path.{subst}
use bank_email_fetcher.Prelude.{
  ℕ, true, Option, none, some, List, [], ◌∷◌, ◌≡◌, sym, inl, inr, All, In, Bool-cases,
}
use bank_email_fetcher.Masks.{mask_matches}
use bank_email_fetcher.Linker.Context.{Text, CardEntry, AccountEntry, LinkContext}
use bank_email_fetcher.Linker.Link.{
  the_only, matching_cards, matching_accounts, find_card_match, of_type, narrowed, has_type,
}

pub In-All : {A : Type 0} (P : A → Type 0) (xs : List A) (x : A) → All P xs → In x xs → P x
In-All P [] x h i = absurd i
In-All P (y ∷ ys) x h (inl e) = subst P (sym e) h.0
In-All P (y ∷ ys) x h (inr i) = In-All P ys x h.1 i

pub the_only-In : {A : Type 0} (xs : List A) (x : A) → the_only xs ≡ some x → In x xs
the_only-In [] x h = cc
the_only-In (y ∷ []) x h = inl (cc)
the_only-In (y ∷ z ∷ xs) x h = cc

pub the_only_unique : {A : Type 0} (xs : List A) (x y : A) → the_only xs ≡ some x → In y xs → y ≡ x
the_only_unique [] x y h i = absurd i
the_only_unique (z ∷ []) x y h (inl e) = cc
the_only_unique (z ∷ []) x y h (inr i) = absurd i
the_only_unique (z ∷ w ∷ xs) x y h i = cc

pub In-matching_cards :
    (incoming : Text) (xs : List CardEntry) (x : CardEntry)
    → In x (matching_cards incoming xs)
    → In x xs × (mask_matches incoming x.mask ≡ true)
In-matching_cards incoming [] x i = absurd i
In-matching_cards incoming (y ∷ xs) x i = elim (Bool-cases (mask_matches incoming y.mask)) [
  | inl hit ↦ elim (rw hit at i) [
    | inl e ↦ (inl e, rw e hit)
    | inr j ↦ let (k, m) = In-matching_cards incoming xs x j in (inr k, m)
  ]
  | inr miss ↦ let (k, m) = In-matching_cards incoming xs x (rw miss at i) in (inr k, m)
]

pub matching_cards-In :
    (incoming : Text) (xs : List CardEntry) (x : CardEntry)
    → In x xs
    → mask_matches incoming x.mask ≡ true
    → In x (matching_cards incoming xs)
matching_cards-In incoming [] x i m = absurd i
matching_cards-In incoming (y ∷ xs) x (inl e) m = rw (rw e at m) (inl e)
matching_cards-In incoming (y ∷ xs) x (inr i) m = elim (Bool-cases (mask_matches incoming y.mask)) [
  | inl hit ↦ rw hit (inr (matching_cards-In incoming xs x i m))
  | inr miss ↦ rw miss (matching_cards-In incoming xs x i m)
]

pub In-matching_accounts :
    (incoming : Text) (xs : List AccountEntry) (x : AccountEntry)
    → In x (matching_accounts incoming xs)
    → In x xs × (mask_matches incoming x.mask ≡ true)
In-matching_accounts incoming [] x i = absurd i
In-matching_accounts incoming (y ∷ xs) x i = elim (Bool-cases (mask_matches incoming y.mask)) [
  | inl hit ↦ elim (rw hit at i) [
    | inl e ↦ (inl e, rw e hit)
    | inr j ↦ let (k, m) = In-matching_accounts incoming xs x j in (inr k, m)
  ]
  | inr miss ↦ let (k, m) = In-matching_accounts incoming xs x (rw miss at i) in (inr k, m)
]

pub In-of_type :
    (ctx : LinkContext) (expected : Text) (ids : List ℕ) (a : ℕ)
    → In a (of_type ctx expected ids)
    → In a ids
In-of_type ctx expected [] a i = absurd i
In-of_type ctx expected (id ∷ ids) a i =
    elim (Bool-cases (has_type expected (ctx.account_types id))) [
      | inl fits ↦ elim (rw fits at i) [
        | inl e ↦ inl e
        | inr j ↦ inr (In-of_type ctx expected ids a j)
      ]
      | inr other ↦ inr (In-of_type ctx expected ids a (rw other at i))
    ]

pub In-narrowed :
    (ctx : LinkContext) (expected : Option Text) (ids : List ℕ) (a : ℕ)
    → In a (narrowed ctx expected ids)
    → In a ids
In-narrowed ctx none ids a i = i
In-narrowed ctx (some expected) ids a i = In-of_type ctx expected ids a i

-- A card is found only where it is the one entry of the bank that the mask matches.
pub find_card_match_unique :
    (ctx : LinkContext) (key incoming : Text) (hit other : CardEntry)
    → find_card_match ctx key incoming ≡ some hit
    → In other (ctx.cards_by_bank key)
    → mask_matches incoming other.mask ≡ true
    → other ≡ hit
unfolding find_card_match
find_card_match_unique ctx key incoming hit other h i m =
    the_only_unique (matching_cards incoming (ctx.cards_by_bank key)) hit other h
      (matching_cards-In incoming (ctx.cards_by_bank key) other i m)

-- ===== src/Cashflow/Scopes.antt =====
-- The scopes of financial_dashboard/services/cashflow/scope.py partition the rows, and the buckets of
-- buckets.py agree with the clauses of report.py.
use mathlib.Core.Path.{subst}
use bank_email_fetcher.Prelude.{
  ℕ, String, Bool, true, false, ◌&&◌, ◌||◌, not, Option, none, some, List, [], ◌∷◌, ◌≡◌, ◌≢◌, ◌⊎◌,
  refl, sym, ap, arith, All, Bool-cases, inl, inr, str_eq, eq_iff, eqb, codes, is_empty,
  if◌then◌else◌,
}
use bank_email_fetcher.Categorize.Polarity.{mem, expense_slugs, income_slugs}
use bank_email_fetcher.Cashflow.Buckets.{
  Scope, bank, card, unaccounted, Bucket, income, expense, investment, transfers_in, family,
  internal, uncategorized, contra_expense_slugs, internal_slugs, investment_bucket,
  in_expense_bucket, in_income_bucket, bucket_by_slug, or_uncategorized, is_bank, bucket_of_text,
  bucket_for_slug,
}
use bank_email_fetcher.Cashflow.Rows.{
  Account, Row, linked_to, is_bank_type, is_card_type, is_known_type, in_scope, all_blank,
  is_uncategorized,
}

-- An id names one account.
abbrev pub IsKeyed : List Account → Type 0
IsKeyed [] = Unit
IsKeyed (a ∷ accounts) = All (λ (b : Account). b.id ≢ a.id) accounts × IsKeyed accounts

linked_to-absent :
    (types : String → Bool) (accounts : List Account) (id : ℕ)
    → All (λ (b : Account). b.id ≢ id) accounts
    → linked_to types accounts (some id) ≡ false
unfolding linked_to
linked_to-absent types [] id h = refl
linked_to-absent types (a ∷ accounts) id h =
    ground (arith, h.0, linked_to-absent types accounts id h.1)

spread : (m p q x y : Bool) → (m && (p || q) || (x || y)) ≡ ((m && p || x) || (m && q || y))
spread true true q x y = refl
spread true false true true y = refl
spread true false true false y = refl
spread true false false x y = refl
spread false p q x y = refl

linked_to-known :
    (accounts : List Account) (id : Option ℕ)
    → linked_to is_known_type accounts id
      ≡ (linked_to is_bank_type accounts id || linked_to is_card_type accounts id)
unfolding linked_to
linked_to-known accounts none = refl
linked_to-known [] (some id) = refl
linked_to-known (a ∷ accounts) (some id) = rw (linked_to-known accounts (some id)) (
    spread (eqb a.id id) (is_bank_type a.type) (is_card_type a.type)
      (linked_to is_bank_type accounts (some id)) (linked_to is_card_type accounts (some id)))

not_both_types : (t : String) → is_bank_type t ≡ true → is_card_type t ≡ false
not_both_types t h = elim (Bool-cases (str_eq t "credit_card")) [
  | inl is ↦
      let e : t ≡ "credit_card" = (eq_iff t "credit_card").0 is in
      let f : is_bank_type "credit_card" ≡ true = subst (λ x. is_bank_type x ≡ true) e h in cc
  | inr other ↦ other
]

not_both :
    (accounts : List Account) (id : Option ℕ)
    → IsKeyed accounts
    → linked_to is_bank_type accounts id ≡ true
    → linked_to is_card_type accounts id ≡ false
unfolding linked_to
not_both accounts none keyed h = refl
not_both [] (some id) keyed h = refl
not_both (a ∷ accounts) (some id) keyed h = elim (Bool-cases (eqb a.id id)) [
  | inl here ↦
      let e : a.id ≡ id = ground arith in
      let absent = subst (λ x. All (λ (b : Account). b.id ≢ x) accounts) e keyed.0 in
      ground (
        arith,
        not_both_types a.type,
        linked_to-absent is_bank_type accounts id absent,
        linked_to-absent is_card_type accounts id absent,
      )
  | inr there ↦ ground (arith, not_both accounts (some id) keyed.1)
]

-- exactly one of three tests
abbrev pub IsOneOf : Bool → Bool → Bool → Type 0
IsOneOf a b c =
    ((a ≡ true) × (b ≡ false) × (c ≡ false))
    ⊎ ((a ≡ false) × (b ≡ true) × (c ≡ false))
    ⊎ ((a ≡ false) × (b ≡ false) × (c ≡ true))

one_of : (a b c : Bool) → c ≡ (a || b) → (a ≡ true → b ≡ false) → IsOneOf a b (not c)
one_of true true c h k = let f : true ≡ false = k refl in cc
one_of true false c h k = inl (refl, refl, rw h)
one_of false true c h k = inr (inl (refl, refl, rw h))
one_of false false c h k = inr (inr (refl, refl, rw h))

-- Where ids of accounts are unique, every row is in exactly one of the scopes bank, card and
-- unaccounted: also a row on no account, on an account that is gone, or on one of an unknown type.
pub in_scope-partition :
    (accounts : List Account) (r : Row)
    → IsKeyed accounts
    → IsOneOf
        (in_scope accounts bank r)
        (in_scope accounts card r)
        (in_scope accounts unaccounted r)
unfolding in_scope
in_scope-partition accounts r keyed =
    one_of _ _ _ (linked_to-known accounts r.account_id) (not_both accounts r.account_id keyed)

abbrev none_blank : List String → Bool
none_blank [] = true
none_blank (t ∷ slugs) = not (all_blank (codes t)) && none_blank slugs

-- A blank text is none of the slugs that the map knows.
str_eq-blank :
    (s t : String) → all_blank (codes s) ≡ true → all_blank (codes t) ≡ false → str_eq s t ≡ false
str_eq-blank s t blank h = elim (Bool-cases (str_eq s t)) [
  | inl same ↦
      let e : s ≡ t = (eq_iff s t).0 same in
      let f : all_blank (codes t) ≡ true = subst (λ x. all_blank (codes x) ≡ true) e blank in cc
  | inr other ↦ other
]

mem-blank :
    (s : String) (slugs : List String)
    → all_blank (codes s) ≡ true
    → none_blank slugs ≡ true
    → mem s slugs ≡ false
mem-blank s [] blank h = refl
mem-blank s (t ∷ slugs) blank h =
    rw (str_eq-blank s t blank (ground arith)) (mem-blank s slugs blank (ground arith))

blank-expense : (s : String) → all_blank (codes s) ≡ true → in_expense_bucket s ≡ false
unfolding in_expense_bucket
blank-expense s blank =
    rw (mem-blank s expense_slugs blank refl, mem-blank s contra_expense_slugs blank refl)
      (mem-blank s ("cash_withdrawal" ∷ "misc" ∷ []) blank refl)

blank-income : (s : String) → all_blank (codes s) ≡ true → in_income_bucket s ≡ false
unfolding in_income_bucket
blank-income s blank = rw (mem-blank s income_slugs blank refl)

blank-unmapped : (s : String) → all_blank (codes s) ≡ true → bucket_by_slug s ≡ none
unfolding bucket_by_slug
blank-unmapped s blank = rw (
  str_eq-blank s "family" blank refl,
  str_eq-blank s "repayment" blank refl,
  mem-blank s internal_slugs blank refl,
  mem-blank s investment_bucket blank refl,
  blank-expense s blank,
  blank-income s blank,
)

abbrev pub is_uncategorized_bucket : Bucket → Bool
is_uncategorized_bucket uncategorized = true
is_uncategorized_bucket b = false

empty-blank : (c : List ℕ) → is_empty c ≡ true → all_blank c ≡ true
empty-blank [] h = refl
empty-blank (c ∷ s) h = cc

-- no slug is mapped to the uncategorized bucket
never_mapped : (s : String) → bucket_by_slug s ≢ some uncategorized
unfolding bucket_by_slug
never_mapped s h = ground arith

uncategorized_either :
    (a b : Bool)
    → true
      ≡ is_uncategorized_bucket
          (if a then uncategorized else if b && false then expense else uncategorized)
uncategorized_either true b = refl
uncategorized_either false true = refl
uncategorized_either false false = refl

nonblank-full : (c : List ℕ) → all_blank c ≡ false → is_empty c ≡ false
nonblank-full [] h = cc
nonblank-full (c ∷ s) h = refl

card_payment_mapped :
    (s : String) → str_eq s "credit_card_payment" ≡ true → bucket_by_slug s ≡ some internal
unfolding bucket_by_slug
card_payment_mapped s h =
    subst (λ x. bucket_by_slug x ≡ some internal) (sym ((eq_iff s "credit_card_payment").0 h)) refl

mapped_text :
    (m : Option Bucket)
    → (m ≢ some uncategorized)
    → elim m [ none ↦ true | some x ↦ false ] ≡ is_uncategorized_bucket (or_uncategorized m)
mapped_text none k = refl
mapped_text (some income) k = refl
mapped_text (some expense) k = refl
mapped_text (some investment) k = refl
mapped_text (some transfers_in) k = refl
mapped_text (some family) k = refl
mapped_text (some internal) k = refl
mapped_text (some uncategorized) k = absurd (k refl)

-- the two readings of a text that is not blank
by_text :
    (u b c : Bool) (m : Option Bucket)
    → (c ≡ true → m ≡ some internal)
    → (m ≢ some uncategorized)
    → (u || elim m [ none ↦ true | some x ↦ false ])
      ≡ is_uncategorized_bucket
          (if u then uncategorized else if b && c then expense else or_uncategorized m)
by_text true b c m h k = refl
by_text false true true m h k = rw (h refl)
by_text false true false m h k = mapped_text m k
by_text false false c m h k = mapped_text m k

-- The SQL clause behind the list of uncategorized rows selects exactly the categories that the report
-- puts into the uncategorized bucket, under the bank scope and over every account: NULL, blank texts,
-- the sentinel and slugs that the map does not know.
pub is_uncategorized-bucket :
    (category : Option String) (scope : Option Scope)
    → is_uncategorized category ≡ is_uncategorized_bucket (bucket_for_slug category scope)
unfolding is_uncategorized bucket_for_slug
is_uncategorized-bucket none scope = refl
is_uncategorized-bucket (some s) scope = elim (Bool-cases (all_blank (codes s))) [
  | inl blank ↦
      rw (blank, blank-unmapped s blank, str_eq-blank s "credit_card_payment" blank refl)
        (uncategorized_either (is_empty (codes s) || str_eq s "unknown") (is_bank scope))
  | inr text ↦
      rw (text, nonblank-full (codes s) text)
        (by_text (str_eq s "unknown") (is_bank scope) (str_eq s "credit_card_payment")
          (bucket_by_slug s) (card_payment_mapped s) (never_mapped s))
]

-- The scope decides the bucket of one slug only: the bill of a card is expense over the bank and
-- internal over every account, and any other category has the same bucket over both.
pub bucket_for_slug-scope :
    (category : Option String)
    → ((category ≡ some "credit_card_payment")
        × (bucket_for_slug category (some bank) ≡ expense)
        × (bucket_for_slug category none ≡ internal))
      ⊎ ((category ≢ some "credit_card_payment")
          × (bucket_for_slug category (some bank) ≡ bucket_for_slug category none))
unfolding bucket_for_slug bucket_by_slug
bucket_for_slug-scope none = inr (λ h. cc, refl)
bucket_for_slug-scope (some s) = elim (Bool-cases (str_eq s "credit_card_payment")) [
  | inl bill ↦
      let e : s ≡ "credit_card_payment" = (eq_iff s "credit_card_payment").0 bill in
      inl (
        ap (λ x. some x) e,
        subst (λ x. bucket_of_text x (some bank) ≡ expense) (sym e) refl,
        subst (λ x. bucket_of_text x none ≡ internal) (sym e) refl,
      )
  | inr other ↦ inr (
    (λ h.
        let e : s ≡ "credit_card_payment" = cc in
        let f : str_eq s "credit_card_payment" ≡ true = (eq_iff s "credit_card_payment").1 e in cc),
    rw other,
  )
]

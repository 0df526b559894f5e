-- ===== src/Merge/Table.antt =====
-- What the operations on the table keep: the length, the identities and the unique references.
use bank_email_fetcher.Prelude.{
  ℕ, String, Bool, true, false, ◌&&◌, Option, none, some, List, [], ◌∷◌, ◌≡◌, ◌∙◌, refl, ap,
  codes_eq, str_eq, Bool-cases, inl, inr,
}
use bank_email_fetcher.Categorize.Transfer
use bank_email_fetcher.Categorize.Transfer.{Details}
use bank_email_fetcher.Merge.Row.{Channel, Transaction, slot_of}
use bank_email_fetcher.Merge.Match.{any}
use bank_email_fetcher.Merge.Store.{
  refers_to, same_key, has_unique_refs, set_slot, update_row, claim_transaction_source_slot,
  may_claim, claim_unless_filled, with_categories, apply_self_transfer,
}

-- Two tables of the same rows, up to the categories.
unfoldable pub SameRows : List Transaction → List Transaction → Type 0
SameRows [] [] = Unit
SameRows [] (s ∷ ss) = ⊥
SameRows (r ∷ rs) [] = ⊥
SameRows (r ∷ rs) (s ∷ ss) = (s ≡ record r { category = s.category }) × SameRows rs ss

SameRows-refl : (rs : List Transaction) → SameRows rs rs
unfolding SameRows
SameRows-refl [] = tt
SameRows-refl (r ∷ rs) = (refl, SameRows-refl rs)

with_categories-SameRows :
    (rs : List Transaction) (ts : List Transfer.Transaction) → SameRows rs (with_categories rs ts)
unfolding SameRows
with_categories-SameRows [] ts = tt
with_categories-SameRows (r ∷ rs) [] = (refl, SameRows-refl rs)
with_categories-SameRows (r ∷ rs) (t ∷ ts) = (refl, with_categories-SameRows rs ts)

-- The self-transfer rule writes the categories of the rows only.
pub apply_self_transfer-SameRows :
    (input_hash : Details → String) (v now : ℕ) (r : Transaction) (rs : List Transaction)
    → SameRows rs (apply_self_transfer input_hash v now r rs)
unfolding apply_self_transfer
apply_self_transfer-SameRows input_hash v now r rs = with_categories-SameRows rs _

-- A test that does not read the category says the same of both tables.
pub SameRows-any :
    (p : Transaction → Bool)
    → ((r s : Transaction) → s ≡ record r { category = s.category } → p s ≡ p r)
    → (rs ss : List Transaction) → SameRows rs ss
    → any p ss ≡ any p rs
unfolding SameRows
SameRows-any p keeps [] [] h = refl
SameRows-any p keeps [] (s ∷ ss) h = absurd h
SameRows-any p keeps (r ∷ rs) [] h = absurd h
SameRows-any p keeps (r ∷ rs) (s ∷ ss) h = rw (keeps r s h.0, SameRows-any p keeps rs ss h.1)

same_key-category :
    (a r s : Transaction) → s ≡ record r { category = s.category } → same_key a s ≡ same_key a r
unfolding same_key
same_key-category a r s h =
    ap
      (λ (x : Transaction).
        codes_eq a.bank x.bank
        && str_eq a.direction x.direction
        && refers_to a.reference_number x.reference_number)
      h

key_same-category :
    (a r s : Transaction) → s ≡ record r { category = s.category } → same_key s a ≡ same_key r a
unfolding same_key
key_same-category a r s h =
    ap
      (λ (x : Transaction).
        codes_eq x.bank a.bank
        && str_eq x.direction a.direction
        && refers_to x.reference_number a.reference_number)
      h

any-ext :
    (p q : Transaction → Bool)
    → ((x : Transaction) → p x ≡ q x)
    → (rs : List Transaction) → any p rs ≡ any q rs
any-ext p q e [] = refl
any-ext p q e (r ∷ rs) = rw (e r, any-ext p q e rs)

pub SameRows-has_unique_refs :
    (rs ss : List Transaction) → SameRows rs ss → has_unique_refs ss ≡ has_unique_refs rs
unfolding SameRows has_unique_refs
SameRows-has_unique_refs [] [] h = refl
SameRows-has_unique_refs [] (s ∷ ss) h = absurd h
SameRows-has_unique_refs (r ∷ rs) [] h = absurd h
SameRows-has_unique_refs (r ∷ rs) (s ∷ ss) h =
    let same : any (same_key s) ss ≡ any (same_key r) rs =
      SameRows-any (same_key s) (same_key-category s) rs ss h.1
      ∙ any-ext (same_key s) (same_key r) (λ x. key_same-category x r s h.0) rs in
    rw (same, SameRows-has_unique_refs rs ss h.1)

-- What a claim that is granted does. Nothing, where the message has no source or the row as it was read
-- has a source in the slot; else the slot is open in the table, or has this source, and is filled.
pub data Claimed (r : Transaction) (ch : Channel) (source_id : Option ℕ) (rs ss : List Transaction)
    : Type 0 where
  no_source : source_id ≡ none → ss ≡ rs → Claimed r ch source_id rs ss
  was_filled : (owner : ℕ) → slot_of ch r ≡ some owner → ss ≡ rs → Claimed r ch source_id rs ss
  took :
      (id : ℕ)
      → source_id ≡ some id
      → slot_of ch r ≡ none
      → any (may_claim r.id ch id) rs ≡ true
      → ss ≡ update_row r.id (set_slot ch id) rs
      → Claimed r ch source_id rs ss

-- Why a claim is refused: no row of the table with this id has the slot open or has this source in it.
pub data Refused (r : Transaction) (ch : Channel) (source_id : Option ℕ) (rs : List Transaction)
    : Type 0 where
  refused :
      (id : ℕ)
      → source_id ≡ some id
      → slot_of ch r ≡ none
      → any (may_claim r.id ch id) rs ≡ false
      → Refused r ch source_id rs

module _ (r : Transaction) (ch : Channel) (rs : List Transaction) where
  claim_unless_filled-Claimed :
      (o : Option ℕ) (id : ℕ) (ss : List Transaction)
      → slot_of ch r ≡ o
      → claim_unless_filled o r.id ch id rs ≡ some ss
      → Claimed r ch (some id) rs ss
  claim_unless_filled-Claimed (some owner) id ss e h = Claimed.was_filled owner e (cc)
  claim_unless_filled-Claimed none id ss e h = elim (Bool-cases (any (may_claim r.id ch id) rs)) [
    | inl open_slot ↦
        let same : some (update_row r.id (set_slot ch id) rs) ≡ some ss = rw open_slot at h in
        Claimed.took id refl e open_slot (cc)
    | inr taken ↦ let none_left : none ≡ some ss = rw taken at h in cc
  ]

  claim_unless_filled-Refused :
      (o : Option ℕ) (id : ℕ)
      → slot_of ch r ≡ o
      → claim_unless_filled o r.id ch id rs ≡ none
      → Refused r ch (some id) rs
  claim_unless_filled-Refused (some owner) id e h = cc
  claim_unless_filled-Refused none id e h = elim (Bool-cases (any (may_claim r.id ch id) rs)) [
    | inl open_slot ↦
        let given : some (update_row r.id (set_slot ch id) rs) ≡ none = rw open_slot at h in cc
    | inr taken ↦ Refused.refused id refl e taken
  ]

  pub claim_transaction_source_slot-Claimed :
      (source_id : Option ℕ) (ss : List Transaction)
      → claim_transaction_source_slot r ch source_id rs ≡ some ss
      → Claimed r ch source_id rs ss
  unfolding claim_transaction_source_slot
  claim_transaction_source_slot-Claimed none ss h = Claimed.no_source refl (cc)
  claim_transaction_source_slot-Claimed (some id) ss h =
      claim_unless_filled-Claimed (slot_of ch r) id ss refl h

  pub claim_transaction_source_slot-Refused :
      (source_id : Option ℕ)
      → claim_transaction_source_slot r ch source_id rs ≡ none
      → Refused r ch source_id rs
  unfolding claim_transaction_source_slot
  claim_transaction_source_slot-Refused none h = cc
  claim_transaction_source_slot-Refused (some id) h =
      claim_unless_filled-Refused (slot_of ch r) id refl h

-- ===== src/Categorize/Legs.antt =====
-- The pairs that the self-transfer rule makes.
use text.Mathlib.Text.{◌==◌}
use bank_email_fetcher.Prelude.{
  ℕ, String, Bool, true, false, ◌&&◌, ◌||◌, Option, none, some, List, ◌≡◌, refl, sym, ◌∙◌, ap,
  arith, inl, inr, eq_iff, Bool-cases, ltb, length, is_none, is_empty, strip, codes_eq→eq,
  codes_eq_refl,
}
use bank_email_fetcher.Masks.{mask_digits}
use bank_email_fetcher.Categorize.Text.{text_or_empty}
use bank_email_fetcher.Categorize.Transfer.{
  Details, opposite_direction, ends_with, masks_differ, accounts_differ, different_accounts,
  is_opposite, same_reference, may_pair, is_match,
}

or_comm : (a b : Bool) → (a || b) ≡ (b || a)
or_comm a b = ground arith

masks_differ_comm : (a b : List ℕ) → masks_differ a b ≡ masks_differ b a
unfolding masks_differ
masks_differ_comm a b =
    rw (or_comm (ltb (length a) 3) (ltb (length b) 3))
      (rw (or_comm (ends_with a b) (ends_with b a)) refl)

accounts_differ_comm :
    (a b : Option ℕ) (masks : Bool) → accounts_differ a b masks ≡ accounts_differ b a masks
accounts_differ_comm none none masks = refl
accounts_differ_comm none (some b) masks = refl
accounts_differ_comm (some a) none masks = refl
accounts_differ_comm (some a) (some b) masks = ground arith

different_accounts_comm : (d e : Details) → different_accounts d e ≡ different_accounts e d
unfolding different_accounts
different_accounts_comm d e =
    accounts_differ_comm d.account_id e.account_id _
    ∙ ap (accounts_differ e.account_id d.account_id)
        (masks_differ_comm (mask_digits d.account_mask) (mask_digits e.account_mask))

same_reference_lem :
    (r s : Option (List ℕ)) → same_reference r s ≡ true → (s ≡ r) × (same_reference s r ≡ true)
same_reference_lem none s h = cc
same_reference_lem (some a) none h = cc
same_reference_lem (some a) (some b) h =
    let same = codes_eq→eq a b h in (ap some (sym same), rw same (codes_eq_refl b))

is_opposite_lem :
    (x y : String)
    → is_opposite (opposite_direction x) y ≡ true
    → (is_opposite (opposite_direction y) x ≡ true) × (is_none (opposite_direction y) ≡ false)
unfolding opposite_direction
is_opposite_lem x y h = elim (Bool-cases (x == "credit")) [
  | inl credit ↦
      let to_debit : y ≡ "debit" = (eq_iff y "debit").0 (rw credit at h) in
      rw to_debit (credit, refl)
  | inr other ↦ elim (Bool-cases (x == "debit")) [
    | inl debit ↦
        let to_credit : y ≡ "credit" = (eq_iff y "credit").0 (rw (other, debit) at h) in
        rw to_credit (debit, refl)
    | inr neither ↦ let never : false ≡ true = rw (other, neither) at h in cc
  ]
]

-- whether the rule, run for the first row, takes the second one for the other leg
abbrev pub pairs : Details → Details → Bool
pairs d e = may_pair d && is_match d e

pairs-swap : (d e : Details) → pairs d e ≡ true → pairs e d ≡ true
unfolding may_pair is_match
pairs-swap d e h =
    let (same, back) = same_reference_lem d.reference_number e.reference_number (ground arith) in
    let (facing, known) = is_opposite_lem d.direction e.direction (ground arith) in
    let full : is_empty (strip (text_or_empty e.reference_number)) ≡ false =
      ap (λ r. is_empty (strip (text_or_empty r))) same ∙ ground arith in
    let apart : different_accounts e d ≡ true = different_accounts_comm e d ∙ ground arith in
    ground arith

-- It does not matter which leg the rule runs for: of two rows, the one takes the other for its
-- opposite leg exactly where the other takes it.
pub pairs_comm : (d e : Details) → pairs d e ≡ pairs e d
pairs_comm d e = elim (Bool-cases (pairs d e)) [
  | inl yes_d ↦ yes_d ∙ sym (pairs-swap d e yes_d)
  | inr no_d ↦ elim (Bool-cases (pairs e d)) [
    | inl yes_e ↦ let never : false ≡ true = sym no_d ∙ pairs-swap e d yes_e in cc
    | inr no_e ↦ no_d ∙ sym no_e
  ]
]

-- ===== src/Sms/Blanks.antt =====
-- `strip` takes nothing from a text that is stripped.
use mathlib.Core.Path.{subst}
use mathlib.Core.List.{reverse-append, reverse-reverse}
use bank_email_fetcher.Prelude.{
  ℕ, List, [], ◌∷◌, ◌++◌, ◌≡◌, ◌∙◌, refl, sym, ap, reverse, Bool-cases, inl, inr, strip, is_space,
  drop_spaces, length, ◌≤◌, arith,
}

-- What is dropped stands in front.
drop_spaces-suffix : (s : List ℕ) → (b : List ℕ) × (s ≡ b ++ drop_spaces s)
drop_spaces-suffix [] = ([], refl)
drop_spaces-suffix (c ∷ s) = elim (Bool-cases (is_space c)) [
  | inl blank ↦ let (b, e) = drop_spaces-suffix s in (c ∷ b, rw blank (ap (λ t. c ∷ t) e))
  | inr kept ↦ ([], rw kept refl)
]

drop_spaces_idem : (s : List ℕ) → drop_spaces (drop_spaces s) ≡ drop_spaces s
drop_spaces_idem [] = refl
drop_spaces_idem (c ∷ s) = elim (Bool-cases (is_space c)) [
  | inl blank ↦ rw blank (drop_spaces_idem s)
  | inr kept ↦ rw kept (rw kept refl)
]

drop_spaces-length : (s : List ℕ) → length (drop_spaces s) ≤ length s
drop_spaces-length [] = omega arith
drop_spaces-length (c ∷ s) =
    let ih = drop_spaces-length s in
    elim (Bool-cases (is_space c)) [
      | inl blank ↦ rw blank (omega arith)
      | inr kept ↦ rw kept (omega arith)
    ]

-- A text that begins with no blank has no prefix that does.
drop_spaces-prefix : (p q : List ℕ) → drop_spaces (p ++ q) ≡ p ++ q → drop_spaces p ≡ p
drop_spaces-prefix [] q h = refl
drop_spaces-prefix (c ∷ p) q h = elim (Bool-cases (is_space c)) [
  | inl blank ↦
      let longer : drop_spaces (p ++ q) ≡ c ∷ (p ++ q) = rw blank at h in
      let size = ap length longer in let bound = drop_spaces-length (p ++ q) in absurd (omega arith)
  | inr kept ↦ rw kept refl
]

pub strip_idem : (s : List ℕ) → strip (strip s) ≡ strip s
unfolding strip
strip_idem s =
    let t = drop_spaces s in
    let u = drop_spaces (reverse t) in
    let (b, e) = drop_spaces-suffix (reverse t) in
    let whole : t ≡ reverse u ++ reverse b =
      sym (reverse-reverse t) ∙ (ap reverse e ∙ reverse-append b u) in
    let fixed : drop_spaces (reverse u) ≡ reverse u =
      drop_spaces-prefix (reverse u) (reverse b)
        (subst (λ x. drop_spaces x ≡ x) whole (drop_spaces_idem s)) in
    ap (λ x. reverse (drop_spaces (reverse x))) fixed
    ∙ (ap (λ x. reverse (drop_spaces x)) (reverse-reverse u)
        ∙ ap reverse (drop_spaces_idem (reverse t)))

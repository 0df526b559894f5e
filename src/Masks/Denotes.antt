-- ===== src/Masks/Denotes.antt =====
-- What a mask means: which account numbers it can denote. Masks and numbers are read from the
-- right here, as `overlap_agrees` reads them.

use bank_email_fetcher.Prelude.{
  ℕ, true, false, ◌||◌, List, [], ◌∷◌, reverse, ◌≡◌, ◌↔◌, refl, arith, is_empty, is_digit, eqb, All,
  All-reverse, if◌then◌else◌,
}
use bank_email_fetcher.Masks.{wildcard, chars_agree, overlap_agrees, mask_matches}

-- a character of a normalized mask
abbrev pub IsMaskChar : ℕ → Type 0
IsMaskChar c = (is_digit c || eqb c wildcard) ≡ true

abbrev pub IsMask : List ℕ → Type 0
IsMask = All IsMaskChar

abbrev pub IsNumber : List ℕ → Type 0
IsNumber = All (λ c. is_digit c ≡ true)

-- `number`, read from the right, is one that `mask` can stand for: it is as long as the mask at
-- least, and has the digits that the mask shows.
abbrev pub Fits : List ℕ → List ℕ → Type 0
Fits [] number = Unit
Fits (m ∷ mask) [] = ⊥
Fits (m ∷ mask) (d ∷ number) = ((eqb m wildcard || eqb m d) ≡ true) × Fits mask number

-- There is an account number that both masks can stand for.
abbrev pub Denotable : List ℕ → List ℕ → Type 0
Denotable p s =
    (number : List ℕ) × IsNumber number × Fits (reverse p) number × Fits (reverse s) number

-- a digit in place of a mask character
abbrev shown : ℕ → ℕ
shown c = if eqb c wildcard then b'0' else c

-- A number that both masks stand for, where they agree.
abbrev join : List ℕ → List ℕ → List ℕ
join [] [] = []
join [] (s ∷ stored) = shown s ∷ join [] stored
join (p ∷ pattern) [] = shown p ∷ join pattern []
join (p ∷ pattern) (s ∷ stored) = (if eqb p wildcard then shown s else p) ∷ join pattern stored

join-IsNumber : (p s : List ℕ) → IsMask p → IsMask s → IsNumber (join p s)
join-IsNumber [] [] hp hs = tt
join-IsNumber [] (s ∷ stored) hp hs = (ground arith, join-IsNumber [] stored tt hs.1)
join-IsNumber (p ∷ pattern) [] hp hs = (ground arith, join-IsNumber pattern [] hp.1 tt)
join-IsNumber (p ∷ pattern) (s ∷ stored) hp hs =
    (ground arith, join-IsNumber pattern stored hp.1 hs.1)

overlap_agrees-nil : (p : List ℕ) → overlap_agrees p [] ≡ true
unfolding overlap_agrees
overlap_agrees-nil [] = refl
overlap_agrees-nil (c ∷ p) = refl

join-Fits : (p s : List ℕ) → overlap_agrees p s ≡ true → Fits p (join p s) × Fits s (join p s)
unfolding overlap_agrees chars_agree
join-Fits [] [] h = (tt, tt)
join-Fits [] (s ∷ stored) h = (tt, (ground arith, (join-Fits [] stored refl).1))
join-Fits (p ∷ pattern) [] h =
    ((ground arith, (join-Fits pattern [] (overlap_agrees-nil pattern)).0), tt)
join-Fits (p ∷ pattern) (s ∷ stored) h =
    let rest : overlap_agrees pattern stored ≡ true = ground arith in
    let (fp, fs) = join-Fits pattern stored rest in ((ground arith, fp), (ground arith, fs))

Fits-agree :
    (p s number : List ℕ)
    → IsNumber number
    → Fits p number
    → Fits s number
    → overlap_agrees p s ≡ true
unfolding overlap_agrees chars_agree
Fits-agree [] s number n fp fs = refl
Fits-agree (p ∷ pattern) [] number n fp fs = refl
Fits-agree (p ∷ pattern) (s ∷ stored) [] n fp fs = absurd fp
Fits-agree (p ∷ pattern) (s ∷ stored) (d ∷ number) n fp fs =
    ground (arith, Fits-agree pattern stored number n.1 fp.1 fs.1)

reverse-join :
    (p s : List ℕ)
    → IsMask p
    → IsMask s
    → overlap_agrees (reverse p) (reverse s) ≡ true
    → Denotable p s
reverse-join p s hp hs h =
    let (fp, fs) = join-Fits (reverse p) (reverse s) h in
    (
      join (reverse p) (reverse s),
      join-IsNumber (reverse p) (reverse s) (All-reverse IsMaskChar p hp)
          (All-reverse IsMaskChar s hs),
      fp,
      fs,
    )

-- Two normalized masks that are not empty match exactly when there is an account number that both
-- can stand for: one as long as either, that has from the right every digit that either shows.
pub mask_matches-Denotable :
    (p s : List ℕ)
    → IsMask p
    → IsMask s
    → is_empty p ≡ false
    → is_empty s ≡ false
    → (mask_matches p s ≡ true) ↔ Denotable p s
unfolding mask_matches
mask_matches-Denotable p s hp hs np ns = (
  λ h. reverse-join p s hp hs (ground arith),
  λ d. ground (arith, Fits-agree (reverse p) (reverse s) d.0 d.1 d.2 d.3),
)

overlap_agrees_comm : (p s : List ℕ) → overlap_agrees p s ≡ overlap_agrees s p
unfolding overlap_agrees chars_agree
overlap_agrees_comm [] [] = refl
overlap_agrees_comm [] (c ∷ s) = refl
overlap_agrees_comm (c ∷ p) [] = refl
overlap_agrees_comm (c ∷ p) (d ∷ s) = ground (arith, overlap_agrees_comm p s)

-- It does not matter which of two texts is the pattern and which is stored.
pub mask_matches_comm : (p s : List ℕ) → mask_matches p s ≡ mask_matches s p
unfolding mask_matches
mask_matches_comm p s = ground (arith, overlap_agrees_comm (reverse p) (reverse s))

overlap_agrees_refl : (s : List ℕ) → overlap_agrees s s ≡ true
unfolding overlap_agrees chars_agree
overlap_agrees_refl [] = refl
overlap_agrees_refl (c ∷ s) = ground (arith, overlap_agrees_refl s)

-- A text that is not empty matches itself.
pub mask_matches_refl : (s : List ℕ) → is_empty s ≡ false → mask_matches s s ≡ true
unfolding mask_matches
mask_matches_refl s h = ground (arith, overlap_agrees_refl (reverse s))

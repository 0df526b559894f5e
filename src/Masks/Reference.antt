-- ===== src/Masks/Reference.antt =====
-- `normalize_mask` against a description that reads the text as a whole.
use mathlib.Core.List.{append_assoc, append-nil}
use bank_email_fetcher.Prelude.{
  ℕ, Bool, true, false, ◌&&◌, Option, none, some, List, [], ◌∷◌, ◌++◌, ◌≡◌, refl, sym, ◌⊎◌, arith,
  is_digit, if◌then◌else◌,
}
use bank_email_fetcher.Masks.{
  wildcard, digit, wild, separator, foreign, char_kind, normalize_loop, normalize_mask,
}
use bank_email_fetcher.Masks.Denotes.{IsMaskChar, IsMask}

-- whether the character is a digit, a wildcard or a separator
abbrev pub is_readable : ℕ → Bool
is_readable c = elim (char_kind c) [ foreign ↦ false | _ ↦ true ]

abbrev pub all_readable : List ℕ → Bool
all_readable [] = true
all_readable (c ∷ s) = is_readable c && all_readable s

-- the separators taken out, and every wildcard written X
abbrev pub canonical : List ℕ → List ℕ
canonical [] = []
canonical (c ∷ s) =
    let rest = canonical s in
    elim (char_kind c) [
      | digit ↦ c ∷ rest
      | wild ↦ wildcard ∷ rest
      | separator ↦ rest
      | foreign ↦ rest
    ]

char_kind_digit : (c : ℕ) → char_kind c ≡ digit → is_digit c ≡ true
unfolding char_kind
char_kind_digit c h = ground arith

char_kind_mask :
    (c : ℕ) → IsMaskChar c → (char_kind c ≡ digit) ⊎ ((char_kind c ≡ wild) × (c ≡ wildcard))
unfolding char_kind
char_kind_mask c h = ground arith

normalize_loop-canonical :
    (out s : List ℕ) → normalize_loop out s ≡ (if all_readable s then out ++ canonical s else [])
unfolding normalize_loop
normalize_loop-canonical out [] = sym (append-nil out)
normalize_loop-canonical out (c ∷ s) = ground (
  arith,
  normalize_loop-canonical (out ++ c ∷ []) s,
  normalize_loop-canonical (out ++ wildcard ∷ []) s,
  normalize_loop-canonical out s,
  append_assoc out (c ∷ []) (canonical s),
  append_assoc out (wildcard ∷ []) (canonical s),
)

-- A text of digits, wildcards and separators normalizes to itself with the separators taken out and
-- every wildcard written X; a text with any other character normalizes to the empty mask.
pub normalize_mask-canonical :
    (s : List ℕ) → normalize_mask (some s) ≡ (if all_readable s then canonical s else [])
unfolding normalize_mask
normalize_mask-canonical s = normalize_loop-canonical [] s

canonical-IsMask : (s : List ℕ) → IsMask (canonical s)
canonical-IsMask [] = tt
canonical-IsMask (c ∷ s) = ground (arith, canonical-IsMask s, char_kind_digit c)

-- Whatever the text, the normalized mask holds digits and the letter X only.
pub normalize_mask-IsMask : (s : Option (List ℕ)) → IsMask (normalize_mask s)
normalize_mask-IsMask none = unfold normalize_mask in tt
normalize_mask-IsMask (some s) =
    rw (normalize_mask-canonical s) (ground (arith, canonical-IsMask s))

readable_of_mask : (s : List ℕ) → IsMask s → all_readable s ≡ true
readable_of_mask [] h = refl
readable_of_mask (c ∷ s) h = ground (arith, readable_of_mask s h.1, char_kind_mask c h.0)

canonical_of_mask : (s : List ℕ) → IsMask s → canonical s ≡ s
canonical_of_mask [] h = refl
canonical_of_mask (c ∷ s) h = ground (arith, canonical_of_mask s h.1, char_kind_mask c h.0)

-- Normalizing a normalized mask changes nothing.
pub normalize_mask_idem :
    (s : Option (List ℕ)) → normalize_mask (some (normalize_mask s)) ≡ normalize_mask s
normalize_mask_idem s =
    let m = normalize_mask s in
    let h = normalize_mask-IsMask s in
    rw (normalize_mask-canonical m) (rw (readable_of_mask m h) (canonical_of_mask m h))

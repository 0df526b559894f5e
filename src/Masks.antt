-- ===== src/Masks.antt =====
-- Card and account masks: financial_dashboard/core/masks.py. A text is the list of its code points,
-- and `None` is `none`.
pub mod Denotes
pub mod Reference
mod Examples
use Prim.Native.Nat.{min}
use bank_email_fetcher.Prelude.{
  ℕ, zero, suc, ◌-◌, Bool, true, false, ◌&&◌, ◌||◌, not, Option, none, some, List, [], ◌∷◌, ◌++◌,
  reverse, codes, is_space, is_empty, is_digit, eqb, leb, length, drop, if◌then◌else◌,
}

-- `WILDCARD`, the letter X
abbrev pub wildcard : ℕ
wildcard = b'X'

-- `ch in WILDCARD_CHARS`, one of Xx*#
abbrev pub is_wildcard : ℕ → Bool
is_wildcard c = eqb c b'X' || eqb c b'x' || eqb c b'*' || eqb c b'#'

-- `_is_separator`
unfoldable pub is_separator : ℕ → Bool
is_separator c = is_space c || eqb c b'-'

-- the branches of the loop in `normalize_mask`
pub data CharKind : Type 0 where
  digit wild separator foreign : CharKind

unfoldable pub char_kind : ℕ → CharKind
char_kind c =
    if is_digit c
    then digit
    else if is_wildcard c
    then wild
    else if is_separator c
    then separator
    else foreign

-- the loop, with the list `out` built so far; a foreign character returns ""
unfoldable pub normalize_loop : List ℕ → List ℕ → List ℕ
normalize_loop out [] = out
normalize_loop out (c ∷ s) = elim (char_kind c) [
  | digit ↦ normalize_loop (out ++ c ∷ []) s
  | wild ↦ normalize_loop (out ++ wildcard ∷ []) s
  | separator ↦ normalize_loop out s
  | foreign ↦ []
]

unfoldable pub normalize_mask : Option (List ℕ) → List ℕ
unfolding normalize_loop
normalize_mask none = []
normalize_mask (some s) = normalize_loop [] s

-- the loop over `reversed(normalized)`, which breaks at the first character that is no digit
abbrev pub digit_run : List ℕ → ℕ
digit_run [] = 0
digit_run (c ∷ s) = if is_digit c then suc (digit_run s) else 0

unfoldable pub trailing_visible_digits : List ℕ → ℕ
trailing_visible_digits normalized = digit_run (reverse normalized)

-- One position of the loop in `mask_matches`.
unfoldable pub chars_agree : ℕ → ℕ → Bool
chars_agree p s = eqb p wildcard || eqb s wildcard || eqb p s

-- The loop over `range(1, min(len(pattern), len(stored)) + 1)`: position -i of a text is position
-- i of its reverse.
unfoldable pub overlap_agrees : List ℕ → List ℕ → Bool
overlap_agrees [] stored = true
overlap_agrees (p ∷ pattern) [] = true
overlap_agrees (p ∷ pattern) (s ∷ stored) =
    let rest = overlap_agrees pattern stored in if chars_agree p s then rest else false

unfoldable pub mask_matches : List ℕ → List ℕ → Bool
mask_matches pattern stored =
    if is_empty pattern || is_empty stored
    then false
    else overlap_agrees (reverse pattern) (reverse stored)

abbrev pub keep_digits : List ℕ → List ℕ
keep_digits [] = []
keep_digits (c ∷ s) = let rest = keep_digits s in if is_digit c then c ∷ rest else rest

unfoldable pub mask_digits : Option (List ℕ) → List ℕ
mask_digits none = []
mask_digits (some s) = keep_digits s

-- `digits[-4:]`
abbrev last_four : List ℕ → List ℕ
last_four digits = drop (length digits - 4) digits

abbrev pub some_unless_empty : List ℕ → Option (List ℕ)
some_unless_empty [] = none
some_unless_empty (c ∷ s) = some (c ∷ s)

unfoldable pub mask_last4 : Option (List ℕ) → Bool → Option (List ℕ)
unfolding mask_digits
mask_last4 s partial =
    let digits = mask_digits s in
    if leb 4 (length digits)
    then some (last_four digits)
    else if partial
    then some_unless_empty digits
    else none

abbrev with_prefix : Option (List ℕ) → Option (List ℕ)
with_prefix none = none
with_prefix (some []) = none
with_prefix (some (c ∷ s)) = some (codes "XXXX" ++ (c ∷ s))

unfoldable pub display_mask : Option (List ℕ) → Option (List ℕ)
unfolding mask_last4
display_mask value = with_prefix (mask_last4 value true)

-- ===== src/Masks/Examples.antt =====
-- The theorems of the masks at concrete inputs, and tests of the functions of masks.py.
use bank_email_fetcher.Prelude.{ℕ, true, false, some, List, [], ◌≡◌, ◌↔◌, refl, codes}
use bank_email_fetcher.Masks.{
  is_separator, char_kind, normalize_mask, trailing_visible_digits, chars_agree, overlap_agrees,
  mask_matches, mask_last4, display_mask,
}
use bank_email_fetcher.Masks.Denotes.{Denotable, mask_matches-Denotable}
use bank_email_fetcher.Masks.Reference.{normalize_mask-IsMask}

-- the masks of a mail and of a stored card
abbrev mailed : List ℕ
mailed = normalize_mask (some (codes "**** 1234"))

abbrev stored : List ℕ
stored = normalize_mask (some (codes "4386-28XX-XXXX-1234"))

normalize_test : mailed ≡ codes "XXXX1234"
unfolding normalize_mask char_kind is_separator
normalize_test = refl

foreign_test : normalize_mask (some (codes "ending 1234")) ≡ []
unfolding normalize_mask char_kind is_separator
foreign_test = refl

trailing_test : trailing_visible_digits mailed ≡ 4
unfolding normalize_mask char_kind is_separator trailing_visible_digits
trailing_test = refl

matches_test : mask_matches mailed stored ≡ true
unfolding normalize_mask char_kind is_separator mask_matches overlap_agrees chars_agree
matches_test = refl

differ_test : mask_matches (codes "1235") stored ≡ false
unfolding normalize_mask char_kind is_separator mask_matches overlap_agrees chars_agree
differ_test = refl

last4_test : mask_last4 (some (codes "xx12")) true ≡ some (codes "12")
unfolding mask_last4
last4_test = refl

display_test : display_mask (some (codes "4386 28** **** 1234")) ≡ some (codes "XXXX1234")
unfolding display_mask
display_test = refl

mask_matches-Denotable_example : (mask_matches mailed stored ≡ true) ↔ Denotable mailed stored
mask_matches-Denotable_example =
    mask_matches-Denotable mailed stored (normalize_mask-IsMask (some (codes "**** 1234")))
      (normalize_mask-IsMask (some (codes "4386-28XX-XXXX-1234")))
      (unfold normalize_mask char_kind is_separator in refl)
      (unfold normalize_mask char_kind is_separator in refl)

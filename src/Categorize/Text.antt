-- ===== src/Categorize/Text.antt =====
-- `normalize_text` and `normalize_counterparty` of
-- financial_dashboard/services/categorization/normalize.py.
use bank_email_fetcher.Prelude.{
  ℕ, Bool, true, false, ◌&&◌, ◌||◌, Option, none, some, List, [], ◌∷◌, leb, eqb, is_digit, is_space,
  lower, if◌then◌else◌,
}

-- [a-z0-9 ]
abbrev pub is_plain : ℕ → Bool
is_plain c = (leb b'a' c && leb c b'z') || is_digit c || eqb c b' '

-- .isalnum(), of a letter in lower case
abbrev pub is_alnum : ℕ → Bool
is_alnum c = (leb b'a' c && leb c b'z') || is_digit c

-- `_NON_ALNUM_SPACE.sub(" ", s)`; `inside` says that the run of such characters goes on
unfoldable pub sub_punctuation : Bool → List ℕ → List ℕ
sub_punctuation inside [] = []
sub_punctuation inside (c ∷ s) =
    let plain = sub_punctuation false s in
    let run = sub_punctuation true s in
    if is_plain c then c ∷ plain else if inside then run else b' ' ∷ run

-- " ".join(s.split()): `gap` says that a word has ended before
unfoldable pub join_words : Bool → List ℕ → List ℕ
join_words gap [] = []
join_words gap (c ∷ s) =
    let inside = join_words false s in
    let after = join_words true s in
    if is_space c then after else if gap then b' ' ∷ c ∷ inside else c ∷ inside

abbrev pub drop_gap : List ℕ → List ℕ
drop_gap [] = []
drop_gap (c ∷ s) = if is_space c then s else c ∷ s

abbrev pub text_or_empty : Option (List ℕ) → List ℕ
text_or_empty none = []
text_or_empty (some s) = s

unfoldable pub normalize_text : Option (List ℕ) → List ℕ
normalize_text s = drop_gap (join_words false (sub_punctuation false (lower (text_or_empty s))))

abbrev pub keep_alnum : List ℕ → List ℕ
keep_alnum [] = []
keep_alnum (c ∷ s) = let rest = keep_alnum s in if is_alnum c then c ∷ rest else rest

unfoldable pub normalize_counterparty : Option (List ℕ) → List ℕ
normalize_counterparty s = keep_alnum (lower (text_or_empty s))

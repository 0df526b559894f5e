-- ===== src/Prelude/Chars.antt =====
-- Texts as lists of code points, for the code that walks them.
use Prim.Native.Char.{code}
use Prim.Native.String.{String}
use Prim.Native.Nat.{ℕ, ◌+◌}
use mathlib.Core.Path.{◌≡◌, refl}
use mathlib.Core.Bool.{Bool, true, false, ◌&&◌, ◌||◌}
use mathlib.Core.Option.{Option, none, some}
use mathlib.Core.List.{List, [], ◌∷◌, map, reverse}
use native.Mathlib.Omega.{arith}
use bank_email_fetcher.Prelude.Tests.{leb, eqb, if◌then◌else◌}

abbrev pub codes : String → List ℕ
codes String.[] = []
codes (String.◌∷◌ c s) = code c ∷ codes s

-- "0" <= ch <= "9"
abbrev pub is_digit : ℕ → Bool
is_digit c = leb b'0' c && leb c b'9'

-- an ASCII letter in lower case; other characters as they are
abbrev pub lower_ascii : ℕ → ℕ
lower_ascii c = if leb b'A' c && leb c b'Z' then c + 32 else c

-- whether `s` begins with `p`, ASCII letters compared without their case
abbrev pub begins_with_ci : List ℕ → List ℕ → Bool
begins_with_ci [] s = true
begins_with_ci (c ∷ p) [] = false
begins_with_ci (c ∷ p) (d ∷ s) = eqb (lower_ascii c) (lower_ascii d) && begins_with_ci p s

-- the test `==` on texts given as code points
abbrev pub codes_eq : List ℕ → List ℕ → Bool
codes_eq [] [] = true
codes_eq [] (d ∷ t) = false
codes_eq (c ∷ s) [] = false
codes_eq (c ∷ s) (d ∷ t) = eqb c d && codes_eq s t

pub codes_eq→eq : (s t : List ℕ) → codes_eq s t ≡ true → s ≡ t
codes_eq→eq [] [] h = refl
codes_eq→eq [] (d ∷ t) h = cc
codes_eq→eq (c ∷ s) [] h = cc
codes_eq→eq (c ∷ s) (d ∷ t) h = ground (arith, codes_eq→eq s t)

pub codes_eq_refl : (s : List ℕ) → codes_eq s s ≡ true
codes_eq_refl [] = refl
codes_eq_refl (c ∷ s) = ground (arith, codes_eq_refl s)

-- whether `s` begins with `p`, and `p in s`
abbrev pub begins_with : List ℕ → List ℕ → Bool
begins_with [] s = true
begins_with (c ∷ p) [] = false
begins_with (c ∷ p) (d ∷ s) = eqb c d && begins_with p s

abbrev pub contains : List ℕ → List ℕ → Bool
contains p [] = begins_with p []
contains p (c ∷ s) = begins_with p (c ∷ s) || contains p s

-- `str.isspace` of one character
abbrev pub is_space : ℕ → Bool
is_space c =
    leb 0x9 c && leb c 0xd
    || leb 0x1c c && leb c 0x20
    || eqb c 0x85
    || eqb c 0xa0
    || eqb c 0x1680
    || leb 0x2000 c && leb c 0x200a
    || eqb c 0x2028
    || eqb c 0x2029
    || eqb c 0x202f
    || eqb c 0x205f
    || eqb c 0x3000

abbrev pub drop_spaces : List ℕ → List ℕ
drop_spaces [] = []
drop_spaces (c ∷ s) = if is_space c then drop_spaces s else c ∷ s

-- `s.strip()`
unfoldable pub strip : List ℕ → List ℕ
strip s = reverse (drop_spaces (reverse (drop_spaces s)))

-- `s.lower()`, where `s` is ASCII
unfoldable pub lower : List ℕ → List ℕ
lower = map lower_ascii

-- `not s` of a text
abbrev pub is_empty : List ℕ → Bool
is_empty [] = true
is_empty (c ∷ s) = false

-- `not s` of a text or None
abbrev pub is_falsy : Option (List ℕ) → Bool
is_falsy none = true
is_falsy (some s) = is_empty s

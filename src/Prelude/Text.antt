-- ===== src/Prelude/Text.antt =====
-- Texts as lists of code points, for `toLowerCase` and `includes`. Letters outside ASCII are left as
-- they are: no word that the program looks for has one.
use Prim.Native.Nat.{ℕ, zero, suc, ◌+◌, ◌/◌, ◌%◌}
use Prim.Native.String.{String, ◌++◌ as append}
use Prim.Native.Char.{code}
use mathlib.Core.Bool.{Bool, true, false, ◌&&◌, ◌||◌}
use mathlib.Core.List.{List, [], ◌∷◌, map}
use pok_poly_kalshi.Prelude.Tests.{leb, ltb, nat_beq, if◌then◌else◌}

abbrev pub codes : String → List ℕ
codes String.[] = []
codes (String.◌∷◌ c s) = code c ∷ codes s

unfoldable pub to_lower : ℕ → ℕ
to_lower c = if leb b'A' c && leb c b'Z' then c + 32 else c

-- `s.toLowerCase()`.
unfoldable pub lower : String → List ℕ
unfolding to_lower
lower s = map to_lower (codes s)

unfoldable pub same_codes : List ℕ → List ℕ → Bool
same_codes [] [] = true
same_codes [] (d ∷ ds) = false
same_codes (c ∷ cs) [] = false
same_codes (c ∷ cs) (d ∷ ds) = nat_beq c d && same_codes cs ds

unfoldable pub has_prefix : List ℕ → List ℕ → Bool
has_prefix [] s = true
has_prefix (p ∷ ps) [] = false
has_prefix (p ∷ ps) (c ∷ cs) = nat_beq p c && has_prefix ps cs

-- `s.includes(word)`.
unfoldable pub includes : List ℕ → List ℕ → Bool
unfolding has_prefix
includes word [] = has_prefix word []
includes word (c ∷ cs) = has_prefix word (c ∷ cs) || includes word cs

-- `words.includes(s)`.
unfoldable pub is_one_of : List String → List ℕ → Bool
unfolding same_codes
is_one_of [] s = false
is_one_of (w ∷ ws) s = same_codes (codes w) s || is_one_of ws s

-- `a + b` on texts.
infixr 65 ◌+++◌
abbrev pub ◌+++◌ : String → String → String
s +++ t = append s t

-- `xs.join(separator)`.
unfoldable pub join : String → List String → String
join separator [] = ""
join separator (s ∷ []) = s
join separator (s ∷ t ∷ ts) = s +++ separator +++ join separator (t ∷ ts)

abbrev digit : ℕ → String
digit n =
    if nat_beq n 0
    then "0"
    else if nat_beq n 1
    then "1"
    else if nat_beq n 2
    then "2"
    else if nat_beq n 3
    then "3"
    else if nat_beq n 4
    then "4"
    else if nat_beq n 5
    then "5"
    else if nat_beq n 6
    then "6"
    else if nat_beq n 7
    then "7"
    else if nat_beq n 8
    then "8"
    else "9"

-- The digits of a number, on fuel: one more than the number is enough.
unfoldable pub digits : ℕ → ℕ → String
digits zero n = ""
digits (suc fuel) n = elim (ltb n 10) [
  | true ↦ digit n
  | false ↦ digits fuel (n / 10) +++ digit (n % 10)
]

-- `String(n)` of a whole number.
unfoldable pub decimal : ℕ → String
unfolding digits
decimal n = digits (suc n) n

-- ===== src/Prelude/Text.antt =====
-- Python's operations on texts: `lower`, `in` and the decimals of an f-string.
use Prim.Native.Nat.{ℕ, zero, suc, ◌-◌, ◌/◌, ◌%◌}
use Prim.Native.Char.{Char, code}
use Prim.Native.String.{String, char_at}
use mathlib.Core.Path.{◌≡◌, refl}
use mathlib.Core.Bool.{Bool, true, false, ◌&&◌, ◌||◌}
use mathlib.Core.List.{List, [], ◌∷◌}
use mathlib.Core.Option.{none, some}
use text.Mathlib.Text.{find?}
use assistant_audit.Prelude.Tests.{leb, ltb, nat_eqb, if◌then◌else◌}

-- `s + t`
infixr 60 ◌⧺◌
abbrev pub ◌⧺◌ : String → String → String
s ⧺ t = Prim.Native.String.◌++◌ s t

-- The characters whose lower case has an ASCII letter: A to Z, the Kelvin sign, and I with a dot,
-- which becomes two characters. Any other character is left alone; the texts that the program looks
-- for are ASCII, so that its tests do not tell the difference.
abbrev pub lower_char : Char → String → String
lower_char c rest =
    if leb 65 (code c) && leb (code c) 90
    then String.◌∷◌ (char_at "abcdefghijklmnopqrstuvwxyz" (code c - 65)) rest
    else if nat_eqb (code c) 8490
    then "k" ⧺ rest
    else if nat_eqb (code c) 304
    then "i̇" ⧺ rest
    else String.◌∷◌ c rest

abbrev pub lower : String → String
lower String.[] = String.[]
lower (String.◌∷◌ c s) = lower_char c (lower s)

-- `needle in haystack`
abbrev pub is_in : String → String → Bool
is_in needle haystack = elim (find? haystack needle) [ none ↦ false | some i ↦ true ]

-- `any(n in haystack for n in needles)`
abbrev pub any_in : List String → String → Bool
any_in [] haystack = false
any_in (n ∷ ns) haystack = if is_in n haystack then true else any_in ns haystack

-- `separator.join(texts)`
abbrev pub join : String → List String → String
join separator [] = ""
join separator (t ∷ []) = t
join separator (t ∷ u ∷ rest) = t ⧺ separator ⧺ join separator (u ∷ rest)

-- `str.isspace` of one character
abbrev pub is_space : Char → Bool
is_space c =
    leb 9 (code c) && leb (code c) 13
    || leb 28 (code c) && leb (code c) 32
    || nat_eqb (code c) 133
    || nat_eqb (code c) 160
    || nat_eqb (code c) 5760
    || leb 8192 (code c) && leb (code c) 8202
    || leb 8232 (code c) && leb (code c) 8233
    || nat_eqb (code c) 8239
    || nat_eqb (code c) 8287
    || nat_eqb (code c) 12288

abbrev pub strip_left : String → String
strip_left String.[] = String.[]
strip_left (String.◌∷◌ c s) = if is_space c then strip_left s else String.◌∷◌ c s

abbrev pub is_empty : String → Bool
is_empty String.[] = true
is_empty (String.◌∷◌ c s) = false

abbrev pub strip_right : String → String
strip_right String.[] = String.[]
strip_right (String.◌∷◌ c s) =
    let rest = strip_right s in if is_empty rest && is_space c then String.[] else String.◌∷◌ c rest

-- `s.strip()`
abbrev pub strip : String → String
strip s = strip_right (strip_left s)

abbrev pub up_to_space : String → String
up_to_space String.[] = String.[]
up_to_space (String.◌∷◌ c s) = if is_space c then String.[] else String.◌∷◌ c (up_to_space s)

-- `s.split()[0]`, the empty text where there is no word
abbrev pub first_word : String → String
first_word s = up_to_space (strip_left s)

abbrev pub is_line_break : Char → Bool
is_line_break c =
    leb 10 (code c) && leb (code c) 13
    || leb 28 (code c) && leb (code c) 30
    || nat_eqb (code c) 133
    || leb 8232 (code c) && leb (code c) 8233

abbrev pub cons_line : Char → List String → List String
cons_line c [] = String.◌∷◌ c String.[] ∷ []
cons_line c (line ∷ rest) = String.◌∷◌ c line ∷ rest

-- `s.splitlines()`, with an empty line more between the two characters of a CR LF
abbrev pub split_lines : String → List String
split_lines String.[] = []
split_lines (String.◌∷◌ c s) =
    let rest = split_lines s in if is_line_break c then String.[] ∷ rest else cons_line c rest

-- `str(n)`; a number has no more digits than itself, or one.
digits : ℕ → ℕ → String → String
digits zero n rest = rest
digits (suc k) n rest =
    let head = String.◌∷◌ (char_at "0123456789" (n % 10)) rest in
    let more = digits k (n / 10) head in if ltb n 10 then head else more

unfoldable pub decimal : ℕ → String
unfolding digits
decimal n = digits (suc n) n ""

test_decimal : decimal 3389 ≡ "3389"
unfolding decimal
test_decimal = refl

test_lower : any_in ("windows" ∷ []) (lower "Microsoft WINDOWS 10") ≡ true
test_lower = refl

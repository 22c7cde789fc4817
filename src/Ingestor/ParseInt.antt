-- ===== src/Ingestor/ParseInt.antt =====
-- strconv.ParseInt(s, 0, 64), with every error alike.
pub mod Hex
use Prim.Native.Char.{code}
use Prim.Native.String.{String, [], ◌∷◌}
use chainmesh.Base.{
  ℕ, ◌+◌, ◌-◌, ◌*◌, ◌^◌, ◌≡◌, refl, Bool, true, false, not, ◌&&◌, ◌||◌, Option, none, some, leb,
  ltb, eqb, if◌then◌else◌,
}
use chainmesh.Base.Int.{ℤ, pos, negsuc}

-- A letter in lower case; c | ('x' - 'X')
abbrev lower : ℕ → ℕ
lower c = if leb 65 c && leb c 90 then c + 32 else c

-- A digit's value, or 36, which is no base's digit.
abbrev digit_value : ℕ → ℕ
digit_value c =
    if leb 48 c && leb c 57
    then c - 48
    else if leb 97 (lower c) && leb (lower c) 122
    then lower c - 87
    else 36

-- The digits of a base after a number that is read, with underscores passed over.
unfoldable pub digits : ℕ → ℕ → String → Option ℕ
digits base n [] = some n
digits base n (c ∷ s) =
    let d = digit_value (code c) in
    let skipped = digits base n s in
    let rest = digits base (n * base + d) s in
    if eqb (code c) 95 then skipped else if ltb d base then rest else none

-- The base that a prefix tells, and what follows the prefix.
prefix_of : ℕ → String → Option ℕ
prefix_of c [] = none
prefix_of c (d ∷ s) =
    if eqb (lower c) 98
    then some 2
    else if eqb (lower c) 111
    then some 8
    else if eqb (lower c) 120
    then some 16
    else none

after_zero : String → ℕ × String
after_zero [] = (8, [])
after_zero (c ∷ s) = elim (prefix_of (code c) s) [ some base ↦ (base, s) | none ↦ (8, c ∷ s) ]

base_of : String → ℕ × String
base_of [] = (10, [])
base_of (c ∷ s) = if eqb (code c) 48 then after_zero s else (10, c ∷ s)

-- What the last character was: the beginning, a digit or base prefix, an underscore, or another.
pub data Last : Type 0 where
  beginning digit underscore other : Last

is_digit : Last → Bool
is_digit digit = true
is_digit _ = false

is_underscore : Last → Bool
is_underscore underscore = true
is_underscore _ = false

-- The loop of underscoreOK.
separated : Bool → Last → String → Bool
separated hex last [] = not (is_underscore last)
separated hex last (c ∷ s) =
    let is_number =
      (leb 48 (code c) && leb (code c) 57)
      || (hex && leb 97 (lower (code c)) && leb (lower (code c)) 102) in
    let after_digit = separated hex digit s in
    let after_underscore = separated hex underscore s in
    let after_other = separated hex other s in
    if is_number
    then after_digit
    else if eqb (code c) 95
    then is_digit last && after_underscore
    else not (is_underscore last) && after_other

zero_first : String → Bool
zero_first [] = true
zero_first (c ∷ s) =
    if eqb (lower (code c)) 98 || eqb (lower (code c)) 111 || eqb (lower (code c)) 120
    then separated (eqb (lower (code c)) 120) digit s
    else separated false digit (c ∷ s)

-- underscoreOK of the text after the sign
underscores_ok : String → Bool
underscores_ok [] = true
underscores_ok (c ∷ s) = if eqb (code c) 48 then zero_first s else separated false beginning (c ∷ s)

-- ParseUint(s, 0, 64), without its bound
magnitude : String → Option ℕ
magnitude [] = none
magnitude (c ∷ s) =
    let (base, rest) = base_of (c ∷ s) in
    if underscores_ok (c ∷ s) then digits base 0 rest else none

positive : Option ℕ → Option ℤ
positive none = none
positive (some n) = if ltb n (2 ^ 63) then some (pos n) else none

negative : Option ℕ → Option ℤ
negative none = none
negative (some n) =
    if leb n (2 ^ 63) then some (if eqb n 0 then pos 0 else negsuc (n - 1)) else none

unfoldable pub parse_int : String → Option ℤ
unfolding digits prefix_of after_zero base_of is_digit is_underscore separated zero_first
    underscores_ok magnitude positive negative
parse_int [] = none
parse_int (c ∷ s) =
    if eqb (code c) 43
    then positive (magnitude s)
    else if eqb (code c) 45
    then negative (magnitude s)
    else positive (magnitude (c ∷ s))

hex_runs : parse_int "0x1b4" ≡ some (pos 436)
unfolding parse_int
hex_runs = refl

separated_runs : parse_int "-0x_1F" ≡ some (negsuc 30)
unfolding parse_int
separated_runs = refl

octal_runs : parse_int "010" ≡ some (pos 8)
unfolding parse_int
octal_runs = refl

empty_prefix_fails : parse_int "0x" ≡ none
unfolding parse_int
empty_prefix_fails = refl

double_underscore_fails : parse_int "1__0" ≡ none
unfolding parse_int
double_underscore_fails = refl

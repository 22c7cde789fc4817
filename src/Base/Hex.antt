-- ===== src/Base/Hex.antt =====
-- The sixteen hexadecimal digits in lower case, and the texts and the numbers that they stand for.
use Prim.Native.Char.{Char, code, len_utf8}
use chainmesh.Base.Tests.{leb, if◌then◌else◌}
use Prim.Native.Nat.{ℕ, ◌+◌, ◌-◌, ◌*◌}
use Prim.Native.String.{String}
use mathlib.Core.Path.{◌≡◌, refl, sym, ap, ◌∙◌}
use mathlib.Core.List.{List, [], ◌∷◌}

pub data Hex : Type 0 where
  hex_zero hex_one hex_two hex_three hex_four hex_five hex_six hex_seven : Hex
  hex_eight hex_nine hex_ten hex_eleven hex_twelve hex_thirteen hex_fourteen hex_fifteen : Hex

abbrev pub digit_char : Hex → Char
digit_char hex_zero = "0"
digit_char hex_one = "1"
digit_char hex_two = "2"
digit_char hex_three = "3"
digit_char hex_four = "4"
digit_char hex_five = "5"
digit_char hex_six = "6"
digit_char hex_seven = "7"
digit_char hex_eight = "8"
digit_char hex_nine = "9"
digit_char hex_ten = "a"
digit_char hex_eleven = "b"
digit_char hex_twelve = "c"
digit_char hex_thirteen = "d"
digit_char hex_fourteen = "e"
digit_char hex_fifteen = "f"

abbrev pub digit_number : Hex → ℕ
digit_number hex_zero = 0
digit_number hex_one = 1
digit_number hex_two = 2
digit_number hex_three = 3
digit_number hex_four = 4
digit_number hex_five = 5
digit_number hex_six = 6
digit_number hex_seven = 7
digit_number hex_eight = 8
digit_number hex_nine = 9
digit_number hex_ten = 10
digit_number hex_eleven = 11
digit_number hex_twelve = 12
digit_number hex_thirteen = 13
digit_number hex_fourteen = 14
digit_number hex_fifteen = 15

abbrev pub render : List Hex → String
render [] = String.[]
render (h ∷ hs) = String.◌∷◌ (digit_char h) (render hs)

-- The value of digits after a number that is read.
abbrev pub number_from : ℕ → List Hex → ℕ
number_from n [] = n
number_from n (h ∷ hs) = number_from (n * 16 + digit_number h) hs

-- The number of a digit, from the code of its character.
abbrev value : ℕ → ℕ
value c = if leb c 57 then c - 48 else c - 87

value-digit_char : (h : Hex) → value (code (digit_char h)) ≡ digit_number h
value-digit_char hex_zero = refl
value-digit_char hex_one = refl
value-digit_char hex_two = refl
value-digit_char hex_three = refl
value-digit_char hex_four = refl
value-digit_char hex_five = refl
value-digit_char hex_six = refl
value-digit_char hex_seven = refl
value-digit_char hex_eight = refl
value-digit_char hex_nine = refl
value-digit_char hex_ten = refl
value-digit_char hex_eleven = refl
value-digit_char hex_twelve = refl
value-digit_char hex_thirteen = refl
value-digit_char hex_fourteen = refl
value-digit_char hex_fifteen = refl

pub digit_char-injective :
    (g h : Hex) → digit_char g ≡ digit_char h → digit_number g ≡ digit_number h
digit_char-injective g h e =
    sym (value-digit_char g) ∙ (ap (λ c. value (code c)) e ∙ value-digit_char h)

pub len_utf8-digit_char : (h : Hex) → len_utf8 (digit_char h) ≡ 1
len_utf8-digit_char hex_zero = refl
len_utf8-digit_char hex_one = refl
len_utf8-digit_char hex_two = refl
len_utf8-digit_char hex_three = refl
len_utf8-digit_char hex_four = refl
len_utf8-digit_char hex_five = refl
len_utf8-digit_char hex_six = refl
len_utf8-digit_char hex_seven = refl
len_utf8-digit_char hex_eight = refl
len_utf8-digit_char hex_nine = refl
len_utf8-digit_char hex_ten = refl
len_utf8-digit_char hex_eleven = refl
len_utf8-digit_char hex_twelve = refl
len_utf8-digit_char hex_thirteen = refl
len_utf8-digit_char hex_fourteen = refl
len_utf8-digit_char hex_fifteen = refl

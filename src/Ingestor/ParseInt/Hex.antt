-- ===== src/Ingestor/ParseInt/Hex.antt =====
-- The quantities of JSON-RPC, "0x" and hexadecimal digits, as strconv.ParseInt reads them.
use Prim.Native.Char.{code}
use chainmesh.Base.{
  ℕ, ◌+◌, ◌*◌, ◌^◌, ◌≡◌, refl, true, false, ◌&&◌, ◌||◌, none, some, String, List, [], ◌∷◌, leb, ltb,
  eqb, if◌then◌else◌,
}
use chainmesh.Base.Hex.{
  Hex, hex_zero, hex_one, hex_two, hex_three, hex_four, hex_five, hex_six, hex_seven, hex_eight,
  hex_nine, hex_ten, hex_eleven, hex_twelve, hex_thirteen, hex_fourteen, hex_fifteen, digit_char,
  digit_number, render, number_from,
}
use chainmesh.Base.Int.{pos}
use chainmesh.Ingestor.ParseInt.{
  lower, digit_value, digits, digit, separated, zero_first, underscores_ok, after_zero, base_of,
  prefix_of, magnitude, positive, parse_int, is_digit, is_underscore,
}

digit_read :
    (h : Hex)
    → (digit_value (code (digit_char h)) ≡ digit_number h)
      × (eqb (code (digit_char h)) 95 ≡ false)
      × (ltb (digit_number h) 16 ≡ true)
      × (((leb 48 (code (digit_char h)) && leb (code (digit_char h)) 57)
            || (true
                && leb 97 (lower (code (digit_char h)))
                && leb (lower (code (digit_char h))) 102))
          ≡ true)
digit_read hex_zero = (refl, refl, refl, refl)
digit_read hex_one = (refl, refl, refl, refl)
digit_read hex_two = (refl, refl, refl, refl)
digit_read hex_three = (refl, refl, refl, refl)
digit_read hex_four = (refl, refl, refl, refl)
digit_read hex_five = (refl, refl, refl, refl)
digit_read hex_six = (refl, refl, refl, refl)
digit_read hex_seven = (refl, refl, refl, refl)
digit_read hex_eight = (refl, refl, refl, refl)
digit_read hex_nine = (refl, refl, refl, refl)
digit_read hex_ten = (refl, refl, refl, refl)
digit_read hex_eleven = (refl, refl, refl, refl)
digit_read hex_twelve = (refl, refl, refl, refl)
digit_read hex_thirteen = (refl, refl, refl, refl)
digit_read hex_fourteen = (refl, refl, refl, refl)
digit_read hex_fifteen = (refl, refl, refl, refl)

digits-render : (n : ℕ) (hs : List Hex) → digits 16 n (render hs) ≡ some (number_from n hs)
unfolding digits
digits-render n [] = refl
digits-render n (h ∷ hs) =
    let (v, u, l, x) = digit_read h in rw (u, v, l) (digits-render (n * 16 + digit_number h) hs)

separated-render : (hs : List Hex) → separated true digit (render hs) ≡ true
unfolding separated is_underscore is_digit
separated-render [] = refl
separated-render (h ∷ hs) = let (v, u, l, x) = digit_read h in rw x (separated-render hs)

-- ParseInt of "0x" and at least one hexadecimal digit in lower case is the number that they stand for in
-- base 16, if it is below 2^63, and an error if it is not.
pub parse_int-render :
    (h : Hex) (hs : List Hex)
    → parse_int (String.◌∷◌ "0" (String.◌∷◌ "x" (render (h ∷ hs)))) ≡ (
        if ltb (number_from 0 (h ∷ hs)) (2 ^ 63) then some (pos (number_from 0 (h ∷ hs))) else none)
unfolding parse_int magnitude positive underscores_ok zero_first base_of after_zero prefix_of
parse_int-render h hs = rw (separated-render (h ∷ hs)) (rw (digits-render 0 (h ∷ hs)) refl)

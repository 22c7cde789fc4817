-- ===== src/ApiKey.antt =====
-- backend/shared/util/apikey.go: the keys of tenants and the IDs of requests. crypto/rand is a parameter
-- that gives sixteen bytes; from Go 1.24 on its Read gives no error. encoding/hex is written out.
pub mod Shape
use Prim.Native.String.{◌++◌}
use chainmesh.Base.{
  ℕ, zero, suc, ◌/◌, ◌%◌, ◌≡◌, ◌<◌, refl, String, List, [], ◌∷◌, arith, All, length,
}
use chainmesh.Base.Hex.{
  Hex, hex_zero, hex_one, hex_two, hex_three, hex_four, hex_five, hex_six, hex_seven, hex_eight,
  hex_nine, hex_ten, hex_eleven, hex_twelve, hex_thirteen, hex_fourteen, hex_fifteen, digit_char,
}

-- What rand.Read has put into the buffer.
pub record Random : Type 0 where
  pub bytes : List ℕ
  pub length_bytes : length bytes ≡ 16
  pub small : All (λ b. b < 256) bytes

abbrev pub hextable : List Hex
hextable =
    hex_zero ∷ hex_one ∷ hex_two ∷ hex_three ∷ hex_four ∷ hex_five ∷ hex_six ∷ hex_seven ∷ hex_eight
    ∷ hex_nine ∷ hex_ten ∷ hex_eleven ∷ hex_twelve ∷ hex_thirteen ∷ hex_fourteen ∷ hex_fifteen ∷ []

-- The n-th digit of a table.
abbrev pub entry : ℕ → List Hex → Hex
entry n [] = hex_zero
entry zero (h ∷ hs) = h
entry (suc n) (h ∷ hs) = entry n hs

-- hextable[n]
abbrev pub nibble : ℕ → Hex
nibble n = entry n hextable

-- hex.EncodeToString: hextable[b>>4], hextable[b&0x0f]
unfoldable pub encode_to_string : List ℕ → String
encode_to_string [] = String.[]
encode_to_string (b ∷ bs) =
    String.◌∷◌ (digit_char (nibble (b / 16)))
      (String.◌∷◌ (digit_char (nibble (b % 16))) (encode_to_string bs))

-- GenerateAPIKey
unfoldable pub generate_api_key : Random → String
generate_api_key r = "bm_live_" ++ encode_to_string r.bytes

-- GenerateRequestID
unfoldable pub generate_request_id : Random → String
generate_request_id r = encode_to_string r.bytes

encode_runs : encode_to_string (0 ∷ 171 ∷ 255 ∷ []) ≡ "00abff"
unfolding encode_to_string
encode_runs = refl

-- ===== src/Json.antt =====
-- encoding/json as the code uses it: JSON values, and the decoding of a value into the structs of
-- backend/shared/blockchain/types.go by encoding/json's rules for string, int, slice and pointer
-- fields. The text syntax itself is a parameter, a `Codec`.
use chainmesh.Base.{
  ℕ, String, ◌≡◌, refl, Bool, true, false, Option, none, some, leb, eqb, if◌then◌else◌,
}
use chainmesh.Base.Int.{ℤ, pos, negsuc}
use Prim.Native.Nat.{◌+◌, ◌-◌, ◌^◌}
use Prim.Native.Char.{code}
use mathlib.Core.Bool.{◌&&◌}

mutual
  -- `int` is a number written as an integer, `real` any other number literal.
  pub data Json : Type 0 where
    null : Json
    bool : Bool → Json
    int : ℤ → Json
    real : String → Json
    str : String → Json
    arr : Items → Json
    obj : Fields → Json

  pub data Items : Type 0 where
    nil : Items
    cons : Json → Items → Items

  pub data Fields : Type 0 where
    end : Fields
    field : String → Json → Fields → Fields

-- json.Unmarshal's reading of a text, and json.Marshal of a slice of decoded values.
pub record Codec : Type 0 where
  pub parse : String → Option Json
  pub marshal : Items → String

-- A field name matches up to case; two letters outside ASCII fold to "s" and "k".
fold_char : ℕ → ℕ
fold_char c =
    if leb 65 c && leb c 90
    then c + 32
    else if eqb c 383
    then 115
    else if eqb c 8490
    then 107
    else c

unfoldable pub equal_fold : String → String → Bool
unfolding fold_char
equal_fold String.[] String.[] = true
equal_fold String.[] (String.◌∷◌ d t) = false
equal_fold (String.◌∷◌ c s) String.[] = false
equal_fold (String.◌∷◌ c s) (String.◌∷◌ d t) =
    eqb (fold_char (code c)) (fold_char (code d)) && equal_fold s t

abbrev pub is_nil : Items → Bool
is_nil nil = true
is_nil (cons x xs) = false

-- type RPCError struct
pub record RpcError : Type 0 where
  pub code : ℤ
  pub message : String

-- type RPCResponse struct; `result` is the raw value, `error` the pointer
pub record RpcResponse : Type 0 where
  pub jsonrpc : String
  pub result : Option Json
  pub error : Option RpcError
  pub id : ℤ

-- type RPCRequest struct
pub record RpcRequest : Type 0 where
  pub jsonrpc : String
  pub method : String
  pub params : Items
  pub id : ℤ

-- A string field: null leaves it, another type is an error.
abbrev pub decode_string : String → Json → Option String
decode_string old null = some old
decode_string old (str s) = some s
decode_string old _ = none

in_int64 : ℤ → Bool
in_int64 (pos n) = leb n (2 ^ 63 - 1)
in_int64 (negsuc n) = leb n (2 ^ 63 - 1)

-- An int field: null leaves it, a literal that is no integer or is out of range is an error.
decode_int : ℤ → Json → Option ℤ
decode_int old null = some old
decode_int old (int z) = if in_int64 z then some z else none
decode_int old _ = none

-- A []any field.
abbrev pub decode_items : Items → Json → Option Items
decode_items old null = some nil
decode_items old (arr xs) = some xs
decode_items old _ = none

abbrev zero_error : RpcError
zero_error = record { code = pos 0; message = "" }

abbrev zero_response : RpcResponse
zero_response = record { jsonrpc = ""; result = none; error = none; id = pos 0 }

abbrev zero_request : RpcRequest
zero_request = record { jsonrpc = ""; method = ""; params = nil; id = pos 0 }

infixl 10 ◌>>=◌
abbrev ◌>>=◌ : {A B : Type 0} → Option A → (A → Option B) → Option B
none >>= f = none
some a >>= f = f a

error_field : String → Json → RpcError → Option RpcError
error_field k v e =
    if equal_fold k "code"
    then (do z ← decode_int e.code v; some (record e { code = z }))
    else if equal_fold k "message"
    then (do s ← decode_string e.message v; some (record e { message = s }))
    else some e

error_fields : Fields → RpcError → Option RpcError
error_fields end e = some e
error_fields (field k v rest) e = do e' ← error_field k v e; error_fields rest e'

-- A pointer field: null makes it nil, an object fills the struct that it points to.
decode_error : Option RpcError → Json → Option (Option RpcError)
decode_error old null = some none
decode_error none (obj fs) = do e ← error_fields fs zero_error; some (some e)
decode_error (some e₀) (obj fs) = do e ← error_fields fs e₀; some (some e)
decode_error old _ = none

response_field : String → Json → RpcResponse → Option RpcResponse
response_field k v r =
    if equal_fold k "jsonrpc"
    then (do s ← decode_string r.jsonrpc v; some (record r { jsonrpc = s }))
    else if equal_fold k "result"
    then some (record r { result = some v })
    else if equal_fold k "error"
    then (do e ← decode_error r.error v; some (record r { error = e }))
    else if equal_fold k "id"
    then (do z ← decode_int r.id v; some (record r { id = z }))
    else some r

response_fields : Fields → RpcResponse → Option RpcResponse
response_fields end r = some r
response_fields (field k v rest) r = do r' ← response_field k v r; response_fields rest r'

request_field : String → Json → RpcRequest → Option RpcRequest
request_field k v r =
    if equal_fold k "jsonrpc"
    then (do s ← decode_string r.jsonrpc v; some (record r { jsonrpc = s }))
    else if equal_fold k "method"
    then (do s ← decode_string r.method v; some (record r { method = s }))
    else if equal_fold k "params"
    then (do xs ← decode_items r.params v; some (record r { params = xs }))
    else if equal_fold k "id"
    then (do z ← decode_int r.id v; some (record r { id = z }))
    else some r

request_fields : Fields → RpcRequest → Option RpcRequest
request_fields end r = some r
request_fields (field k v rest) r = do r' ← request_field k v r; request_fields rest r'

-- var rpcResp RPCResponse; json.Unmarshal(body, &rpcResp): none is an error.
decode_response : Json → Option RpcResponse
decode_response null = some zero_response
decode_response (obj fs) = response_fields fs zero_response
decode_response _ = none

unfoldable pub unmarshal_response : Codec → String → Option RpcResponse
unfolding decode_response response_fields response_field decode_error error_fields error_field
    decode_int in_int64 equal_fold
unmarshal_response codec body = do j ← codec.parse body; decode_response j

-- var req RPCRequest; json.Unmarshal(body, &req)
decode_request : Json → Option RpcRequest
decode_request null = some zero_request
decode_request (obj fs) = request_fields fs zero_request
decode_request _ = none

unfoldable pub unmarshal_request : Codec → String → Option RpcRequest
unfolding decode_request request_fields request_field decode_int in_int64 equal_fold
unmarshal_request codec body = do j ← codec.parse body; decode_request j

-- A type error in one field makes the whole decoding fail.
string_id_fails :
    unmarshal_request
      (record {
        parse = λ _. some (obj (field "id" (str "7") (field "METHOD" (str "eth_chainId") end)));
        marshal = λ _. "";
      })
      ""
    ≡ none
unfolding unmarshal_request
string_id_fails = refl

-- ===== src/Proxy/Text.antt =====
-- strings.TrimSpace and bytes.TrimSpace, as the proxy uses them. A body is a text in UTF-8.
use Prim.Native.Char.{code}
use Prim.Native.String.{String, [], ◌∷◌}
use chainmesh.Base.{ℕ, ◌≡◌, refl, Bool, true, false, ◌&&◌, ◌||◌, leb, eqb, if◌then◌else◌}

-- unicode.IsSpace
is_space : ℕ → Bool
is_space c =
    (leb 9 c && leb c 13)
    || eqb c 32
    || eqb c 133
    || eqb c 160
    || eqb c 5760
    || (leb 8192 c && leb c 8202)
    || eqb c 8232
    || eqb c 8233
    || eqb c 8239
    || eqb c 8287
    || eqb c 12288

unfoldable pub trim_left : String → String
unfolding is_space
trim_left [] = []
trim_left (c ∷ s) = if is_space (code c) then trim_left s else c ∷ s

is_empty : String → Bool
is_empty [] = true
is_empty (c ∷ s) = false

unfoldable pub trim_right : String → String
unfolding is_space is_empty
trim_right [] = []
trim_right (c ∷ s) =
    let rest = trim_right s in if is_space (code c) && is_empty rest then [] else c ∷ rest

unfoldable pub trim_space : String → String
unfolding trim_left trim_right
trim_space s = trim_right (trim_left s)

begins_with_bracket : String → Bool
begins_with_bracket [] = false
begins_with_bracket (c ∷ s) = eqb (code c) 91

-- len(trimmed) > 0 && trimmed[0] == '['
unfoldable pub is_batch : String → Bool
unfolding trim_left begins_with_bracket
is_batch body = begins_with_bracket (trim_left body)

trim_runs : trim_space "  eth_call " ≡ "eth_call"
unfolding trim_space
trim_runs = refl

batch_runs : is_batch "  [1]" ≡ true
unfolding is_batch
batch_runs = refl

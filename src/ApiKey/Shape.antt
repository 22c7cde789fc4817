-- ===== src/ApiKey/Shape.antt =====
-- What a generated key looks like, and that it holds all of the random bytes.
use Prim.Native.String.{len, ◌++◌}
use Prim.Native.String.len
use text.Mathlib.TextLemmas.{
  append_assoc, cons-append, nil-append, nil≢cons, cons≢nil, head-eq_of_cons-eq, tail-eq_of_cons-eq,
  append_cancel_left,
}
use text.Mathlib.TextPositions.{len-append, slice-append_left}
use chainmesh.Base.{
  ℕ, zero, suc, true, ltb, ◌+◌, ◌*◌, ◌/◌, ◌%◌, ◌≡◌, ◌<◌, ◌↔◌, refl, sym, ap, ◌∙◌, String, List, [],
  ◌∷◌, arith, All, length,
}
use chainmesh.Base.Hex.{Hex, digit_char, digit_number, digit_char-injective, len_utf8-digit_char}
use chainmesh.Store.Statements.{first}
use chainmesh.Store.Keys.{api_key_prefix}
use chainmesh.ApiKey.{Random, hextable, entry, nibble, encode_to_string, generate_api_key}

len-digit : (h : Hex) (s : String) → len (String.◌∷◌ (digit_char h) s) ≡ 1 + len s
len-digit h s = len.cons (digit_char h) s ∙ ap (λ n. n + len s) (len_utf8-digit_char h)

pub len-encode_to_string : (bs : List ℕ) → len (encode_to_string bs) ≡ 2 * length bs
unfolding encode_to_string
len-encode_to_string [] = len.nil
len-encode_to_string (b ∷ bs) =
    let first = len-digit (nibble (b / 16)) (encode_byte_rest b bs) in
    let second = len-digit (nibble (b % 16)) (encode_to_string bs) in
    omega (arith, first, second, len-encode_to_string bs)
  where
    encode_byte_rest : ℕ → List ℕ → String
    encode_byte_rest b bs = String.◌∷◌ (digit_char (nibble (b % 16))) (encode_to_string bs)

-- A generated key has 40 bytes, whatever the random bytes are.
pub len-generate_api_key : (r : Random) → len (generate_api_key r) ≡ 40
unfolding generate_api_key
len-generate_api_key r = omega (
  arith,
  len-append "bm_live_" (encode_to_string r.bytes),
  len-encode_to_string r.bytes,
  r.length_bytes,
)

-- The digits of a table are those of the numbers from k on.
abbrev Counts : ℕ → List Hex → Type 0
Counts k [] = Unit
Counts k (h ∷ hs) = (digit_number h ≡ k) × Counts (suc k) hs

entry-number :
    (k n : ℕ) (hs : List Hex) → Counts k hs → n < length hs → digit_number (entry n hs) ≡ k + n
entry-number k n [] c h = absurd (omega (arith, h))
entry-number k zero (x ∷ hs) c h = omega (arith, c.0)
entry-number k (suc n) (x ∷ hs) c h = omega (arith, entry-number (suc k) n hs c.1 (omega arith))

nibble-number : (n : ℕ) → n < 16 → digit_number (nibble n) ≡ n
nibble-number n h = omega (arith, entry-number 0 n hextable hextable-Counts h)
  where
    hextable-Counts : Counts 0 hextable
    hextable-Counts = (
      refl,
      (
        refl,
        (
          refl,
          (
            refl,
            (
              refl,
              (
                refl,
                (refl, (refl, (refl, (refl, (refl, (refl, (refl, (refl, (refl, (refl, tt)))))))))),
              ),
            ),
          ),
        ),
      ),
    )

same_nibble : (m n : ℕ) → m < 16 → n < 16 → digit_char (nibble m) ≡ digit_char (nibble n) → m ≡ n
same_nibble m n a b e =
    sym (nibble-number m a) ∙ (digit_char-injective (nibble m) (nibble n) e ∙ nibble-number n b)

encode_to_string-injective :
    (cs bs : List ℕ)
    → All (λ b. b < 256) cs
    → All (λ b. b < 256) bs
    → encode_to_string cs ≡ encode_to_string bs
    → cs ≡ bs
unfolding encode_to_string
encode_to_string-injective [] [] h k e = refl
encode_to_string-injective [] (b ∷ bs) h k e = absurd (nil≢cons e)
encode_to_string-injective (a ∷ cs) [] h k e = absurd (cons≢nil e)
encode_to_string-injective (a ∷ cs) (b ∷ bs) (p, h) (q, k) e =
    let high = same_nibble (a / 16) (b / 16) (omega arith) (omega arith) (head-eq_of_cons-eq e) in
    let low =
      same_nibble (a % 16) (b % 16) (omega arith) (omega arith)
        (head-eq_of_cons-eq (tail-eq_of_cons-eq e)) in
    let rest = encode_to_string-injective cs bs h k (tail-eq_of_cons-eq (tail-eq_of_cons-eq e)) in
    let same : a ≡ b = omega (arith, high, low) in cc

-- The random bytes can be told from the key.
pub generate_api_key-injective :
    (r s : Random) → generate_api_key r ≡ generate_api_key s → r.bytes ≡ s.bytes
unfolding generate_api_key
generate_api_key-injective r s e =
    encode_to_string-injective r.bytes s.bytes r.small s.small (append_cancel_left "bm_live_" _ _ e)

-- The prefix of a key whose first two bytes are given.
abbrev prefix_of : ℕ → ℕ → String
prefix_of a b = "bm_live_" ++ encode_to_string (a ∷ b ∷ [])

encode_two :
    (a b : ℕ) (rest : List ℕ)
    → encode_to_string (a ∷ b ∷ rest) ≡ encode_to_string (a ∷ b ∷ []) ++ encode_to_string rest
unfolding encode_to_string
encode_two a b rest = sym (rw (cons-append, cons-append, cons-append, cons-append, nil-append) refl)

split_at_two :
    (a b : ℕ) (rest : List ℕ)
    → "bm_live_" ++ encode_to_string (a ∷ b ∷ rest) ≡ prefix_of a b ++ encode_to_string rest
split_at_two a b rest =
    ap (λ s. "bm_live_" ++ s) (encode_two a b rest)
    ∙ sym (append_assoc "bm_live_" (encode_to_string (a ∷ b ∷ [])) (encode_to_string rest))

api_key_prefix-lem :
    (a b : ℕ) (rest : List ℕ)
    → 0 < length rest
    → api_key_prefix ("bm_live_" ++ encode_to_string (a ∷ b ∷ rest)) ≡ prefix_of a b
unfolding api_key_prefix
api_key_prefix-lem a b rest h =
    let whole : len ("bm_live_" ++ encode_to_string (a ∷ b ∷ rest)) ≡ 12 + 2 * length rest = omega (
      arith,
      len-append "bm_live_" (encode_to_string (a ∷ b ∷ rest)),
      len-encode_to_string (a ∷ b ∷ rest),
    ) in
    let short : len (prefix_of a b) ≡ 12 = omega (
      arith,
      len-append "bm_live_" (encode_to_string (a ∷ b ∷ [])),
      len-encode_to_string (a ∷ b ∷ []),
    ) in
    let long : ltb 12 (len ("bm_live_" ++ encode_to_string (a ∷ b ∷ rest))) ≡ true =
      ground (arith, whole) in
    rw (long, split_at_two a b rest, ← short)
      (slice-append_left (prefix_of a b) (encode_to_string rest))

-- Generated keys are the same exactly if all their random bytes are, and GetTenantByAPIKey looks for the rows
-- of two of them by the same prefix exactly if their first two bytes are the same.
pub generate_api_key-Tells :
    (r s : Random)
    → ((generate_api_key r ≡ generate_api_key s) ↔ (r.bytes ≡ s.bytes))
      × ((api_key_prefix (generate_api_key r) ≡ api_key_prefix (generate_api_key s))
          ↔ (first 2 r.bytes ≡ first 2 s.bytes))
unfolding generate_api_key
generate_api_key-Tells r s = (
  (generate_api_key-injective r s, λ e. ap (λ bs. "bm_live_" ++ encode_to_string bs) e),
  by_bytes r.bytes s.bytes r.length_bytes s.length_bytes r.small s.small,
)
  where
    by_bytes :
        (xs ys : List ℕ)
        → length xs ≡ 16
        → length ys ≡ 16
        → All (λ b. b < 256) xs
        → All (λ b. b < 256) ys
        → (api_key_prefix ("bm_live_" ++ encode_to_string xs)
            ≡ api_key_prefix ("bm_live_" ++ encode_to_string ys))
          ↔ (first 2 xs ≡ first 2 ys)
    by_bytes (a ∷ b ∷ xs) (c ∷ d ∷ ys) h k (p, (p', l)) (q, (q', m)) =
        let left = api_key_prefix-lem a b xs (omega (arith, h)) in
        let right = api_key_prefix-lem c d ys (omega (arith, k)) in
        (
          λ e.
              encode_to_string-injective (a ∷ b ∷ []) (c ∷ d ∷ []) (p, (p', tt)) (q, (q', tt))
                (append_cancel_left "bm_live_" _ _ (sym left ∙ (e ∙ right))),
          λ e. left ∙ (ap (λ bs. "bm_live_" ++ encode_to_string bs) e ∙ sym right),
        )
    by_bytes [] ys h k p q = absurd (omega (arith, h))
    by_bytes (a ∷ []) ys h k p q = absurd (omega (arith, h))
    by_bytes (a ∷ b ∷ xs) [] h k p q = absurd (omega (arith, k))
    by_bytes (a ∷ b ∷ xs) (c ∷ []) h k p q = absurd (omega (arith, k))

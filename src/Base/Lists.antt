-- ===== src/Base/Lists.antt =====
-- Lists measured by native numbers, predicates on their elements, and counting by a test.
use Prim.Native.String.{String}
use text.Mathlib.Text.{◌==◌}
use mathlib.Core.Bool.{◌||◌}
use Prim.Native.Nat.{ℕ, suc, ◌+◌}
use mathlib.Core.Path.{◌≡◌}
use mathlib.Core.Bool.{Bool, false}
use mathlib.Core.List.{List, [], ◌∷◌, ◌++◌}
use native.Mathlib.Omega.{arith}
use chainmesh.Base.Tests.{if◌then◌else◌}

module _ {ℓ} {A : Type ℓ} where
  abbrev pub length : List A → ℕ
  length [] = 0
  length (x ∷ xs) = suc (length xs)

  pub length-append : (xs ys : List A) → length (xs ++ ys) ≡ length xs + length ys
  length-append [] ys = omega arith
  length-append (x ∷ xs) ys = omega (arith, length-append xs ys)

  -- The elements that pass a test, in order, and how many they are.
  abbrev pub keep : (A → Bool) → List A → List A
  keep p [] = []
  keep p (x ∷ xs) = let rest = keep p xs in if p x then x ∷ rest else rest

  abbrev pub tally : (A → Bool) → List A → ℕ
  tally p [] = 0
  tally p (x ∷ xs) = (if p x then 1 else 0) + tally p xs

  pub tally-append : (p : A → Bool) (xs ys : List A) → tally p (xs ++ ys) ≡ tally p xs + tally p ys
  tally-append p [] ys = omega arith
  tally-append p (x ∷ xs) ys = omega (arith, tally-append p xs ys)

-- s occurs among the strings.
abbrev pub contains : String → List String → Bool
contains s [] = false
contains s (x ∷ xs) = x == s || contains s xs

module _ {ℓ κ} {A : Type ℓ} (P : A → Type κ) where
  abbrev pub All : List A → Type κ
  All [] = Unit
  All (x ∷ xs) = P x × All xs

  pub All-append : (xs ys : List A) → All xs → All ys → All (xs ++ ys)
  All-append [] ys _ k = k
  All-append (x ∷ xs) ys (p, h) k = (p, All-append xs ys h k)

module _ {ℓ κ μ} {A : Type ℓ} {P : A → Type κ} {Q : A → Type μ} where
  pub All-mono : (f : (a : A) → P a → Q a) (xs : List A) → All P xs → All Q xs
  All-mono f [] _ = tt
  All-mono f (x ∷ xs) (p, h) = (f x p, All-mono f xs h)

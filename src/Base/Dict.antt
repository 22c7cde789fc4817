-- ===== src/Base/Dict.antt =====
-- Go's maps with string keys. The order of the entries is not observed, but where a loop ranges
-- over a map.
use Prim.Native.String.{String}
use mathlib.Core.Path.{◌≡◌, refl}
use mathlib.Core.Option.{Option, none, some}
use mathlib.Core.List.{List, [], ◌∷◌}
use native.Mathlib.Omega.{arith}
use text.Mathlib.Text.{◌==◌}
use text.Mathlib.TextEquality.{eq_iff}
use text.Mathlib.TextPositions.{eq_refl}
use chainmesh.Base.Tests.{if◌then◌else◌}

abbrev pub Dict {ℓ} : Type ℓ → Type ℓ
Dict V = List (String × V)

module _ {ℓ} {V : Type ℓ} where
  -- m[k]
  unfoldable pub lookup : String → Dict V → Option V
  lookup key [] = none
  lookup key ((at, held) ∷ rest) = if at == key then some held else lookup key rest

  -- m[k] = v
  unfoldable pub insert : String → V → Dict V → Dict V
  insert key new [] = (key, new) ∷ []
  insert key new ((at, held) ∷ rest) =
      let below = insert key new rest in if at == key then (key, new) ∷ rest else (at, held) ∷ below

  -- delete(m, k)
  unfoldable pub delete : String → Dict V → Dict V
  delete key [] = []
  delete key ((at, held) ∷ rest) =
      let below = delete key rest in if at == key then below else (at, held) ∷ below

  pub lookup-insert :
      (key other : String) (new : V) (m : Dict V)
      → lookup other (insert key new m) ≡ (if key == other then some new else lookup other m)
  unfolding insert lookup
  lookup-insert key other new [] = refl
  lookup-insert key other new ((at, held) ∷ rest) =
      let ih = lookup-insert key other new rest in
      ground (arith, eq_iff at other, eq_iff at key, eq_iff key other)

  pub lookup-delete :
      (key other : String) (m : Dict V)
      → lookup other (delete key m) ≡ (if key == other then none else lookup other m)
  unfolding delete lookup
  lookup-delete key other [] = ground arith
  lookup-delete key other ((at, held) ∷ rest) =
      let ih = lookup-delete key other rest in
      ground (arith, eq_iff at other, eq_iff at key, eq_iff key other)

  pub lookup-insert_self :
      (key : String) (new : V) (m : Dict V) → lookup key (insert key new m) ≡ some new
  lookup-insert_self key new m = rw (lookup-insert, eq_refl) refl

pub ruleset dict_laws = (lookup-insert, lookup-delete)

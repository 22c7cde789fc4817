-- ===== src/Base/Unique.antt =====
-- Texts without a repetition, by the test that the tables' primary keys make.
use mathlib.Core.List.{Memᴰ, Mem, Perm, Nodup, Nodup-cons, Nodup-nil}
use mathlib.Core.List.Perm
use mathlib.Core.Logic.{∥∥₁_elim}
use mathlib.Core.Bool.{false≢true, Bool, true, false}
use mathlib.Core.Path.{◌≡◌, refl, sym, ◌∙◌}
use mathlib.Core.Logic.{inl, inr}
use mathlib.Core.List.{List, [], ◌∷◌, ◌++◌, map}
use Prim.Native.String.{String}
use native.Mathlib.Omega.{arith}
use text.Mathlib.Text.{◌==◌}
use text.Mathlib.TextEquality.{eq_iff}
use chainmesh.Base.Tests.{Bool-cases}
use chainmesh.Base.Lists.{contains, keep}

pub contains-mem : (s : String) (xs : List String) → contains s xs ≡ true → Memᴰ s xs
contains-mem s [] h = absurd (false≢true h)
contains-mem s (x ∷ xs) h = elim (Bool-cases (x == s)) [
  | inl e ↦ Memᴰ.head (sym ((eq_iff x s).0 e))
  | inr e ↦ Memᴰ.tail (contains-mem s xs (rw e at h))
]

pub mem-contains : (s : String) (xs : List String) → Memᴰ s xs → contains s xs ≡ true
mem-contains s [] m = elim m [ ]
mem-contains s (x ∷ xs) (Memᴰ.head e) = let h = (eq_iff x s).1 (sym e) in ground arith
mem-contains s (x ∷ xs) (Memᴰ.tail m) = let ih = mem-contains s xs m in ground arith

abbrev pub Unique : List String → Type 0
Unique [] = Unit
Unique (s ∷ ss) = (contains s ss ≡ false) × Unique ss

not_in : (s : String) (ss : List String) → contains s ss ≡ false → Mem s ss → ⊥
not_in s ss h m = ∥∥₁_elim m (λ x y. absurd x) (λ d. false≢true (sym h ∙ mem-contains s ss d))

pub Unique-Nodup : (ss : List String) → Unique ss → Nodup ss
Unique-Nodup [] u = Nodup-nil
Unique-Nodup (s ∷ ss) (h, u) = Nodup-cons.1 (not_in s ss h, Unique-Nodup ss u)

pub Nodup-Unique : (ss : List String) → Nodup ss → Unique ss
Nodup-Unique [] n = tt
Nodup-Unique (s ∷ ss) n =
    let k = Nodup-cons.0 n in
    (
      elim (Bool-cases (contains s ss)) [
        | inl e ↦ absurd (k.0 ∣ contains-mem s ss e ∣₁)
        | inr e ↦ e
      ],
      Nodup-Unique ss k.1,
    )

pub Unique-perm : (xs ys : List String) → Perm xs ys → Unique xs → Unique ys
Unique-perm xs ys p u = Nodup-Unique ys (Perm.nodup p (Unique-Nodup xs u))

contains-append_last :
    (s t : String) (ss : List String)
    → contains s ss ≡ false
    → (t == s) ≡ false
    → contains s (ss ++ (t ∷ [])) ≡ false
contains-append_last s t [] h k = ground arith
contains-append_last s t (x ∷ ss) h k =
    let ih = contains-append_last s t ss (ground arith) k in ground arith

pub Unique-append_last :
    (t : String) (ss : List String) → Unique ss → contains t ss ≡ false → Unique (ss ++ (t ∷ []))
Unique-append_last t [] u h = (refl, tt)
Unique-append_last t (s ∷ ss) (k, u) h =
    let other : (t == s) ≡ false = elim (Bool-cases (t == s)) [
      | inl e ↦ let e' = (eq_iff s t).1 (sym ((eq_iff t s).0 e)) in ground arith
      | inr e ↦ e
    ] in
    (contains-append_last s t ss k other, Unique-append_last t ss u (ground arith))

module _ {A : Type 0} (id : A → String) where
  contains-keep :
      (s : String) (p : A → Bool) (xs : List A)
      → contains s (map id xs) ≡ false
      → contains s (map id (keep p xs)) ≡ false
  contains-keep s p [] h = h
  contains-keep s p (x ∷ xs) h =
      let ih = contains-keep s p xs (ground arith) in
      elim (Bool-cases (p x)) [ inl e ↦ rw e (ground arith) | inr e ↦ rw e ih ]

  pub Unique-keep : (p : A → Bool) (xs : List A) → Unique (map id xs) → Unique (map id (keep p xs))
  Unique-keep p [] u = tt
  Unique-keep p (x ∷ xs) (h, u) = elim (Bool-cases (p x)) [
    | inl e ↦ rw e (contains-keep (id x) p xs h, Unique-keep p xs u)
    | inr e ↦ rw e (Unique-keep p xs u)
  ]

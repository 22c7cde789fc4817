-- ===== src/Base/Sorting.antt =====
-- Insertion sort by a test, and by a number: it permutes, and ascends by the number.
use mathlib.Core.List.{Perm, Pairwise, Mem, mem-cons, not-mem-nil, List, [], ◌∷◌}
use mathlib.Core.List.Perm
use mathlib.Core.Logic.Or
use mathlib.Core.Logic.{inl, inr}
use mathlib.Core.Bool.{Bool}
use Prim.Native.Nat.{ℕ, ◌≤◌}
use native.Mathlib.Bridge.{le_prop}
use native.Mathlib.Omega.{arith}
use chainmesh.Base.Tests.{ltb, if◌then◌else◌, Bool-cases}

module _ {A : Type 0} where
  unfoldable pub insert_by : (A → A → Bool) → A → List A → List A
  insert_by less x [] = x ∷ []
  insert_by less x (y ∷ ys) =
      let rest = insert_by less x ys in if less y x then y ∷ rest else x ∷ y ∷ ys

  unfoldable pub sort_by : (A → A → Bool) → List A → List A
  unfolding insert_by
  sort_by less [] = []
  sort_by less (x ∷ xs) = insert_by less x (sort_by less xs)

  insert_by-perm : (less : A → A → Bool) (x : A) (ys : List A) → Perm (insert_by less x ys) (x ∷ ys)
  unfolding insert_by
  insert_by-perm less x [] = Perm.refl _
  insert_by-perm less x (y ∷ ys) = elim (Bool-cases (less y x)) [
    | inl before ↦
        rw (before, insert_by)
          (Perm.trans (Perm.cons y (insert_by-perm less x ys)) (Perm.swap x y ys))
    | inr after ↦ rw (after, insert_by) (Perm.refl _)
  ]

  pub sort_by-perm : (less : A → A → Bool) (xs : List A) → Perm (sort_by less xs) xs
  unfolding sort_by
  sort_by-perm less [] = Perm.refl []
  sort_by-perm less (x ∷ xs) =
      Perm.trans (insert_by-perm less x (sort_by less xs)) (Perm.cons x (sort_by-perm less xs))

  module _ (key : A → ℕ) where
    abbrev pub before : A → A → Bool
    before a b = ltb (key a) (key b)

    abbrev Ascends : List A → Type 0
    Ascends = Pairwise (λ a b. key a ≤ key b)

    key-prop : (a b : ℕ) → IsProp (a ≤ b)
    key-prop a b = le_prop

    -- What is below an element and below all of a list is below all of both.
    below_both :
        (b x : A) (ys : List A)
        → key b ≤ key x
        → ((a : A) → Mem a ys → key b ≤ key a)
        → (a : A) → Mem a (x ∷ ys)
        → key b ≤ key a
    below_both b x ys h k a m = Or.elim (key-prop _ _) (mem-cons.0 m) (λ e. rw e h) (λ n. k a n)

    insert_by-Ascends : (x : A) (ys : List A) → Ascends ys → Ascends (insert_by before x ys)
    unfolding insert_by
    insert_by-Ascends x [] p = Pairwise.cons (λ a m. absurd (not-mem-nil m)) Pairwise.nil
    insert_by-Ascends x (y ∷ ys) (Pairwise.cons h p) = elim (Bool-cases (ltb (key y) (key x))) [
      | inl lt ↦ rw lt (
          Pairwise.cons
            (λ a m.
              below_both y x ys (ground arith) h a
                ((Perm.mem_iff (insert_by-perm before x ys)).0 m))
            (insert_by-Ascends x ys p))
      | inr ge ↦
          let le : key x ≤ key y = ground arith in
          rw ge (
            Pairwise.cons (below_both x y ys le (λ a m. let k = h a m in omega (arith, le, k)))
              (Pairwise.cons h p))
    ]

    pub sort_by-Ascends : (xs : List A) → Ascends (sort_by before xs)
    unfolding sort_by
    sort_by-Ascends [] = Pairwise.nil
    sort_by-Ascends (x ∷ xs) = insert_by-Ascends x (sort_by before xs) (sort_by-Ascends xs)

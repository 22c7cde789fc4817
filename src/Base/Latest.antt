-- ===== src/Base/Latest.antt =====
-- The first of a table's rows in descending order, and what a LIMIT leaves of them.
use mathlib.Core.Bool.{false≢true}
use mathlib.Core.List.{Mem, Memᴰ, Perm, Pairwise, mem-cons, not-mem-nil, List, [], ◌∷◌}
use mathlib.Core.List.Perm
use mathlib.Core.Logic.Or
use mathlib.Core.Logic.{inl, inr, ∥∥₁_map, ∥∥₁_elim}
use mathlib.Core.Option.{Option, none, some}
use mathlib.Core.Path.{◌≡◌, refl, sym, ◌∙◌}
use mathlib.Core.Bool.{Bool, true, false}
use Prim.Native.Nat.{ℕ, ◌≤◌}
use native.Mathlib.Bridge.{le_prop}
use native.Mathlib.Omega.{arith}
use chainmesh.Base.Tests.{Bool-cases}
use chainmesh.Base.Lists.{keep}
use chainmesh.Base.Members.{mem_keep, keep-mem}
use chainmesh.Base.Order.{OrderBy, descending, descending_perm, descending_sorted}

-- LIMIT 1
abbrev pub top {ℓ} : {A : Type ℓ} → List A → Option A
top [] = none
top (x ∷ xs) = some x

module _ {A : Type 0} (key : A → ℕ) where
  -- No row, or a row whose key no row exceeds.
  abbrev pub TopOf : List A → Option A → Type 0
  TopOf xs none = (a : A) → Mem a xs → ⊥
  TopOf xs (some a) = Mem a xs × ((b : A) → Mem b xs → key b ≤ key a)

  top_sorted : (xs : List A) → Pairwise (λ a b. key b ≤ key a) xs → TopOf xs (top xs)
  top_sorted [] p = λ a m. not-mem-nil m
  top_sorted (x ∷ xs) (Pairwise.cons h p) = (∣ Memᴰ.head refl ∣₁, below)
    where
      below : (b : A) → Mem b (x ∷ xs) → key b ≤ key x
      below b m = Or.elim le_prop (mem-cons.0 m) (λ e. rw e (omega arith)) (λ n. h b n)

  top_perm : (xs ys : List A) (o : Option A) → Perm xs ys → TopOf xs o → TopOf ys o
  top_perm xs ys none p h = λ a m. h a ((Perm.mem_iff p).1 m)
  top_perm xs ys (some a) p h = ((Perm.mem_iff p).0 h.0, λ b m. h.1 b ((Perm.mem_iff p).1 m))

  pub top-descending : (order : OrderBy) (xs : List A) → TopOf xs (top (descending order key xs))
  top-descending order xs =
      top_perm _ xs _ (descending_perm order key xs) (top_sorted _ (descending_sorted order key xs))

  -- The same of the rows that pass a test.
  abbrev pub TopAmong : (A → Bool) → List A → Option A → Type 0
  TopAmong p xs none = (b : A) → Mem b xs → p b ≡ false
  TopAmong p xs (some a) =
      Mem a xs × (p a ≡ true) × ((b : A) → Mem b xs → p b ≡ true → key b ≤ key a)

  into_keep : (p : A → Bool) (xs : List A) (a : A) → Mem a xs → p a ≡ true → Mem a (keep p xs)
  into_keep p xs a m h = ∥∥₁_map m (λ d. keep-mem p xs d h)

  pub keep-TopAmong :
      (p : A → Bool) (xs : List A) (o : Option A) → TopOf (keep p xs) o → TopAmong p xs o
  keep-TopAmong p xs none h =
      λ b m. elim (Bool-cases (p b)) [ inl e ↦ absurd (h b (into_keep p xs b m e)) | inr e ↦ e ]
  keep-TopAmong p xs (some a) (m, h) =
      (∥∥₁_map m (λ d. (mem_keep p xs d).0), passes, λ b n e. h b (into_keep p xs b n e))
    where
      passes : p a ≡ true
      passes = elim (Bool-cases (p a)) [
        | inl e ↦ e
        | inr e ↦
            absurd (∥∥₁_elim m (λ x y. absurd x) (λ d. false≢true (sym e ∙ (mem_keep p xs d).1)))
      ]

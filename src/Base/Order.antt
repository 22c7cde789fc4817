-- ===== src/Base/Order.antt =====
-- ORDER BY of the database, as an interface: rows by a key, with ties in any order.
use mathlib.Core.List.{Perm, Pairwise, reverse, reverse_perm, Pairwise-reverse}
use mathlib.Core.List.Perm
use native.Mathlib.Bridge.{le_prop}
use Prim.Native.Nat.{ℕ, ◌≤◌}
use Prim.Native.String.{String}
use mathlib.Core.List.{List}
use chainmesh.Base.Sorting.{sort_by, before, sort_by-perm, sort_by-Ascends}

-- Ascending by a number, and by a text in the order of the database's collation.
pub record OrderBy : Type 1 where
  pub ascending : {A : Type 0} → (A → ℕ) → List A → List A
  pub alphabetic : {A : Type 0} (text : A → String) → List A → List A
  pub ascending_perm : {A : Type 0} (key : A → ℕ) (xs : List A) → Perm (ascending key xs) xs
  pub ascending_sorted :
      {A : Type 0} (key : A → ℕ) (xs : List A) → Pairwise (λ a b. key a ≤ key b) (ascending key xs)
  pub alphabetic_perm :
      {A : Type 0} (text : A → String) (xs : List A) → Perm (alphabetic text xs) xs

-- ORDER BY key DESC
unfoldable pub descending : OrderBy → {A : Type 0} → (A → ℕ) → List A → List A
descending order key xs = reverse (order.ascending key xs)

pub descending_perm :
    (order : OrderBy) {A : Type 0} (key : A → ℕ) (xs : List A) → Perm (descending order key xs) xs
unfolding descending
descending_perm order key xs = Perm.trans (reverse_perm _) (order.ascending_perm key xs)

pub descending_sorted :
    (order : OrderBy) {A : Type 0} (key : A → ℕ) (xs : List A)
    → Pairwise (λ a b. key b ≤ key a) (descending order key xs)
unfolding descending
descending_sorted order key xs =
    (Pairwise-reverse (λ a b. le_prop)).1 (order.ascending_sorted key xs)

-- Insertion has these laws, with any fixed order of texts.
abbrev pub insertion_order : OrderBy
insertion_order = record {
  ascending = λ {A} key. sort_by (before key);
  alphabetic = λ {A} text xs. xs;
  ascending_perm = λ {A} key. sort_by-perm (before key);
  ascending_sorted = λ {A} key. sort_by-Ascends key;
  alphabetic_perm = λ {A} text xs. Perm.refl xs;
}

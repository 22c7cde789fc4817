-- ===== src/Base/Members.antt =====
-- Elements of lists, with their place: of the elements that pass a test, of a mapped list, of lists
-- put together, and of lists whose elements all have a property.
use mathlib.Core.List.{Memᴰ, List, [], ◌∷◌, ◌++◌}
use mathlib.Core.Path.{◌≡◌, refl, sym, ap, ◌∙◌, subst}
use mathlib.Core.Logic.{inl, inr}
use mathlib.Core.Bool.{Bool, true}
use chainmesh.Base.Tests.{Bool-cases}
use chainmesh.Base.Lists.{keep, All}

pub mem_keep :
    {A : Type 0} (p : A → Bool) (xs : List A) {x : A}
    → Memᴰ x (keep p xs)
    → Memᴰ x xs × (p x ≡ true)
mem_keep p [] m = elim m [ ]
mem_keep p (y ∷ ys) {x} m = elim (Bool-cases (p y)) [
  | inl e ↦ here e (λ n. mem_keep p ys n) (rw e at m)
  | inr e ↦ let h = mem_keep p ys (rw e at m) in (Memᴰ.tail h.0, h.1)
]
  where
    here :
        p y ≡ true
        → (Memᴰ x (keep p ys) → Memᴰ x ys × (p x ≡ true))
        → Memᴰ x (y ∷ keep p ys)
        → Memᴰ x (y ∷ ys) × (p x ≡ true)
    here e ih (Memᴰ.head h) = (Memᴰ.head h, ap p h ∙ e)
    here e ih (Memᴰ.tail n) = (Memᴰ.tail (ih n).0, (ih n).1)

pub keep-mem :
    {A : Type 0} (p : A → Bool) (xs : List A) {x : A} → Memᴰ x xs → p x ≡ true → Memᴰ x (keep p xs)
keep-mem p [] m h = elim m [ ]
keep-mem p (y ∷ ys) (Memᴰ.head e) h = let e' : p y ≡ true = ap p (sym e) ∙ h in rw e' (Memᴰ.head e)
keep-mem p (y ∷ ys) (Memᴰ.tail m) h = elim (Bool-cases (p y)) [
  | inl e ↦ rw e (Memᴰ.tail (keep-mem p ys m h))
  | inr e ↦ rw e (keep-mem p ys m h)
]

pub keep-append :
    {A : Type 0} (p : A → Bool) (xs ys : List A) → keep p (xs ++ ys) ≡ keep p xs ++ keep p ys
keep-append p [] ys = refl
keep-append p (x ∷ xs) ys = elim (Bool-cases (p x)) [
  | inl e ↦ rw e (ap (λ zs. x ∷ zs) (keep-append p xs ys))
  | inr e ↦ rw e (keep-append p xs ys)
]

pub All-mem : {A : Type 0} (P : A → Type 0) (xs : List A) {a : A} → All P xs → Memᴰ a xs → P a
All-mem P [] h m = elim m [ ]
All-mem P (x ∷ xs) h (Memᴰ.head e) = subst P (sym e) h.0
All-mem P (x ∷ xs) h (Memᴰ.tail m) = All-mem P xs h.1 m

pub All-of_mem :
    {A : Type 0} (P : A → Type 0) (xs : List A) → ((x : A) → Memᴰ x xs → P x) → All P xs
All-of_mem P [] h = tt
All-of_mem P (x ∷ xs) h = (h x (Memᴰ.head refl), All-of_mem P xs (λ y m. h y (Memᴰ.tail m)))

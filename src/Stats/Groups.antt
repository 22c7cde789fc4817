-- ===== src/Stats/Groups.antt =====
-- GROUP BY with counts, of the queries in backend/shared/storage/postgres/stats_store.go and of the view
-- request_logs_rollup_1m: an entry for each key, with the sum of what its rows count.
use mathlib.Core.List.{Memᴰ}
use chainmesh.Base.{
  ℕ, ◌+◌, ◌≤◌, ◌≡◌, ◌↔◌, refl, sym, ap, ◌∙◌, Bool, true, false, ◌&&◌, List, [], ◌∷◌, keep, tally,
  arith, inl, inr, Bool-cases, if◌then◌else◌,
}
use mathlib.Core.Bool.{false≢true}

-- COUNT(*), and the two counts with a filter
pub record Tally : Type 0 where
  pub requests : ℕ
  pub errors : ℕ
  pub cache_hits : ℕ

pub data Column : Type 0 where
  requests_column errors_column cache_hits_column : Column

abbrev pub value : Column → Tally → ℕ
value requests_column t = t.requests
value errors_column t = t.errors
value cache_hits_column t = t.cache_hits

abbrev pub add : Tally → Tally → Tally
add a b = record {
  requests = a.requests + b.requests;
  errors = a.errors + b.errors;
  cache_hits = a.cache_hits + b.cache_hits;
}

pub record Entry (K : Type 0) : Type 0 where
  pub key : K
  pub tally : Tally

-- The sum over the elements that pass a test.
abbrev pub sum_if : {A : Type 0} → (A → Bool) → (A → ℕ) → List A → ℕ
sum_if p f [] = 0
sum_if p f (x ∷ xs) = (if p x then f x else 0) + sum_if p f xs

pub sum_if-keep :
    {A : Type 0} (p q : A → Bool) (f : A → ℕ) (xs : List A)
    → sum_if p f (keep q xs) ≡ sum_if (λ x. q x && p x) f xs
sum_if-keep p q f [] = refl
sum_if-keep p q f (x ∷ xs) = elim (Bool-cases (q x)) [
  | inl e ↦ let ih = sum_if-keep p q f xs in rw e (omega (arith, ih))
  | inr e ↦ let ih = sum_if-keep p q f xs in rw e (omega (arith, ih))
]

pub sum_if-same :
    {A : Type 0} (p q : A → Bool) (f : A → ℕ) (xs : List A)
    → ((x : A) → p x ≡ q x)
    → sum_if p f xs ≡ sum_if q f xs
sum_if-same p q f [] h = refl
sum_if-same p q f (x ∷ xs) h = let ih = sum_if-same p q f xs h in rw (h x) (omega (arith, ih))

value-add : (c : Column) (a b : Tally) → value c (add a b) ≡ value c a + value c b
value-add requests_column a b = refl
value-add errors_column a b = refl
value-add cache_hits_column a b = refl

-- Keys that a test compares.
module _ {K : Type 0} (same : K → K → Bool) where
  abbrev pub merge : K → Tally → List (Entry K) → List (Entry K)
  merge k t [] = record { key = k; tally = t } ∷ []
  merge k t (e ∷ es) =
      if same e.key k then record e { tally = add e.tally t } ∷ es else e ∷ merge k t es

  unfoldable pub group_by : {A : Type 0} → (A → K) → (A → Tally) → List A → List (Entry K)
  group_by key count [] = []
  group_by key count (x ∷ xs) = merge (key x) (count x) (group_by key count xs)

  module _ (lawful : (a b : K) → (same a b ≡ true) ↔ (a ≡ b)) (c : Column) where
    merge-sum :
        (p : K → Bool) (k : K) (t : Tally) (es : List (Entry K))
        → sum_if (λ e. p e.key) (λ e. value c e.tally) (merge k t es)
          ≡ (if p k then value c t else 0) + sum_if (λ e. p e.key) (λ e. value c e.tally) es
    merge-sum p k t [] = refl
    merge-sum p k t (e ∷ es) = elim (Bool-cases (same e.key k)) [
      | inl here ↦
          let same_key : e.key ≡ k = (lawful e.key k).0 here in
          let sum = value-add c e.tally t in
          let q = ap p same_key in rw here (rw q (rw sum (split (p k) _ _ _)))
      | inr there ↦ let ih = merge-sum p k t es in rw there (omega (arith, ih))
    ]
      where
        split :
            (b : Bool) (x y z : ℕ)
            → (if b then x + y else 0) + z ≡ (if b then y else 0) + ((if b then x else 0) + z)
        split true x y z = omega arith
        split false x y z = omega arith

    -- Grouping keeps the sums over the keys that pass a test.
    pub group_by-sum :
        {A : Type 0} (p : K → Bool) (key : A → K) (count : A → Tally) (xs : List A)
        → sum_if (λ e. p e.key) (λ e. value c e.tally) (group_by key count xs)
          ≡ sum_if (λ x. p (key x)) (λ x. value c (count x)) xs
    unfolding group_by
    group_by-sum p key count [] = refl
    group_by-sum p key count (x ∷ xs) =
        let ih = group_by-sum p key count xs in
        let m = merge-sum p (key x) (count x) (group_by key count xs) in
        m ∙ ap (λ n. (if p (key x) then value c (count x) else 0) + n) ih

  module _ (lawful : (a b : K) → (same a b ≡ true) ↔ (a ≡ b)) where
    untouched :
        (j k : K) (t : Tally) (es : List (Entry K))
        → same k j ≡ false
        → tally (λ e. same e.key j) (merge k t es) ≡ tally (λ e. same e.key j) es
    untouched j k t [] h = rw h (omega arith)
    untouched j k t (e ∷ es) h = elim (Bool-cases (same e.key k)) [
      | inl here ↦ rw here refl
      | inr there ↦ let ih = untouched j k t es h in rw there (omega (arith, ih))
    ]

    merge-once :
        (j k : K) (t : Tally) (es : List (Entry K))
        → tally (λ e. same e.key j) es ≤ 1
        → tally (λ e. same e.key j) (merge k t es) ≤ 1
    merge-once j k t [] h = one (same k j)
      where
        one : (b : Bool) → (if b then 1 else 0) + 0 ≤ 1
        one true = omega arith
        one false = omega arith
    merge-once j k t (e ∷ es) h = elim (Bool-cases (same e.key k)) [
      | inl here ↦ rw here h
      | inr there ↦ elim (Bool-cases (same e.key j)) [
        | inl at_ ↦
            let rest : tally (λ e. same e.key j) es ≡ 0 = absent es (rw at_ at h) in
            let other : same k j ≡ false = apart at_ there in
            let ih = untouched j k t es other in rw there (rw at_ (omega (arith, rest, ih)))
        | inr off ↦
            let h' : tally (λ e. same e.key j) es ≤ 1 = smaller (rw off at h) in
            let ih = merge-once j k t es h' in rw there (rw off (omega (arith, ih)))
      ]
    ]
      where
        absent :
            (es : List (Entry K))
            → 1 + tally (λ e. same e.key j) es ≤ 1
            → tally (λ e. same e.key j) es ≡ 0
        absent es h = omega (arith, h)

        smaller : {n : ℕ} → 0 + n ≤ 1 → n ≤ 1
        smaller h = omega (arith, h)

        apart : same e.key j ≡ true → same e.key k ≡ false → same k j ≡ false
        apart at_ there = elim (Bool-cases (same k j)) [
          | inl kj ↦ absurd (
              false≢true
                (sym there ∙ (lawful e.key k).1 ((lawful e.key j).0 at_ ∙ sym ((lawful k j).0 kj))))
          | inr kj ↦ kj
        ]

    group_by-once :
        {A : Type 0} (j : K) (key : A → K) (count : A → Tally) (xs : List A)
        → tally (λ e. same e.key j) (group_by key count xs) ≤ 1
    unfolding group_by
    group_by-once j key count [] = omega arith
    group_by-once j key count (x ∷ xs) =
        merge-once j (key x) (count x) (group_by key count xs) (group_by-once j key count xs)

    module _ (c : Column) where
      abbrev weight : Entry K → ℕ
      weight e = value c e.tally

      absent_sum :
          (j : K) (es : List (Entry K))
          → tally (λ e. same e.key j) es ≤ 0
          → sum_if (λ e. same e.key j) weight es ≡ 0
      absent_sum j [] h = refl
      absent_sum j (e ∷ es) h = elim (Bool-cases (same e.key j)) [
        | inl y ↦ absurd (impossible _ (rw y at h))
        | inr n ↦
            let rest : tally (λ d. same d.key j) es ≤ 0 = smaller (rw n at h) in
            let ih = absent_sum j es rest in rw n (omega (arith, ih))
      ]
        where
          impossible : (n : ℕ) → 1 + n ≤ 0 → ⊥
          impossible n h = omega (arith, h)

          smaller : {n : ℕ} → 0 + n ≤ 0 → n ≤ 0
          smaller h = omega (arith, h)

      there_once :
          (e : Entry K) (es : List (Entry K)) → Memᴰ e es → 1 ≤ tally (λ d. same d.key e.key) es
      there_once e [] m = elim m [ ]
      there_once e (d ∷ es) (Memᴰ.head h) =
          let y : same d.key e.key ≡ true = (lawful d.key e.key).1 (ap (λ x. x.key) (sym h)) in
          rw y (omega arith)
      there_once e (d ∷ es) (Memᴰ.tail m) = let ih = there_once e es m in omega (arith, ih)

      entry_sum :
          (e : Entry K) (es : List (Entry K))
          → Memᴰ e es
          → tally (λ d. same d.key e.key) es ≤ 1
          → sum_if (λ d. same d.key e.key) weight es ≡ weight e
      entry_sum e [] m h = elim m [ ]
      entry_sum e (d ∷ es) (Memᴰ.head h) le =
          let y : same d.key e.key ≡ true = (lawful d.key e.key).1 (ap (λ x. x.key) (sym h)) in
          let le' = rw y at le in
          let rest = absent_sum e.key es (omega (arith, le')) in
          let w : weight d ≡ weight e = ap weight (sym h) in rw y (omega (arith, rest, w))
      entry_sum e (d ∷ es) (Memᴰ.tail m) le = elim (Bool-cases (same d.key e.key)) [
        | inl y ↦
            let le' = rw y at le in
            let once = there_once e es m in absurd (omega (arith, le', once))
        | inr n ↦
            let le' = rw n at le in
            let ih = entry_sum e es m (omega (arith, le')) in rw n (omega (arith, ih))
      ]

      -- An entry has what the rows of its key count together.
      pub group_by-entry :
          {A : Type 0} (key : A → K) (count : A → Tally) (xs : List A) (e : Entry K)
          → Memᴰ e (group_by key count xs)
          → weight e ≡ sum_if (λ x. same (key x) e.key) (λ x. value c (count x)) xs
      group_by-entry key count xs e m =
          sym (entry_sum e (group_by key count xs) m (group_by-once e.key key count xs))
          ∙ group_by-sum lawful c (λ k. same k e.key) key count xs

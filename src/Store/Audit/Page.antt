-- ===== src/Store/Audit/Page.antt =====
-- The pages that ListAuditLogs answers.
use chainmesh.Base.{
  All, ℕ, zero, suc, ◌+◌, ◌*◌, ◌≤◌, ◌≡◌, refl, sym, ap, ◌∙◌, Option, none, some, List, [], ◌∷◌,
  ◌++◌, map, length, arith,
}
use chainmesh.Base.Int.{ℤ, pos, negsuc}
use chainmesh.Base.Order.{OrderBy, descending}
use chainmesh.Model.{AuditLog}
use mathlib.Core.List.Perm
use chainmesh.Base.Order.{descending_perm, descending_sorted}
use chainmesh.Store.Audit.Timed.{IsTimed, IsTimed-perm, unique_order}
use chainmesh.Store.{Database}
use chainmesh.Store.Statements.{complete, query, first}
use chainmesh.Store.Audit.{scan_audit, page_limit, skip, list_audit_logs}

page_limit-bounds : (limit : ℤ) → (1 ≤ page_limit limit) × (page_limit limit ≤ 1000)
unfolding page_limit
page_limit-bounds (pos n) = (ground arith, ground arith)
page_limit-bounds (negsuc n) = (ground arith, ground arith)

length-first : {A : Type 0} (n : ℕ) (xs : List A) → length (first n xs) ≤ n
length-first zero xs = omega arith
length-first (suc n) [] = omega arith
length-first (suc n) (x ∷ xs) = let ih = length-first n xs in omega (arith, ih)

shorter-first : {A : Type 0} (n : ℕ) (xs : List A) → length (first n xs) ≤ length xs
shorter-first zero xs = omega arith
shorter-first (suc n) [] = omega arith
shorter-first (suc n) (x ∷ xs) = let ih = shorter-first n xs in omega (arith, ih)

length-map : {A B : Type 0} (f : A → B) (xs : List A) → length (map f xs) ≡ length xs
length-map f [] = refl
length-map f (x ∷ xs) = ap suc (length-map f xs)

first_skip : {A : Type 0} (n : ℕ) (xs : List A) → first n xs ++ skip n xs ≡ xs
first_skip zero xs = refl
first_skip (suc n) [] = refl
first_skip (suc n) (x ∷ xs) = ap (λ ys. x ∷ ys) (first_skip n xs)

map_first :
    {A B : Type 0} (f : A → B) (n : ℕ) (xs : List A) → map f (first n xs) ≡ first n (map f xs)
map_first f zero xs = refl
map_first f (suc n) [] = refl
map_first f (suc n) (x ∷ xs) = ap (λ ys. f x ∷ ys) (map_first f n xs)

map_skip : {A B : Type 0} (f : A → B) (n : ℕ) (xs : List A) → map f (skip n xs) ≡ skip n (map f xs)
map_skip f zero xs = refl
map_skip f (suc n) [] = refl
map_skip f (suc n) (x ∷ xs) = map_skip f n xs

module _ {A : Type 0} where
  abbrev empty : List A
  empty = []

  skip-nil : (n : ℕ) → skip n empty ≡ empty
  skip-nil zero = refl
  skip-nil (suc n) = refl

  first-nil : (n : ℕ) → first n empty ≡ empty
  first-nil zero = refl
  first-nil (suc n) = refl

skip_skip : {A : Type 0} (m n : ℕ) (xs : List A) → skip n (skip m xs) ≡ skip (m + n) xs
skip_skip zero n xs = let e : 0 + n ≡ n = omega arith in rw e refl
skip_skip (suc m) n [] = let e : suc m + n ≡ suc (m + n) = omega arith in rw e (skip-nil n)
skip_skip (suc m) n (x ∷ xs) =
    let e : suc m + n ≡ suc (m + n) = omega arith in rw e (skip_skip m n xs)

first_add :
    {A : Type 0} (m n : ℕ) (xs : List A) → first m xs ++ first n (skip m xs) ≡ first (m + n) xs
first_add zero n xs = let e : 0 + n ≡ n = omega arith in rw e refl
first_add (suc m) n [] = let e : suc m + n ≡ suc (m + n) = omega arith in rw e (first-nil n)
first_add (suc m) n (x ∷ xs) =
    let e : suc m + n ≡ suc (m + n) = omega arith in rw e (ap (λ ys. x ∷ ys) (first_add m n xs))

abbrev pub concat : {A : Type 0} → List (List A) → List A
concat [] = []
concat (xs ∷ xss) = xs ++ concat xss

-- All entries, the newest first.
abbrev pub trail : OrderBy → Database → List AuditLog
trail order db = map scan_audit (descending order (λ row. row.created_at) db.audit_logs)

abbrev or_empty : Option (List AuditLog) → List AuditLog
or_empty none = []
or_empty (some ls) = ls

-- The answers to one query after another, each with its own order among entries of one time.
unfoldable pub answers : (ℕ → OrderBy) → ℤ → ℕ → ℕ → Database → List (List AuditLog)
answers orders limit zero offset db = []
answers orders limit (suc k) offset db =
    or_empty (list_audit_logs (orders k) complete limit (pos offset) db)
    ∷ answers orders limit k (offset + page_limit limit) db

page :
    (order : OrderBy) (limit : ℤ) (offset : ℕ) (db : Database)
    → or_empty (list_audit_logs order complete limit (pos offset) db)
      ≡ first (page_limit limit) (skip offset (trail order db))
unfolding list_audit_logs query
page order limit offset db =
    map_first scan_audit (page_limit limit) _
    ∙ ap (first (page_limit limit)) (map_skip scan_audit offset _)

-- Any two orders give the same trail when the times differ.
same_trail :
    (order other : OrderBy) (db : Database)
    → IsTimed db.audit_logs
    → trail order db ≡ trail other db
same_trail order other db timed = ap (map scan_audit) (
    unique_order _ _
      (IsTimed-perm (Perm.symm (descending_perm order (λ row. row.created_at) db.audit_logs)) timed)
      (Perm.trans (descending_perm order _ _)
        (Perm.symm (descending_perm other (λ row. row.created_at) db.audit_logs)))
      (descending_sorted order _ _) (descending_sorted other _ _))

answers_from :
    (order : OrderBy) (orders : ℕ → OrderBy) (limit : ℤ) (k offset : ℕ) (db : Database)
    → IsTimed db.audit_logs
    → concat (answers orders limit k offset db)
      ≡ first (k * page_limit limit) (skip offset (trail order db))
unfolding answers
answers_from order orders limit zero offset db timed =
    let e : 0 * page_limit limit ≡ 0 = omega arith in rw e refl
answers_from order orders limit (suc k) offset db timed =
    let n = page_limit limit in
    let all = trail order db in
    let e : suc k * page_limit limit ≡ page_limit limit + k * page_limit limit = ground arith in
    let ih = answers_from order orders limit k (offset + page_limit limit) db timed in
    rw e (
      rw (page (orders k) limit offset db, same_trail (orders k) order db timed)
        (rw ih (
          ap
            (λ ys.
              first (page_limit limit) (skip offset (trail order db))
              ++ first (k * page_limit limit) ys)
            (sym (skip_skip offset (page_limit limit) (trail order db)))
          ∙ first_add (page_limit limit) (k * page_limit limit) (skip offset (trail order db)))))

answers_short :
    (orders : ℕ → OrderBy) (limit : ℤ) (k offset : ℕ) (db : Database)
    → All (λ ls. length ls ≤ 1000) (answers orders limit k offset db)
unfolding answers
answers_short orders limit zero offset db = tt
answers_short orders limit (suc k) offset db =
    let (low, high) = page_limit-bounds limit in
    let short = length-first (page_limit limit) (skip offset (trail (orders k) db)) in
    (
      rw (page (orders k) limit offset db) (omega (arith, short, high)),
      answers_short orders limit k (offset + page_limit limit) db,
    )

-- If no two entries of the audit trail have the same time, then the first k pages, each a query of its own at
-- the offset after the one before, make up the first entries of the trail in descending order of time, as
-- many as k times the limit in force: none is left out or given twice. A page has at most 1000 entries,
-- whatever limit is asked for, and the limit in force is at least 1.
pub answers-trail :
    (order : OrderBy) (orders : ℕ → OrderBy) (limit : ℤ) (k : ℕ) (db : Database)
    → IsTimed db.audit_logs
    → (concat (answers orders limit k 0 db) ≡ first (k * page_limit limit) (trail order db))
      × All (λ ls. length ls ≤ 1000) (answers orders limit k 0 db)
      × (1 ≤ page_limit limit)
answers-trail order orders limit k db timed = (
  answers_from order orders limit k 0 db timed,
  answers_short orders limit k 0 db,
  (page_limit-bounds limit).0,
)

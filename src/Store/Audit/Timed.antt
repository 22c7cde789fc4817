-- ===== src/Store/Audit/Timed.antt =====
-- Entries of the audit trail with different times have one descending order.
use mathlib.Core.List.{Perm, Pairwise, Pairwise-cons, Mem, mem-cons, mem-cons_self, not-mem-nil}
use mathlib.Core.List.Perm
use mathlib.Core.Logic.Or
use mathlib.Core.Path.{subst}
use native.Mathlib.Bridge.{le_prop}
use std.HLevel.{hedberg}
use mathlib.Core.Bool.{false≢true}
use chainmesh.Base.{
  ◌∙◌, String, ◌==◌, eq_iff, Bool-cases, inl, inr, ◌≤◌, ◌≡◌, ◌≢◌, refl, sym, List, [], ◌∷◌, arith,
}
use chainmesh.Store.{AuditRow}

-- No two entries have the same time.
abbrev pub IsTimed : List AuditRow → Type 0
IsTimed rows = Pairwise (λ a b. a.created_at ≢ b.created_at) rows

pub IsTimed-perm : {xs ys : List AuditRow} → Perm xs ys → IsTimed xs → IsTimed ys
IsTimed-perm p h =
    Perm.pairwise {R = λ a b. a.created_at ≢ b.created_at} (λ a b. hlevel) (λ a b n e. n (sym e)) p
      h

string_discrete : Discrete String
string_discrete a b = elim (Bool-cases (a == b)) [
  | inl e ↦ yes ((eq_iff a b).0 e)
  | inr e ↦ no (λ k. false≢true (sym e ∙ (eq_iff a b).1 k))
]

string_set : IsSet String
string_set = hedberg string_discrete

row_set : IsSet AuditRow
row_set = hlevel string_set

abbrev Newest : List AuditRow → Type 0
Newest rows = Pairwise (λ a b. b.created_at ≤ a.created_at) rows

-- The first of a descending list is not before any other.
head_last :
    (x : AuditRow) (xs : List AuditRow)
    → Newest (x ∷ xs)
    → {y : AuditRow} → Mem y (x ∷ xs)
    → y.created_at ≤ x.created_at
head_last x xs h m =
    Or.elim le_prop (mem-cons.0 m) (λ e. rw e (omega arith)) (λ m'. (Pairwise-cons.0 h).0 _ m')

pub unique_order :
    (xs ys : List AuditRow) → IsTimed xs → Perm xs ys → Newest xs → Newest ys → xs ≡ ys
unique_order [] ys d p h k = Perm.nil-eq p
unique_order (x ∷ xs) [] d p h k = absurd (not-mem-nil ((Perm.mem_iff p).0 mem-cons_self))
unique_order (x ∷ xs) (y ∷ ys) d p h k =
    let before = head_last y ys k ((Perm.mem_iff p).0 mem-cons_self) in
    let after = head_last x xs h ((Perm.mem_iff p).1 mem-cons_self) in
    let same : y ≡ x =
      Or.elim (row_set y x) (mem-cons.0 ((Perm.mem_iff p).1 mem-cons_self)) (λ e. e)
        (λ m. absurd ((Pairwise-cons.0 d).0 y m (omega (arith, before, after)))) in
    let p' : Perm (x ∷ xs) (x ∷ ys) = subst (λ z. Perm (x ∷ xs) (z ∷ ys)) same p in
    let rest =
      unique_order xs ys (Pairwise-cons.0 d).1 (Perm.cons_inv p') (Pairwise-cons.0 h).1
        (Pairwise-cons.0 k).1 in
    rw (same, rest) refl

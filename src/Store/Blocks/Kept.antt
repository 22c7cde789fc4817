-- ===== src/Store/Blocks/Kept.antt =====
-- What storing blocks keeps: the primary key of blocks, and every row that the table had.
use mathlib.Core.Bool.{false≢true}
use mathlib.Core.List.{append_assoc, append-nil}
use chainmesh.Base.{
  ◌≤◌, ◌≡◌, refl, sym, ap, ◌∙◌, String, true, false, some, List, [], ◌∷◌, ◌++◌, ◌==◌, arith,
  eqb_iff, eq_iff, tally, tally-append, inl, inr, ◌⊎◌, Bool-cases,
}
use chainmesh.Base.Int.{ℤ, pos, negsuc}
use chainmesh.Model.{Block}
use chainmesh.Redis.{Delivery, delivered, refused, lost}
use chainmesh.Store.{Database, BlockRow}
use chainmesh.Store.Statements.{exec, or_else}
use chainmesh.Store.Tenants.{names_config}
use chainmesh.Store.Blocks.{same_number, is_at, has_block, block_row, insert_block, store_block}

-- At most one row for a number of a network.
abbrev pub IsKeyed : List BlockRow → Type 0
IsKeyed rows = (number : ℤ) (id : String) → tally (is_at number id) rows ≤ 1

-- StoreBlock once after another, each with the fate of its trip.
unfoldable pub store_all : List (Delivery × Block) → Database → Database
store_all [] db = db
store_all ((trip, b) ∷ rest) db = store_all rest (store_block trip b db).1

abbrev pub Extends : List BlockRow → List BlockRow → Type 0
Extends rows rows' = (more : List BlockRow) × (rows' ≡ rows ++ more)

same_number-eq : (a b : ℤ) → same_number a b ≡ true → a ≡ b
same_number-eq (pos m) (pos n) h = ap pos ((eqb_iff m n).0 h)
same_number-eq (negsuc m) (negsuc n) h = ap negsuc ((eqb_iff m n).0 h)
same_number-eq (pos m) (negsuc n) h = absurd (false≢true h)
same_number-eq (negsuc m) (pos n) h = absurd (false≢true h)

-- A store leaves the table, or adds a row whose key it did not have.
abbrev Added : Block → List BlockRow → List BlockRow → Type 0
Added b rows rows' =
    (rows' ≡ rows)
    ⊎ ((has_block b.number b.network_id rows ≡ false) × (rows' ≡ rows ++ (block_row b ∷ [])))

insert_block-Added :
    (b : Block) (db : Database) → Added b db.blocks (or_else (insert_block b db) db).1.blocks
unfolding insert_block
insert_block-Added b db = elim (Bool-cases (has_block b.number b.network_id db.blocks)) [
  | inl e ↦ rw e (inl refl)
  | inr e ↦ elim (Bool-cases (names_config (some b.network_id) db)) [
    | inl c ↦ rw e (rw c (inr (refl, refl)))
    | inr c ↦ rw e (rw c (inl refl))
  ]
]

store_block-Added :
    (trip : Delivery) (b : Block) (db : Database)
    → Added b db.blocks (store_block trip b db).1.blocks
unfolding store_block exec
store_block-Added delivered b db = insert_block-Added b db
store_block-Added refused b db = inl refl
store_block-Added lost b db = insert_block-Added b db

none_tallied :
    (number : ℤ) (id : String) (rows : List BlockRow)
    → has_block number id rows ≡ false
    → tally (is_at number id) rows ≡ 0
none_tallied number id [] h = refl
none_tallied number id (row ∷ rows) h =
    let here : is_at number id row ≡ false = ground arith in
    let there : has_block number id rows ≡ false = ground arith in
    let ih = none_tallied number id rows there in rw here (omega (arith, ih))

added-IsKeyed :
    (b : Block) (rows : List BlockRow)
    → IsKeyed rows
    → has_block b.number b.network_id rows ≡ false
    → IsKeyed (rows ++ (block_row b ∷ []))
unfolding block_row
added-IsKeyed b rows keyed fresh number id =
    let sum = tally-append (is_at number id) rows (block_row b ∷ []) in
    elim (Bool-cases (is_at number id (block_row b))) [
      | inl same ↦
          let n : same_number b.number number ≡ true = ground arith in
          let w : (b.network_id == id) ≡ true = ground arith in
          let zero = none_tallied b.number b.network_id rows fresh in
          let zero' : tally (is_at number id) rows ≡ 0 =
            rw (same_number-eq b.number number n, (eq_iff b.network_id id).0 w) at zero in
          rw sum (rw same (rw zero' (omega arith)))
      | inr other ↦ let h = keyed number id in rw sum (rw other (omega (arith, h)))
    ]

store_block-kept :
    (trip : Delivery) (b : Block) (db : Database)
    → IsKeyed db.blocks
    → IsKeyed (store_block trip b db).1.blocks × Extends db.blocks (store_block trip b db).1.blocks
store_block-kept trip b db keyed = elim (store_block-Added trip b db) [
  | inl e ↦ (rw e keyed, ([], rw e (sym (append-nil _))))
  | inr (fresh, e) ↦ (rw e (added-IsKeyed b db.blocks keyed fresh), (block_row b ∷ [], e))
]

-- Storing blocks, in any order and with any of them lost or refused, keeps the primary key and every
-- row that the table had: a number of a network keeps the block that was first stored for it.
pub store_all-IsKeyed :
    (bs : List (Delivery × Block)) (db : Database)
    → IsKeyed db.blocks
    → IsKeyed (store_all bs db).blocks × Extends db.blocks (store_all bs db).blocks
unfolding store_all
store_all-IsKeyed [] db keyed = (keyed, ([], sym (append-nil _)))
store_all-IsKeyed ((trip, b) ∷ rest) db keyed =
    let db' = (store_block trip b db).1 in
    let (kept, extended) = store_block-kept trip b db keyed in
    let (more, h) = extended in
    let (keyed', extended') = store_all-IsKeyed rest db' kept in
    let (more', h') = extended' in
    (keyed', (more ++ more', h' ∙ ap (λ rows. rows ++ more') h ∙ append_assoc db.blocks more more'))

-- ===== src/Store/Blocks/Latest.antt =====
-- What GetLatestBlock answers.
use mathlib.Core.Bool.{false≢true}
use mathlib.Core.List.{Memᴰ}
use mathlib.Core.List.Memᴰ
use chainmesh.Base.{
  ℕ, ◌≤◌, ◌≡◌, refl, sym, ap, ◌∙◌, String, Bool, true, Option, none, some, List, [], ◌∷◌, keep,
  ◌==◌, arith, eqb_iff, eq_iff, inl, inr, Bool-cases,
}
use chainmesh.Base.Int.{ℤ, pos, negsuc}
use chainmesh.Base.Order.{OrderBy}
use chainmesh.Base.Latest.{TopAmong, top-descending, keep-TopAmong}
use chainmesh.Model.{Block}
use chainmesh.Redis.{Delivery, delivered, refused, lost}
use chainmesh.Store.{Database, BlockRow}
use chainmesh.Store.Statements.{exec, query_row}
use chainmesh.Store.Tenants.{names_config}
use chainmesh.Store.Blocks.{
  rank, same_number, is_at, has_block, block_row, insert_block, store_block, latest_row, scanned,
  scan_block, get_latest_block,
}

abbrev pub place : BlockRow → ℕ
place row = rank row.number

abbrev pub of_network : String → BlockRow → Bool
of_network id row = row.network_id == id

-- The row that GetLatestBlock answers with is a row of the network whose number no other of the
-- network exceeds, and there is none only if the network has no row.
pub latest_row-TopAmong :
    (order : OrderBy) (id : String) (rows : List BlockRow)
    → TopAmong place (of_network id) rows (latest_row order id rows)
unfolding latest_row
latest_row-TopAmong order id rows =
    keep-TopAmong place (of_network id) rows _
      (top-descending place order (keep (of_network id) rows))

same_number-rank : (a b : ℤ) → same_number a b ≡ true → rank a ≡ rank b
same_number-rank (pos m) (pos n) h = ap (λ k. rank (pos k)) ((eqb_iff m n).0 h)
same_number-rank (negsuc m) (negsuc n) h = ap (λ k. rank (negsuc k)) ((eqb_iff m n).0 h)
same_number-rank (pos m) (negsuc n) h = absurd (false≢true h)
same_number-rank (negsuc m) (pos n) h = absurd (false≢true h)

-- A row of the network with the number.
abbrev HasBlock : ℤ → String → List BlockRow → Type 0
HasBlock number id rows =
    (row : BlockRow) × Memᴰ row rows × (rank row.number ≡ rank number) × (row.network_id ≡ id)

has_block-HasBlock :
    (number : ℤ) (id : String) (rows : List BlockRow)
    → has_block number id rows ≡ true
    → HasBlock number id rows
has_block-HasBlock number id [] h = absurd (false≢true h)
has_block-HasBlock number id (row ∷ rows) h = elim (Bool-cases (is_at number id row)) [
  | inl here ↦
      let n : same_number row.number number ≡ true = ground arith in
      let w : (row.network_id == id) ≡ true = ground arith in
      (row, Memᴰ.head refl, same_number-rank _ _ n, (eq_iff row.network_id id).0 w)
  | inr there ↦
      let (r, m, k, n) = has_block-HasBlock number id rows (rw there at h) in (r, Memᴰ.tail m, k, n)
]

-- The block that StoreBlock reports stored is in the table, this one or one that was there before.
store_block-HasBlock :
    (trip : Delivery) (b : Block) (db : Database)
    → (store_block trip b db).0 ≡ true
    → HasBlock b.number b.network_id (store_block trip b db).1.blocks
unfolding store_block exec block_row insert_block
store_block-HasBlock refused b db h = absurd (false≢true h)
store_block-HasBlock lost b db h = absurd (false≢true h)
store_block-HasBlock delivered b db h =
    elim (Bool-cases (has_block b.number b.network_id db.blocks)) [
      | inl e ↦ rw e (has_block-HasBlock b.number b.network_id db.blocks e)
      | inr e ↦ elim (Bool-cases (names_config (some b.network_id) db)) [
        | inl c ↦
            rw e (rw c ((block_row b, Memᴰ.append_right db.blocks (Memᴰ.head refl), refl, refl)))
        | inr c ↦ absurd (false≢true (rw c at (rw e at h)))
      ]
    ]

-- If StoreBlock gives no error, GetLatestBlock of the same network, when its query arrives, answers a
-- block of the network that is not before the stored one in the order of numbers.
pub store_block-get_latest_block :
    (order : OrderBy) (trip : Delivery) (b : Block) (db : Database)
    → (store_block trip b db).0 ≡ true
    → (l : Block) × (get_latest_block order delivered b.network_id (store_block trip b db).1
        ≡ some l)
      × (l.network_id ≡ b.network_id)
      × (rank b.number ≤ rank l.number)
unfolding get_latest_block query_row scan_block
store_block-get_latest_block order trip b db h =
    let (row, m, k, n) = store_block-HasBlock trip b db h in
    answer (store_block trip b db).1.blocks row m k n _
      (latest_row-TopAmong order b.network_id (store_block trip b db).1.blocks)
  where
    answer :
        (rows : List BlockRow) (row : BlockRow)
        → Memᴰ row rows
        → rank row.number ≡ rank b.number
        → row.network_id ≡ b.network_id
        → (o : Option BlockRow) → TopAmong place (of_network b.network_id) rows o
        → (l : Block) × (scanned o ≡ some l)
          × (l.network_id ≡ b.network_id)
          × (rank b.number ≤ rank l.number)
    answer rows row m k n none t = absurd (false≢true (sym (t row ∣ m ∣₁) ∙ (eq_iff _ _).1 n))
    answer rows row m k n (some l) (at_, own, above) =
        let le = above row ∣ m ∣₁ ((eq_iff _ _).1 n) in
        (scan_block l, refl, (eq_iff _ _).0 own, omega (arith, le, k))

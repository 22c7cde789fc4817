-- ===== src/Store/Blocks.antt =====
-- backend/shared/storage/postgres/block_store.go. A number is a BIGINT, which `rank` puts in order; the
-- primary key of blocks is the number and the network.
pub mod Latest
pub mod Kept
use chainmesh.Base.{
  ℕ, ◌+◌, ◌-◌, ◌^◌, String, Bool, true, false, ◌&&◌, ◌||◌, not, Option, none, some, List, [], ◌∷◌,
  ◌++◌, map, keep, ◌==◌, eqb, if◌then◌else◌,
}
use chainmesh.Base.Int.{ℤ, pos, negsuc}
use chainmesh.Base.Order.{OrderBy, descending}
use chainmesh.Base.Latest.{top}
use chainmesh.Model.{Block, BlockchainConfig}
use chainmesh.Redis.{Delivery}
use chainmesh.Store.{Database, BlockRow}
use chainmesh.Store.Statements.{Statement, exec, query_row, Reading, query, first}
use chainmesh.Store.Tenants.{names_config}

-- A BIGINT's place among them.
abbrev pub rank : ℤ → ℕ
rank (pos n) = 2 ^ 63 + n
rank (negsuc n) = 2 ^ 63 - 1 - n

abbrev pub same_number : ℤ → ℤ → Bool
same_number (pos m) (pos n) = eqb m n
same_number (negsuc m) (negsuc n) = eqb m n
same_number _ _ = false

-- The primary key.
abbrev pub is_at : ℤ → String → BlockRow → Bool
is_at number network_id row = same_number row.number number && row.network_id == network_id

abbrev pub has_block : ℤ → String → List BlockRow → Bool
has_block number network_id [] = false
has_block number network_id (row ∷ rows) =
    is_at number network_id row || has_block number network_id rows

unfoldable pub block_row : Block → BlockRow
block_row b = record {
  number = b.number;
  hash = b.hash;
  parent_hash = b.parent_hash;
  timestamp = b.timestamp;
  tx_count = b.tx_count;
  network_id = b.network_id;
  raw_json = b.raw_json;
}

-- INSERT INTO blocks ... ON CONFLICT (number, network_id) DO NOTHING, with the foreign key
unfoldable pub insert_block : Block → Statement
unfolding block_row
insert_block b db =
    if has_block b.number b.network_id db.blocks
    then some db
    else if not (names_config (some b.network_id) db)
    then none
    else some (record db { blocks = db.blocks ++ (block_row b ∷ []) })

-- StoreBlock
unfoldable pub store_block : Delivery → Block → Database → Bool × Database
store_block trip b db = exec trip (insert_block b) db

-- The columns of a block, scanned into the struct.
unfoldable pub scan_block : BlockRow → Block
scan_block row = record {
  number = row.number;
  hash = row.hash;
  parent_hash = row.parent_hash;
  timestamp = row.timestamp;
  tx_count = row.tx_count;
  network_id = row.network_id;
  network_name = "";
  raw_json = row.raw_json;
}

-- The row that GetLatestBlock asks for.
unfoldable pub latest_row : OrderBy → String → List BlockRow → Option BlockRow
latest_row order network_id rows =
    top
      (descending order (λ row. rank row.number) (keep (λ row. row.network_id == network_id) rows))

abbrev pub scanned : Option BlockRow → Option Block
scanned none = none
scanned (some row) = some (scan_block row)

-- GetLatestBlock
unfoldable pub get_latest_block : OrderBy → Delivery → String → Database → Option Block
unfolding latest_row scan_block
get_latest_block order trip network_id db =
    query_row trip (scanned (latest_row order network_id db.blocks))

-- COALESCE(c.name, '') of the LEFT JOIN
unfoldable pub network_name : String → List BlockchainConfig → String
network_name id [] = ""
network_name id (c ∷ cs) = if c.id == id then c.name else network_name id cs

-- The columns that ListBlocks scans; it leaves the raw JSON out.
unfoldable pub list_row : List BlockchainConfig → BlockRow → Block
list_row configs row = record (scan_block row) {
  network_name = network_name row.network_id configs;
  raw_json = none;
}

-- ListBlocks
unfoldable pub list_blocks : OrderBy → Reading → ℕ → Database → Option (List Block)
unfolding list_row
list_blocks order reading limit db =
    query reading (
      map (list_row db.configs) (first limit (descending order (λ row. rank row.number) db.blocks)))

-- ===== src/Store/Networks.antt =====
-- backend/shared/storage/postgres/blockchain_config_store.go. The table's texts are never NULL: only this
-- code writes them.
pub mod Deletion
pub mod Keyed
use chainmesh.Base.{
  ℕ, String, Bool, true, false, not, Option, none, some, List, [], ◌∷◌, ◌++◌, map, keep, ◌==◌,
  if◌then◌else◌,
}
use chainmesh.Base.Order.{OrderBy}
use chainmesh.Base.Latest.{top}
use chainmesh.Model.{BlockchainConfig}
use chainmesh.Redis.{Delivery}
use chainmesh.Store.{Database, TenantRow, BlockRow, RequestLogRow}
use chainmesh.Store.Statements.{Statement, exec, query_row, Reading, query, in_transaction, ◌>>=◌}
use chainmesh.Store.Tenants.{names_config, finish, begin}

-- ListBlockchainConfigs
unfoldable pub list_blockchain_configs :
    OrderBy → Reading → Database → Option (List BlockchainConfig)
list_blockchain_configs order reading db = query reading (order.alphabetic (λ c. c.name) db.configs)

abbrev pub find_config : String → List BlockchainConfig → Option BlockchainConfig
find_config id [] = none
find_config id (c ∷ cs) = if c.id == id then some c else find_config id cs

-- GetBlockchainConfig
unfoldable pub get_blockchain_config : Delivery → String → Database → Option BlockchainConfig
get_blockchain_config trip id db = query_row trip (find_config id db.configs)

-- GetDefaultBlockchainConfig
unfoldable pub get_default_blockchain_config :
    OrderBy → Delivery → Database → Option BlockchainConfig
get_default_blockchain_config order trip db =
    query_row trip (top (order.ascending (λ c. c.created_at) (keep (λ c. c.enabled) db.configs)))

-- INSERT INTO blockchain_configs, with the primary key
abbrev pub insert_config : BlockchainConfig → Statement
insert_config row db =
    if names_config (some row.id) db
    then none
    else some (record db { configs = db.configs ++ (row ∷ []) })

-- SaveBlockchainConfig, with the id and the time that the server makes up
unfoldable pub save_blockchain_config :
    Delivery
    → (id : String) → (now : ℕ) → BlockchainConfig
    → Database
    → Option BlockchainConfig × Database
save_blockchain_config trip id now cfg db =
    let row = record cfg { id = id; created_at = now; updated_at = now } in
    let (ok, db') = exec trip (insert_config row) db in (if ok then some row else none, db')

abbrev pub change_config : ℕ → BlockchainConfig → BlockchainConfig → BlockchainConfig
change_config now cfg row =
    if row.id == cfg.id then record cfg { created_at = row.created_at; updated_at = now } else row

-- UpdateBlockchainConfig
unfoldable pub update_blockchain_config :
    Delivery → ℕ → BlockchainConfig → Database → Bool × Database
update_blockchain_config trip now cfg db =
    exec trip (λ d. some (record d { configs = map (change_config now cfg) d.configs })) db

-- A nullable reference to a network, and the reference without it.
abbrev pub refers : String → Option String → Bool
refers id none = false
refers id (some n) = n == id

abbrev pub without : String → Option String → Option String
without id n = if refers id n then none else n

-- UPDATE tenants SET blockchain_network_id = NULL WHERE blockchain_network_id = $1
abbrev pub forget : String → TenantRow → TenantRow
forget id row = record row { network_id = without id row.network_id }

abbrev pub forget_network : String → Statement
forget_network id db = some (record db { tenants = map (forget id) db.tenants })

abbrev pub has_blocks : String → List BlockRow → Bool
has_blocks id [] = false
has_blocks id (row ∷ rows) = if row.network_id == id then true else has_blocks id rows

-- UPDATE blocks SET network_id = NULL WHERE network_id = $1: the column is in the primary key, so that
-- NULL violates it in each row.
abbrev pub unlink_blocks : String → Statement
unlink_blocks id db = if has_blocks id db.blocks then none else some db

-- ON DELETE SET NULL of request_logs
abbrev pub forget_log : String → RequestLogRow → RequestLogRow
forget_log id row = record row { network_id = without id row.network_id }

-- DELETE FROM blockchain_configs, when no tenant and no block refers to the row
abbrev pub delete_config : String → Statement
delete_config id db = some (record db {
  configs = keep (λ c. not (c.id == id)) db.configs;
  request_logs = map (forget_log id) db.request_logs;
})

-- The round trips of the transaction.
pub record Trips : Type 0 where
  pub beginning : Delivery
  pub first : Delivery
  pub second : Delivery
  pub third : Delivery
  pub committing : Delivery

-- DeleteBlockchainConfig
unfoldable pub delete_blockchain_config : Trips → String → Database → Bool × Database
delete_blockchain_config trips id db =
    let made = do
      db₁ ← in_transaction trips.beginning begin db
      db₂ ← in_transaction trips.first (forget_network id) db₁
      db₃ ← in_transaction trips.second (unlink_blocks id) db₂
      in_transaction trips.third (delete_config id) db₃
    in finish trips.committing db made

-- ===== src/Ingestor.antt =====
-- backend/ingestor/main.go: one goroutine for each enabled network, which asks the network's nodes for
-- their latest block every 12 seconds and stores it. The log lines are left out.
pub mod ParseInt
pub mod Quantities
pub mod Stored
use chainmesh.Base.{
  ℕ, suc, String, Bool, true, false, Option, none, some, List, [], ◌∷◌, ◌==◌, if◌then◌else◌,
}
use chainmesh.Base.Int.{ℤ}
use chainmesh.Json.{
  Json, null, bool, str, obj, Items, nil, cons, Fields, end, field, Codec, unmarshal_response,
  equal_fold, decode_string, decode_items,
}
use chainmesh.Model.{Block, BlockchainConfig}
use chainmesh.Redis.{Delivery}
use chainmesh.Client.{Client, new, set_network_id, start_health_checks}
use chainmesh.Client.Routing.{SortSlice}
use chainmesh.Client.Calls.{Net, call}
use chainmesh.Store.{Database}
use chainmesh.Store.Blocks.{store_block}
use chainmesh.Store.Statements.{◌>>=◌}
use chainmesh.Ingestor.ParseInt.{parse_int}

-- The endpoints of a network, and its client as runIngestor sets it up.
unfoldable pub endpoints_of : BlockchainConfig → List String
endpoints_of cfg =
    if cfg.rpc_endpoint_2 == ""
    then cfg.rpc_endpoint_1 ∷ []
    else cfg.rpc_endpoint_1 ∷ cfg.rpc_endpoint_2 ∷ []

unfoldable pub ingestor_client : BlockchainConfig → Client
ingestor_client cfg =
    start_health_checks (set_network_id (new (endpoints_of cfg)) cfg.id) 10000000000

-- var block struct { ... }
pub record BlockJson : Type 0 where
  pub number : String
  pub hash : String
  pub parent_hash : String
  pub timestamp : String
  pub transactions : Items

abbrev block_field : String → Json → BlockJson → Option BlockJson
block_field k v b =
    if equal_fold k "number"
    then (do s ← decode_string b.number v; some (record b { number = s }))
    else if equal_fold k "hash"
    then (do s ← decode_string b.hash v; some (record b { hash = s }))
    else if equal_fold k "parentHash"
    then (do s ← decode_string b.parent_hash v; some (record b { parent_hash = s }))
    else if equal_fold k "timestamp"
    then (do s ← decode_string b.timestamp v; some (record b { timestamp = s }))
    else if equal_fold k "transactions"
    then (do xs ← decode_items b.transactions v; some (record b { transactions = xs }))
    else some b

block_fields : Fields → BlockJson → Option BlockJson
block_fields end b = some b
block_fields (field k v rest) b = do b' ← block_field k v b; block_fields rest b'

zero_block : BlockJson
zero_block = record { number = ""; hash = ""; parent_hash = ""; timestamp = ""; transactions = nil }

-- json.Unmarshal(raw["result"], &block)
unfoldable pub decode_block : Json → Option BlockJson
unfolding block_fields zero_block
decode_block null = some zero_block
decode_block (obj fs) = block_fields fs zero_block
decode_block _ = none

-- The last value of a name, as a map keeps it.
last_of : String → Fields → Option Json
last_of name end = none
last_of name (field k v rest) = elim (last_of name rest) [
  | some w ↦ some w
  | none ↦ if k == name then some v else none
]

-- raw["result"] of the body, decoded into a map; none is an error, also that it is not there
unfoldable pub raw_result : Codec → String → Option Json
unfolding last_of
raw_result codec body = do j ← codec.parse body; elim j [ obj fs ↦ last_of "result" fs | _ ↦ none ]

-- `if rpcResp.Error != nil`
unfoldable pub no_rpc_error : Codec → String → Option Bool
no_rpc_error codec body = do
  r ← unmarshal_response codec body
  elim r.error [ none ↦ some true | some e ↦ none ]

unfoldable pub count_items : Items → ℕ
count_items nil = 0
count_items (cons x xs) = suc (count_items xs)

-- The block of a body, and none for each of the errors.
unfoldable pub block_of : Codec → String → String → Option Block
block_of codec network_id body = do
  ok ← no_rpc_error codec body
  result ← raw_result codec body
  b ← decode_block result
  number ← parse_int b.number
  timestamp ← parse_int b.timestamp
  some (record {
    number = number;
    hash = b.hash;
    parent_hash = b.parent_hash;
    timestamp = timestamp;
    tx_count = count_items b.transactions;
    network_id = network_id;
    network_name = "";
    raw_json = some result;
  })

-- What a tick meets: the nodes' exchanges, and the trip of the INSERT.
pub record Tick : Type 0 where
  pub net : Net
  pub trip : Delivery

abbrev body_block : Codec → String → Option String → Option Block
body_block codec network_id none = none
body_block codec network_id (some body) = block_of codec network_id body

abbrev pub stored : Delivery → Option Block → Database → Bool × Database
stored trip none db = (false, db)
stored trip (some b) db = store_block trip b db

-- The block that a tick has got, and the client after it.
unfoldable pub fetch : Codec → SortSlice → Net → String → Client → Client × Option Block
fetch codec sort net network_id c =
    let (c', body) =
      call codec sort net "" c "eth_getBlockByNumber"
        (cons (str "latest") (cons (bool false) nil)) in
    (c', body_block codec network_id body)

-- fetchAndStore: is there no error? The context has no request ID.
unfoldable pub fetch_and_store :
    Codec → SortSlice → Tick → String → Client → Database → Bool × Client × Database
fetch_and_store codec sort tick network_id c db =
    let (c', b) = fetch codec sort tick.net network_id c in
    let (ok, db') = stored tick.trip b db in (ok, c', db')

-- The loop of runIngestor: an error ends the tick and not the loop. The health checks, which run beside
-- it, change the client between two ticks.
unfoldable pub run :
    Codec
    → SortSlice
    → String
    → List (Tick × (Client → Client))
    → Client
    → Database
    → Client × Database
run codec sort network_id [] c db = (c, db)
run codec sort network_id ((tick, checks) ∷ ticks) c db =
    let (ok, c', db') = fetch_and_store codec sort tick network_id c db in
    run codec sort network_id ticks (checks c') db'

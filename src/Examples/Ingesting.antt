-- ===== src/Examples/Ingesting.antt =====
-- A node whose latest block is number 5.
use chainmesh.Base.{◌≤◌, ◌≡◌, refl, true, some, List, [], ◌∷◌}
use chainmesh.Base.Dict.{lookup, insert}
use chainmesh.Base.Order.{insertion_order}
use chainmesh.Base.Sorting.{sort_by, insert_by}
use chainmesh.Json.{obj, str, arr, nil, end, field, Codec, unmarshal_response}
use chainmesh.Client.{Client, new, start_health_checks, set_network_id}
use chainmesh.Client.Probe.{answered}
use chainmesh.Client.Routing.{endpoints_for_call, score}
use chainmesh.Client.Calls.{Net, call, call_attempt, try_endpoints}
use chainmesh.Client.Sorting.{insertion_sort}
use chainmesh.Model.{Block}
use chainmesh.Redis.{delivered, lost}
use chainmesh.Store.Statements.{exec}
use chainmesh.Store.Blocks.{rank, get_latest_block, store_block, insert_block}
use chainmesh.Ingestor.{
  Tick, ingestor_client, fetch, fetch_and_store, block_of, raw_result, no_rpc_error, decode_block,
  endpoints_of,
}
use chainmesh.Ingestor.{BlockJson}
use chainmesh.Json.{Json, nil}
use chainmesh.Ingestor.ParseInt.{parse_int}
use chainmesh.Ingestor.Stored.{fetch_and_store-get_latest_block}
use chainmesh.Examples.Tables.{config, with_network}

abbrev codec : Codec
codec = record {
  parse = λ s. some (
      obj (
        field "result"
          (obj (
            field "number" (str "0x5")
              (field "timestamp" (str "0x10") (field "transactions" (arr nil) end))))
          end));
  marshal = λ xs. "[]";
}

abbrev net : Net
net q i = record { reply = answered 200 "block"; start = i; latency = 5; now = i }

abbrev tick : Tick
tick = record { net = net; trip = delivered }

stored_tick :
    (fetch_and_store codec insertion_sort tick "eth" (ingestor_client config) with_network).0 ≡ true
unfolding sort_by insert_by start_health_checks set_network_id new endpoints_of score lookup insert
    fetch_and_store fetch call try_endpoints call_attempt endpoints_for_call ingestor_client
    block_of raw_result no_rpc_error decode_block parse_int unmarshal_response store_block exec
    insert_block
stored_tick = refl

fetch_and_store-get_latest_block_example :
    (b : Block) × ((fetch codec insertion_sort net "eth" (ingestor_client config)).1 ≡ some b)
    × (l : Block) × (get_latest_block insertion_order delivered "eth"
          (fetch_and_store codec insertion_sort tick "eth" (ingestor_client config) with_network).2
        ≡ some l)
    × (l.network_id ≡ "eth")
    × (rank b.number ≤ rank l.number)
fetch_and_store-get_latest_block_example =
    fetch_and_store-get_latest_block insertion_order codec insertion_sort tick "eth"
      (ingestor_client config) with_network stored_tick

abbrev ticks : List (Tick × (Client → Client))
ticks = (tick, λ c. c) ∷ (record tick { trip = lost }, λ c. c) ∷ []

-- The block of the node: 0x5 at 0x10.
abbrev answer_block : BlockJson
answer_block = record {
  number = "0x5";
  hash = "";
  parent_hash = "";
  timestamp = "0x10";
  transactions = nil;
}

abbrev answer_result : Json
answer_result = obj (
    field "number" (str "0x5")
      (field "timestamp" (str "0x10") (field "transactions" (arr nil) end)))

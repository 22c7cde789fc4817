-- ===== src/Examples/Serving.antt =====
-- A request to a proxy with two nodes and an empty cache.
use chainmesh.Base.{◌*◌, ◌≡◌, ◌⊎◌, refl, false, none, some, [], ◌∷◌}
use chainmesh.Base.Dict.{lookup, insert}
use chainmesh.Redis.Texts.{Text, dict_texts}
use chainmesh.Base.Sorting.{sort_by}
use chainmesh.Client.Sorting.{insertion_sort}
use chainmesh.Json.{unmarshal_request, unmarshal_response, equal_fold}
use chainmesh.Client.{
  new, mark_success, mark_failure, entry, store, succeeded, failed, one_more_fail,
}
use chainmesh.Client.Routing.{endpoints_for_call, score}
use chainmesh.Client.Calls.{call, call_attempt, try_endpoints, emit}
use chainmesh.Proxy.{Request, World, network_of, cache_policy, cache_key}
use chainmesh.Proxy.Text.{is_batch, trim_space}
use chainmesh.Proxy.Outcome.{record_outcome}
use chainmesh.Proxy.Serve.{
  serve_http, serve_tenant, body_error, single, with_network, with_client, serve_rpc, after_get,
  upstream, after_call, has_rpc_error, answer_decoded, store_answer, saved,
}
use chainmesh.Proxy.Caching.{IsFresh, serve_http-Stores}
use chainmesh.Proxy.Purity.{IsClean, AllClean, serve_all, serve_all-IsClean}
use chainmesh.Examples.Nodes.{codec, net, client}
use chainmesh.Examples.Tenants.{tenant}

abbrev request : Request
request = record {
  tenant = some tenant;
  request_id = "r1";
  body = "request";
  read_fails = false;
  default_config = none;
  start = 0;
  now = 7000000;
}

abbrev pub world : World dict_texts
world = record { cache = []; clients = ("eth", client) ∷ []; recorded = []; metrics = [] }

empty-IsClean : IsClean dict_texts codec insertion_sort net world
unfolding lookup
empty-IsClean key = tt

serve_all-IsClean_example :
    AllClean dict_texts codec insertion_sort net
      (serve_all dict_texts codec insertion_sort net (request ∷ request ∷ []) world).0
    × IsClean dict_texts codec insertion_sort net
        (serve_all dict_texts codec insertion_sort net (request ∷ request ∷ []) world).1
serve_all-IsClean_example =
    serve_all-IsClean dict_texts codec insertion_sort net (request ∷ request ∷ []) world
      empty-IsClean

abbrev answer : Text
answer = record { text = "answer"; life = 86400 * 1000000000 }

answer_held :
    dict_texts.held
      (serve_http dict_texts codec insertion_sort net request world).1.cache
      "rpc:eth:eth_chainId"
    ≡ some answer
unfolding serve_http serve_tenant body_error is_batch single unmarshal_request equal_fold trim_space
    network_of with_network with_client serve_rpc cache_policy cache_key after_get upstream call
    call_attempt try_endpoints endpoints_for_call score new sort_by mark_success mark_failure entry
    store succeeded failed one_more_fail emit after_call unmarshal_response has_rpc_error
    answer_decoded store_answer saved record_outcome lookup insert
answer_held = refl

serve_http-Stores_example :
    (dict_texts.held world.cache "rpc:eth:eth_chainId" ≡ some answer)
    ⊎ IsFresh dict_texts codec insertion_sort net tenant request
        (serve_http dict_texts codec insertion_sort net request world)
        "rpc:eth:eth_chainId"
        answer
serve_http-Stores_example =
    serve_http-Stores dict_texts codec insertion_sort net tenant request world refl
      "rpc:eth:eth_chainId" answer answer_held

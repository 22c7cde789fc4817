-- ===== src/Examples/Nodes.antt =====
-- A network of two nodes, of which the first does not answer.
use chainmesh.Base.{String, ◌≡◌, refl, none, some, List, [], ◌∷◌, arith, ◌==◌, tally, if◌then◌else◌}
use chainmesh.Json.{obj, str, nil, end, field, Codec}
use chainmesh.Client.{Client, new}
use chainmesh.Client.Probe.{unreachable, answered}
use chainmesh.Client.Routing.{endpoints_for_call}
use chainmesh.Client.Calls.{Net, call, call_request, proxy_raw}
use chainmesh.Client.Sorting.{insertion_sort}
use chainmesh.Client.Order.{IsRouted, endpoints_for_call-IsRouted}
use chainmesh.Client.Failover.{
  Follows, call_accepts, call_exchange, raw_accepts, raw_exchange, call-Follows, proxy_raw-Follows,
}
use chainmesh.Client.History.{
  Section, success, failure, sections, streak, after_section, is_success, is_failure, Tracks,
  sections-new-Tracks,
}

-- A text is an answer, a request, or no JSON.
abbrev pub codec : Codec
codec = record {
  parse = λ s.
      if s == "answer"
      then some (obj (field "result" (str "0x1") end))
      else if s == "request"
      then some (obj (field "jsonrpc" (str "2.0") (field "method" (str "eth_chainId") end)))
      else none;
  marshal = λ xs. "[]";
}

abbrev pub net : Net
net q i = record {
  reply = if q.url == "http://b" then answered 200 "answer" else unreachable;
  start = i;
  latency = 5;
  now = i;
}

abbrev pub nodes : List String
nodes = "http://a" ∷ "http://b" ∷ []

abbrev pub client : Client
client = new nodes

abbrev history : List Section
history =
    failure "http://a" 1 ∷ success "http://b" 5 2 ∷ failure "http://a" 3 ∷ failure "http://a" 4 ∷ []

a_streak : streak codec "http://a" 0 history ≡ 3
unfolding streak after_section
a_streak = refl

sections-new-Tracks_example :
    Tracks
      (sections codec (new nodes) history)
      "http://a"
      (streak codec "http://a" 0 history)
      (tally (is_success "http://a") history)
      (tally (is_failure "http://a") history)
sections-new-Tracks_example = sections-new-Tracks codec nodes "http://a" history refl (omega arith)

endpoints_for_call-IsRouted_example : IsRouted client (endpoints_for_call insertion_sort client)
endpoints_for_call-IsRouted_example = endpoints_for_call-IsRouted insertion_sort client

call-Follows_example :
    Follows codec
      (call_accepts codec)
      (call_exchange net "id" (call_request "eth_chainId" nil))
      client
      0
      (endpoints_for_call insertion_sort client)
      (call codec insertion_sort net "id" client "eth_chainId" nil)
call-Follows_example = call-Follows codec insertion_sort net "id" client "eth_chainId" nil

proxy_raw-Follows_example :
    Follows codec raw_accepts
      (raw_exchange net "id" "[]")
      client
      0
      (endpoints_for_call insertion_sort client)
      (proxy_raw insertion_sort net "id" client "[]")
proxy_raw-Follows_example = proxy_raw-Follows codec insertion_sort net "id" client "[]"

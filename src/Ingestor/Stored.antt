-- ===== src/Ingestor/Stored.antt =====
-- What the ingestor leaves in the table of blocks.
use mathlib.Core.Bool.{false≢true}
use chainmesh.Base.{
  ◌≤◌, ◌≡◌, refl, sym, ap, ◌∙◌, String, true, Option, none, some, List, [], ◌∷◌, ◌++◌, All,
  All-append, arith,
}
use mathlib.Core.Path.{subst}
use chainmesh.Base.Order.{OrderBy}
use chainmesh.Json.{Codec}
use chainmesh.Model.{Block}
use chainmesh.Redis.{Delivery, delivered}
use chainmesh.Client.{Client}
use chainmesh.Client.Routing.{SortSlice}
use chainmesh.Store.{Database}
use chainmesh.Store.Statements.{◌>>=◌}
use chainmesh.Store.Blocks.{rank, get_latest_block, store_block}
use chainmesh.Store.Blocks.Latest.{store_block-get_latest_block}
use chainmesh.Store.Blocks.Kept.{store_all, IsKeyed, Extends, store_all-IsKeyed}
use chainmesh.Ingestor.{
  block_of, body_block, fetch, stored, Tick, fetch_and_store, run, no_rpc_error, raw_result,
  decode_block,
}
use chainmesh.Ingestor.ParseInt.{parse_int}

none_ne : {A : Type 0} {x : A} → none ≡ some x → ⊥
none_ne h = ground arith

abbrev IsOf : String → Option Block → Type 0
IsOf id none = Unit
IsOf id (some b) = b.network_id ≡ id

bind-IsOf :
    {A : Type 0} (id : String) (o : Option A) (f : A → Option Block)
    → ((a : A) → IsOf id (f a))
    → IsOf id (o >>= f)
bind-IsOf id none f h = tt
bind-IsOf id (some a) f h = h a

-- A block that the ingestor has made is one of its network.
block_of-IsOf : (codec : Codec) (id body : String) → IsOf id (block_of codec id body)
unfolding block_of
block_of-IsOf codec id body = bind-IsOf id (no_rpc_error codec body) _ (λ ok.
    bind-IsOf id (raw_result codec body) _ (λ result. bind-IsOf id (decode_block result) _ (λ b.
      bind-IsOf id (parse_int b.number) _
        (λ number. bind-IsOf id (parse_int b.timestamp) _ (λ timestamp. refl)))))

block_of-network :
    (codec : Codec) (id body : String) (b : Block)
    → block_of codec id body ≡ some b
    → b.network_id ≡ id
block_of-network codec id body b h = subst (IsOf id) h (block_of-IsOf codec id body)

body_block-network :
    (codec : Codec) (id : String) (body : Option String) (b : Block)
    → body_block codec id body ≡ some b
    → b.network_id ≡ id
body_block-network codec id none b h = absurd (none_ne h)
body_block-network codec id (some body) b h = block_of-network codec id body b h

fetch-network :
    (codec : Codec) (sort : SortSlice) (tick : Tick) (id : String) (c : Client) (b : Block)
    → (fetch codec sort tick.net id c).1 ≡ some b
    → b.network_id ≡ id
unfolding fetch
fetch-network codec sort tick id c b h = body_block-network codec id _ b h

-- A tick without an error has got a block of the network, and after it GetLatestBlock answers, when its
-- query arrives, a block of the network that is not before that one.
pub fetch_and_store-get_latest_block :
    (order : OrderBy) (codec : Codec) (sort : SortSlice) (tick : Tick) (id : String) (c : Client)
    (db : Database)
    → (fetch_and_store codec sort tick id c db).0 ≡ true
    → (b : Block) × ((fetch codec sort tick.net id c).1 ≡ some b)
      × (l : Block) × (get_latest_block order delivered id
            (fetch_and_store codec sort tick id c db).2
          ≡ some l)
      × (l.network_id ≡ id)
      × (rank b.number ≤ rank l.number)
unfolding fetch_and_store
fetch_and_store-get_latest_block order codec sort tick id c db h =
    by_block (fetch codec sort tick.net id c).1 (fetch-network codec sort tick id c) h
  where
    by_block :
        (o : Option Block)
        → ((b : Block) → o ≡ some b → b.network_id ≡ id)
        → (stored tick.trip o db).0 ≡ true
        → (b : Block) × (o ≡ some b)
          × (l : Block) × (get_latest_block order delivered id (stored tick.trip o db).1 ≡ some l)
          × (l.network_id ≡ id)
          × (rank b.number ≤ rank l.number)
    by_block none own h = absurd (false≢true h)
    by_block (some b) own h =
        let n = own b refl in
        let (l, k, m, le) = store_block-get_latest_block order tick.trip b db h in
        let k' =
          subst (λ i. get_latest_block order delivered i (store_block tick.trip b db).1 ≡ some l) n
            k in
        (b, refl, l, k', m ∙ n, le)

-- The database after a run is that after a sequence of StoreBlock of blocks of the network.
abbrev pub Stores : String → Database → Database → Type 0
Stores id db db' =
    (bs : List (Delivery × Block)) × (db' ≡ store_all bs db) × All (λ p. p.1.network_id ≡ id) bs

tick-Stores :
    (trip : Delivery) (id : String) (o : Option Block) (db : Database)
    → ((b : Block) → o ≡ some b → b.network_id ≡ id)
    → Stores id db (stored trip o db).1
unfolding store_all
tick-Stores trip id none db own = ([], refl, tt)
tick-Stores trip id (some b) db own = ((trip, b) ∷ [], refl, (own b refl, tt))

store_all-append :
    (front bs : List (Delivery × Block)) (db : Database)
    → store_all (front ++ bs) db ≡ store_all bs (store_all front db)
unfolding store_all
store_all-append [] bs db = refl
store_all-append ((trip, b) ∷ front) bs db = store_all-append front bs (store_block trip b db).1

-- Whatever the nodes answer and whichever statements fail, a run of the ingestor leaves the table of blocks
-- as a sequence of StoreBlock of its own network's blocks does.
pub run-store_all :
    (codec : Codec) (sort : SortSlice) (id : String) (ticks : List (Tick × (Client → Client)))
    (c : Client) (db : Database)
    → Stores id db (run codec sort id ticks c db).1
unfolding run store_all fetch_and_store
run-store_all codec sort id [] c db = ([], refl, tt)
run-store_all codec sort id ((tick, checks) ∷ ticks) c db =
    let here =
      tick-Stores tick.trip id (fetch codec sort tick.net id c).1 db
        (fetch-network codec sort tick id c) in
    let (front, e, own) = here in
    let db' = (fetch_and_store codec sort tick id c db).2 in
    let c' = (fetch_and_store codec sort tick id c db).1 in
    let (rest, e', own') = run-store_all codec sort id ticks (checks c') db' in
    (
      front ++ rest,
      e' ∙ ap (store_all rest) e ∙ sym (store_all-append front rest db),
      All-append _ front rest own own',
    )

-- A run of the ingestor keeps the primary key of blocks and every row that the table had.
pub run-IsKeyed :
    (codec : Codec) (sort : SortSlice) (id : String) (ticks : List (Tick × (Client → Client)))
    (c : Client) (db : Database)
    → IsKeyed db.blocks
    → IsKeyed (run codec sort id ticks c db).1.blocks
      × Extends db.blocks (run codec sort id ticks c db).1.blocks
run-IsKeyed codec sort id ticks c db keyed =
    let (bs, e, own) = run-store_all codec sort id ticks c db in
    rw e (store_all-IsKeyed bs db keyed)

-- ===== src/Examples/Tables.antt =====
-- The tables of usage, blocks and audit logs, with a reply that is lost.
use mathlib.Core.List.{Pairwise, Pairwise-cons, Mem, mem-cons, not-mem-nil}
use mathlib.Core.Logic.Or
use chainmesh.Base.{
  All, length, ◌≢◌, arith, ℕ, ◌+◌, ◌*◌, ◌≤◌, ◌≡◌, refl, Bool, true, false, none, List, [], ◌∷◌, eqb,
  arith, if◌then◌else◌,
}
use chainmesh.Base.Int.{pos}
use chainmesh.Base.Order.{insertion_order}
use chainmesh.Model.{Usage, Block, BlockchainConfig}
use chainmesh.Redis.{Delivery, delivered, refused, lost}
use chainmesh.Store.{Database}
use chainmesh.Store.Statements.{exec, first, in_transaction, commit}
use chainmesh.Store.Records.Totals.{
  counted, bytes_counted, due, bytes_due, record_all, record_all-counted,
}
use chainmesh.Store.Records.Retries.{Counts, process_usage, process_usage-Counts}
use chainmesh.Store.Blocks.{block_row, insert_block, store_block}
use chainmesh.Store.Blocks.Kept.{IsKeyed, Extends, store_all, store_all-IsKeyed}
use chainmesh.Store.Networks.Deletion
use chainmesh.Store.Networks.Deletion.{delete_blockchain_config-Ends}
use chainmesh.Store.Networks.{Trips, delete_blockchain_config}
use chainmesh.Base.{Bool}
use chainmesh.Store.Connect.{
  Attempt, no_pool, no_ping, pinged, connect, some_pinged, connect-some_pinged,
}
use chainmesh.Store.Audit.{page_limit}
use chainmesh.Store.{AuditRow}
use chainmesh.Store.Statements.{first}
use chainmesh.Store.Audit.Timed.{IsTimed}
use chainmesh.Store.Audit.Page.{concat, trail, answers, answers-trail}
use chainmesh.Examples.Accounts

abbrev usage : Usage
usage = record { tenant_id = "t1"; method = "eth_chainId"; count = 1; bytes_in = 9; period = 0 }

abbrev recordings : List (Delivery × Usage)
recordings = (lost, usage) ∷ (refused, usage) ∷ (delivered, usage) ∷ []

record_all-counted_example :
    (counted usage (record_all recordings Accounts.db).usage
      ≡ counted usage Accounts.db.usage + due usage recordings Accounts.db)
    × (bytes_counted usage (record_all recordings Accounts.db).usage
        ≡ bytes_counted usage Accounts.db.usage + bytes_due usage recordings Accounts.db)
record_all-counted_example = record_all-counted usage recordings Accounts.db

-- The reply to the first attempt is lost.
abbrev trips : ℕ → Delivery
trips i = if eqb i 1 then lost else delivered

abbrev waits : ℕ → Bool
waits i = false

process_usage-Counts_example :
    Counts usage usage Accounts.db 3 (process_usage trips waits usage Accounts.db)
process_usage-Counts_example = process_usage-Counts usage usage trips waits Accounts.db

abbrev pub config : BlockchainConfig
config = record {
  id = "eth";
  name = "Ethereum";
  rpc_endpoint_1 = "http://a";
  rpc_endpoint_2 = "";
  chain_id = "1";
  enabled = true;
  created_at = 1;
  updated_at = 1;
}

abbrev pub with_network : Database
with_network = record Accounts.db { configs = config ∷ [] }

abbrev block : Block
block = record {
  number = pos 436;
  hash = "0xb1";
  parent_hash = "0xb0";
  timestamp = pos 1700000000;
  tx_count = 2;
  network_id = "eth";
  network_name = "";
  raw_json = none;
}

stored_block : (store_block delivered block with_network).0 ≡ true
unfolding store_block exec insert_block
stored_block = refl

abbrev stores : List (Delivery × Block)
stores = (delivered, block) ∷ (lost, record block { hash = "0xc1" }) ∷ []

pub keyed : IsKeyed with_network.blocks
keyed = λ number id. omega arith

store_all-IsKeyed_example :
    IsKeyed (store_all stores with_network).blocks
    × Extends with_network.blocks (store_all stores with_network).blocks
store_all-IsKeyed_example = store_all-IsKeyed stores with_network keyed

abbrev pub deletion : Trips
deletion = record {
  beginning = delivered;
  first = delivered;
  second = delivered;
  third = delivered;
  committing = delivered;
}

delete_blockchain_config-Ends_example :
    Deletion.Ends "eth" with_network (delete_blockchain_config deletion "eth" with_network)
delete_blockchain_config-Ends_example = delete_blockchain_config-Ends deletion "eth" with_network

abbrev entry : ℕ → AuditRow
entry at = record {
  actor = "admin";
  action = "create";
  resource_type = "tenant";
  resource_id = "t1";
  details = "";
  ip_address = none;
  user_agent = "";
  created_at = at;
}

-- Three entries at different times.
abbrev with_trail : Database
with_trail = record with_network { audit_logs = entry 1 ∷ entry 3 ∷ entry 2 ∷ [] }

apart_prop : (a x : AuditRow) → IsProp (a.created_at ≢ x.created_at)
apart_prop a x = hlevel

one_other :
    (a b : AuditRow)
    → a.created_at ≢ b.created_at
    → (x : AuditRow) → Mem x (b ∷ [])
    → a.created_at ≢ x.created_at
one_other a b h x m =
    Or.elim (apart_prop a x) (mem-cons.0 m) (λ e. rw e h) (λ m'. absurd (not-mem-nil m'))

two_others :
    (a b c : AuditRow)
    → a.created_at ≢ b.created_at
    → a.created_at ≢ c.created_at
    → (x : AuditRow) → Mem x (b ∷ c ∷ [])
    → a.created_at ≢ x.created_at
two_others a b c h k x m =
    Or.elim (apart_prop a x) (mem-cons.0 m) (λ e. rw e h) (λ m'. one_other a c k x m')

timed : IsTimed with_trail.audit_logs
timed = Pairwise-cons.1 (
  two_others (entry 1) (entry 3) (entry 2) (λ e. ground arith) (λ e. ground arith),
  Pairwise-cons.1 (
    one_other (entry 3) (entry 2) (λ e. ground arith),
    Pairwise-cons.1 ((λ x m. absurd (not-mem-nil m)), Pairwise.nil),
  ),
)

answers-trail_example :
    (concat (answers (λ k. insertion_order) (pos 2) 2 0 with_trail)
      ≡ first (2 * page_limit (pos 2)) (trail insertion_order with_trail))
    × All (λ ls. length ls ≤ 1000) (answers (λ k. insertion_order) (pos 2) 2 0 with_trail)
    × (1 ≤ page_limit (pos 2))
answers-trail_example =
    answers-trail insertion_order (λ k. insertion_order) (pos 2) 2 with_trail timed

-- A network that has a block cannot be deleted.
abbrev with_block : Database
with_block = record with_network { blocks = block_row block ∷ [] }

deletion_fails : delete_blockchain_config deletion "eth" with_block ≡ (false, with_block)
unfolding delete_blockchain_config in_transaction commit block_row
deletion_fails = refl

-- The third attempt is pinged.
abbrev try : ℕ → Attempt
try i = if eqb i 1 then no_pool else if eqb i 2 then no_ping else pinged

connect-some_pinged_example :
    ((connect try).connected ≡ some_pinged try 10 1)
    × ((connect try).opened ≡ (connect try).closed + (if (connect try).connected then 1 else 0))
    × ((connect try).slept ≤ 9)
connect-some_pinged_example = connect-some_pinged try

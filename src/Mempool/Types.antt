-- ===== src/Mempool/Types.antt =====
-- internal/mempool/types.go, util.go, and the state, constructor and `Clear` of pool.go. The indexes
-- hold pointers to shared `PendingTx` objects, so the pool has a heap: a `Ref` names an object, and a
-- write through one index is seen through the others. The lock makes each method one atomic step.
use eth_mon_svr.Base.{
  ℕ, ◌/◌, ◌%◌, Bool, List, [], Option, none, some, ◌==◌, if◌then◌else◌, ℤ, u32_mod,
}
use eth_mon_svr.Base.Map
use eth_mon_svr.Base.Map.{Map}
use eth_mon_svr.BlockStore.{fee_bucket_size}

abbrev pub max_wait_block : ℕ
max_wait_block = 10

pub record PendingTx : Type 0 where
  pub hash : ℕ
  pub from : ℕ
  pub nonce : ℕ
  pub tip_cap : ℕ
  pub fee_cap : ℕ
  pub gas_limit : ℕ
  pub seen_block : ℕ
  pub seen_block_time : ℕ
  pub expire_block : ℕ
  pub expire_index : ℤ
  pub nonce_gap : Bool

-- A pointer to a `PendingTx`.
abbrev pub Ref : Type 0
Ref = ℕ

-- `AccountPending`: the transactions of one sender by nonce.
pub record AccountPending : Type 0 where
  pub nonce_map : Map Ref

-- `heap` gives the object behind a pointer; the pointers from `next_ref` on are not yet allocated.
pub record PendingMemPool : Type 0 where
  pub heap : Ref → PendingTx
  pub next_ref : Ref
  pub accounts : Map AccountPending
  pub expire_buckets : Map (List Ref)
  pub hash_index : Map Ref
  pub ttl_block : ℕ

-- What stands behind a pointer that is not allocated.
abbrev pub no_tx : PendingTx
no_tx = record {
  hash = 0;
  from = 0;
  nonce = 0;
  tip_cap = 0;
  fee_cap = 0;
  gas_limit = 0;
  seen_block = 0;
  seen_block_time = 0;
  expire_block = 0;
  expire_index = ℤ.pos 0;
  nonce_gap = Bool.false;
}

abbrev pub empty_pool : ℕ → PendingMemPool
empty_pool ttl_block = record {
  heap = λ r. no_tx;
  next_ref = 0;
  accounts = [];
  expire_buckets = [];
  hash_index = [];
  ttl_block = ttl_block;
}

-- `NewPendingMemPool`: `chain_id` is what `SetString` makes of the text, `none` if it is no number.
unfoldable pub new_pending_mem_pool : Option ℕ → ℕ → Option PendingMemPool
new_pending_mem_pool none ttl_block = none
new_pending_mem_pool (some id) ttl_block = some (empty_pool ttl_block)

unfoldable pub clear : PendingMemPool → PendingMemPool
clear pool = record pool { accounts = []; expire_buckets = []; hash_index = [] }

-- `uint32(tip / FeeBucketSize)`
unfoldable pub get_fee_bucket : ℕ → ℕ
get_fee_bucket tip = tip / fee_bucket_size % u32_mod

-- `tx.ExpireIndex = i`, through the pointer `r`.
unfoldable pub set_expire_index : Ref → ℤ → (Ref → PendingTx) → Ref → PendingTx
set_expire_index r i heap q = if r == q then record (heap q) { expire_index = i } else heap q

-- `delete(account.NonceMap, nonce)`, and the account goes with its last transaction.
unfoldable pub drop_nonce : ℕ → ℕ → AccountPending → Map AccountPending → Map AccountPending
drop_nonce from nonce account accounts =
    let rest = Map.delete nonce account.nonce_map in
    if Map.is_empty rest
    then Map.delete from accounts
    else Map.put from (record { nonce_map = rest }) accounts

-- ===== src/Mempool/Push.antt =====
-- `PushBatch`, `addExpireBucket` and `removeExpireBucket` of internal/mempool/pool.go.
use eth_mon_svr.Base.{
  ℕ, suc, ◌-◌, Bool, false, ◌||◌, List, [], ◌∷◌, ◌++◌, Option, none, some, ◌==◌, ltb, leb,
  if◌then◌else◌, ℤ, pos, negsuc, u64_mod, add64, length, get_elem?, set, take,
}
use eth_mon_svr.Base.Map
use eth_mon_svr.Base.Map.{Map}
use eth_mon_svr.Ethereum.{Transaction}
use eth_mon_svr.Mempool.Types.{PendingTx, Ref, AccountPending, PendingMemPool, set_expire_index}

-- `x`, or `y` where `x` is nil.
unfoldable pub or_else : Option ℕ → Option ℕ → Option ℕ
or_else (some x) y = some x
or_else none y = y

-- The caps, if both are there and are uint64 values.
unfoldable pub both_uint64 : Option ℕ → Option ℕ → Option (ℕ × ℕ)
both_uint64 none fee_cap = none
both_uint64 (some tip_cap) none = none
both_uint64 (some tip_cap) (some fee_cap) =
    if ltb fee_cap u64_mod
    then (if ltb tip_cap u64_mod then some (tip_cap, fee_cap) else none)
    else none

-- One round of the first loop of `PushBatch`: the object made of a transaction, `none` if it is skipped.
unfoldable pub to_pending : ℕ → ℕ → ℕ → Option Transaction → Option PendingTx
unfolding or_else both_uint64
to_pending ttl block_num block_time none = none
to_pending ttl block_num block_time (some tx) =
    if tx.gas == 0
    then none
    else elim (both_uint64 (or_else tx.gas_tip_cap tx.gas_price)
        (or_else tx.gas_fee_cap tx.gas_price)) [
          | none ↦ none
          | some (tip_cap, fee_cap) ↦ elim tx.sender [
            | none ↦ none
            | some from ↦ some (record {
              hash = tx.hash;
              from = from;
              nonce = tx.nonce;
              tip_cap = tip_cap;
              fee_cap = fee_cap;
              gas_limit = tx.gas;
              seen_block = block_num;
              seen_block_time = block_time;
              expire_block = add64 block_num ttl;
              expire_index = negsuc 0;
              nonce_gap = false;
            })
          ]
        ]

unfoldable pub valid_txs : ℕ → ℕ → ℕ → List (Option Transaction) → List PendingTx
valid_txs ttl block_num block_time [] = []
valid_txs ttl block_num block_time (tx ∷ txs) =
    let rest = valid_txs ttl block_num block_time txs in
    elim (to_pending ttl block_num block_time tx) [ none ↦ rest | some pending ↦ pending ∷ rest ]

-- The list of a bucket; a missing key reads as the nil slice.
unfoldable pub bucket : PendingMemPool → ℕ → List Ref
bucket pool block = elim (Map.get block pool.expire_buckets) [ none ↦ [] | some list ↦ list ]

unfoldable pub add_expire_bucket : Ref → PendingMemPool → PendingMemPool
unfolding bucket set_expire_index
add_expire_bucket r pool =
    let block = (pool.heap r).expire_block in
    let list = bucket pool block in
    record pool {
      heap = set_expire_index r (pos (length list)) pool.heap;
      expire_buckets = Map.put block (list ++ r ∷ []) pool.expire_buckets;
    }

-- `list = list[:last]`, and the bucket goes with its last element.
unfoldable pub shrink_bucket : ℕ → ℕ → List Ref → Map (List Ref) → Map (List Ref)
shrink_bucket block last list buckets =
    if last == 0 then Map.delete block buckets else Map.put block (take last list) buckets

-- The last element takes the place at `index`; `none` is `list[last]` of an empty list.
unfoldable pub swap_out : ℕ → ℕ → List Ref → PendingMemPool → PendingMemPool
unfolding shrink_bucket set_expire_index
swap_out block index list pool =
    let last = length list - 1 in
    if index == last
    then record pool { expire_buckets = shrink_bucket block last list pool.expire_buckets }
    else elim (get_elem? list last) [
      | none ↦ pool
      | some moved ↦ record pool {
        heap = set_expire_index moved (pos index) pool.heap;
        expire_buckets = shrink_bucket block last (set list index moved) pool.expire_buckets;
      }
    ]

-- The guards on `tx.ExpireIndex` and on the hash found there.
unfoldable pub remove_at : Ref → List Ref → ℤ → PendingMemPool → PendingMemPool
unfolding swap_out
remove_at r list (negsuc n) pool = pool
remove_at r list (pos index) pool = elim (get_elem? list index) [
  | none ↦ pool
  | some q ↦
      if (pool.heap q).hash == (pool.heap r).hash
      then swap_out (pool.heap r).expire_block index list pool
      else pool
]

unfoldable pub remove_expire_bucket : Ref → PendingMemPool → PendingMemPool
unfolding remove_at
remove_expire_bucket r pool = elim (Map.get (pool.heap r).expire_block pool.expire_buckets) [
  | none ↦ pool
  | some list ↦ remove_at r list (pool.heap r).expire_index pool
]

-- The account of a sender; a new one has no transactions.
unfoldable pub account_of : PendingMemPool → ℕ → AccountPending
account_of pool from = elim (Map.get from pool.accounts) [
  | none ↦ record { nonce_map = [] }
  | some account ↦ account
]

-- The transaction that `tx` replaces leaves its bucket and the hash index.
unfoldable pub unlink_old : Option Ref → PendingMemPool → PendingMemPool
unlink_old none pool = pool
unlink_old (some old) pool =
    let rest = remove_expire_bucket old pool in
    record rest { hash_index = Map.delete (rest.heap old).hash rest.hash_index }

-- The three writes of the new transaction `tx`, now an object of the heap.
unfoldable pub link_new : PendingTx → AccountPending → PendingMemPool → PendingMemPool
link_new tx account pool =
    let r = pool.next_ref in
    add_expire_bucket r (record pool {
      heap = λ q. if r == q then tx else pool.heap q;
      next_ref = suc r;
      accounts =
          Map.put tx.from (record { nonce_map = Map.put tx.nonce r account.nonce_map })
            pool.accounts;
      hash_index = Map.put tx.hash r pool.hash_index;
    })

-- A transaction in place of one with the same sender and nonce must raise both caps.
unfoldable pub is_underpriced : PendingTx → Option Ref → (Ref → PendingTx) → Bool
is_underpriced tx none heap = false
is_underpriced tx (some old) heap =
    leb tx.tip_cap (heap old).tip_cap || leb tx.fee_cap (heap old).fee_cap

-- One round of the second loop of `PushBatch`.
unfoldable pub insert : PendingTx → PendingMemPool → PendingMemPool
insert tx pool =
    let account = account_of pool tx.from in
    let old = Map.get tx.nonce account.nonce_map in
    if is_underpriced tx old pool.heap then pool else link_new tx account (unlink_old old pool)

unfoldable pub insert_all : List PendingTx → PendingMemPool → PendingMemPool
insert_all [] pool = pool
insert_all (tx ∷ txs) pool = insert_all txs (insert tx pool)

unfoldable pub push_batch : List (Option Transaction) → ℕ → ℕ → PendingMemPool → PendingMemPool
push_batch txs block_num block_time pool =
    insert_all (valid_txs pool.ttl_block block_num block_time txs) pool

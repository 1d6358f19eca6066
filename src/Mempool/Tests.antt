-- ===== src/Mempool/Tests.antt =====
-- A pool on concrete transactions: two of one sender, a replacement, a block and an expiry.
use eth_mon_svr.Base.{
  false, true, ℕ, ◌≤◌, ◌≡◌, refl, List, [], ◌∷◌, Option, some, none, leb, if◌then◌else◌, arith, All,
  length, map,
}
use eth_mon_svr.Base.Map
use eth_mon_svr.BlockStore.{FeeBucketStat}
use eth_mon_svr.Ethereum.{Header, Receipt, Transaction}
use eth_mon_svr.Mempool.Types.{
  PendingMemPool, new_pending_mem_pool, empty_pool, clear, get_fee_bucket, set_expire_index,
  drop_nonce,
}
use eth_mon_svr.Mempool.Push
use eth_mon_svr.Mempool.Push.{push_batch}
use eth_mon_svr.Mempool.Remove
use eth_mon_svr.Mempool.Remove.{remove_by_receipts}
use eth_mon_svr.Mempool.Expire
use eth_mon_svr.Mempool.Expire.{remove_expired}
use eth_mon_svr.Mempool.Snapshot
use eth_mon_svr.Mempool.Snapshot.{snapshot}
use eth_mon_svr.Mempool.Index.{IsIndexed}
use eth_mon_svr.Mempool.Index.Batch.{push_batch-IsIndexed}
use eth_mon_svr.Mempool.Index.Expiry.{remove_expired-hash_index}
use eth_mon_svr.Mempool.Receipts.{mentions, remove_by_receipts-hash_index}
use eth_mon_svr.Mempool.Totals.{total_tx_count, IsComplete, remove_by_receipts-totals}
use eth_mon_svr.Mempool.History.{
  Call, pushes, takes, expires, clears, step, run, empty_pool-IsIndexed, run-new_pending_mem_pool,
}

program : Unit {0}
unfolding Map.get Map.put Map.delete Map.is_empty Map.keys new_pending_mem_pool clear get_fee_bucket
    set_expire_index drop_nonce Push.to_pending Push.valid_txs Push.bucket Push.add_expire_bucket
    Push.shrink_bucket Push.swap_out Push.remove_at Push.remove_expire_bucket Push.account_of
    Push.unlink_old Push.link_new Push.is_underpriced Push.insert Push.insert_all Push.push_batch
    Remove.forget_nonce Remove.remove_by_hash Remove.new_stat Remove.count_wait Remove.wait_ind
    Remove.add_wait Remove.stat_of Remove.seen_late Remove.tally_tx Remove.take_receipt
    Remove.take_receipts Remove.remove_by_receipts Expire.expire_stored Expire.expire_tx
    Expire.expire_list Expire.drop_bucket Expire.expire_block Expire.expire_blocks
    Expire.remove_expired Snapshot.snapshot step run
program = tt

-- A transaction of sender 7 with one gas price for both caps.
abbrev tx : ℕ → ℕ → ℕ → Transaction
tx hash nonce price = record {
  hash = hash;
  nonce = nonce;
  gas_tip_cap = none;
  gas_fee_cap = none;
  gas_price = some price;
  gas = 21000;
  sender = some 7;
}

-- The hashes below 100 are of nonce 1, the others of nonce 3.
abbrev identity : ℕ → ℕ × ℕ
identity h = (7, (if leb h 99 then 1 else 3))

abbrev batch : List (Option Transaction)
batch = some (tx 50 1 600000000) ∷ none ∷ some (tx 100 3 10) ∷ some (tx 51 1 700000000) ∷ []

abbrev pool : PendingMemPool
pool = push_batch batch 1000 5000 (empty_pool 20)

-- The second transaction of nonce 1 replaces the first, whose place in the bucket goes to nonce 3.
replaced :
    (map (λ e. e.0) pool.hash_index ≡ 100 ∷ 51 ∷ [])
    × (pool.expire_buckets ≡ (1020, 1 ∷ 2 ∷ []) ∷ [])
unfolding program
replaced = (refl, refl)

gap_flags : map (λ t. t.nonce_gap) (snapshot pool) ≡ false ∷ true ∷ []
unfolding program
gap_flags = refl

not_yet_expired : (remove_expired 1019 pool).1 ≡ 0
unfolding program
not_yet_expired = refl

expired : (remove_expired 1020 pool).1 ≡ 2
unfolding program
expired = refl

abbrev header : Header
header = record {
  number = some 1003;
  time = 5036;
  base_fee = some 5;
  gas_used = 1;
  gas_limit = 2;
  hash = 9;
}

abbrev receipts : List (Option Receipt)
receipts = some (record { tx_hash = 51; effective_gas_price = none; gas_used = 21000 }) ∷ []

abbrev after : PendingMemPool × List FeeBucketStat × ℕ
unfolding program
after = elim (remove_by_receipts header receipts pool) [ none ↦ (pool, [], 0) | some r ↦ r ]

pool-IsIndexed : IsIndexed identity pool
pool-IsIndexed =
    push_batch-IsIndexed identity batch 1000 5000 (empty_pool 20) (empty_pool-IsIndexed identity 20)
      (refl, (tt, (refl, (refl, tt))))

remove_expired-hash_index_example : Map.get 51 (remove_expired 1020 pool).0.hash_index ≡ none
unfolding program
remove_expired-hash_index_example = remove_expired-hash_index 1020 pool 51 pool-IsIndexed

remove_by_receipts-totals_example :
    (pool' : PendingMemPool) × (stats : List FeeBucketStat) × (cnt : ℕ) × (remove_by_receipts header
        receipts pool
      ≡ some (pool', stats, cnt))
    × (total_tx_count stats ≡ cnt)
    × (cnt ≤ length receipts)
    × All IsComplete stats
remove_by_receipts-totals_example =
    remove_by_receipts-totals header receipts pool (λ e. cc) (omega arith) ((λ e. cc), tt)

remove_by_receipts-hash_index_example :
    Map.get 100 after.0.hash_index
    ≡ (if mentions 100 receipts then none else Map.get 100 pool.hash_index)
unfolding program
remove_by_receipts-hash_index_example =
    remove_by_receipts-hash_index header receipts pool {pool' = after.0} {stats = after.1}
      {cnt = after.2} 100 pool-IsIndexed refl

abbrev calls : List Call
calls = pushes batch 1000 5000 ∷ takes header receipts ∷ expires 1020 ∷ clears ∷ []

run-new_pending_mem_pool_example :
    (pool' : PendingMemPool) × (run calls (empty_pool 20) ≡ some pool') × IsIndexed identity pool'
unfolding program
run-new_pending_mem_pool_example =
    run-new_pending_mem_pool identity (some 1) 20 calls refl (
      (refl, (tt, (refl, (refl, tt)))),
      (((λ e. cc), omega arith, ((λ e. cc), tt)), (tt, (tt, tt))),
    )

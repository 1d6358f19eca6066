-- ===== src/Processor/Process/PoolTests.antt =====
-- A block on a pool of three transactions: one is in the block, one expires at it, and one is kept.
use eth_mon_svr.Base.{ℕ, ◌%◌, ◌≡◌, refl, List, [], ◌∷◌, Option, none, some, u64_mod, map}
use eth_mon_svr.Base.Map
use eth_mon_svr.Ethereum.{Receipt, Transaction}
use eth_mon_svr.BlockStore.{add_block, get_block_data}
use eth_mon_svr.Mempool.Types.{
  PendingMemPool, empty_pool, get_fee_bucket, set_expire_index, drop_nonce,
}
use eth_mon_svr.Mempool.Push
use eth_mon_svr.Mempool.Push.{push_batch}
use eth_mon_svr.Mempool.Remove
use eth_mon_svr.Mempool.Expire
use eth_mon_svr.Mempool.Index.{IsIndexed}
use eth_mon_svr.Mempool.Index.Batch.{push_batch-IsIndexed}
use eth_mon_svr.Mempool.History.{empty_pool-IsIndexed}
use eth_mon_svr.GasAnalyzer.Hundredths.{hundredths, sort_by_tip}
use eth_mon_svr.GasAnalyzer.Fee.{effective_tip_from_receipt, calculate_next_base_fee}
use eth_mon_svr.GasAnalyzer.Percentiles.{
  calculate_weighted_percentiles, total_weight, sum_from, scan, reach, last_tip,
}
use eth_mon_svr.GasAnalyzer.Pools.{calculate_weight_for_gas_used, block_percentiles, with_cutoff}
use eth_mon_svr.GasAnalyzer.Analyzer.{update_latest_block_data, set_block_data}
use eth_mon_svr.Processor.Fetch.{returns, fetch_block_receipts}
use eth_mon_svr.Processor.Fetch.Tests.{header, receipt, net_of}
use eth_mon_svr.Processor.FeeBuckets.{
  aggregate_fee_bucket, add_blocks, add_buckets, add_bucket, merge,
}
use eth_mon_svr.Processor.Blocks.{
  Process, calculate_block_tx_tip, tx_infos, tx_info, clear_mempool_to_receipts,
  update_block_info_for_analysis, analyze_header, analyze_blocks, weigh_blocks, weigh_txs,
  send_fee_buckets_to_grpc, fee_statistics, convert_fee_bucket_to_proto, remove_expired,
}
use eth_mon_svr.Processor.Process.{
  process_block, process_numbered, apply_block, store_block, Answer,
}
use eth_mon_svr.Processor.Process.Tests.{start, hex}
use eth_mon_svr.Processor.Process.Removed.{left_of, process_block-hash_index}

-- A transaction of sender 7.
abbrev tx : ℕ → ℕ → Transaction
tx hash nonce = record {
  hash = hash;
  nonce = nonce;
  gas_tip_cap = none;
  gas_fee_cap = none;
  gas_price = some 130;
  gas = 21000;
  sender = some 7;
}

abbrev identity : ℕ → ℕ × ℕ
identity h = (7, h)

-- Hash 6 expires at block 8, and 5 and 9 at block 9.
abbrev early : PendingMemPool
early = push_batch (some (tx 6 6) ∷ []) 6 70 (empty_pool 2)

abbrev pool : PendingMemPool
pool = push_batch (some (tx 5 5) ∷ some (tx 9 9) ∷ []) 7 80 early

pool-IsIndexed : IsIndexed identity pool
pool-IsIndexed =
    push_batch-IsIndexed identity (some (tx 5 5) ∷ some (tx 9 9) ∷ []) 7 80 early
      (push_batch-IsIndexed identity (some (tx 6 6) ∷ []) 6 70 (empty_pool 2)
        (empty_pool-IsIndexed identity 2) (refl, tt))
      (refl, (refl, tt))

abbrev before : Process ℕ
before = record start { pending_pool = pool }

abbrev run : Answer ℕ ℕ Unit
run = process_block hundredths sort_by_tip (net_of (some receipt ∷ []) 1) hex (some header) before 0

abbrev after : Process ℕ
after = elim run [ none ↦ before | some x ↦ x.0 ]

program : Unit {0}
unfolding process_block process_numbered fetch_block_receipts apply_block calculate_block_tx_tip
    tx_infos tx_info effective_tip_from_receipt calculate_weight_for_gas_used
    clear_mempool_to_receipts store_block add_block remove_expired update_block_info_for_analysis
    analyze_header calculate_next_base_fee get_block_data analyze_blocks weigh_blocks weigh_txs
    block_percentiles calculate_weighted_percentiles total_weight sum_from scan reach last_tip
    with_cutoff update_latest_block_data set_block_data send_fee_buckets_to_grpc fee_statistics
    convert_fee_bucket_to_proto aggregate_fee_bucket add_blocks add_buckets add_bucket merge Map.get
    Map.put Map.delete Map.is_empty Map.keys get_fee_bucket set_expire_index drop_nonce
    Push.to_pending Push.valid_txs Push.bucket Push.add_expire_bucket Push.shrink_bucket
    Push.swap_out Push.remove_at Push.remove_expire_bucket Push.account_of Push.unlink_old
    Push.link_new Push.is_underpriced Push.insert Push.insert_all Push.push_batch
    Remove.forget_nonce Remove.remove_by_hash Remove.new_stat Remove.count_wait Remove.wait_ind
    Remove.add_wait Remove.stat_of Remove.seen_late Remove.tally_tx Remove.take_receipt
    Remove.take_receipts Remove.remove_by_receipts Expire.expire_stored Expire.expire_tx
    Expire.expire_list Expire.drop_bucket Expire.expire_block Expire.expire_blocks
    Expire.remove_expired
program = tt

run_pool : map (λ e. e.0) pool.hash_index ≡ 6 ∷ 5 ∷ 9 ∷ []
unfolding program
run_pool = refl

run_after : map (λ e. e.0) after.pending_pool.hash_index ≡ 9 ∷ []
unfolding program
run_after = refl

runs : run ≡ some (after, 1, returns tt)
unfolding program
runs = refl

process_block-hash_index_example :
    IsIndexed identity after.pending_pool
    × ((number : ℕ) × (receipts : List (Option Receipt)) × (header.number ≡ some number)
        × (fetch_block_receipts (net_of (some receipt ∷ []) 1) header.hash 0
            ≡ (1, returns receipts))
        × ((h : ℕ)
            → Map.get h after.pending_pool.hash_index ≡ left_of (number % u64_mod) receipts pool h))
process_block-hash_index_example =
    process_block-hash_index hundredths sort_by_tip (net_of (some receipt ∷ []) 1) hex header before
      0 pool-IsIndexed runs

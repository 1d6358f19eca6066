-- ===== src/Processor/Process/Tests.antt =====
-- Runs of the operations of a process on a small network, in hundredths.
use eth_mon_svr.Base.{ℕ, ◌≡◌, ◌<◌, refl, false, List, [], ◌∷◌, Option, none, some, String, arith}
use eth_mon_svr.Base.Map
use eth_mon_svr.Ethereum.{Receipt}
use eth_mon_svr.BlockStore.{Store}
use eth_mon_svr.Mempool.Types.{PendingMemPool, empty_pool}
use eth_mon_svr.GasAnalyzer.Hundredths.{hundredths, sort_by_tip}
use eth_mon_svr.GasAnalyzer.Analyzer.{Analyzer, no_prediction, no_block_data}
use eth_mon_svr.Processor.Fetch.{
  returns, fails, receipt_mismatch, block_receipts_empty, fetch_block_receipts, check_tx_count,
  empty_if, get_lastest_block_header, known_header,
}
use eth_mon_svr.Processor.Fetch.Tests.{header, receipt, no_receipts, net_of}
use eth_mon_svr.Processor.Blocks.{Process}
use eth_mon_svr.Processor.Process.{process_block, resync, Answer}
use eth_mon_svr.Mempool.Expire
use eth_mon_svr.Mempool.Expire.{expire_blocks}
use eth_mon_svr.Mempool.Remove.{remove_by_receipts, take_receipts, take_receipt}
use eth_mon_svr.BlockStore.{add_block, get_block_data}
use eth_mon_svr.GasAnalyzer.Fee.{effective_tip_from_receipt, calculate_next_base_fee}
use eth_mon_svr.GasAnalyzer.Percentiles.{
  calculate_weighted_percentiles, total_weight, sum_from, scan, reach, last_tip,
}
use eth_mon_svr.GasAnalyzer.Pools.{calculate_weight_for_gas_used, block_percentiles, with_cutoff}
use eth_mon_svr.GasAnalyzer.Analyzer.{update_latest_block_data, set_block_data}
use eth_mon_svr.Processor.FeeBuckets.{aggregate_fee_bucket, add_blocks, add_buckets}
use eth_mon_svr.Processor.Blocks.{
  calculate_block_tx_tip, tx_infos, tx_info, clear_mempool_to_receipts,
  update_block_info_for_analysis, analyze_header, analyze_blocks, weigh_blocks, weigh_txs,
  send_fee_buckets_to_grpc, fee_statistics, convert_fee_bucket_to_proto, remove_expired,
}
use eth_mon_svr.Processor.Process.{
  process_numbered, apply_block, store_block, with_latest, load_latest, restart, load_block,
  make_ready, clear_pool, forget,
}
use eth_mon_svr.BlockStore
use eth_mon_svr.Mempool.Types
use eth_mon_svr.GasAnalyzer.Analyzer
use eth_mon_svr.Processor.Process.Unchanged.{process_block-fails, resync-fails}
use eth_mon_svr.Processor.Process.Applied.{TakenIn, process_block-TakenIn}
use eth_mon_svr.Processor.Process.Restart.{Resynced, resync-Restarted}

abbrev pub start : Process ℕ
start = record {
  pending_pool = empty_pool 20;
  blockstore = record { blocks = []; max = 10 };
  gasanalyzer = record {
    decay_table = 100 ∷ 50 ∷ [];
    latest_result = no_prediction;
    latest_block_data = no_block_data;
    ready = false;
  };
  grpc_client = record { gas_predict_ch = []; fee_bucket_ch = []; gas_predict_last_sent_block = 0 };
}

abbrev pub hex : ℕ → String
hex n = "0x"

-- The process after an answer.
abbrev state_of : {A : Type 0} → Answer ℕ ℕ A → Process ℕ
state_of none = start
state_of (some x) = x.0

abbrev taken : Process ℕ
taken =
    state_of (
      process_block hundredths sort_by_tip (net_of (some receipt ∷ []) 1) hex (some header) start 0)

taken_in :
    process_block hundredths sort_by_tip (net_of (some receipt ∷ []) 1) hex (some header) start 0
    ≡ some (taken, 1, returns tt)
unfolding process_block process_numbered fetch_block_receipts apply_block calculate_block_tx_tip
    tx_infos tx_info effective_tip_from_receipt calculate_weight_for_gas_used
    clear_mempool_to_receipts remove_by_receipts take_receipts take_receipt store_block add_block
    remove_expired Expire.remove_expired expire_blocks update_block_info_for_analysis analyze_header
    calculate_next_base_fee get_block_data analyze_blocks weigh_blocks weigh_txs block_percentiles
    calculate_weighted_percentiles total_weight sum_from scan reach last_tip with_cutoff
    update_latest_block_data set_block_data send_fee_buckets_to_grpc fee_statistics
    convert_fee_bucket_to_proto aggregate_fee_bucket add_blocks add_buckets Map.get Map.keys
taken_in = refl

process_block-TakenIn_example :
    (number : ℕ) × (receipts : List (Option Receipt)) × (header.number ≡ some number)
    × (fetch_block_receipts (net_of (some receipt ∷ []) 1) header.hash 0 ≡ (1, returns receipts))
    × TakenIn hundredths sort_by_tip
        (net_of (some receipt ∷ []) 1)
        hex
        header
        number
        receipts
        start
        taken
process_block-TakenIn_example =
    process_block-TakenIn hundredths sort_by_tip (net_of (some receipt ∷ []) 1) hex header start 0
      taken_in

mismatched :
    process_block hundredths sort_by_tip (net_of no_receipts 3) hex (some header) start 0
    ≡ some (start, 2, fails receipt_mismatch)
unfolding process_block process_numbered fetch_block_receipts check_tx_count empty_if
mismatched = refl

process_block-fails_example : start ≡ start
process_block-fails_example =
    process_block-fails hundredths sort_by_tip (net_of no_receipts 3) hex (some header) start 0
      mismatched

no_block :
    resync hundredths sort_by_tip (net_of no_receipts 0) hex start 0
    ≡ some (start, 3, fails block_receipts_empty)
unfolding resync with_latest get_lastest_block_header known_header load_latest fetch_block_receipts
    check_tx_count empty_if
no_block = refl

resync-fails_example : start ≡ start
resync-fails_example =
    resync-fails hundredths sort_by_tip (net_of no_receipts 0) hex start 0 no_block

abbrev restarted : Process ℕ
restarted = state_of (resync hundredths sort_by_tip (net_of (some receipt ∷ []) 1) hex taken 1)

restarts :
    resync hundredths sort_by_tip (net_of (some receipt ∷ []) 1) hex taken 1
    ≡ some (restarted, 3, returns header)
unfolding process_block process_numbered fetch_block_receipts apply_block calculate_block_tx_tip
    tx_infos tx_info effective_tip_from_receipt calculate_weight_for_gas_used
    clear_mempool_to_receipts remove_by_receipts take_receipts take_receipt store_block add_block
    remove_expired Expire.remove_expired expire_blocks update_block_info_for_analysis analyze_header
    calculate_next_base_fee get_block_data analyze_blocks weigh_blocks weigh_txs block_percentiles
    calculate_weighted_percentiles total_weight sum_from scan reach last_tip with_cutoff
    update_latest_block_data set_block_data send_fee_buckets_to_grpc fee_statistics
    convert_fee_bucket_to_proto aggregate_fee_bucket add_blocks add_buckets Map.get Map.keys resync
    with_latest get_lastest_block_header known_header load_latest restart load_block make_ready
    clear_pool forget BlockStore.clear Analyzer.reset Types.clear Analyzer.update_block_result
restarts = refl

room : 0 < taken.blockstore.max
unfolding process_block process_numbered fetch_block_receipts apply_block calculate_block_tx_tip
    tx_infos tx_info effective_tip_from_receipt calculate_weight_for_gas_used
    clear_mempool_to_receipts remove_by_receipts take_receipts take_receipt store_block add_block
    remove_expired Expire.remove_expired expire_blocks update_block_info_for_analysis analyze_header
    calculate_next_base_fee get_block_data analyze_blocks weigh_blocks weigh_txs block_percentiles
    calculate_weighted_percentiles total_weight sum_from scan reach last_tip with_cutoff
    update_latest_block_data set_block_data send_fee_buckets_to_grpc fee_statistics
    convert_fee_bucket_to_proto aggregate_fee_bucket add_blocks add_buckets Map.get Map.keys
room = omega arith

resync-Restarted_example :
    Resynced hundredths sort_by_tip (net_of (some receipt ∷ []) 1) hex taken 1 restarted 3 header
resync-Restarted_example =
    resync-Restarted hundredths sort_by_tip (net_of (some receipt ∷ []) 1) hex taken 1 room restarts

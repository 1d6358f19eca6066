-- ===== src/Processor/Blocks.antt =====
-- internal/processor/processor_block.go on the state of a `Process`: the tips of a block, the removal of
-- its transactions, the update of the analysis and the statistics that are sent. `none` is a panic.
-- Logging and the clock are left out.
use eth_mon_svr.Base.{
  ℕ, ◌+◌, ◌%◌, List, [], ◌∷◌, ◌++◌, map, Option, none, some, String, leb, ◌==◌, if◌then◌else◌,
  u64_mod, u32_mod, ◌>>=◌,
}
use eth_mon_svr.Base.Map.{Map}
use eth_mon_svr.Ethereum.{Header, Receipt}
use eth_mon_svr.BlockStore.{
  Store, BlockData, TxInfo, FeeBucketStat, fee_bucket_size, get_block_data,
}
use eth_mon_svr.Mempool.Types.{PendingMemPool}
use eth_mon_svr.Mempool.Remove.{remove_by_receipts}
use eth_mon_svr.Mempool.Expire
use eth_mon_svr.GasAnalyzer.Float.{Float}
use eth_mon_svr.GasAnalyzer.Targets.{WeightedTip}
use eth_mon_svr.GasAnalyzer.Fee.{effective_tip_from_receipt, calculate_next_base_fee}
use eth_mon_svr.GasAnalyzer.Pools.{calculate_weight_for_gas_used, block_percentiles}
use eth_mon_svr.GasAnalyzer.Analyzer.{Analyzer, update_latest_block_data, update_block_result}
use eth_mon_svr.GasAnalyzer.Send.{GasPredictionRequest}
use eth_mon_svr.Network.GrpcClient.{GasPredictionClient, fee_bucket_send}
use eth_mon_svr.Processor.FeeBuckets.{aggregate_fee_bucket}

-- `pb.FeeBucket`; a pair of the last field is a `pb.WaitBlockCount`.
pub record FeeBucket (F : Type 0) : Type 0 where
  pub bucket : ℕ
  pub min_priority : F
  pub max_priority : F
  pub total_tx_count : ℕ
  pub avr_wait_blocks : F
  pub avr_wait_seconds : F
  pub wait_block_count : List (ℕ × ℕ)

-- A `Process` and what it holds pointers to; the RPC manager is not part of it.
pub record Process (F : Type 0) : Type 0 where
  pub pending_pool : PendingMemPool
  pub blockstore : Store F
  pub gasanalyzer : Analyzer F
  pub grpc_client : GasPredictionClient GasPredictionRequest (List (FeeBucket F))

-- The loop over the wait counters, from the index `i` on.
unfoldable pub wait_counts : ℕ → List ℕ → List (ℕ × ℕ)
wait_counts i [] = []
wait_counts i (tx_count ∷ counts) =
    let rest = wait_counts (i + 1) counts in
    if tx_count == 0 then rest else (i % u32_mod, tx_count) ∷ rest

-- `slices.SortFunc` by the bucket; no two have the same.
unfoldable pub insert_bucket : {F : Type 0} → FeeBucket F → List (FeeBucket F) → List (FeeBucket F)
insert_bucket b [] = b ∷ []
insert_bucket b (c ∷ buckets) =
    let rest = insert_bucket b buckets in
    if leb b.bucket c.bucket then b ∷ c ∷ buckets else c ∷ rest

unfoldable pub sort_buckets : {F : Type 0} → List (FeeBucket F) → List (FeeBucket F)
sort_buckets [] = []
sort_buckets (b ∷ buckets) = insert_bucket b (sort_buckets buckets)

module _ {F : Type 0} (fl : Float F) where
  -- `float64(blockstore.FeeBucketSize) / weiPerGwei`
  abbrev pub bucket_width : F
  bucket_width = fl.div (fl.lit fee_bucket_size 1) (fl.lit 1000000000 1)

  unfoldable pub get_fee_bucket_range : ℕ → F × F
  get_fee_bucket_range bucket =
      let min_p = fl.mul bucket_width (fl.of_u64 bucket) in (min_p, fl.add min_p bucket_width)

  unfoldable pub to_proto : FeeBucketStat → FeeBucket F
  to_proto stat =
      let (min_p, max_p) = get_fee_bucket_range stat.bucket in
      record {
        bucket = stat.bucket;
        min_priority = min_p;
        max_priority = max_p;
        total_tx_count = stat.tx_count;
        avr_wait_blocks = fl.div (fl.of_u64 stat.total_wait_blocks) (fl.of_u64 stat.tx_count);
        avr_wait_seconds = fl.div (fl.of_u64 stat.total_wait_seconds) (fl.of_u64 stat.tx_count);
        wait_block_count = wait_counts 0 stat.wait_block_count;
      }

  unfoldable pub convert_fee_bucket_to_proto : Map FeeBucketStat → List (FeeBucket F)
  convert_fee_bucket_to_proto [] = []
  convert_fee_bucket_to_proto ((bucket, stat) ∷ stats) =
      let rest = convert_fee_bucket_to_proto stats in
      if stat.tx_count == 0 then rest else to_proto stat ∷ rest

  -- The message of `SendFeeBucketsToGrpc`, if one is sent: where there is no block, or no statistic, there
  -- is no bucket.
  unfoldable pub fee_statistics : List (BlockData F) → Option (List (FeeBucket F))
  fee_statistics block_data = elim (convert_fee_bucket_to_proto (aggregate_fee_bucket block_data)) [
    | [] ↦ none
    | bucket ∷ buckets ↦ some (sort_buckets (bucket ∷ buckets))
  ]

  unfoldable pub send_fee_buckets_to_grpc : Process F → Process F
  send_fee_buckets_to_grpc p = elim (fee_statistics (get_block_data p.blockstore)) [
    | none ↦ p
    | some req ↦ record p { grpc_client = fee_bucket_send req p.grpc_client }
  ]

  -- The tip of one receipt of a block; `hex` is `Hex` of a hash.
  unfoldable pub tx_info : (ℕ → String) → Header → Option Receipt → Option (TxInfo F)
  tx_info hex header none = none
  tx_info hex header (some receipt) =
      let (tip, ok) = effective_tip_from_receipt receipt.effective_gas_price header.base_fee in
      if ok
      then some (record {
        hash = hex receipt.tx_hash;
        tip = tip;
        gas_used = receipt.gas_used;
        gas_weight = calculate_weight_for_gas_used fl receipt.gas_used header.gas_limit;
      })
      else none

  unfoldable pub tx_infos : (ℕ → String) → Header → List (Option Receipt) → List (TxInfo F)
  tx_infos hex header [] = []
  tx_infos hex header (receipt ∷ receipts) = elim (tx_info hex header receipt) [
    | none ↦ tx_infos hex header receipts
    | some tx ↦ tx ∷ tx_infos hex header receipts
  ]

  -- `CalculateBlockTxTip`: a nil number is dereferenced.
  unfoldable pub calculate_block_tx_tip :
      (ℕ → String) → Header → List (Option Receipt) → Option (BlockData F)
  calculate_block_tx_tip hex header receipts = do
    number ← header.number
    some (record {
      number = number % u64_mod;
      base_fee = header.base_fee;
      gas_limit = header.gas_limit;
      txs = tx_infos hex header receipts;
      fee_buckets = [];
    })

  -- `removedCnt` is only logged.
  unfoldable pub clear_mempool_to_receipts :
      Header → List (Option Receipt) → PendingMemPool → Option (PendingMemPool × List FeeBucketStat)
  clear_mempool_to_receipts header [] pool = some (pool, [])
  clear_mempool_to_receipts header (receipt ∷ receipts) pool = do
    removed ← remove_by_receipts header (receipt ∷ receipts) pool
    some (removed.0, removed.1)

  unfoldable pub weigh_txs : F → List (TxInfo F) → List (WeightedTip F)
  weigh_txs decay txs = map (λ tx. record { tip = tx.tip; weight = fl.mul tx.gas_weight decay }) txs

  -- The loop over the blocks, newest first: those past the end of the decay table are left out.
  unfoldable pub weigh_blocks : List F → List (BlockData F) → List (WeightedTip F)
  weigh_blocks decay_table [] = []
  weigh_blocks [] (b ∷ blocks) = []
  weigh_blocks (decay ∷ decay_table) (b ∷ blocks) =
      weigh_txs decay b.txs ++ weigh_blocks decay_table blocks

  module _ (sort : List (WeightedTip F) → List (WeightedTip F)) where
    -- The analysis of the blocks of a store that is not empty.
    unfoldable pub analyze_blocks :
        Header → ℕ → List (BlockData F) → Analyzer F → Option (Analyzer F)
    analyze_blocks header next_base_fee blocks a = do
      result ← block_percentiles fl sort (weigh_blocks a.decay_table blocks)
      a' ← update_latest_block_data header (next_base_fee % u64_mod) result.1 a
      some (update_block_result result.0 a')

    -- `UpdateBlockInfoForAnalysis` on a header with a number.
    unfoldable pub analyze_header : Header → Process F → Option (Process F)
    analyze_header header p = do
      next_base_fee ← calculate_next_base_fee header.base_fee header.gas_used header.gas_limit
      elim (get_block_data p.blockstore) [
        | [] ↦ some p
        | b ∷ blocks ↦ do
          a ← analyze_blocks header next_base_fee (b ∷ blocks) p.gasanalyzer
          some (record p { gasanalyzer = a })
      ]

    unfoldable pub update_block_info_for_analysis : Header → Process F → Option (Process F)
    update_block_info_for_analysis header p = elim header.number [
      | none ↦ some p
      | some number ↦ analyze_header header p
    ]

-- `removeExpired`
unfoldable pub remove_expired : {F : Type 0} → ℕ → Process F → Process F
remove_expired block_num p = record p {
  pending_pool = (Expire.remove_expired block_num p.pending_pool).0;
}

-- ===== src/Processor/FeeBuckets.antt =====
-- `aggregateFeeBucket` of internal/processor/processor_block.go.
use eth_mon_svr.Base.{ℕ, List, [], ◌∷◌, add32, add64}
use eth_mon_svr.Base.Map
use eth_mon_svr.Base.Map.{Map}
use eth_mon_svr.BlockStore.{FeeBucketStat, BlockData}
use eth_mon_svr.Mempool.Remove.{stat_of}

-- The loop over the two arrays, which have the same length.
unfoldable pub add_counts : List ℕ → List ℕ → List ℕ
add_counts [] counts = []
add_counts (n ∷ stat) [] = n ∷ stat
add_counts (n ∷ stat) (m ∷ counts) = add32 n m ∷ add_counts stat counts

unfoldable pub merge : FeeBucketStat → FeeBucketStat → FeeBucketStat
merge bucket stat = record stat {
  tx_count = add32 stat.tx_count bucket.tx_count;
  total_wait_blocks = add64 stat.total_wait_blocks bucket.total_wait_blocks;
  total_wait_seconds = add64 stat.total_wait_seconds bucket.total_wait_seconds;
  wait_block_count = add_counts stat.wait_block_count bucket.wait_block_count;
}

-- One round of the inner loop.
unfoldable pub add_bucket : FeeBucketStat → Map FeeBucketStat → Map FeeBucketStat
add_bucket bucket stats = Map.put bucket.bucket (merge bucket (stat_of bucket.bucket stats)) stats

unfoldable pub add_buckets : List FeeBucketStat → Map FeeBucketStat → Map FeeBucketStat
add_buckets [] stats = stats
add_buckets (bucket ∷ rest) stats = add_buckets rest (add_bucket bucket stats)

unfoldable pub add_blocks :
    {F : Type 0} → List (BlockData F) → Map FeeBucketStat → Map FeeBucketStat
add_blocks [] stats = stats
add_blocks (block ∷ rest) stats = add_blocks rest (add_buckets block.fee_buckets stats)

unfoldable pub aggregate_fee_bucket : {F : Type 0} → List (BlockData F) → Map FeeBucketStat
aggregate_fee_bucket block_data = add_blocks block_data []

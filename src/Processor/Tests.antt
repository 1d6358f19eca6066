-- ===== src/Processor/Tests.antt =====
-- Runs of the statistics and of the chunks.
use eth_mon_svr.Base.{ℕ, ◌≡◌, refl, List, [], ◌∷◌, none, All, arith, map}
use eth_mon_svr.Base.Map
use eth_mon_svr.BlockStore.{BlockData, FeeBucketStat}
use eth_mon_svr.Mempool.Remove.{stat_of, new_stat, no_waits}
use eth_mon_svr.Processor.FeeBuckets.{
  merge, add_bucket, add_buckets, add_blocks, aggregate_fee_bucket,
}
use eth_mon_svr.Processor.Sums.{Sums, all_buckets, aggregate_fee_bucket-Sums}
use eth_mon_svr.Processor.Chunks.{chunks, joined, HasSize, chunks-joined}

abbrev stat : ℕ → ℕ → FeeBucketStat
stat bucket count = record {
  bucket = bucket;
  tx_count = count;
  total_wait_blocks = 2;
  total_wait_seconds = 24;
  wait_block_count = no_waits;
}

abbrev block : ℕ → List FeeBucketStat → BlockData ℕ
block num fee_buckets = record {
  number = num;
  base_fee = none;
  gas_limit = 30;
  txs = [];
  fee_buckets = fee_buckets;
}

abbrev blocks : List (BlockData ℕ)
blocks = block 8 (stat 2 5 ∷ stat 3 1 ∷ []) ∷ block 7 [] ∷ block 6 (stat 2 4 ∷ []) ∷ []

run_aggregate : map (λ e. e.1.tx_count) (aggregate_fee_bucket blocks) ≡ 9 ∷ 1 ∷ []
unfolding aggregate_fee_bucket add_blocks add_buckets add_bucket merge stat_of new_stat Map.get
    Map.put
run_aggregate = refl

aggregate_fee_bucket-Sums_example : Sums 2 (all_buckets blocks) [] (aggregate_fee_bucket blocks)
aggregate_fee_bucket-Sums_example = aggregate_fee_bucket-Sums blocks 2

abbrev hashes : List ℕ
hashes = 1 ∷ 2 ∷ 3 ∷ 4 ∷ 5 ∷ []

run_chunks : chunks 5 2 hashes ≡ (1 ∷ 2 ∷ []) ∷ (3 ∷ 4 ∷ []) ∷ (5 ∷ []) ∷ []
unfolding chunks
run_chunks = refl

whole_chunks : (joined (chunks 5 2 hashes) ≡ hashes) × All (HasSize 2) (chunks 5 2 hashes)
whole_chunks = chunks-joined 5 2 hashes (omega arith) (omega arith)

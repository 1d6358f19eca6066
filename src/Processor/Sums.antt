-- ===== src/Processor/Sums.antt =====
-- What `aggregateFeeBucket` of internal/processor/processor_block.go adds up.
use eth_mon_svr.Base.{
  ℕ, ◌+◌, ◌%◌, ◌≡◌, ◌<◌, refl, ap, ◌∙◌, List, [], ◌∷◌, ◌++◌, ◌==◌, if◌then◌else◌, u32_mod, u64_mod,
  arith, Bool-cases, inl, inr, subst, sym, true,
}
use native.Mathlib.Nat.{mod-add-mod}
use eth_mon_svr.Base.Map
use eth_mon_svr.Base.Map.{Map}
use eth_mon_svr.BlockStore.{FeeBucketStat, BlockData}
use eth_mon_svr.Mempool.Remove.{stat_of, new_stat}
use eth_mon_svr.Processor.FeeBuckets.{
  merge, add_bucket, add_buckets, add_blocks, aggregate_fee_bucket,
}

-- The sum of a field over the entries of bucket `k`.
unfoldable pub total : (FeeBucketStat → ℕ) → ℕ → List FeeBucketStat → ℕ
total field k [] = 0
total field k (b ∷ rest) =
    let later = total field k rest in if b.bucket == k then field b + later else later

unfoldable pub all_buckets : {F : Type 0} → List (BlockData F) → List FeeBucketStat
all_buckets [] = []
all_buckets (block ∷ rest) = block.fee_buckets ++ all_buckets rest

-- The fields of the entry of bucket `k`, which is all 0 where there is none, are these sums.
pub record Sums (k : ℕ) (bs : List FeeBucketStat) (old new : Map FeeBucketStat) : Type 0 where
  pub tx_counts :
      (stat_of k new).tx_count ≡ ((stat_of k old).tx_count + total (λ b. b.tx_count) k bs) % u32_mod
  pub wait_blocks :
      (stat_of k new).total_wait_blocks
      ≡ ((stat_of k old).total_wait_blocks + total (λ b. b.total_wait_blocks) k bs) % u64_mod
  pub wait_seconds :
      (stat_of k new).total_wait_seconds
      ≡ ((stat_of k old).total_wait_seconds + total (λ b. b.total_wait_seconds) k bs) % u64_mod

-- Each field of the entry fits its word.
pub record IsWord (s : FeeBucketStat) : Type 0 where
  pub count_fits : s.tx_count < u32_mod
  pub blocks_fit : s.total_wait_blocks < u64_mod
  pub seconds_fit : s.total_wait_seconds < u64_mod

mod_below : (x m : ℕ) → x < m → (x + 0) % m ≡ x
mod_below x m lt = grind arith

mod_add : (x c t m : ℕ) → ((x + c) % m + t) % m ≡ (x + (c + t)) % m
mod_add x c t m = mod-add-mod (x + c) m t ∙ ap (λ s. s % m) (omega arith)

stat_of-add_bucket :
    (k : ℕ) (b : FeeBucketStat) (m : Map FeeBucketStat)
    → stat_of k (add_bucket b m)
      ≡ (if b.bucket == k then merge b (stat_of b.bucket m) else stat_of k m)
unfolding stat_of add_bucket
stat_of-add_bucket k b m = ground (arith, Map.get-put b.bucket k (merge b (stat_of b.bucket m)) m)

merge-IsWord : (b s : FeeBucketStat) → IsWord (merge b s)
unfolding merge
merge-IsWord b s = record {
  count_fits = omega arith;
  blocks_fit = omega arith;
  seconds_fit = omega arith;
}

total-here :
    (field : FeeBucketStat → ℕ) (k : ℕ) (b : FeeBucketStat) (bs : List FeeBucketStat)
    → (b.bucket == k) ≡ true
    → total field k (b ∷ bs) ≡ field b + total field k bs
unfolding total
total-here field k b bs here = rw here refl

empty-IsWord : (k : ℕ) → IsWord (stat_of k [])
unfolding stat_of new_stat Map.get
empty-IsWord k = record {
  count_fits = omega arith;
  blocks_fit = omega arith;
  seconds_fit = omega arith;
}

add_buckets-Sums :
    (k : ℕ) (bs : List FeeBucketStat) (m : Map FeeBucketStat)
    → IsWord (stat_of k m)
    → Sums k bs m (add_buckets bs m) × IsWord (stat_of k (add_buckets bs m))
unfolding total add_buckets merge
add_buckets-Sums k [] m v = (
  record {
    tx_counts = sym (mod_below _ u32_mod v.count_fits);
    wait_blocks = sym (mod_below _ u64_mod v.blocks_fit);
    wait_seconds = sym (mod_below _ u64_mod v.seconds_fit);
  },
  v,
)
add_buckets-Sums k (b ∷ bs) m v = elim (Bool-cases (b.bucket == k)) [
  | inr other ↦
      let same : stat_of k (add_bucket b m) ≡ stat_of k m =
        stat_of-add_bucket k b m ∙ rw other refl in
      let (later, w) = add_buckets-Sums k bs (add_bucket b m) (subst IsWord (sym same) v) in
      (
        record {
          tx_counts = rw (other, ← same) later.tx_counts;
          wait_blocks = rw (other, ← same) later.wait_blocks;
          wait_seconds = rw (other, ← same) later.wait_seconds;
        },
        w,
      )
  | inl here ↦
      let same_key : b.bucket ≡ k = ground arith in
      let same : stat_of k (add_bucket b m) ≡ merge b (stat_of k m) =
        stat_of-add_bucket k b m ∙ rw (here, same_key) refl in
      let (later, w) =
        add_buckets-Sums k bs (add_bucket b m)
          (subst IsWord (sym same) (merge-IsWord b (stat_of k m))) in
      let sum = λ (x : ℕ) (field : FeeBucketStat → ℕ) (word : ℕ).
        mod_add x (field b) (total field k bs) word
        ∙ ap (λ t. (x + t) % word) (sym (total-here field k b bs here)) in
      (
        record {
          tx_counts =
              later.tx_counts
              ∙ ap (λ s. (s.tx_count + total (λ b. b.tx_count) k bs) % u32_mod) same
              ∙ sum (stat_of k m).tx_count (λ b. b.tx_count) u32_mod;
          wait_blocks =
              later.wait_blocks
              ∙ ap (λ s. (s.total_wait_blocks + total (λ b. b.total_wait_blocks) k bs) % u64_mod)
                  same
              ∙ sum (stat_of k m).total_wait_blocks (λ b. b.total_wait_blocks) u64_mod;
          wait_seconds =
              later.wait_seconds
              ∙ ap (λ s. (s.total_wait_seconds + total (λ b. b.total_wait_seconds) k bs) % u64_mod)
                  same
              ∙ sum (stat_of k m).total_wait_seconds (λ b. b.total_wait_seconds) u64_mod;
        },
        w,
      )
]

add_buckets-append :
    (bs cs : List FeeBucketStat) (m : Map FeeBucketStat)
    → add_buckets (bs ++ cs) m ≡ add_buckets cs (add_buckets bs m)
unfolding add_buckets
add_buckets-append [] cs m = refl
add_buckets-append (b ∷ bs) cs m = add_buckets-append bs cs (add_bucket b m)

add_blocks-all_buckets :
    {F : Type 0} (blocks : List (BlockData F)) (m : Map FeeBucketStat)
    → add_blocks blocks m ≡ add_buckets (all_buckets blocks) m
unfolding add_blocks all_buckets add_buckets
add_blocks-all_buckets [] m = refl
add_blocks-all_buckets (block ∷ rest) m =
    add_blocks-all_buckets rest (add_buckets block.fee_buckets m)
    ∙ sym (add_buckets-append block.fee_buckets (all_buckets rest) m)

-- For each bucket, the transactions, wait blocks and wait seconds of the result are the sums of those
-- of all entries for it in all blocks, modulo the size of their words, whatever the order of the blocks
-- and their entries; a bucket without an entry counts as 0.
pub aggregate_fee_bucket-Sums :
    {F : Type 0} (block_data : List (BlockData F)) (k : ℕ)
    → Sums k (all_buckets block_data) [] (aggregate_fee_bucket block_data)
unfolding aggregate_fee_bucket
aggregate_fee_bucket-Sums block_data k =
    subst (λ m. Sums k (all_buckets block_data) [] m) (sym (add_blocks-all_buckets block_data []))
      (add_buckets-Sums k (all_buckets block_data) [] (empty-IsWord k)).0

-- ===== src/Mempool/Remove.antt =====
-- `removeByHash` and `RemoveByReceipts` of internal/mempool/pool.go. A result that is `none` is a
-- panic: a nil block number, or a nil receipt, is dereferenced.
use eth_mon_svr.Base.{
  ℕ, ◌-◌, ◌+◌, Bool, ◌||◌, List, [], ◌∷◌, Option, none, some, ltb, if◌then◌else◌, add32, add64,
  get_elem?, set, map, ◌%◌, u64_mod,
}
use eth_mon_svr.Base.Map
use eth_mon_svr.Base.Map.{Map}
use eth_mon_svr.BlockStore.{FeeBucketStat}
use eth_mon_svr.Ethereum.{Header, Receipt}
use eth_mon_svr.Mempool.Types.{
  PendingTx, Ref, PendingMemPool, max_wait_block, get_fee_bucket, drop_nonce,
}
use eth_mon_svr.Mempool.Push.{remove_expire_bucket}

-- The account's part of `removeByHash`.
unfoldable pub forget_nonce : PendingTx → PendingMemPool → PendingMemPool
forget_nonce tx pool = elim (Map.get tx.from pool.accounts) [
  | none ↦ pool
  | some account ↦ record pool { accounts = drop_nonce tx.from tx.nonce account pool.accounts }
]

unfoldable pub remove_by_hash : Ref → PendingMemPool → PendingMemPool
unfolding forget_nonce
remove_by_hash r pool =
    let tx = pool.heap r in
    let rest = forget_nonce tx pool in
    remove_expire_bucket r (record rest { hash_index = Map.delete tx.hash rest.hash_index })

-- A counter of 16 slots, all 0.
abbrev pub no_waits : List ℕ
no_waits = 0 ∷ 0 ∷ 0 ∷ 0 ∷ 0 ∷ 0 ∷ 0 ∷ 0 ∷ 0 ∷ 0 ∷ 0 ∷ 0 ∷ 0 ∷ 0 ∷ 0 ∷ 0 ∷ []

unfoldable pub new_stat : ℕ → FeeBucketStat
new_stat bucket = record {
  bucket = bucket;
  tx_count = 0;
  total_wait_blocks = 0;
  total_wait_seconds = 0;
  wait_block_count = no_waits;
}

-- `counts[i]++` in uint32; out of range it would panic.
unfoldable pub count_wait : ℕ → List ℕ → Option (List ℕ)
count_wait i counts = elim (get_elem? counts i) [
  | none ↦ none
  | some n ↦ some (set counts i (add32 n 1))
]

-- `waitInd`: the waits from `MaxWaitBlock` on share one slot.
unfoldable pub wait_ind : ℕ → ℕ
wait_ind wait_blocks = if ltb max_wait_block wait_blocks then max_wait_block else wait_blocks

unfoldable pub add_wait : ℕ → ℕ → FeeBucketStat → Option FeeBucketStat
unfolding count_wait wait_ind
add_wait wait_blocks wait_seconds stat =
    elim (count_wait (wait_ind wait_blocks) stat.wait_block_count) [
      | none ↦ none
      | some counts ↦ some (record stat {
        tx_count = add32 stat.tx_count 1;
        total_wait_blocks = add64 stat.total_wait_blocks wait_blocks;
        total_wait_seconds = add64 stat.total_wait_seconds wait_seconds;
        wait_block_count = counts;
      })
    ]

unfoldable pub stat_of : ℕ → Map FeeBucketStat → FeeBucketStat
unfolding new_stat
stat_of bucket stats = elim (Map.get bucket stats) [ none ↦ new_stat bucket | some stat ↦ stat ]

-- The variables of the loop of `RemoveByReceipts`.
pub record Tally : Type 0 where
  pub pool : PendingMemPool
  pub stats : Map FeeBucketStat
  pub removed_cnt : ℕ

-- The pending transaction came in after the block: it is not counted.
unfoldable pub seen_late : ℕ → ℕ → PendingTx → Bool
seen_late block_num block_time tx = ltb block_num tx.seen_block || ltb block_time tx.seen_block_time

-- The statistics of one transaction that waited for the block.
unfoldable pub tally_tx : ℕ → ℕ → Ref → PendingTx → Tally → Option Tally
tally_tx block_num block_time r tx t =
    let bucket = get_fee_bucket tx.tip_cap in
    elim (add_wait (block_num - tx.seen_block) (block_time - tx.seen_block_time)
      (stat_of bucket t.stats)) [
        | none ↦ none
        | some stat ↦ some (record {
          pool = remove_by_hash r t.pool;
          stats = Map.put bucket stat t.stats;
          removed_cnt = t.removed_cnt + 1;
        })
      ]

-- One round of the loop.
unfoldable pub take_receipt : ℕ → ℕ → Receipt → Tally → Option Tally
take_receipt block_num block_time receipt t = elim (Map.get receipt.tx_hash t.pool.hash_index) [
  | none ↦ some t
  | some r ↦
      let tx = t.pool.heap r in
      if seen_late block_num block_time tx
      then some (record t { pool = remove_by_hash r t.pool })
      else tally_tx block_num block_time r tx t
]

unfoldable pub take_receipts : ℕ → ℕ → List (Option Receipt) → Tally → Option Tally
take_receipts block_num block_time [] t = some t
take_receipts block_num block_time (none ∷ receipts) t = none
take_receipts block_num block_time (some receipt ∷ receipts) t =
    elim (take_receipt block_num block_time receipt t) [
      | none ↦ none
      | some t' ↦ take_receipts block_num block_time receipts t'
    ]

-- The pool, the statistics by bucket, and the number of transactions counted.
unfoldable pub remove_by_receipts :
    Header
    → List (Option Receipt)
    → PendingMemPool
    → Option (PendingMemPool × List FeeBucketStat × ℕ)
remove_by_receipts header receipts pool = elim header.number [
  | none ↦ none
  | some number ↦
      elim (take_receipts (number % u64_mod) header.time receipts
        (record { pool = pool; stats = []; removed_cnt = 0 })) [
          | none ↦ none
          | some t ↦ some (t.pool, map (λ e. e.1) t.stats, t.removed_cnt)
        ]
]

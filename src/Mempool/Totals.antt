-- ===== src/Mempool/Totals.antt =====
-- `RemoveByReceipts` of internal/mempool/pool.go: it returns, and its statistics add up.
use eth_mon_svr.Base.{
  ℕ, ◌%◌, u64_mod, ◌+◌, ◌<◌, ◌≤◌, ◌≡◌, ◌≢◌, refl, List, [], ◌∷◌, Option, some, none, arith,
  Option-cases, Bool-cases, inl, inr, length, u32_mod, All, map, ◌-◌, ◌∙◌,
}
use eth_mon_svr.Base.Map
use eth_mon_svr.Base.Map.{Map}
use eth_mon_svr.BlockStore.{FeeBucketStat}
use eth_mon_svr.Ethereum.{Header, Receipt}
use eth_mon_svr.Mempool.Types.{PendingTx, Ref, PendingMemPool, get_fee_bucket}
use eth_mon_svr.Mempool.Remove.{
  Tally, stat_of, seen_late, tally_tx, take_receipt, take_receipts, remove_by_receipts,
  remove_by_hash,
}
use eth_mon_svr.Mempool.Stats.{
  sum, AllCounted, total_count, add_wait-IsCounted, AllCounted-mono, stat_of-IsCounted,
  put-AllCounted, total_count-put,
}

record IsTally (bound : ℕ) (t : Tally) : Type 0 where
  counted : AllCounted bound t.stats
  total : total_count t.stats ≡ t.removed_cnt
  few : t.removed_cnt ≤ bound

-- A receipt that is not nil.
abbrev pub IsReceipt : Option Receipt → Type 0
IsReceipt r = r ≢ none

tally_tx-IsTally :
    (bound num time : ℕ) (r : Ref) (tx : PendingTx) (t : Tally)
    → bound + 1 < u32_mod
    → IsTally bound t
    → (t' : Tally) × (tally_tx num time r tx t ≡ some t') × IsTally (bound + 1) t'
unfolding tally_tx
tally_tx-IsTally bound num time r tx t h v =
    let b = get_fee_bucket tx.tip_cap in
    let (stat, added, counted, one) =
      add_wait-IsCounted bound (num - tx.seen_block) (time - tx.seen_block_time) (stat_of b t.stats)
        h (stat_of-IsCounted bound b t.stats v.counted) in
    let stats = Map.put b stat t.stats in
    let total = total_count-put b stat t.stats in
    (
      record { pool = remove_by_hash r t.pool; stats = stats; removed_cnt = t.removed_cnt + 1 },
      rw (added, tally_tx),
      record {
        counted =
            put-AllCounted (bound + 1) b stat t.stats counted
              (AllCounted-mono bound (bound + 1) t.stats (omega arith) v.counted);
        total = omega (arith, v.total);
        few = omega (arith, v.few);
      },
    )

IsTally-later :
    (bound : ℕ) (t t' : Tally)
    → t'.stats ≡ t.stats
    → t'.removed_cnt ≡ t.removed_cnt
    → IsTally bound t
    → IsTally (bound + 1) t'
IsTally-later bound t t' s c v = record {
  counted = rw s (AllCounted-mono bound (bound + 1) t.stats (omega arith) v.counted);
  total = rw (s, c) v.total;
  few = omega (arith, v.few, c);
}

take_receipt-IsTally :
    (bound num time : ℕ) (receipt : Receipt) (t : Tally)
    → bound + 1 < u32_mod
    → IsTally bound t
    → (t' : Tally) × (take_receipt num time receipt t ≡ some t') × IsTally (bound + 1) t'
unfolding take_receipt
take_receipt-IsTally bound num time receipt t h v =
    elim (Option-cases (Map.get receipt.tx_hash t.pool.hash_index)) [
      | inl gone ↦ (t, rw (gone, take_receipt), IsTally-later bound t t refl refl v)
      | inr (r, live) ↦ elim (Bool-cases (seen_late num time (t.pool.heap r))) [
        | inl late ↦
            let t' : Tally = record t { pool = remove_by_hash r t.pool } in
            (t', rw (live, take_receipt, late), IsTally-later bound t t' refl refl v)
        | inr counted ↦
            rw (live, take_receipt, counted)
              (tally_tx-IsTally bound num time r (t.pool.heap r) t h v)
      ]
    ]

take_receipts-IsTally :
    (bound num time : ℕ) (receipts : List (Option Receipt)) (t : Tally)
    → bound + length receipts < u32_mod
    → All IsReceipt receipts
    → IsTally bound t
    → (t' : Tally) × (take_receipts num time receipts t ≡ some t')
      × IsTally (bound + length receipts) t'
unfolding take_receipts
take_receipts-IsTally bound num time [] t h rs v =
    let same : bound + 0 ≡ bound = omega arith in (t, refl, rw same v)
take_receipts-IsTally bound num time (none ∷ receipts) t h rs v = absurd (rs.0 refl)
take_receipts-IsTally bound num time (some receipt ∷ receipts) t h rs v =
    let (next, step, w) = take_receipt-IsTally bound num time receipt t (omega arith) v in
    let (t', done, w') =
      take_receipts-IsTally (bound + 1) num time receipts next (omega arith) rs.1 w in
    let same : bound + length (some receipt ∷ receipts) ≡ bound + 1 + length receipts =
      omega arith in
    (t', rw (step, take_receipts) done, rw same w')

abbrev pub total_tx_count : List FeeBucketStat → ℕ
total_tx_count [] = 0
total_tx_count (stat ∷ stats) = stat.tx_count + total_tx_count stats

-- The waits of a bucket's transactions, slot by slot, are as many as its transactions.
abbrev pub IsComplete : FeeBucketStat → Type 0
IsComplete stat = sum stat.wait_block_count ≡ stat.tx_count

values-total :
    (stats : Map FeeBucketStat) → total_tx_count (map (λ e. e.1) stats) ≡ total_count stats
values-total [] = refl
values-total ((b, stat) ∷ stats) = omega (arith, values-total stats)

values-IsComplete :
    (bound : ℕ) (stats : Map FeeBucketStat)
    → AllCounted bound stats
    → All IsComplete (map (λ e. e.1) stats)
values-IsComplete bound [] c = tt
values-IsComplete bound ((b, stat) ∷ stats) c =
    (c.0.each_counted, values-IsComplete bound stats c.1)

-- With a block number, no nil receipt and fewer than 2^32 receipts, `RemoveByReceipts` returns; the
-- transaction counts of the buckets add up to the number of transactions that it says it removed,
-- which is at most the number of receipts, and the wait counts of each bucket to its transactions.
pub remove_by_receipts-totals :
    (header : Header) (receipts : List (Option Receipt)) (pool : PendingMemPool)
    → header.number ≢ none
    → length receipts < u32_mod
    → All IsReceipt receipts
    → (pool' : PendingMemPool) × (stats : List FeeBucketStat) × (cnt : ℕ) × (remove_by_receipts
          header receipts pool
        ≡ some (pool', stats, cnt))
      × (total_tx_count stats ≡ cnt)
      × (cnt ≤ length receipts)
      × All IsComplete stats
unfolding remove_by_receipts
remove_by_receipts-totals header receipts pool known short rs = elim (Option-cases header.number) [
  | inl panic ↦ absurd (known panic)
  | inr (num, at) ↦
      let start : Tally = record { pool = pool; stats = []; removed_cnt = 0 } in
      let (t, done, v) =
        take_receipts-IsTally 0 (num % u64_mod) header.time receipts start (omega arith) rs
          (record { counted = tt; total = refl; few = omega arith }) in
      (
        t.pool,
        map (λ e. e.1) t.stats,
        t.removed_cnt,
        rw (at, remove_by_receipts, done),
        values-total t.stats ∙ v.total,
        omega (arith, v.few),
        values-IsComplete _ t.stats v.counted,
      )
]

-- ===== src/Mempool/Receipts.antt =====
-- `RemoveByReceipts` of internal/mempool/pool.go: which transactions it removes.
use eth_mon_svr.Base.{
  ℕ, ◌%◌, u64_mod, ◌≡◌, refl, ap, ◌∙◌, ℤ, List, [], ◌∷◌, Option, some, none, ◌==◌, ◌||◌, Bool,
  false, if◌then◌else◌, arith, Option-cases, inl, inr,
}
use eth_mon_svr.Base.Map
use eth_mon_svr.BlockStore.{FeeBucketStat}
use eth_mon_svr.Ethereum.{Header, Receipt}
use eth_mon_svr.Mempool.Types.{Ref, PendingMemPool}
use eth_mon_svr.Mempool.Remove.{
  Tally, remove_by_hash, forget_nonce, take_receipt, take_receipts, remove_by_receipts,
}
use eth_mon_svr.Mempool.Index.{IsIndexed}
use eth_mon_svr.Mempool.Index.Unlink.{without}
use eth_mon_svr.Mempool.Index.Bucket.{remove_expire_bucket-hash_index, remove_expire_bucket-heap}
use eth_mon_svr.Mempool.Index.Removal.{take_receipt-IsIndexed, take_receipt-pool}

-- Whether a receipt with the hash is among the receipts.
abbrev pub mentions : ℕ → List (Option Receipt) → Bool
mentions h [] = false
mentions h (none ∷ receipts) = mentions h receipts
mentions h (some receipt ∷ receipts) = receipt.tx_hash == h || mentions h receipts

remove_by_hash-hash_index :
    (r : Ref) (pool : PendingMemPool) (h : ℕ)
    → Map.get h (remove_by_hash r pool).hash_index
      ≡ without (pool.heap r).hash (λ k. Map.get k pool.hash_index) h
unfolding remove_by_hash forget_nonce
remove_by_hash-hash_index r pool h = ground (
  arith,
  Map.get-delete (pool.heap r).hash h pool.hash_index,
  remove_expire_bucket-hash_index r (record (forget_nonce (pool.heap r) pool) {
    hash_index = Map.delete (pool.heap r).hash (forget_nonce (pool.heap r) pool).hash_index;
  }),
)

remove_by_hash-expire_block :
    (s : Ref) (pool : PendingMemPool) (r : Ref)
    → ((remove_by_hash s pool).heap r).expire_block ≡ (pool.heap r).expire_block
unfolding remove_by_hash forget_nonce
remove_by_hash-expire_block s pool r =
    let forgotten = forget_nonce (pool.heap s) pool in
    let start : PendingMemPool = record forgotten {
      hash_index = Map.delete (pool.heap s).hash forgotten.hash_index;
    } in
    let same_heap : forgotten.heap ≡ pool.heap = ground arith in
    ap (λ tx. tx.expire_block) (remove_expire_bucket-heap s r start (ℤ.pos 0))
    ∙ ap (λ heap. (heap r).expire_block) same_heap

-- `RemoveByReceipts` leaves the expiry block of every transaction as it is.
take_receipt-expire_block :
    (num time : ℕ) (receipt : Receipt) (t : Tally) {t' : Tally} (r : Ref)
    → take_receipt num time receipt t ≡ some t'
    → (t'.pool.heap r).expire_block ≡ (t.pool.heap r).expire_block
unfolding take_receipt
take_receipt-expire_block num time receipt t {t'} r e =
    elim (Option-cases (Map.get receipt.tx_hash t.pool.hash_index)) [
      | inl gone ↦ let same : t'.pool ≡ t.pool = ground arith in rw same refl
      | inr (s, live) ↦
          rw (take_receipt-pool num time receipt t live e) (remove_by_hash-expire_block s t.pool r)
    ]

take_receipts-expire_block :
    (num time : ℕ) (receipts : List (Option Receipt)) (t : Tally) {t' : Tally} (r : Ref)
    → take_receipts num time receipts t ≡ some t'
    → (t'.pool.heap r).expire_block ≡ (t.pool.heap r).expire_block
unfolding take_receipts
take_receipts-expire_block num time [] t {t'} r e = let same : t ≡ t' = cc in rw same refl
take_receipts-expire_block num time (none ∷ receipts) t r e = absurd (cc)
take_receipts-expire_block num time (some receipt ∷ receipts) t {t'} r e =
    elim (Option-cases (take_receipt num time receipt t)) [
      | inl panic ↦ absurd (ground arith)
      | inr (next, step) ↦
          take_receipts-expire_block num time receipts next {t' = t'} r (ground arith)
          ∙ take_receipt-expire_block num time receipt t {t' = next} r step
    ]

pub remove_by_receipts-expire_block :
    (header : Header) (receipts : List (Option Receipt)) (pool : PendingMemPool)
    {pool' : PendingMemPool} {stats : List FeeBucketStat} {cnt : ℕ} (r : Ref)
    → remove_by_receipts header receipts pool ≡ some (pool', stats, cnt)
    → (pool'.heap r).expire_block ≡ (pool.heap r).expire_block
unfolding remove_by_receipts
remove_by_receipts-expire_block header receipts pool {pool'} r e =
    elim (Option-cases header.number) [
      | inl panic ↦ absurd (ground arith)
      | inr (num, known) ↦
          let start : Tally = record { pool = pool; stats = []; removed_cnt = 0 } in
          elim (Option-cases (take_receipts (num % u64_mod) header.time receipts start)) [
            | inl panic ↦ absurd (ground arith)
            | inr (t, done) ↦
                let same : pool' ≡ t.pool = ground arith in
                rw same (
                  take_receipts-expire_block (num % u64_mod) header.time receipts start {t' = t} r
                    done)
          ]
    ]

module _ {identity : ℕ → ℕ × ℕ} where
  take_receipt-hash_index :
      (num time : ℕ) (receipt : Receipt) (t : Tally) {t' : Tally} (h : ℕ)
      → IsIndexed identity t.pool
      → take_receipt num time receipt t ≡ some t'
      → Map.get h t'.pool.hash_index
        ≡ (if receipt.tx_hash == h then none else Map.get h t.pool.hash_index)
  unfolding take_receipt
  take_receipt-hash_index num time receipt t {t'} h v e =
      elim (Option-cases (Map.get receipt.tx_hash t.pool.hash_index)) [
        | inl gone ↦ let same : t'.pool ≡ t.pool = ground arith in rw same (ground arith)
        | inr (r, live) ↦ rw (
          take_receipt-pool num time receipt t live e,
          remove_by_hash-hash_index r t.pool h,
          v.hashed _ r live,
        )
      ]

  take_receipts-hash_index :
      (num time : ℕ) (receipts : List (Option Receipt)) (t : Tally) {t' : Tally} (h : ℕ)
      → IsIndexed identity t.pool
      → take_receipts num time receipts t ≡ some t'
      → Map.get h t'.pool.hash_index
        ≡ (if mentions h receipts then none else Map.get h t.pool.hash_index)
  unfolding take_receipts
  take_receipts-hash_index num time [] t {t'} h v e = let same : t ≡ t' = cc in rw same
  take_receipts-hash_index num time (none ∷ receipts) t h v e = absurd (cc)
  take_receipts-hash_index num time (some receipt ∷ receipts) t {t'} h v e =
      elim (Option-cases (take_receipt num time receipt t)) [
        | inl panic ↦ absurd (ground arith)
        | inr (next, step) ↦
            let w = take_receipt-IsIndexed num time receipt t v step in
            let rest =
              take_receipts-hash_index num time receipts next {t' = t'} h w (ground arith) in
            ground (arith, rest, take_receipt-hash_index num time receipt t {t' = next} h v step)
      ]

  -- Of a pool whose indexes agree, `RemoveByReceipts` removes exactly the transactions that one of
  -- the receipts names, counted or not.
  pub remove_by_receipts-hash_index :
      (header : Header) (receipts : List (Option Receipt)) (pool : PendingMemPool)
      {pool' : PendingMemPool} {stats : List FeeBucketStat} {cnt : ℕ} (h : ℕ)
      → IsIndexed identity pool
      → remove_by_receipts header receipts pool ≡ some (pool', stats, cnt)
      → Map.get h pool'.hash_index
        ≡ (if mentions h receipts then none else Map.get h pool.hash_index)
  unfolding remove_by_receipts
  remove_by_receipts-hash_index header receipts pool {pool'} h v e =
      elim (Option-cases header.number) [
        | inl panic ↦ absurd (ground arith)
        | inr (num, known) ↦
            let start : Tally = record { pool = pool; stats = []; removed_cnt = 0 } in
            elim (Option-cases (take_receipts (num % u64_mod) header.time receipts start)) [
              | inl panic ↦ absurd (ground arith)
              | inr (t, done) ↦
                  let same : pool' ≡ t.pool = ground arith in
                  rw same (
                    take_receipts-hash_index (num % u64_mod) header.time receipts start {t' = t} h v
                      done)
            ]
      ]

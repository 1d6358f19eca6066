-- ===== src/Mempool/Index/Removal.antt =====
-- `removeByHash` and `RemoveByReceipts` of internal/mempool/pool.go keep the indexes in agreement.
use eth_mon_svr.Base.{
  ℕ, ◌%◌, u64_mod, ◌≡◌, refl, fun_ext, List, [], ◌∷◌, Option, some, none, arith, Option-cases, inl,
  inr,
}
use eth_mon_svr.Base.Map
use eth_mon_svr.BlockStore.{FeeBucketStat}
use eth_mon_svr.Ethereum.{Header, Receipt}
use eth_mon_svr.Mempool.Types.{PendingTx, Ref, AccountPending, PendingMemPool, drop_nonce}
use eth_mon_svr.Mempool.Remove.{
  Tally, forget_nonce, remove_by_hash, tally_tx, take_receipt, take_receipts, remove_by_receipts,
}
use eth_mon_svr.Mempool.Index.{Indexed, IsIndexed, stored_in}
use eth_mon_svr.Mempool.Index.Maps.{stored_in-drop_nonce}
use eth_mon_svr.Mempool.Index.Bucket.{
  agree, remove_expire_bucket-Unlinked, remove_expire_bucket-accounts,
  remove_expire_bucket-hash_index,
}

-- The account behind an answer of the accounts.
pub stored_in-some :
    (accounts : Map.Map AccountPending) (a n : ℕ) {r : Ref}
    → stored_in accounts a n ≡ some r
    → (account : AccountPending) × (Map.get a accounts ≡ some account)
      × (Map.get n account.nonce_map ≡ some r)
unfolding stored_in
stored_in-some accounts a n e = elim (Option-cases (Map.get a accounts)) [
  | inl gone ↦ absurd (ground arith)
  | inr (account, there) ↦ (account, there, ground arith)
]

-- What agrees everywhere may stand for one another.
pub reindex :
    {identity : ℕ → ℕ × ℕ} {heap heap' : Ref → PendingTx} {next : Ref} {H H' : ℕ → Option Ref}
    {S S' B B' : ℕ → ℕ → Option Ref}
    → ((r : Ref) → heap' r ≡ heap r)
    → ((h : ℕ) → H' h ≡ H h)
    → ((a n : ℕ) → S' a n ≡ S a n)
    → ((b i : ℕ) → B' b i ≡ B b i)
    → Indexed identity heap next H S B
    → Indexed identity heap' next H' S' B'
reindex rs hs ss bs v = rw (fun_ext rs, fun_ext hs, agree ss, agree bs) v

pub take_receipt-pool :
    (num time : ℕ) (receipt : Receipt) (t : Tally) {t' : Tally} {r : Ref}
    → Map.get receipt.tx_hash t.pool.hash_index ≡ some r
    → take_receipt num time receipt t ≡ some t'
    → t'.pool ≡ remove_by_hash r t.pool
unfolding take_receipt tally_tx
take_receipt-pool num time receipt t live e = ground arith

module _ {identity : ℕ → ℕ × ℕ} where
  pub remove_by_hash-IsIndexed :
      (r : Ref) (pool : PendingMemPool)
      → IsIndexed identity pool
      → Map.get (pool.heap r).hash pool.hash_index ≡ some r
      → IsIndexed identity (remove_by_hash r pool)
  unfolding remove_by_hash
  remove_by_hash-IsIndexed r pool v live =
      let tx = pool.heap r in
      let (account, there, _) = stored_in-some _ _ _ (v.hashed_stored _ r live) in
      let rest : PendingMemPool = record pool {
        accounts = drop_nonce tx.from tx.nonce account pool.accounts;
        hash_index = Map.delete tx.hash pool.hash_index;
      } in
      rw (there, remove_by_hash, forget_nonce)
        (reindex (λ q. refl)
          (λ h.
            rw (remove_expire_bucket-hash_index r rest) (Map.get-delete tx.hash h pool.hash_index))
          (λ a n.
            rw (remove_expire_bucket-accounts r rest)
              (stored_in-drop_nonce tx.from tx.nonce account pool.accounts a n there))
          (λ b i. refl) (remove_expire_bucket-Unlinked rest v r live))

  pub take_receipt-IsIndexed :
      (num time : ℕ) (receipt : Receipt) (t : Tally) {t' : Tally}
      → IsIndexed identity t.pool
      → take_receipt num time receipt t ≡ some t'
      → IsIndexed identity t'.pool
  unfolding take_receipt
  take_receipt-IsIndexed num time receipt t {t'} v e =
      elim (Option-cases (Map.get receipt.tx_hash t.pool.hash_index)) [
        | inl gone ↦ let same : t'.pool ≡ t.pool = ground arith in rw same v
        | inr (r, live) ↦
            rw (take_receipt-pool num time receipt t live e)
              (remove_by_hash-IsIndexed r t.pool v (rw (v.hashed _ r live) live))
      ]

  take_receipts-IsIndexed :
      (num time : ℕ) (receipts : List (Option Receipt)) (t : Tally) {t' : Tally}
      → IsIndexed identity t.pool
      → take_receipts num time receipts t ≡ some t'
      → IsIndexed identity t'.pool
  unfolding take_receipts
  take_receipts-IsIndexed num time [] t {t'} v e = let same : t ≡ t' = cc in rw same at v
  take_receipts-IsIndexed num time (none ∷ receipts) t v e = cc
  take_receipts-IsIndexed num time (some receipt ∷ receipts) t {t'} v e =
      elim (Option-cases (take_receipt num time receipt t)) [
        | inl panic ↦ absurd (ground arith)
        | inr (next, step) ↦
            take_receipts-IsIndexed num time receipts next {t' = t'}
              (take_receipt-IsIndexed num time receipt t v step) (ground arith)
      ]

  -- `RemoveByReceipts` keeps the indexes in agreement, whatever receipts it is given.
  pub remove_by_receipts-IsIndexed :
      (header : Header) (receipts : List (Option Receipt)) (pool : PendingMemPool)
      {pool' : PendingMemPool} {stats : List FeeBucketStat} {cnt : ℕ}
      → IsIndexed identity pool
      → remove_by_receipts header receipts pool ≡ some (pool', stats, cnt)
      → IsIndexed identity pool'
  unfolding remove_by_receipts
  remove_by_receipts-IsIndexed header receipts pool {pool'} v e =
      elim (Option-cases header.number) [
        | inl panic ↦ absurd (ground arith)
        | inr (num, known) ↦
            let start : Tally = record { pool = pool; stats = []; removed_cnt = 0 } in
            elim (Option-cases (take_receipts (num % u64_mod) header.time receipts start)) [
              | inl panic ↦ absurd (ground arith)
              | inr (t, done) ↦
                  let same : pool' ≡ t.pool = ground arith in
                  rw same (
                    take_receipts-IsIndexed (num % u64_mod) header.time receipts start {t' = t} v
                      done)
            ]
      ]

-- ===== src/Mempool/Index/Batch.antt =====
-- `PushBatch` of internal/mempool/pool.go: the transactions that it takes in, and the indexes after it.
use eth_mon_svr.Base.{ℕ, ◌≡◌, List, [], ◌∷◌, Option, some, none, arith, Option-cases, inl, inr, All}
use eth_mon_svr.Ethereum.{Transaction}
use eth_mon_svr.Mempool.Types.{PendingTx, PendingMemPool}
use eth_mon_svr.Mempool.Push.{push_batch, valid_txs, to_pending}
use eth_mon_svr.Mempool.Index.{IsIndexed}
use eth_mon_svr.Mempool.Index.Insert.{insert_all-IsIndexed}

-- The hash of a transaction commits to its sender and nonce.
abbrev pub Commits : (ℕ → ℕ × ℕ) → Option Transaction → Type 0
Commits identity none = Unit
Commits identity (some tx) = elim tx.sender [
  | none ↦ Unit
  | some from ↦ identity tx.hash ≡ (from, tx.nonce)
]

to_pending-fields :
    (ttl num time : ℕ) (tx : Transaction) {pending : PendingTx}
    → to_pending ttl num time (some tx) ≡ some pending
    → (tx.sender ≡ some pending.from) × (pending.hash ≡ tx.hash) × (pending.nonce ≡ tx.nonce)
unfolding to_pending
to_pending-fields ttl num time tx e = ground arith

module _ (identity : ℕ → ℕ × ℕ) where
  to_pending-known :
      (ttl num time : ℕ) (tx : Option Transaction) {pending : PendingTx}
      → Commits identity tx
      → to_pending ttl num time tx ≡ some pending
      → identity pending.hash ≡ (pending.from, pending.nonce)
  unfolding to_pending
  to_pending-known ttl num time none c e = cc
  to_pending-known ttl num time (some tx) c e =
      let (sender, hash, nonce) = to_pending-fields ttl num time tx e in
      rw (hash, nonce) (rw sender at c)

  valid_txs-known :
      (ttl num time : ℕ) (txs : List (Option Transaction))
      → All (Commits identity) txs
      → All
          (λ (tx : PendingTx). identity tx.hash ≡ (tx.from, tx.nonce))
          (valid_txs ttl num time txs)
  unfolding valid_txs
  valid_txs-known ttl num time [] c = tt
  valid_txs-known ttl num time (tx ∷ txs) c = elim (Option-cases (to_pending ttl num time tx)) [
    | inl skipped ↦ rw (skipped, valid_txs) (valid_txs-known ttl num time txs c.1)
    | inr (pending, made) ↦
        rw (made, valid_txs)
          (to_pending-known ttl num time tx c.0 made, valid_txs-known ttl num time txs c.1)
  ]

  -- `PushBatch` keeps the indexes in agreement, if the hash of each transaction commits to its
  -- sender and nonce.
  pub push_batch-IsIndexed :
      (txs : List (Option Transaction)) (num time : ℕ) (pool : PendingMemPool)
      → IsIndexed identity pool
      → All (Commits identity) txs
      → IsIndexed identity (push_batch txs num time pool)
  unfolding push_batch
  push_batch-IsIndexed txs num time pool v c =
      insert_all-IsIndexed (valid_txs pool.ttl_block num time txs) pool v
        (valid_txs-known pool.ttl_block num time txs c)

-- ===== src/Mempool/History.antt =====
-- Any sequence of calls on a `PendingMemPool` of internal/mempool/pool.go.
use eth_mon_svr.Base.{
  subst, ℕ, ◌<◌, ◌≡◌, ◌≢◌, refl, List, [], ◌∷◌, Option, some, none, All, length, u32_mod,
}
use eth_mon_svr.Base.Map
use eth_mon_svr.Ethereum.{Header, Receipt, Transaction}
use eth_mon_svr.Mempool.Types.{PendingMemPool, new_pending_mem_pool, empty_pool, clear}
use eth_mon_svr.Mempool.Push.{push_batch}
use eth_mon_svr.Mempool.Remove.{remove_by_receipts}
use eth_mon_svr.Mempool.Expire.{remove_expired}
use eth_mon_svr.Mempool.Index.{IsIndexed, stored_in, listed_in}
use eth_mon_svr.Mempool.Index.Batch.{Commits, push_batch-IsIndexed}
use eth_mon_svr.Mempool.Index.Removal.{remove_by_receipts-IsIndexed}
use eth_mon_svr.Mempool.Index.Expiry.{remove_expired-IsIndexed}
use eth_mon_svr.Mempool.Totals.{IsReceipt, remove_by_receipts-totals}

pub data Call : Type 0 where
  pushes : List (Option Transaction) → ℕ → ℕ → Call
  takes : Header → List (Option Receipt) → Call
  expires : ℕ → Call
  clears : Call

-- `none` is a panic.
unfoldable pub step : Call → PendingMemPool → Option PendingMemPool
step (pushes txs num time) pool = some (push_batch txs num time pool)
step (takes header receipts) pool = elim (remove_by_receipts header receipts pool) [
  | none ↦ none
  | some (pool', _, _) ↦ some pool'
]
step (expires cur) pool = some (remove_expired cur pool).0
step clears pool = some (clear pool)

unfoldable pub run : List Call → PendingMemPool → Option PendingMemPool
run [] pool = some pool
run (call ∷ calls) pool = elim (step call pool) [ none ↦ none | some pool' ↦ run calls pool' ]

-- The hash of a pushed transaction commits to its sender and nonce; a block has a number, and fewer
-- than 2^32 receipts, none of them nil.
abbrev pub IsSound : (ℕ → ℕ × ℕ) → Call → Type 0
IsSound identity (pushes txs num time) = All (Commits identity) txs
IsSound identity (takes header receipts) =
    (header.number ≢ none) × (length receipts < u32_mod) × All IsReceipt receipts
IsSound identity (expires cur) = Unit
IsSound identity clears = Unit

module _ (identity : ℕ → ℕ × ℕ) where
  clear-IsIndexed : (pool : PendingMemPool) → IsIndexed identity (clear pool)
  unfolding clear Map.get stored_in listed_in
  clear-IsIndexed pool = record {
    hashed = λ h r e. absurd (cc);
    allocated = λ h r e. absurd (cc);
    hashed_stored = λ h r e. absurd (cc);
    hashed_listed = λ h r e. absurd (cc);
    committed = λ h r e. absurd (cc);
    stored_from = λ a n r e. absurd (cc);
    stored_nonce = λ a n r e. absurd (cc);
    stored_hashed = λ a n r e. absurd (cc);
    listed_block = λ b i r e. absurd (cc);
    listed_index = λ b i r e. absurd (cc);
    listed_hashed = λ b i r e. absurd (cc);
  }

  step-IsIndexed :
      (call : Call) (pool : PendingMemPool)
      → IsSound identity call
      → IsIndexed identity pool
      → (pool' : PendingMemPool) × (step call pool ≡ some pool') × IsIndexed identity pool'
  unfolding step
  step-IsIndexed (pushes txs num time) pool s v =
      (push_batch txs num time pool, refl, push_batch-IsIndexed identity txs num time pool v s)
  step-IsIndexed (takes header receipts) pool s v =
      let (pool', stats, cnt, done, _, _, _) =
        remove_by_receipts-totals header receipts pool s.0 s.1 s.2 in
      (pool', rw (done, step), remove_by_receipts-IsIndexed header receipts pool v done)
  step-IsIndexed (expires cur) pool s v =
      ((remove_expired cur pool).0, refl, remove_expired-IsIndexed cur pool v)
  step-IsIndexed clears pool s v = (clear pool, refl, clear-IsIndexed pool)

  pub run-IsIndexed :
      (calls : List Call) (pool : PendingMemPool)
      → All (IsSound identity) calls
      → IsIndexed identity pool
      → (pool' : PendingMemPool) × (run calls pool ≡ some pool') × IsIndexed identity pool'
  unfolding run
  run-IsIndexed [] pool s v = (pool, refl, v)
  run-IsIndexed (call ∷ calls) pool s v =
      let (next, one, w) = step-IsIndexed call pool s.0 v in
      let (pool', rest, w') = run-IsIndexed calls next s.1 w in (pool', rw (one, run) rest, w')

  pub empty_pool-IsIndexed : (ttl : ℕ) → IsIndexed identity (empty_pool ttl)
  unfolding clear
  empty_pool-IsIndexed ttl = clear-IsIndexed (empty_pool ttl)

  -- From a pool that `NewPendingMemPool` made, no sequence of sound calls panics, and at its end the
  -- indexes agree: the hash index, the accounts and the expiry buckets hold the same transactions,
  -- each under its own hash, its own sender and nonce, and at its own expiry block and index.
  pub run-new_pending_mem_pool :
      (chain_id : Option ℕ) (ttl : ℕ) (calls : List Call) {pool : PendingMemPool}
      → new_pending_mem_pool chain_id ttl ≡ some pool
      → All (IsSound identity) calls
      → (pool' : PendingMemPool) × (run calls pool ≡ some pool') × IsIndexed identity pool'
  unfolding new_pending_mem_pool
  run-new_pending_mem_pool none ttl calls made s = cc
  run-new_pending_mem_pool (some id) ttl calls {pool} made s =
      let same : empty_pool ttl ≡ pool = cc in
      run-IsIndexed calls pool s (subst (IsIndexed identity) same (empty_pool-IsIndexed ttl))

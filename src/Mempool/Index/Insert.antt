-- ===== src/Mempool/Index/Insert.antt =====
-- `PushBatch` of internal/mempool/pool.go keeps the indexes in agreement.
use eth_mon_svr.Base.{
  ℕ, ◌≡◌, refl, sym, ap, List, [], ◌∷◌, Option, some, none, ◌==◌, if◌then◌else◌, arith,
  Option-cases, Bool-cases, inl, inr, ◌∙◌, pos, length, get_elem?-le, ==_refl, All,
}
use eth_mon_svr.Base.Map
use eth_mon_svr.Mempool.Types.{PendingTx, Ref, PendingMemPool, set_expire_index}
use eth_mon_svr.Mempool.Push.{
  bucket, add_expire_bucket, remove_expire_bucket, account_of, unlink_old, link_new, is_underpriced,
  insert, insert_all,
}
use eth_mon_svr.Mempool.Index.{Indexed, IsIndexed, stored_in, listed_in}
use eth_mon_svr.Mempool.Index.Maps.{stored_in-put, listed_in-add}
use eth_mon_svr.Mempool.Index.Unlink.{without_at, with_at}
use eth_mon_svr.Mempool.Index.Link.{allocate, link-Indexed}
use eth_mon_svr.Mempool.Index.Bucket.{
  remove_expire_bucket-Unlinked, remove_expire_bucket-accounts, remove_expire_bucket-hash_index,
  remove_expire_bucket-heap,
}
use eth_mon_svr.Mempool.Index.Removal.{reindex}

bucket_end_is_free :
    (pool : PendingMemPool) (b : ℕ)
    → listed_in pool.expire_buckets b (length (bucket pool b)) ≡ none
unfolding listed_in bucket
bucket_end_is_free pool b = ground (arith, get_elem?-le (bucket pool b) (length (bucket pool b)))

-- The object as it stands after `addExpireBucket`.
abbrev placed : PendingMemPool → PendingTx → PendingTx
placed pool tx = record tx { expire_index = pos (length (bucket pool tx.expire_block)) }

placed-heap :
    (pool : PendingMemPool) (tx : PendingTx) (q : Ref)
    → set_expire_index pool.next_ref
        (pos (length (bucket pool tx.expire_block)))
        (λ q'. if pool.next_ref == q' then tx else pool.heap q')
        q
      ≡ allocate pool.next_ref (placed pool tx) pool.heap q
unfolding set_expire_index
placed-heap pool tx q = ground arith

remove_expire_bucket-hash :
    (old : Ref) (pool : PendingMemPool)
    → ((remove_expire_bucket old pool).heap old).hash ≡ (pool.heap old).hash
remove_expire_bucket-hash old pool =
    ap (λ (tx : PendingTx). tx.hash) (remove_expire_bucket-heap old old pool (pos 0))

old_stored :
    (pool : PendingMemPool) (f n : ℕ)
    → Map.get n (account_of pool f).nonce_map ≡ stored_in pool.accounts f n
unfolding account_of stored_in Map.get
old_stored pool f n = ground arith

unlink_old-accounts :
    (pool : PendingMemPool) (old : Ref) → (unlink_old (some old) pool).accounts ≡ pool.accounts
unfolding unlink_old
unlink_old-accounts pool old = remove_expire_bucket-accounts old pool

-- `account_of` reads the accounts alone.
account_of-unlink_old :
    (pool : PendingMemPool) (old : Ref) (f : ℕ)
    → account_of pool f ≡ account_of (unlink_old (some old) pool) f
unfolding account_of unlink_old
account_of-unlink_old pool old f = rw (remove_expire_bucket-accounts old pool)

module _ {identity : ℕ → ℕ × ℕ} where
  -- `H` and `S` are what the hash index and the accounts answer; `S` may already forget what the
  -- accounts still hold under the sender and nonce, since that is overwritten.
  link_new-IsIndexed :
      (tx : PendingTx) (pool : PendingMemPool) {S : ℕ → ℕ → Option Ref}
      → Indexed identity pool.heap pool.next_ref
          (λ h. Map.get h pool.hash_index)
          S
          (listed_in pool.expire_buckets)
      → identity tx.hash ≡ (tx.from, tx.nonce)
      → S tx.from tx.nonce ≡ none
      → ((a n : ℕ)
          → with_at tx.from tx.nonce pool.next_ref (stored_in pool.accounts) a n
            ≡ with_at tx.from tx.nonce pool.next_ref S a n)
      → IsIndexed identity (link_new tx (account_of pool tx.from) pool)
  unfolding link_new add_expire_bucket
  link_new-IsIndexed tx pool v known vacant same =
      let b = tx.expire_block in
      let r = pool.next_ref in
      rw (link_new, add_expire_bucket, ==_refl pool.next_ref)
        (reindex (placed-heap pool tx) (λ h. Map.get-put tx.hash h r pool.hash_index)
          (λ a n. stored_in-put pool tx.from tx.nonce r a n ∙ same a n)
          (λ c i. listed_in-add pool b r c i)
          (link-Indexed v (placed pool tx) (length (bucket pool b)) refl known vacant
            (bucket_end_is_free pool b)))

  unlink_old-Unlinked :
      (pool : PendingMemPool) (old : Ref)
      → IsIndexed identity pool
      → stored_in pool.accounts (pool.heap old).from (pool.heap old).nonce ≡ some old
      → Indexed identity
          (unlink_old (some old) pool).heap
          (unlink_old (some old) pool).next_ref
          (λ h. Map.get h (unlink_old (some old) pool).hash_index)
          (without_at (pool.heap old).from (pool.heap old).nonce (stored_in pool.accounts))
          (listed_in (unlink_old (some old) pool).expire_buckets)
  unfolding unlink_old
  unlink_old-Unlinked pool old v there =
      let rest = remove_expire_bucket old pool in
      let live = v.stored_hashed _ _ old there in
      reindex (λ q. refl)
        (λ h.
          rw (remove_expire_bucket-hash_index old pool, remove_expire_bucket-hash old pool)
            (Map.get-delete (pool.heap old).hash h pool.hash_index))
        (λ a n. refl) (λ b i. refl) (remove_expire_bucket-Unlinked pool v old live)

  replace-IsIndexed :
      (tx : PendingTx) (pool : PendingMemPool) (old : Ref)
      → IsIndexed identity pool
      → identity tx.hash ≡ (tx.from, tx.nonce)
      → stored_in pool.accounts tx.from tx.nonce ≡ some old
      → IsIndexed identity (
          link_new tx
            (account_of (unlink_old (some old) pool) tx.from)
            (unlink_old (some old) pool))
  replace-IsIndexed tx pool old v known there =
      let from = v.stored_from _ _ old there in
      let nonce = v.stored_nonce _ _ old there in
      let unlinked =
        rw (from, nonce) at (unlink_old-Unlinked pool old v (rw (from, nonce) there)) in
      link_new-IsIndexed tx (unlink_old (some old) pool) unlinked known (ground arith)
        (λ a n. rw (unlink_old-accounts pool old) (ground arith))

  insert-IsIndexed :
      (tx : PendingTx) (pool : PendingMemPool)
      → IsIndexed identity pool
      → identity tx.hash ≡ (tx.from, tx.nonce)
      → IsIndexed identity (insert tx pool)
  unfolding insert
  insert-IsIndexed tx pool v known =
      let account = account_of pool tx.from in
      let at = old_stored pool tx.from tx.nonce in
      elim (Option-cases (Map.get tx.nonce account.nonce_map)) [
        | inl gone ↦
            rw (gone, insert)
              (unfold is_underpriced unlink_old in
                link_new-IsIndexed tx pool v known (sym at ∙ gone) (λ a n. refl))
        | inr (old, there) ↦ elim (Bool-cases (is_underpriced tx (some old) pool.heap)) [
          | inl low ↦ rw (there, insert, low) v
          | inr better ↦
              let stored = sym at ∙ there in
              rw (there, insert, better, account_of-unlink_old pool old tx.from)
                (replace-IsIndexed tx pool old v known stored)
        ]
      ]

  pub insert_all-IsIndexed :
      (txs : List PendingTx) (pool : PendingMemPool)
      → IsIndexed identity pool
      → All (λ tx. identity tx.hash ≡ (tx.from, tx.nonce)) txs
      → IsIndexed identity (insert_all txs pool)
  unfolding insert_all
  insert_all-IsIndexed [] pool v known = v
  insert_all-IsIndexed (tx ∷ txs) pool v known =
      insert_all-IsIndexed txs (insert tx pool) (insert-IsIndexed tx pool v known.0) known.1

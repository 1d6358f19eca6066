-- ===== src/Mempool/Expire.antt =====
-- `RemoveExpired` of internal/mempool/pool.go.
use eth_mon_svr.Base.{ℕ, ◌+◌, List, [], ◌∷◌, Option, none, some, ◌==◌, ltb, if◌then◌else◌}
use eth_mon_svr.Base.Map
use eth_mon_svr.Base.Map.{Map}
use eth_mon_svr.Mempool.Types.{Ref, AccountPending, PendingMemPool, drop_nonce}

-- The pool and `removed_cnt`.
abbrev pub Sweep : Type 0
Sweep = PendingMemPool × ℕ

-- The transaction `r` goes if it is still the one stored under its sender and nonce.
unfoldable pub expire_stored : Ref → AccountPending → Option Ref → Sweep → Sweep
expire_stored r account none s = s
expire_stored r account (some stored_tx) (pool, cnt) =
    let tx = pool.heap r in
    if (pool.heap stored_tx).hash == tx.hash
    then (
      record pool {
        accounts = drop_nonce tx.from tx.nonce account pool.accounts;
        hash_index = Map.delete tx.hash pool.hash_index;
      },
      cnt + 1,
    )
    else (pool, cnt)

-- One round of the inner loop.
unfoldable pub expire_tx : Ref → Sweep → Sweep
expire_tx r (pool, cnt) = elim (Map.get (pool.heap r).from pool.accounts) [
  | none ↦ (pool, cnt)
  | some account ↦
      expire_stored r account (Map.get (pool.heap r).nonce account.nonce_map) (pool, cnt)
]

unfoldable pub expire_list : List Ref → Sweep → Sweep
expire_list [] s = s
expire_list (r ∷ list) s = expire_list list (expire_tx r s)

unfoldable pub drop_bucket : ℕ → Sweep → Sweep
drop_bucket block (pool, cnt) =
    (record pool { expire_buckets = Map.delete block pool.expire_buckets }, cnt)

-- One round of the outer loop: the entry of a block, unless it is of a later block. (An entry that
-- is deleted before the `range` reaches it is not visited.)
unfoldable pub expire_block : ℕ → ℕ → Sweep → Sweep
expire_block cur_block block (pool, cnt) = elim (Map.get block pool.expire_buckets) [
  | none ↦ (pool, cnt)
  | some list ↦
      if ltb cur_block block then (pool, cnt) else drop_bucket block (expire_list list (pool, cnt))
]

unfoldable pub expire_blocks : ℕ → List ℕ → Sweep → Sweep
expire_blocks cur_block [] s = s
expire_blocks cur_block (block ∷ blocks) s =
    expire_blocks cur_block blocks (expire_block cur_block block s)

-- The pool, and the number of transactions removed.
unfoldable pub remove_expired : ℕ → PendingMemPool → Sweep
remove_expired cur_block pool = expire_blocks cur_block (Map.keys pool.expire_buckets) (pool, 0)

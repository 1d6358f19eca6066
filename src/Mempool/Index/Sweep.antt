-- ===== src/Mempool/Index/Sweep.antt =====
-- `RemoveExpired` of internal/mempool/pool.go, against the agreement of the indexes: while a bucket is
-- swept, the indexes agree on what is still ahead of the sweep.
use eth_mon_svr.Base.{
  ℕ, suc, ◌+◌, ◌-◌, ◌≡◌, refl, List, [], ◌∷◌, Option, some, none, ◌==◌, ltb, if◌then◌else◌, arith,
  Option-cases, Bool-cases, inl, inr, ◌∙◌, get_elem?, ==_refl,
}
use eth_mon_svr.Base.Map
use eth_mon_svr.Mempool.Types.{PendingTx, Ref, AccountPending, PendingMemPool, drop_nonce}
use eth_mon_svr.Mempool.Expire.{expire_stored, expire_tx, expire_list}
use eth_mon_svr.Mempool.Index.{Indexed, stored_in}
use eth_mon_svr.Mempool.Index.Maps.{stored_in-drop_nonce}
use eth_mon_svr.Mempool.Index.Unlink.{without_at, unlink-Indexed}
use eth_mon_svr.Mempool.Index.Removal.{stored_in-some, reindex}

-- The buckets, of which block `b` has only `list` left, from position `k` on.
abbrev pub ahead : ℕ → ℕ → List Ref → (ℕ → ℕ → Option Ref) → ℕ → ℕ → Option Ref
ahead b k list B c j = if b == c then (if ltb j k then none else get_elem? list (j - k)) else B c j

ahead-step :
    (b k : ℕ) (r : Ref) (list : List Ref) (B : ℕ → ℕ → Option Ref) (c j : ℕ)
    → ahead b (suc k) list B c j ≡ without_at b k (ahead b k (r ∷ list) B) c j
ahead-step b k r list B c j = elim (Bool-cases (ltb k j)) [
  | inl more ↦ let e : j - k ≡ suc (j - suc k) = ground arith in rw e (ground arith)
  | inr here ↦ ground arith
]

-- What is left of an answer of the hash index when the transactions of block `b` are gone.
abbrev pub drop_in : (Ref → PendingTx) → ℕ → Option Ref → Option Ref
drop_in heap b none = none
drop_in heap b (some r) = if b == (heap r).expire_block then none else some r

-- The next transaction of the sweep is one that the other indexes hold.
expire_tx-removes :
    (r : Ref) (pool : PendingMemPool) (cnt : ℕ)
    → Map.get (pool.heap r).hash pool.hash_index ≡ some r
    → stored_in pool.accounts (pool.heap r).from (pool.heap r).nonce ≡ some r
    → (account : AccountPending) × (Map.get (pool.heap r).from pool.accounts ≡ some account)
      × (expire_tx r (pool, cnt) ≡ (
        record pool {
          accounts = drop_nonce (pool.heap r).from (pool.heap r).nonce account pool.accounts;
          hash_index = Map.delete (pool.heap r).hash pool.hash_index;
        },
        cnt + 1,
      ))
unfolding expire_tx expire_stored
expire_tx-removes r pool cnt live stored =
    let (account, there, at) = stored_in-some _ _ _ stored in
    (account, there, rw (there, expire_tx, at, expire_stored, ==_refl (pool.heap r).hash))

-- What a sweep of block `b` leaves: nothing of that block, and all else as it was.
pub record Swept (identity : ℕ → ℕ × ℕ) (b : ℕ) (B : ℕ → ℕ → Option Ref) (pool q : PendingMemPool)
    : Type 0 where
  pub same_heap : q.heap ≡ pool.heap
  pub same_buckets : q.expire_buckets ≡ pool.expire_buckets
  pub hashes : (h : ℕ) → Map.get h q.hash_index ≡ drop_in pool.heap b (Map.get h pool.hash_index)
  pub indexed :
      (end : ℕ) × Indexed identity q.heap q.next_ref
        (λ h. Map.get h q.hash_index)
        (stored_in q.accounts)
        (ahead b end [] B)

module _ {identity : ℕ → ℕ × ℕ} where
  -- Nothing of block `b` is left at the end of its list.
  swept_clean :
      (b k : ℕ) (B : ℕ → ℕ → Option Ref) (pool : PendingMemPool)
      → Indexed identity pool.heap pool.next_ref
          (λ h. Map.get h pool.hash_index)
          (stored_in pool.accounts)
          (ahead b k [] B)
      → (h : ℕ) → Map.get h pool.hash_index ≡ drop_in pool.heap b (Map.get h pool.hash_index)
  swept_clean b k B pool v h = elim (Option-cases (Map.get h pool.hash_index)) [
    | inl gone ↦ rw gone
    | inr (r, live) ↦ let (i, _, at) = v.hashed_listed h r live in ground arith
  ]

  swept_one :
      (b k : ℕ) (r : Ref) (list : List Ref) (B : ℕ → ℕ → Option Ref) (pool : PendingMemPool)
      → Indexed identity pool.heap pool.next_ref
          (λ h. Map.get h pool.hash_index)
          (stored_in pool.accounts)
          (ahead b k (r ∷ list) B)
      → (h : ℕ)
      → drop_in pool.heap b (Map.get h (Map.delete (pool.heap r).hash pool.hash_index))
        ≡ drop_in pool.heap b (Map.get h pool.hash_index)
  swept_one b k r list B pool v h =
      let at : ahead b k (r ∷ list) B b k ≡ some r = ground arith in
      ground (
        arith,
        v.listed_hashed b k r at,
        v.listed_block b k r at,
        Map.get-delete (pool.heap r).hash h pool.hash_index,
      )

  pub expire_list-Swept :
      (b k : ℕ) (list : List Ref) (B : ℕ → ℕ → Option Ref) (pool : PendingMemPool) (cnt : ℕ)
      → Indexed identity pool.heap pool.next_ref
          (λ h. Map.get h pool.hash_index)
          (stored_in pool.accounts)
          (ahead b k list B)
      → Swept identity b B pool (expire_list list (pool, cnt)).0
  unfolding expire_list
  expire_list-Swept b k [] B pool cnt v = record {
    same_heap = refl;
    same_buckets = refl;
    hashes = swept_clean b k B pool v;
    indexed = (k, v);
  }
  expire_list-Swept b k (r ∷ list) B pool cnt v =
      let at : ahead b k (r ∷ list) B b k ≡ some r = ground arith in
      let live = v.listed_hashed b k r at in
      let (account, there, step) = expire_tx-removes r pool cnt live (v.hashed_stored _ r live) in
      let tx = pool.heap r in
      let pool' : PendingMemPool = record pool {
        accounts = drop_nonce tx.from tx.nonce account pool.accounts;
        hash_index = Map.delete tx.hash pool.hash_index;
      } in
      let v' = unlink-Indexed v r k live (v.listed_index b k r at) in
      let rest = expire_list-Swept b (suc k) list B pool' (cnt + 1) (
        reindex (λ q. refl) (λ h. Map.get-delete tx.hash h pool.hash_index)
          (λ a n. stored_in-drop_nonce tx.from tx.nonce account pool.accounts a n there)
          (λ c j. ahead-step b k r list B c j) (rw (v.listed_block b k r at) at v')) in
      rw (step, expire_list)
        (record {
          same_heap = rest.same_heap;
          same_buckets = rest.same_buckets;
          hashes = λ h. rest.hashes h ∙ swept_one b k r list B pool v h;
          indexed = rest.indexed;
        })

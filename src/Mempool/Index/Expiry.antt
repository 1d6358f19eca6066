-- ===== src/Mempool/Index/Expiry.antt =====
-- `RemoveExpired` of internal/mempool/pool.go: what it removes, and the agreement of the indexes.
use eth_mon_svr.Base.{
  ℕ, ◌-◌, ◌≡◌, refl, sym, List, [], ◌∷◌, Option, some, none, ◌==◌, ◌&&◌, ltb, leb, if◌then◌else◌,
  arith, Option-cases, Bool-cases, inl, inr, ◌∙◌, elem,
}
use eth_mon_svr.Base.Map
use eth_mon_svr.Mempool.Types.{PendingTx, Ref, PendingMemPool}
use eth_mon_svr.Mempool.Expire.{drop_bucket, expire_block, expire_blocks, remove_expired}
use eth_mon_svr.Mempool.Index.{IsIndexed, listed_in}
use eth_mon_svr.Mempool.Index.Bucket.{listed_in-some}
use eth_mon_svr.Mempool.Index.Removal.{reindex}
use eth_mon_svr.Mempool.Index.Sweep.{ahead, drop_in, expire_list-Swept}

-- The start and the end of a sweep, in terms of the buckets.
ahead-listed_in :
    (b : ℕ) (list : List Ref) (buckets : Map.Map (List Ref)) (c j : ℕ)
    → Map.get b buckets ≡ some list
    → ahead b 0 list (listed_in buckets) c j ≡ listed_in buckets c j
unfolding listed_in
ahead-listed_in b list buckets c j there = elim (Bool-cases (b == c)) [
  | inl here ↦ let whole : j - 0 ≡ j = omega arith in rw (here, whole) (ground arith)
  | inr other ↦ ground arith
]

listed_in-delete :
    (b end : ℕ) (buckets : Map.Map (List Ref)) (c j : ℕ)
    → listed_in (Map.delete b buckets) c j ≡ ahead b end [] (listed_in buckets) c j
unfolding listed_in
listed_in-delete b end buckets c j = ground (arith, Map.get-delete b c buckets)

-- What the rounds for some blocks leave of an answer of the hash index.
abbrev drop_blocks : ℕ → (Ref → PendingTx) → List ℕ → Option Ref → Option Ref
drop_blocks cur heap [] o = o
drop_blocks cur heap (b ∷ blocks) o =
    drop_blocks cur heap blocks (if ltb cur b then o else drop_in heap b o)

drop_blocks-none :
    (cur : ℕ) (heap : Ref → PendingTx) (blocks : List ℕ) → drop_blocks cur heap blocks none ≡ none
drop_blocks-none cur heap [] = refl
drop_blocks-none cur heap (b ∷ blocks) = ground (arith, drop_blocks-none cur heap blocks)

drop_blocks-some :
    (cur : ℕ) (heap : Ref → PendingTx) (blocks : List ℕ) (r : Ref)
    → drop_blocks cur heap blocks (some r) ≡ (
        if leb (heap r).expire_block cur && elem (heap r).expire_block blocks then none else some r)
drop_blocks-some cur heap [] r = ground arith
drop_blocks-some cur heap (b ∷ blocks) r =
    ground (arith, drop_blocks-some cur heap blocks r, drop_blocks-none cur heap blocks)

record Expired (identity : ℕ → ℕ × ℕ) (cur : ℕ) (blocks : List ℕ) (pool q : PendingMemPool)
    : Type 0 where
  same_heap : q.heap ≡ pool.heap
  hashes :
      (h : ℕ)
      → Map.get h q.hash_index ≡ drop_blocks cur pool.heap blocks (Map.get h pool.hash_index)
  indexed : IsIndexed identity q

module _ {identity : ℕ → ℕ × ℕ} where
  absent_clean :
      (cur b : ℕ) (pool : PendingMemPool)
      → IsIndexed identity pool
      → (h : ℕ) → Map.get b pool.expire_buckets ≡ none
      → Map.get h pool.hash_index ≡ drop_blocks cur pool.heap (b ∷ []) (Map.get h pool.hash_index)
  absent_clean cur b pool v h absent = elim (Option-cases (Map.get h pool.hash_index)) [
    | inl gone ↦ rw gone (sym (drop_blocks-none cur pool.heap (b ∷ [])))
    | inr (r, live) ↦
        let (i, _, at) = v.hashed_listed h r live in
        let (list, there, _) = listed_in-some _ _ _ at in ground arith
  ]

  expire_block-Expired :
      (cur b : ℕ) (pool : PendingMemPool) (cnt : ℕ)
      → IsIndexed identity pool
      → Expired identity cur (b ∷ []) pool (expire_block cur b (pool, cnt)).0
  unfolding expire_block drop_bucket
  expire_block-Expired cur b pool cnt v = elim (Option-cases (Map.get b pool.expire_buckets)) [
    | inl absent ↦
        rw (absent, expire_block)
          (record {
            same_heap = refl;
            hashes = λ h. absent_clean cur b pool v h absent;
            indexed = v;
          })
    | inr (list, there) ↦ elim (Bool-cases (ltb cur b)) [
      | inl later ↦
          rw (there, expire_block, later)
            (record { same_heap = refl; hashes = λ h. rw later; indexed = v })
      | inr due ↦
          let swept = expire_list-Swept b 0 list (listed_in pool.expire_buckets) pool cnt (
            reindex (λ q. refl) (λ h. refl) (λ a n. refl)
              (λ c j. ahead-listed_in b list pool.expire_buckets c j there) v) in
          rw (there, expire_block, due)
            (record {
              same_heap = swept.same_heap;
              hashes = λ h. rw due (swept.hashes h);
              indexed =
                  reindex (λ q. refl) (λ h. refl) (λ a n. refl)
                    (λ c j.
                      rw swept.same_buckets
                        (listed_in-delete b swept.indexed.0 pool.expire_buckets c j))
                    swept.indexed.1;
            })
    ]
  ]

  expire_blocks-Expired :
      (cur : ℕ) (blocks : List ℕ) (pool : PendingMemPool) (cnt : ℕ)
      → IsIndexed identity pool
      → Expired identity cur blocks pool (expire_blocks cur blocks (pool, cnt)).0
  unfolding expire_blocks
  expire_blocks-Expired cur [] pool cnt v = record {
    same_heap = refl;
    hashes = λ h. refl;
    indexed = v;
  }
  expire_blocks-Expired cur (b ∷ blocks) pool cnt v =
      let (q, n) = expire_block cur b (pool, cnt) in
      let one = expire_block-Expired cur b pool cnt v in
      let rest = expire_blocks-Expired cur blocks q n one.indexed in
      record {
        same_heap = rest.same_heap ∙ one.same_heap;
        hashes = λ h. rw (rest.hashes h, one.same_heap, one.hashes h);
        indexed = rest.indexed;
      }

  -- `RemoveExpired` keeps the indexes in agreement.
  pub remove_expired-IsIndexed :
      (cur : ℕ) (pool : PendingMemPool)
      → IsIndexed identity pool
      → IsIndexed identity (remove_expired cur pool).0
  unfolding remove_expired
  remove_expired-IsIndexed cur pool v = (expire_blocks-Expired cur _ pool 0 v).indexed

  -- `RemoveExpired` removes exactly the transactions whose expiry block has been reached: of a pool
  -- whose indexes agree, a hash is found afterwards just where it was found before and stood for a
  -- transaction of a later expiry block.
  pub remove_expired-hash_index :
      (cur : ℕ) (pool : PendingMemPool) (h : ℕ)
      → IsIndexed identity pool
      → Map.get h (remove_expired cur pool).0.hash_index ≡ elim (Map.get h pool.hash_index) [
        | none ↦ none
        | some r ↦ if leb (pool.heap r).expire_block cur then none else some r
      ]
  unfolding remove_expired
  remove_expired-hash_index cur pool h v =
      let blocks = Map.keys pool.expire_buckets in
      let left = (expire_blocks-Expired cur blocks pool 0 v).hashes h in
      elim (Option-cases (Map.get h pool.hash_index)) [
        | inl gone ↦ rw (left, gone) (drop_blocks-none cur pool.heap blocks)
        | inr (r, live) ↦
            let (i, _, at) = v.hashed_listed h r live in
            let (list, there, _) = listed_in-some _ _ _ at in
            rw (left, live)
              (ground (
                arith,
                drop_blocks-some cur pool.heap blocks r,
                Map.keys-get pool.expire_buckets (pool.heap r).expire_block list there,
              ))
      ]

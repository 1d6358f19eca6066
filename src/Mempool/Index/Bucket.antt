-- ===== src/Mempool/Index/Bucket.antt =====
-- `addExpireBucket` and `removeExpireBucket` of internal/mempool/pool.go, against the agreement of
-- the indexes.
use eth_mon_svr.Base.{
  ℕ, ◌-◌, ◌≡◌, ◌≢◌, fun_ext, List, Option, some, ◌==◌, arith, Option-cases, Bool-cases, inl, inr, ℤ,
  pos, length, get_elem?, set, get_elem?-lt, get_elem?-le, get_elem?-set_self, get_elem?-set_ne,
  get_elem?-of_lt, ==_refl,
}
use eth_mon_svr.Base.Map
use eth_mon_svr.Mempool.Types.{Ref, PendingMemPool}
use eth_mon_svr.Mempool.Push.{shrink_bucket, swap_out, remove_at, remove_expire_bucket}
use eth_mon_svr.Mempool.Index.{Indexed, listed_in}
use eth_mon_svr.Mempool.Index.Maps.{listed_in-shrink}
use eth_mon_svr.Mempool.Index.Unlink.{without, without_at, with_at, unlink-Indexed, move-Indexed}

-- The bucket behind an answer of the buckets.
pub listed_in-some :
    (buckets : Map.Map (List Ref)) (b i : ℕ) {r : Ref}
    → listed_in buckets b i ≡ some r
    → (list : List Ref) × (Map.get b buckets ≡ some list) × (get_elem? list i ≡ some r)
unfolding listed_in
listed_in-some buckets b i e = elim (Option-cases (Map.get b buckets)) [
  | inl gone ↦ absurd (ground arith)
  | inr (list, there) ↦ (list, there, ground arith)
]

module _ (b i : ℕ) (list : List Ref) (r : Ref) (pool : PendingMemPool)
    (there : Map.get b pool.expire_buckets ≡ some list) (at : get_elem? list i ≡ some r) where
  abbrev last : ℕ
  last = length list - 1

  swap_last :
      (c j : ℕ)
      → i ≡ last
      → listed_in (shrink_bucket b last list pool.expire_buckets) c j
        ≡ without_at b i (listed_in pool.expire_buckets) c j
  unfolding listed_in
  swap_last c j e = ground (
    arith,
    listed_in-shrink b last list pool.expire_buckets c j,
    get_elem?-le list j,
    get_elem?-lt list i r at,
  )

  swap_inner :
      (m c j : ℕ)
      → i ≢ last
      → get_elem? list last ≡ some m
      → listed_in (shrink_bucket b last (set list i m) pool.expire_buckets) c j
        ≡ with_at b i m (without_at b last (without_at b i (listed_in pool.expire_buckets))) c j
  unfolding listed_in
  swap_inner m c j e moved = ground (
    arith,
    listed_in-shrink b last (set list i m) pool.expire_buckets c j,
    get_elem?-le list j,
    get_elem?-lt list i r at,
    get_elem?-set_self list i m,
    get_elem?-set_ne list i j m,
  )

-- Two-place functions that agree everywhere are equal.
pub agree : {S T : ℕ → ℕ → Option Ref} → ((a n : ℕ) → S a n ≡ T a n) → S ≡ T
agree h = fun_ext (λ a. fun_ext (λ n. h a n))

module _ {identity : ℕ → ℕ × ℕ} {H : ℕ → Option Ref} {S : ℕ → ℕ → Option Ref}
    (pool : PendingMemPool)
    (v : Indexed identity pool.heap pool.next_ref H S (listed_in pool.expire_buckets)) (r : Ref)
    (live : H (pool.heap r).hash ≡ some r) where
  -- The transaction is gone from the hash index `H` and the accounts `S`.
  abbrev pub Unlinked : PendingMemPool → Type 0
  Unlinked q =
      Indexed identity q.heap q.next_ref (without (pool.heap r).hash H)
        (without_at (pool.heap r).from (pool.heap r).nonce S) (listed_in q.expire_buckets)

  swap_out-Unlinked :
      (i : ℕ) (list : List Ref)
      → (pool.heap r).expire_index ≡ pos i
      → Map.get (pool.heap r).expire_block pool.expire_buckets ≡ some list
      → get_elem? list i ≡ some r
      → Unlinked (swap_out (pool.heap r).expire_block i list pool)
  unfolding swap_out listed_in
  swap_out-Unlinked i list here there at =
      let b = (pool.heap r).expire_block in
      let base = unlink-Indexed v r i live here in
      elim (Bool-cases (i == length list - 1)) [
        | inl e ↦
            rw (e, swap_out)
              (rw (agree (λ c j. swap_last b i list r pool there at c j (ground arith))) base)
        | inr e ↦
            let (m, moved) =
              get_elem?-of_lt list (length list - 1) (ground (arith, get_elem?-lt list i r at)) in
            rw (e, moved, swap_out)
              (rw (agree (λ c j. swap_inner b i list r pool there at m c j (ground arith) moved))
                (move-Indexed base m b i (length list - 1) (ground arith) (ground arith)))
      ]

  pub remove_expire_bucket-Unlinked : Unlinked (remove_expire_bucket r pool)
  unfolding remove_expire_bucket
  remove_expire_bucket-Unlinked =
      let (i, here, listed) = v.hashed_listed _ r live in
      let (list, there, at) = listed_in-some _ _ _ listed in
      rw (there, here, at, remove_expire_bucket, remove_at, ==_refl (pool.heap r).hash)
        (swap_out-Unlinked i list here there at)

-- `removeExpireBucket` leaves the other indexes alone, and of the objects it changes only the index.
pub remove_expire_bucket-accounts :
    (r : Ref) (pool : PendingMemPool) → (remove_expire_bucket r pool).accounts ≡ pool.accounts
unfolding remove_expire_bucket
remove_expire_bucket-accounts r pool = ground arith

pub remove_expire_bucket-hash_index :
    (r : Ref) (pool : PendingMemPool) → (remove_expire_bucket r pool).hash_index ≡ pool.hash_index
unfolding remove_expire_bucket
remove_expire_bucket-hash_index r pool = ground arith

pub remove_expire_bucket-next_ref :
    (r : Ref) (pool : PendingMemPool) → (remove_expire_bucket r pool).next_ref ≡ pool.next_ref
unfolding remove_expire_bucket
remove_expire_bucket-next_ref r pool = ground arith

pub remove_expire_bucket-heap :
    (r q : Ref) (pool : PendingMemPool) (i : ℤ)
    → record ((remove_expire_bucket r pool).heap q) { expire_index = i }
      ≡ record (pool.heap q) { expire_index = i }
unfolding remove_expire_bucket
remove_expire_bucket-heap r q pool i = ground arith

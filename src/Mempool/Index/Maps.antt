-- ===== src/Mempool/Index/Maps.antt =====
-- How the writes of internal/mempool/pool.go change what the accounts and the buckets answer.
use eth_mon_svr.Base.{
  ℕ, zero, suc, ◌≡◌, refl, List, [], ◌∷◌, ◌++◌, some, none, ◌==◌, ltb, if◌then◌else◌, arith,
  Bool-cases, inl, inr, length, get_elem?, take, get_elem?-take_lt, get_elem?-take_le,
}
use eth_mon_svr.Base.Map
use eth_mon_svr.Base.Map.{Map}
use eth_mon_svr.Mempool.Types.{Ref, AccountPending, PendingMemPool, drop_nonce}
use eth_mon_svr.Mempool.Push.{bucket, shrink_bucket, account_of}
use eth_mon_svr.Mempool.Index.{stored_in, listed_in}
use eth_mon_svr.Mempool.Index.Unlink.{without_at, with_at}

pub stored_in-drop_nonce :
    (f n : ℕ) (account : AccountPending) (accounts : Map AccountPending) (a k : ℕ)
    → Map.get f accounts ≡ some account
    → stored_in (drop_nonce f n account accounts) a k ≡ without_at f n (stored_in accounts) a k
unfolding stored_in drop_nonce
stored_in-drop_nonce f n account accounts a k at =
    let rest = Map.delete n account.nonce_map in
    let kept = Map.get-delete n k account.nonce_map in
    elim (Bool-cases (Map.is_empty rest)) [
      | inl gone ↦
          ground (arith, gone, kept, Map.get-is_empty rest k gone, Map.get-delete f a accounts)
      | inr left ↦
          ground (arith, left, kept, Map.get-put f a (record { nonce_map = rest }) accounts)
    ]

pub stored_in-put :
    (pool : PendingMemPool) (f n r a k : ℕ)
    → stored_in
        (Map.put f (record { nonce_map = Map.put n r (account_of pool f).nonce_map }) pool.accounts)
        a
        k
      ≡ with_at f n r (stored_in pool.accounts) a k
unfolding stored_in account_of Map.get
stored_in-put pool f n r a k = ground (
  arith,
  Map.get-put f a (record { nonce_map = Map.put n r (account_of pool f).nonce_map }) pool.accounts,
  Map.get-put n k r (account_of pool f).nonce_map,
)

get_elem?-snoc :
    (list : List Ref) (r j : ℕ)
    → get_elem? (list ++ r ∷ []) j ≡ (if length list == j then some r else get_elem? list j)
get_elem?-snoc [] r zero = refl
get_elem?-snoc [] r (suc j) = ground arith
get_elem?-snoc (x ∷ list) r zero = ground arith
get_elem?-snoc (x ∷ list) r (suc j) = ground (arith, get_elem?-snoc list r j)

pub listed_in-add :
    (pool : PendingMemPool) (b r c j : ℕ)
    → listed_in (Map.put b (bucket pool b ++ r ∷ []) pool.expire_buckets) c j
      ≡ with_at b (length (bucket pool b)) r (listed_in pool.expire_buckets) c j
unfolding listed_in bucket
listed_in-add pool b r c j = ground (
  arith,
  Map.get-put b c (bucket pool b ++ r ∷ []) pool.expire_buckets,
  get_elem?-snoc (bucket pool b) r j,
)

pub listed_in-shrink :
    (b last : ℕ) (list : List Ref) (buckets : Map (List Ref)) (c j : ℕ)
    → listed_in (shrink_bucket b last list buckets) c j
      ≡ (if b == c then (if ltb j last then get_elem? list j else none) else listed_in buckets c j)
unfolding listed_in shrink_bucket
listed_in-shrink b last list buckets c j = ground (
  arith,
  Map.get-put b c (take last list) buckets,
  Map.get-delete b c buckets,
  get_elem?-take_lt last j list,
  get_elem?-take_le last j list,
)

-- ===== src/Mempool/Index.antt =====
-- The agreement of the three indexes of internal/mempool/pool.go, as a predicate on what they answer.
pub mod Unlink
pub mod Link
pub mod Maps
pub mod Bucket
pub mod Removal
pub mod Insert
pub mod Batch
pub mod Sweep
pub mod Expiry
use eth_mon_svr.Base.{ℕ, ◌<◌, ◌≡◌, Option, some, none, ℤ, pos, List, get_elem?}
use eth_mon_svr.Base.Map
use eth_mon_svr.Base.Map.{Map}
use eth_mon_svr.Mempool.Types.{PendingTx, Ref, AccountPending, PendingMemPool}

-- `H` answers for the hash index, `S` for the accounts (by sender and nonce) and `B` for the expiry
-- buckets (by block and position). `identity` gives the sender and nonce that a hash commits to.
pub record Indexed (identity : ℕ → ℕ × ℕ) (heap : Ref → PendingTx) (next : Ref) (H : ℕ → Option Ref)
    (S B : ℕ → ℕ → Option Ref) : Type 0 where
  pub hashed : (h r : ℕ) → H h ≡ some r → (heap r).hash ≡ h
  pub allocated : (h r : ℕ) → H h ≡ some r → r < next
  pub hashed_stored : (h r : ℕ) → H h ≡ some r → S (heap r).from (heap r).nonce ≡ some r
  pub hashed_listed :
      (h r : ℕ)
      → H h ≡ some r
      → (i : ℕ) × ((heap r).expire_index ≡ pos i) × (B (heap r).expire_block i ≡ some r)
  pub committed : (h r : ℕ) → H h ≡ some r → identity h ≡ ((heap r).from, (heap r).nonce)
  pub stored_from : (a n r : ℕ) → S a n ≡ some r → (heap r).from ≡ a
  pub stored_nonce : (a n r : ℕ) → S a n ≡ some r → (heap r).nonce ≡ n
  pub stored_hashed : (a n r : ℕ) → S a n ≡ some r → H (heap r).hash ≡ some r
  pub listed_block : (b i r : ℕ) → B b i ≡ some r → (heap r).expire_block ≡ b
  pub listed_index : (b i r : ℕ) → B b i ≡ some r → (heap r).expire_index ≡ pos i
  pub listed_hashed : (b i r : ℕ) → B b i ≡ some r → H (heap r).hash ≡ some r

-- What the accounts hold under a sender and a nonce.
unfoldable pub stored_in : Map AccountPending → ℕ → ℕ → Option Ref
stored_in accounts from nonce = elim (Map.get from accounts) [
  | none ↦ none
  | some account ↦ Map.get nonce account.nonce_map
]

-- What the buckets hold at a block and a position.
unfoldable pub listed_in : Map (List Ref) → ℕ → ℕ → Option Ref
listed_in buckets block i = elim (Map.get block buckets) [
  | none ↦ none
  | some list ↦ get_elem? list i
]

-- The three indexes hold the same transactions: each object that one of them holds is held by the
-- others, under its own hash, its own sender and nonce, and at its own expiry block and index.
abbrev pub IsIndexed : (ℕ → ℕ × ℕ) → PendingMemPool → Type 0
IsIndexed identity pool =
    Indexed identity pool.heap pool.next_ref (λ h. Map.get h pool.hash_index)
      (stored_in pool.accounts) (listed_in pool.expire_buckets)

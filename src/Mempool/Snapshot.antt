-- ===== src/Mempool/Snapshot.antt =====
-- `Snapshot` of internal/mempool/pool.go.
use eth_mon_svr.Base.{
  ℕ, Bool, true, false, List, [], ◌∷◌, ◌++◌, none, some, ◌==◌, leb, if◌then◌else◌, add64,
}
use eth_mon_svr.Base.Map
use eth_mon_svr.Base.Map.{Map}
use eth_mon_svr.Mempool.Types.{PendingTx, Ref, AccountPending, PendingMemPool}

-- `sort.Slice(nonces, <)`
unfoldable pub insert_nonce : ℕ → List ℕ → List ℕ
insert_nonce n [] = n ∷ []
insert_nonce n (m ∷ nonces) = if leb n m then n ∷ m ∷ nonces else m ∷ insert_nonce n nonces

unfoldable pub sort_nonces : List ℕ → List ℕ
unfolding insert_nonce
sort_nonces [] = []
sort_nonces (n ∷ nonces) = insert_nonce n (sort_nonces nonces)

-- `for nonce := range account.NonceMap`
unfoldable pub nonces_of : AccountPending → List ℕ
nonces_of account = Map.keys account.nonce_map

-- A copy of the object, with the flag.
unfoldable pub with_gap : Bool → PendingTx → PendingTx
with_gap gap tx = record tx { nonce_gap = gap }

-- The loop over the sorted nonces. A nonce that is not in the map would be a nil dereference; it is
-- passed over here.
unfoldable pub flag_gaps : (Ref → PendingTx) → Map Ref → ℕ → Bool → List ℕ → List PendingTx
unfolding with_gap
flag_gaps heap nonce_map expected has_gap [] = []
flag_gaps heap nonce_map expected has_gap (nonce ∷ nonces) =
    let gap = (if nonce == expected then has_gap else true) in
    let rest = flag_gaps heap nonce_map (add64 nonce 1) gap nonces in
    elim (Map.get nonce nonce_map) [ none ↦ rest | some r ↦ with_gap gap (heap r) ∷ rest ]

-- `nonces[0]` is the first value of `expected`.
unfoldable pub flag_sorted : (Ref → PendingTx) → Map Ref → List ℕ → List PendingTx
unfolding flag_gaps
flag_sorted heap nonce_map [] = []
flag_sorted heap nonce_map (first ∷ nonces) = flag_gaps heap nonce_map first false (first ∷ nonces)

unfoldable pub snapshot_account : (Ref → PendingTx) → AccountPending → List PendingTx
unfolding flag_sorted sort_nonces nonces_of
snapshot_account heap account = flag_sorted heap account.nonce_map (sort_nonces (nonces_of account))

unfoldable pub snapshot_accounts : (Ref → PendingTx) → Map AccountPending → List PendingTx
unfolding snapshot_account
snapshot_accounts heap [] = []
snapshot_accounts heap ((from, account) ∷ accounts) =
    snapshot_account heap account ++ snapshot_accounts heap accounts

unfoldable pub snapshot : PendingMemPool → List PendingTx
unfolding snapshot_accounts
snapshot pool = snapshot_accounts pool.heap pool.accounts

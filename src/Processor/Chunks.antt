-- ===== src/Processor/Chunks.antt =====
-- `GetTxInfo` of internal/processor/processor.go: the hashes are requested in chunks. `FetchBatch` is a
-- parameter: it returns an error for the whole batch, or for each hash an error or a transaction, which
-- may be nil. The counters of the report are left out.
use eth_mon_svr.Base.{
  ℕ, zero, suc, ◌-◌, ◌*◌, ◌≤◌, ◌<◌, ◌≡◌, refl, ap, ◌∙◌, List, [], ◌∷◌, ◌++◌, Option, none, some,
  length, take, drop, All, arith, length-take,
}
use eth_mon_svr.Ethereum.{Transaction}
use eth_mon_svr.Mempool.Types.{PendingMemPool}
use eth_mon_svr.Mempool.Push.{push_batch}
use eth_mon_svr.Network.RpcManager.{RpcCost}

abbrev pub get_tx_chunk_size : ℕ
get_tx_chunk_size = 8

abbrev pub get_tx_cu_per_tx : ℕ
get_tx_cu_per_tx = 11

-- The slices `xs[i:end]` of the loop, for so many rounds at most.
unfoldable pub chunks : {A : Type 0} → ℕ → ℕ → List A → List (List A)
chunks zero size xs = []
chunks (suc rounds) size [] = []
chunks (suc rounds) size (x ∷ xs) = take size (x ∷ xs) ∷ chunks rounds size (drop size (x ∷ xs))

unfoldable pub valid_results : List (Option (Option Transaction)) → List (Option Transaction)
valid_results [] = []
valid_results (none ∷ rest) = valid_results rest
valid_results (some none ∷ rest) = valid_results rest
valid_results (some (some tx) ∷ rest) = some tx ∷ valid_results rest

module _ {W : Type 0}
    (fetch_batch : RpcCost → List ℕ → W → W × Option (List (Option (Option Transaction))))
    (get_current_block_num_and_time : W → ℕ × ℕ) where
  unfoldable pub store_results : List (Option Transaction) → W → PendingMemPool → PendingMemPool
  store_results [] w pool = pool
  store_results (tx ∷ txs) w pool =
      let (block_num, block_time) = get_current_block_num_and_time w in
      push_batch (tx ∷ txs) block_num block_time pool

  -- One round of the loop.
  unfoldable pub get_chunk : List ℕ → PendingMemPool × W → PendingMemPool × W
  get_chunk hashes (pool, w) =
      let cost : RpcCost = record { cu = length hashes * get_tx_cu_per_tx; rpc = length hashes } in
      let (w', results) = fetch_batch cost hashes w in
      elim results [
        | none ↦ (pool, w')
        | some elems ↦ (store_results (valid_results elems) w' pool, w')
      ]

  unfoldable pub get_chunks : List (List ℕ) → PendingMemPool × W → PendingMemPool × W
  get_chunks [] s = s
  get_chunks (chunk ∷ rest) s = get_chunks rest (get_chunk chunk s)

  unfoldable pub get_tx_info : List ℕ → PendingMemPool × W → PendingMemPool × W
  get_tx_info hashes s = get_chunks (chunks (length hashes) get_tx_chunk_size hashes) s

unfoldable pub joined : {A : Type 0} → List (List A) → List A
joined [] = []
joined (xs ∷ rest) = xs ++ joined rest

take-drop : {A : Type 0} (n : ℕ) (xs : List A) → take n xs ++ drop n xs ≡ xs
take-drop zero xs = refl
take-drop (suc n) [] = refl
take-drop (suc n) (x ∷ xs) = ap (λ ys. x ∷ ys) (take-drop n xs)

length-drop : {A : Type 0} (n : ℕ) (xs : List A) → length (drop n xs) ≡ length xs - n
length-drop zero xs = omega arith
length-drop (suc n) [] = omega arith
length-drop (suc n) (x ∷ xs) = omega (arith, length-drop n xs)

pub HasSize : {A : Type 0} → ℕ → List A → Type 0
HasSize size xs = (0 < length xs) × (length xs ≤ size)

-- With a positive size and at least as many rounds as elements, the chunks are all the elements in their order,
-- and none is empty or larger than the size.
pub chunks-joined :
    {A : Type 0} (rounds size : ℕ) (xs : List A)
    → 0 < size
    → length xs ≤ rounds
    → (joined (chunks rounds size xs) ≡ xs) × All (HasSize size) (chunks rounds size xs)
unfolding chunks joined HasSize
chunks-joined zero size [] pos enough = (refl, tt)
chunks-joined zero size (x ∷ xs) pos enough = absurd (omega arith)
chunks-joined (suc rounds) size [] pos enough = (refl, tt)
chunks-joined (suc rounds) size (x ∷ xs) pos enough =
    let (same, sizes) =
      chunks-joined rounds size (drop size (x ∷ xs)) pos
        (omega (arith, length-drop size (x ∷ xs))) in
    (
      ap (λ ys. take size (x ∷ xs) ++ ys) same ∙ take-drop size (x ∷ xs),
      ((omega (arith, length-take size (x ∷ xs)), omega (arith, length-take size (x ∷ xs))), sizes),
    )

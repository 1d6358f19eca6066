-- ===== src/Processor/Fetch.antt =====
-- The requests of internal/processor for headers and receipts, with the errors of errors.go. Each
-- function of `Network` is `EthClientFunc` or `FetchBatch` with the call that the code makes in it: it
-- changes the world `W` and returns `none` for an error. The texts of errors are left out.
pub mod Complete
pub mod Tests
use eth_mon_svr.Base.{
  ℕ, ◌*◌, ◌++◌, List, [], ◌∷◌, Option, none, some, String, ltb, if◌then◌else◌, length,
}
use eth_mon_svr.Ethereum.{Header, Receipt}
use eth_mon_svr.Network.RpcManager.{RpcCost}
use eth_mon_svr.Processor.Chunks.{chunks}

abbrev pub get_block_receipt_cu : ℕ
get_block_receipt_cu = 250

abbrev pub get_block_tx_count_cu : ℕ
get_block_tx_count_cu = 20

abbrev pub get_block_by_number_cu : ℕ
get_block_by_number_cu = 16

abbrev pub receipt_chunk_size : ℕ
receipt_chunk_size = 30

abbrev pub receipt_cu_per_tx : ℕ
receipt_cu_per_tx = 15

-- errors.go, and the errors that are made in place.
pub data ProcessError : Type 0 where
  latest_block_header_nil latest_block_number_nil latest_block_header_fetch : ProcessError
  block_receipts_empty block_receipt_fetch header_not_found header_fetch : ProcessError
  receipts_fetch tx_count_fetch tx_count_decode receipt_mismatch invalid_block_header : ProcessError

pub data Outcome (A : Type 0) : Type 0 where
  returns : A → Outcome A
  fails : ProcessError → Outcome A

-- A header, a block or a transaction is asked for by its number or hash (`header_by_number none` for the
-- latest header). `decode_uint64` is the one of hexutil.
pub record Network (W : Type 0) : Type 0 where
  pub header_by_number : RpcCost → Option ℕ → W → W × Option (Option Header)
  pub get_block_receipts : RpcCost → ℕ → W → W × Option (List (Option Receipt))
  pub get_block_tx_count : RpcCost → ℕ → W → W × Option String
  pub fetch_batch : RpcCost → List ℕ → W → W × Option (List (Option (Option Receipt)))
  pub decode_uint64 : String → Option ℕ

abbrev pub cost_of : ℕ → RpcCost
cost_of cu = record { cu = cu; rpc = 1 }

-- The number of transactions of a block whose receipts are none.
unfoldable pub empty_if : Option ℕ → Outcome (List (Option Receipt))
empty_if none = fails tx_count_decode
empty_if (some tx_count) = if ltb 0 tx_count then fails receipt_mismatch else returns []

-- `receipts = append(receipts, chunkReceipts[j])` for those with no error that are not nil.
unfoldable pub valid_receipts : List (Option (Option Receipt)) → List (Option Receipt)
valid_receipts [] = []
valid_receipts (none ∷ rest) = valid_receipts rest
valid_receipts (some none ∷ rest) = valid_receipts rest
valid_receipts (some (some receipt) ∷ rest) = some receipt ∷ valid_receipts rest

module _ {W : Type 0} (net : Network W) where
  -- What follows an answer with no receipt.
  unfoldable pub check_tx_count : ℕ → W → W × Outcome (List (Option Receipt))
  check_tx_count hash w =
      let (w', reply) = net.get_block_tx_count (cost_of get_block_tx_count_cu) hash w in
      elim reply [
        | none ↦ (w', fails tx_count_fetch)
        | some tx_count_hex ↦ (w', empty_if (net.decode_uint64 tx_count_hex))
      ]

  unfoldable pub fetch_block_receipts : ℕ → W → W × Outcome (List (Option Receipt))
  fetch_block_receipts hash w =
      let (w', reply) = net.get_block_receipts (cost_of get_block_receipt_cu) hash w in
      elim reply [
        | none ↦ (w', fails receipts_fetch)
        | some [] ↦ check_tx_count hash w'
        | some (receipt ∷ receipts) ↦ (w', returns (receipt ∷ receipts))
      ]

  -- The loop of `fetchReceiptsBatch` over the chunks that are left: the receipts of a chunk that fails,
  -- or comes after it, are not asked for.
  unfoldable pub fetch_chunks :
      List (List ℕ) → List (Option Receipt) → W → W × Option (List (Option Receipt))
  fetch_chunks [] receipts w = (w, some receipts)
  fetch_chunks (chunk ∷ rest) receipts w =
      let size = length chunk in
      let (w', reply) =
        net.fetch_batch (record { cu = size * receipt_cu_per_tx; rpc = size }) chunk w in
      elim reply [
        | none ↦ (w', none)
        | some elems ↦ fetch_chunks rest (receipts ++ valid_receipts elems) w'
      ]

  -- `fetchReceiptsBatch` on the hashes of the transactions; `none` is an error.
  unfoldable pub fetch_receipts_batch : List ℕ → W → W × Option (List (Option Receipt))
  fetch_receipts_batch hashes w =
      fetch_chunks (chunks (length hashes) receipt_chunk_size hashes) [] w

  unfoldable pub known_header : Option (Option Header) → Outcome Header
  known_header none = fails latest_block_header_fetch
  known_header (some none) = fails latest_block_header_nil
  known_header (some (some header)) = elim header.number [
    | none ↦ fails latest_block_number_nil
    | some number ↦ returns header
  ]

  -- `getLastestBlockHeader`
  unfoldable pub get_lastest_block_header : W → W × Outcome Header
  get_lastest_block_header w =
      let (w', reply) = net.header_by_number (cost_of get_block_receipt_cu) none w in
      (w', known_header reply)

  unfoldable pub header_by_number : ℕ → W → W × Outcome Header
  header_by_number number w =
      let (w', reply) = net.header_by_number (cost_of get_block_by_number_cu) (some number) w in
      elim reply [
        | none ↦ (w', fails header_fetch)
        | some none ↦ (w', fails header_not_found)
        | some (some header) ↦ (w', returns header)
      ]

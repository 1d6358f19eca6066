-- ===== src/Processor/Process.antt =====
-- The operations of `Process` of internal/processor/processor.go and processor_initialize.go. A state is
-- the process and the network; `none` is a panic, and the answer of an operation is its error, if any.
-- The counters of the report and logging are left out.
pub mod Unchanged
pub mod Analysis
pub mod Applied
pub mod Removed
pub mod Restart
pub mod PoolTests
pub mod Tests
use eth_mon_svr.Base.{
  ℕ, ◌%◌, Bool, true, false, List, [], ◌∷◌, Option, none, some, String, u64_mod, ◌>>=◌,
}
use eth_mon_svr.Ethereum.{Header, Receipt}
use eth_mon_svr.BlockStore
use eth_mon_svr.BlockStore.{BlockData, FeeBucketStat, add_block}
use eth_mon_svr.Mempool.Types
use eth_mon_svr.Mempool.Types.{PendingMemPool}
use eth_mon_svr.Mempool.Remove.{remove_by_receipts}
use eth_mon_svr.GasAnalyzer.Float.{Float}
use eth_mon_svr.GasAnalyzer.Targets.{WeightedTip}
use eth_mon_svr.GasAnalyzer.Analyzer
use eth_mon_svr.GasAnalyzer.Analyzer.{set_ready}
use eth_mon_svr.Processor.Fetch.{
  ProcessError, latest_block_header_nil, latest_block_number_nil, block_receipt_fetch,
  block_receipts_empty, invalid_block_header, Outcome, returns, fails, Network,
  fetch_block_receipts, get_lastest_block_header,
}
use eth_mon_svr.Processor.Blocks.{
  Process, calculate_block_tx_tip, clear_mempool_to_receipts, update_block_info_for_analysis,
  send_fee_buckets_to_grpc, remove_expired,
}

-- The process, the network, and the answer.
abbrev pub Answer : Type 0 → Type 0 → Type 0 → Type 0
Answer F W A = Option (Process F × W × Outcome A)

module _ {F W : Type 0} (fl : Float F) (sort : List (WeightedTip F) → List (WeightedTip F))
    (net : Network W) (hex : ℕ → String) where
  -- `p.blockstore.AddBlock`, `p.pendingPool.Clear()` and `p.gasanalyzer.SetReady()`
  unfoldable pub store_block : BlockData F → Process F → Process F
  store_block block_data p = record p { blockstore = add_block block_data p.blockstore }

  unfoldable pub clear_pool : Process F → Process F
  clear_pool p = record p { pending_pool = Types.clear p.pending_pool }

  unfoldable pub make_ready : Process F → Process F
  make_ready p = record p { gasanalyzer = set_ready p.gasanalyzer }

  -- What `ProcessBlock` does with the receipts of a block, if there are any.
  unfoldable pub apply_block : Header → ℕ → List (Option Receipt) → Process F → Option (Process F)
  apply_block header number [] p =
      update_block_info_for_analysis fl sort header (remove_expired (number % u64_mod) p)
  apply_block header number (receipt ∷ receipts) p = do
    block_data ← calculate_block_tx_tip fl hex header (receipt ∷ receipts)
    cleared ← clear_mempool_to_receipts fl header (receipt ∷ receipts) p.pending_pool
    let p' =
        store_block (record block_data { fee_buckets = cleared.1 })
          (record p { pending_pool = cleared.0 })
    p'' ← update_block_info_for_analysis fl sort header (remove_expired (number % u64_mod) p')
    some (send_fee_buckets_to_grpc fl p'')

  unfoldable pub process_numbered : Header → ℕ → Process F → W → Answer F W (Unit {0})
  process_numbered header number p w =
      let (w', receipts) = fetch_block_receipts net header.hash w in
      elim receipts [
        | fails e ↦ some (p, w', fails e)
        | returns receipts ↦ do p' ← apply_block header number receipts p; some (p', w', returns tt)
      ]

  unfoldable pub process_block : Option Header → Process F → W → Answer F W (Unit {0})
  process_block none p w = some (p, w, fails latest_block_header_nil)
  process_block (some header) p w = elim header.number [
    | none ↦ some (p, w, fails latest_block_number_nil)
    | some number ↦ process_numbered header number p w
  ]

  -- `CleanupFailedBlock` with the receipts that were fetched.
  unfoldable pub cleanup_receipts : Header → List (Option Receipt) → Process F → Option (Process F)
  cleanup_receipts header [] p = some p
  cleanup_receipts header (receipt ∷ receipts) p = do
    removed ← remove_by_receipts header (receipt ∷ receipts) p.pending_pool
    some (record p { pending_pool = removed.0 })

  unfoldable pub cleanup_numbered : Header → Process F → W → Answer F W (Unit {0})
  cleanup_numbered header p w =
      let (w', receipts) = fetch_block_receipts net header.hash w in
      elim receipts [
        | fails e ↦ some (p, w', fails e)
        | returns receipts ↦ do p' ← cleanup_receipts header receipts p; some (p', w', returns tt)
      ]

  unfoldable pub cleanup_failed_block : Option Header → Process F → W → Answer F W (Unit {0})
  cleanup_failed_block none p w = some (p, w, fails invalid_block_header)
  cleanup_failed_block (some header) p w = elim header.number [
    | none ↦ some (p, w, fails invalid_block_header)
    | some number ↦ cleanup_numbered header p w
  ]

  -- The block becomes the newest, with no statistics, and the analysis is made on it.
  unfoldable pub load_block : Header → List (Option Receipt) → Process F → Option (Process F)
  load_block header receipts p = do
    block_data ← calculate_block_tx_tip fl hex header receipts
    update_block_info_for_analysis fl sort header (store_block block_data p)

  -- What `Initialize` and `Resync` do with a latest header and its receipts, `change` being what they do
  -- with the state.
  unfoldable pub load_latest :
      (Header → List (Option Receipt) → Process F → Option (Process F))
      → Header
      → Process F
      → W
      → Answer F W Header
  load_latest change header p w =
      let (w', receipts) = fetch_block_receipts net header.hash w in
      elim receipts [
        | fails e ↦ some (p, w', fails block_receipt_fetch)
        | returns [] ↦ some (p, w', fails block_receipts_empty)
        | returns (receipt ∷ receipts) ↦ do
          p' ← change header (receipt ∷ receipts) p
          some (p', w', returns header)
      ]

  unfoldable pub with_latest :
      (Header → List (Option Receipt) → Process F → Option (Process F))
      → Process F
      → W
      → Answer F W Header
  with_latest change p w =
      let (w', latest) = get_lastest_block_header net w in
      elim latest [
        | fails e ↦ some (p, w', fails e)
        | returns header ↦ load_latest change header p w'
      ]

  -- `initialFromHeader` after the receipts, and `SetReady`.
  unfoldable pub first_block : Header → List (Option Receipt) → Process F → Option (Process F)
  first_block header receipts p = do p' ← load_block header receipts p; some (make_ready p')

  unfoldable pub initialize : Process F → W → Answer F W Header
  initialize p w = with_latest first_block p w

  -- `p.gasanalyzer.Reset()` and `p.blockstore.Clear()`
  unfoldable pub forget : Process F → Process F
  forget p = record p {
    gasanalyzer = Analyzer.reset p.gasanalyzer;
    blockstore = BlockStore.clear p.blockstore;
  }

  unfoldable pub restart : Header → List (Option Receipt) → Process F → Option (Process F)
  restart header receipts p = do
    p' ← load_block header receipts (forget p)
    some (make_ready (clear_pool p'))

  unfoldable pub resync : Process F → W → Answer F W Header
  resync p w = with_latest restart p w

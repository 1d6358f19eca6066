-- ===== src/Processor/Pipeline/Tests.antt =====
-- The retries of the pipeline on a small network.
use eth_mon_svr.Base.{ℕ, suc, ◌≡◌, refl, Bool, false, [], ◌∷◌, some}
use eth_mon_svr.Coordinator.BlockPipeline.{BlockProcessor, proc_with_retry, attempt}
use eth_mon_svr.GasAnalyzer.Hundredths.{hundredths, sort_by_tip}
use eth_mon_svr.Processor.Fetch.{fetch_block_receipts, check_tx_count, empty_if}
use eth_mon_svr.Processor.Fetch.Tests.{header, receipt, no_receipts, net_of}
use eth_mon_svr.Processor.Process.{process_block, process_numbered}
use eth_mon_svr.Processor.Process.Tests.{start, hex}
use eth_mon_svr.Processor.Pipeline.{World, is_done, on_world, on_network, block_processor}
use eth_mon_svr.Processor.Pipeline.Once.{Attempted, proc_with_retry-Attempted}

-- The timer is never cut short.
abbrev waits : ℕ → ℕ × Bool
waits w = (suc w, false)

abbrev mismatching : BlockProcessor (World ℕ ℕ)
mismatching = block_processor hundredths sort_by_tip (net_of no_receipts 3) hex waits (λ p w. w)

-- Three attempts of two requests each, and two waits.
all_fail : proc_with_retry mismatching header (some (start, 0)) ≡ (some (start, 8), false)
unfolding proc_with_retry attempt process_block process_numbered fetch_block_receipts check_tx_count
    empty_if is_done on_world on_network
all_fail = refl

proc_with_retry-Attempted_example :
    let (world, ok) =
      proc_with_retry
        (block_processor hundredths sort_by_tip (net_of (some receipt ∷ []) 1) hex waits (λ p w. w))
        header
        (some (start, 0)) in
    Attempted hundredths sort_by_tip
      (net_of (some receipt ∷ []) 1)
      hex
      waits
      (λ p w. w)
      header
      start
      world
      ok
proc_with_retry-Attempted_example =
    proc_with_retry-Attempted hundredths sort_by_tip (net_of (some receipt ∷ []) 1) hex waits
      (λ p w. w) header start 0

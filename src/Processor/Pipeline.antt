-- ===== src/Processor/Pipeline.antt =====
-- `Process` of internal/processor as the `BlockProcessor` of internal/coordinator/blockPipeline.go. The
-- world of the pipeline is the process and the network, or `none` after a panic, which ends the program.
pub mod Once
pub mod Tests
use eth_mon_svr.Base.{ℕ, Bool, true, false, List, Option, none, some, String}
use eth_mon_svr.Ethereum.{Header}
use eth_mon_svr.GasAnalyzer.Float.{Float}
use eth_mon_svr.GasAnalyzer.Targets.{WeightedTip}
use eth_mon_svr.Coordinator.BlockPipeline.{BlockProcessor}
use eth_mon_svr.Processor.Fetch
use eth_mon_svr.Processor.Fetch.{Outcome, returns, fails, Network}
use eth_mon_svr.Processor.Blocks.{Process}
use eth_mon_svr.Processor.Process
use eth_mon_svr.Processor.Process.{Answer}

abbrev pub World : Type 0 → Type 0 → Type 0
World F W = Option (Process F × W)

module _ {F W : Type 0} where
  -- Whether the answer has no error.
  unfoldable pub is_done : {A : Type 0} → Answer F W A → World F W × Bool
  is_done none = (none, false)
  is_done (some (p, w, returns a)) = (some (p, w), true)
  is_done (some (p, w, fails e)) = (some (p, w), false)

  -- The header of an answer, `none` for an error.
  unfoldable pub header_of : Answer F W Header → World F W × Option (Option Header)
  header_of none = (none, none)
  header_of (some (p, w, returns header)) = (some (p, w), some (some header))
  header_of (some (p, w, fails e)) = (some (p, w), none)

  -- The parts of the processor, after a panic or before.
  unfoldable pub on_world :
      {B : Type 0} → B → (Process F → W → World F W × B) → World F W → World F W × B
  on_world b f none = (none, b)
  on_world b f (some (p, w)) = f p w

  -- A change of the network alone.
  unfoldable pub on_network : {B : Type 0} → (W → W × B) → Process F → W → World F W × B
  on_network f p w = let (w', b) = f w in (some (p, w'), b)

-- What `HeaderByNumber` gives the pipeline.
unfoldable pub found_header : Outcome Header → Option (Option Header)
found_header (returns header) = some (some header)
found_header (fails e) = none

-- `wait_retry` is the timer of the pipeline, and `compare` the request that CompareFeeHistory makes.
abbrev pub block_processor :
    {F W : Type 0}
    → Float F
    → (List (WeightedTip F) → List (WeightedTip F))
    → Network W
    → (ℕ → String)
    → (W → W × Bool)
    → (Process F → W → W)
    → BlockProcessor (World F W)
block_processor fl sort net hex wait_retry compare = record {
  process_block = λ header.
      on_world false (λ p w. is_done (Process.process_block fl sort net hex (some header) p w));
  wait_retry = on_world true (on_network wait_retry);
  header_by_number = λ number. on_world none (λ p w.
      let (w', header) = Fetch.header_by_number net number w in
      (some (p, w'), found_header header));
  cleanup_failed_block = λ header.
      on_world false
        (λ p w. is_done (Process.cleanup_failed_block fl sort net hex (some header) p w));
  resync = on_world none (λ p w. header_of (Process.resync fl sort net hex p w));
  compare_fee_history =
      λ world. elim world [ none ↦ none | some pw ↦ some (pw.0, compare pw.0 pw.1) ];
}

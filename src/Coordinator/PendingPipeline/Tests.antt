-- ===== src/Coordinator/PendingPipeline/Tests.antt =====
-- Runs of a worker whose world records the batches.
use eth_mon_svr.Base.{ℕ, ◌≡◌, refl, List, [], ◌∷◌, ◌++◌, arith}
use eth_mon_svr.Coordinator.PendingPipeline.{
  Event, closed, tick, arrived, Worker, flush, append_hash, step, worker,
}
use eth_mon_svr.Coordinator.PendingPipeline.Batches.{Handed, hashes, worker-Handed}

abbrev record_batch : List ℕ → List (List ℕ) → List (List ℕ)
record_batch b w = w ++ b ∷ []

abbrev idle : Worker (List (List ℕ))
idle = record { batch = []; world = [] }

abbrev events : List Event
events = arrived 4 ∷ arrived 5 ∷ tick ∷ tick ∷ arrived 6 ∷ closed ∷ arrived 7 ∷ []

run_batches : (worker record_batch events idle).world ≡ (4 ∷ 5 ∷ []) ∷ (6 ∷ []) ∷ []
unfolding worker step append_hash flush
run_batches = refl

worker-Handed_example : Handed record_batch (hashes events) idle (worker record_batch events idle)
worker-Handed_example = worker-Handed record_batch events idle (omega arith)

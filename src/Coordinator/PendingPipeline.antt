-- ===== src/Coordinator/PendingPipeline.antt =====
-- internal/coordinator/pendingPipeline.go. `GetTxInfo` is a parameter that changes the world `W`; it
-- does not keep the slice it is given. A worker sees a sequence of events, one for each case of its
-- `select`.
pub mod Batches
pub mod Tests
use eth_mon_svr.Base.{
  ℕ, ◌≡◌, ◌≤◌, ◌<◌, Bool, true, false, List, [], ◌∷◌, ◌++◌, ltb, leb, if◌then◌else◌, length,
}

abbrev pub pending_worker_count : ℕ
pending_worker_count = 8

abbrev pub max_batch_size : ℕ
max_batch_size = 24

abbrev pub tx_buffer_size : ℕ
tx_buffer_size = 50000

-- `push`: a hash that finds the channel full is dropped.
unfoldable pub push : ℕ → List ℕ → List ℕ
push hash jobs = if ltb (length jobs) tx_buffer_size then jobs ++ hash ∷ [] else jobs

-- The cases of the `select`: the context is done, a hash arrives, the channel is closed, the ticker
-- fires.
pub data Event : Type 0 where
  cancelled closed tick : Event
  arrived : ℕ → Event

pub record Worker (W : Type 0) : Type 0 where
  pub batch : List ℕ
  pub world : W

module _ {W : Type 0} (get_tx_info : List ℕ → W → W) where
  -- `flush`, on the batch and the world.
  unfoldable pub flush : List ℕ → W → Worker W
  flush [] w = record { batch = []; world = w }
  flush (hash ∷ rest) w = record { batch = []; world = get_tx_info (hash ∷ rest) w }

  unfoldable pub append_hash : ℕ → Worker W → Worker W
  append_hash hash p =
      let batch' = p.batch ++ hash ∷ [] in
      if leb max_batch_size (length batch')
      then flush batch' p.world
      else record p { batch = batch' }

  -- One round of the loop, and whether it goes on.
  unfoldable pub step : Event → Worker W → Worker W × Bool
  step cancelled p = (p, false)
  step closed p = (flush p.batch p.world, false)
  step tick p = (flush p.batch p.world, true)
  step (arrived hash) p = (append_hash hash p, true)

  -- The worker on the events that it meets, up to one that ends it.
  unfoldable pub worker : List Event → Worker W → Worker W
  worker [] p = p
  worker (e ∷ rest) p =
      let (p', more) = step e p in let later = worker rest p' in if more then later else p'

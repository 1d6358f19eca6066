-- ===== src/Coordinator/PendingPipeline/Batches.antt =====
-- The batches that a worker of internal/coordinator/pendingPipeline.go hands on.
use eth_mon_svr.Base.{
  ℕ, ◌≡◌, ◌≤◌, ◌<◌, refl, ap, ◌∙◌, sym, List, [], ◌∷◌, ◌++◌, leb, length, arith, length-append,
  Bool-cases, inl, inr, All,
}
use mathlib.Core.List.{append_assoc, append-nil}
use eth_mon_svr.Coordinator.PendingPipeline.{
  Event, cancelled, closed, tick, arrived, Worker, flush, append_hash, step, worker, max_batch_size,
}

-- The hashes that arrive before the worker ends.
unfoldable pub hashes : List Event → List ℕ
hashes [] = []
hashes (cancelled ∷ rest) = []
hashes (closed ∷ rest) = []
hashes (tick ∷ rest) = hashes rest
hashes (arrived hash ∷ rest) = hash ∷ hashes rest

unfoldable pub concat : List (List ℕ) → List ℕ
concat [] = []
concat (b ∷ rest) = b ++ concat rest

-- A batch is not empty and not larger than the limit.
pub IsBatch : List ℕ → Type 0
IsBatch b = (0 < length b) × (length b ≤ max_batch_size)

unfoldable pub hand_on : {W : Type 0} → (List ℕ → W → W) → List (List ℕ) → W → W
hand_on get_tx_info [] w = w
hand_on get_tx_info (b ∷ rest) w = hand_on get_tx_info rest (get_tx_info b w)

module _ {W : Type 0} (get_tx_info : List ℕ → W → W) where
  -- The worker `p` became `p'` by handing on `given`, with the hashes `new` in between.
  pub record Handed (new : List ℕ) (p p' : Worker W) : Type 0 where
    pub batches : List (List ℕ)
    pub sizes : All IsBatch batches
    pub all_in_order : concat batches ++ p'.batch ≡ p.batch ++ new
    pub calls : p'.world ≡ hand_on get_tx_info batches p.world
    pub below : length p'.batch < max_batch_size

  nothing : (p : Worker W) → length p.batch < max_batch_size → Handed [] p p
  unfolding concat hand_on
  nothing p lt = record {
    batches = [];
    sizes = tt;
    all_in_order = ap (λ xs. xs) (sym (append-nil p.batch));
    calls = refl;
    below = lt;
  }

  flush-Handed :
      (batch rest new b : List ℕ) (w : W) (p' : Worker W)
      → length b ≤ max_batch_size
      → b ++ rest ≡ batch ++ new
      → Handed rest (flush get_tx_info b w) p'
      → Handed new (record { batch = batch; world = w }) p'
  unfolding flush concat hand_on IsBatch
  flush-Handed batch rest new [] w p' le same later = record {
    batches = later.batches;
    sizes = later.sizes;
    all_in_order = later.all_in_order ∙ same;
    calls = later.calls;
    below = later.below;
  }
  flush-Handed batch rest new (h ∷ b) w p' le same later = record {
    batches = (h ∷ b) ∷ later.batches;
    sizes = ((omega arith, le), later.sizes);
    all_in_order =
        append_assoc (h ∷ b) (concat later.batches) p'.batch
        ∙ ap (λ xs. (h ∷ b) ++ xs) later.all_in_order
        ∙ same;
    calls = later.calls;
    below = later.below;
  }

  flush-empty : (b : List ℕ) (w : W) → length (flush get_tx_info b w).batch < max_batch_size
  unfolding flush
  flush-empty [] w = omega arith
  flush-empty (h ∷ b) w = omega arith

  held :
      (p : Worker W) (hash : ℕ) (new : List ℕ) {p' : Worker W}
      → Handed new (record p { batch = p.batch ++ hash ∷ [] }) p'
      → Handed (hash ∷ new) p p'
  held p hash new later = record {
    batches = later.batches;
    sizes = later.sizes;
    all_in_order = later.all_in_order ∙ append_assoc p.batch (hash ∷ []) new;
    calls = later.calls;
    below = later.below;
  }

  -- A worker whose batch has room, on any events: it hands all hashes that arrive, after those it had,
  -- to `GetTxInfo` in their order, in batches of 1 to 24, but for fewer than 24 that it still holds.
  pub worker-Handed :
      (events : List Event) (p : Worker W)
      → length p.batch < max_batch_size
      → Handed (hashes events) p (worker get_tx_info events p)
  unfolding hashes worker step append_hash
  worker-Handed [] p lt = nothing p lt
  worker-Handed (cancelled ∷ rest) p lt = nothing p lt
  worker-Handed (closed ∷ rest) p lt =
      flush-Handed p.batch [] [] p.batch p.world _ (omega arith) refl (nothing _ (flush-empty _ _))
  worker-Handed (tick ∷ rest) p lt =
      flush-Handed p.batch (hashes rest) (hashes rest) p.batch p.world _ (omega arith) refl
        (worker-Handed rest _ (flush-empty _ _))
  worker-Handed (arrived hash ∷ rest) p lt =
      elim (Bool-cases (leb max_batch_size (length (p.batch ++ hash ∷ [])))) [
        | inl full ↦ rw full (
            flush-Handed p.batch (hashes rest) (hash ∷ hashes rest) (p.batch ++ hash ∷ []) p.world _
              (omega (arith, length-append p.batch (hash ∷ [])))
              (append_assoc p.batch (hash ∷ []) (hashes rest))
              (worker-Handed rest _ (flush-empty _ _)))
        | inr room ↦ rw room (
            held p hash (hashes rest)
              (worker-Handed rest (record p { batch = p.batch ++ hash ∷ [] }) (ground arith)))
      ]

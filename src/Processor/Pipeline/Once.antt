-- ===== src/Processor/Pipeline/Once.antt =====
-- The retries of internal/coordinator/blockPipeline.go on the process of internal/processor.
use eth_mon_svr.Base.{
  ℕ, zero, suc, ◌-◌, ◌≡◌, refl, ap, sym, subst, Bool, true, false, List, none, some, String, inl,
  inr, ◌⊎◌, if◌then◌else◌,
}
use eth_mon_svr.Ethereum.{Header}
use eth_mon_svr.GasAnalyzer.Float.{Float}
use eth_mon_svr.GasAnalyzer.Targets.{WeightedTip}
use eth_mon_svr.Coordinator.BlockPipeline.{BlockProcessor, retry_count, attempt, proc_with_retry}
use eth_mon_svr.Processor.Fetch.{ProcessError, returns, fails, Network}
use eth_mon_svr.Processor.Blocks.{Process}
use eth_mon_svr.Processor.Process.{Answer, process_block}
use eth_mon_svr.Processor.Process.Unchanged.{process_block-fails}
use eth_mon_svr.Processor.Pipeline.{World, is_done, on_world, on_network, block_processor}

module _ {F W : Type 0} (fl : Float F) (sort : List (WeightedTip F) → List (WeightedTip F))
    (net : Network W) (hex : ℕ → String) (wait_retry : W → W × Bool)
    (compare : Process F → W → W) where
  abbrev proc : BlockProcessor (World F W)
  proc = block_processor fl sort net hex wait_retry compare

  -- What attempts on a block make of a process.
  abbrev pub Attempted : Header → Process F → World F W → Bool → Type 0
  Attempted header p world ok =
      ((world ≡ none) × (ok ≡ false))
      ⊎ (((w : W) × (world ≡ some (p, w)) × (ok ≡ false))
          ⊎ ((w0 w1 : W) × (p' : Process F) × (world ≡ some (p', w1))
              × (ok ≡ true)
              × (process_block fl sort net hex (some header) p w0 ≡ some (p', w1, returns tt))))

  -- The rest of an attempt, once the processor has answered, with so many more to come after it.
  abbrev after : ℕ → Header → Answer F W (Unit {0}) → World F W × Bool
  after more header answer =
      let (world, ok) = is_done answer in
      let (world', cancelled) = proc.wait_retry world in
      let again = attempt proc more header world' in
      if ok then (world, true) else (if cancelled then (world', false) else again)

  -- An attempt on a process.
  abbrev Settles : ℕ → Header → Process F → Type 0
  Settles n header p =
      (w : W) → let (world, ok) = attempt proc n header (some (p, w)) in Attempted header p world ok

  one_attempt :
      (header : Header) (p : Process F) (w : W) (answer : Answer F W (Unit {0}))
      → process_block fl sort net hex (some header) p w ≡ answer
      → let (world, ok) = is_done answer in Attempted header p world ok
  unfolding is_done
  one_attempt header p w none e = inl (refl, refl)
  one_attempt header p w (some (p', w', fails err)) e =
      let same = process_block-fails fl sort net hex (some header) p w e in
      inr (inl (w', ap (λ q. some (q, w')) same, refl))
  one_attempt header p w (some (p', w', returns tt)) e = inr (inr (w, w', p', refl, refl, e))

  either_way :
      (header : Header) (p : Process F) (b : Bool) (x y : World F W × Bool)
      → Attempted header p x.0 x.1
      → Attempted header p y.0 y.1
      → let (world, ok) = if b then x else y in Attempted header p world ok
  either_way header p true x y first second = first
  either_way header p false x y first second = second

  -- After a failed attempt: the wait is cut short, or the next attempt follows.
  next_attempt :
      (more : ℕ) (header : Header) (p : Process F) (w : W) (e : ProcessError)
      → Settles more header p
      → let (world, ok) = after more header (some (p, w, fails e)) in Attempted header p world ok
  unfolding is_done on_world on_network
  next_attempt more header p w e settles =
      let (w', cancelled) = wait_retry w in
      either_way header p cancelled (some (p, w'), false) (attempt proc more header (some (p, w')))
        (inr (inl (w', refl, refl))) (settles w')

  after-Attempted :
      (more : ℕ) (header : Header) (p : Process F) (w : W) (answer : Answer F W (Unit {0}))
      → Settles more header p
      → process_block fl sort net hex (some header) p w ≡ answer
      → let (world, ok) = after more header answer in Attempted header p world ok
  unfolding is_done on_world
  after-Attempted more header p w none settles e = inl (refl, refl)
  after-Attempted more header p w (some (p', w', fails err)) settles e =
      let same = process_block-fails fl sort net hex (some header) p w e in
      subst
        (λ q.
          let (world, ok) = after more header (some (q, w', fails err)) in
          Attempted header p world ok)
        (sym same) (next_attempt more header p w' err settles)
  after-Attempted more header p w (some (p', w', returns tt)) settles e =
      inr (inr (w, w', p', refl, refl, e))

  attempt-Attempted : (n : ℕ) (header : Header) (p : Process F) → Settles n header p
  unfolding attempt on_world
  attempt-Attempted zero header p w =
      one_attempt header p w (process_block fl sort net hex (some header) p w) refl
  attempt-Attempted (suc more) header p w =
      after-Attempted more header p w (process_block fl sort net hex (some header) p w)
        (attempt-Attempted more header p) refl

  -- However many attempts `procWithRetry` makes on a block: the program has panicked; or they all failed,
  -- and the process is as it was; or one of them has taken the block in, once, from the process as it was.
  pub proc_with_retry-Attempted :
      (header : Header) (p : Process F) (w : W)
      → let (world, ok) = proc_with_retry proc header (some (p, w)) in Attempted header p world ok
  unfolding proc_with_retry
  proc_with_retry-Attempted header p w = attempt-Attempted (retry_count - 1) header p w

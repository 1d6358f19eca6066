-- ===== src/Processor/Process/Unchanged.antt =====
-- The errors of `ProcessBlock`, `CleanupFailedBlock`, `Initialize` and `Resync` of
-- internal/processor/processor.go.
use eth_mon_svr.Base.{ℕ, ◌≡◌, ap, sym, List, [], ◌∷◌, Option, none, some, String, ◌>>=◌, arith}
use eth_mon_svr.Ethereum.{Header, Receipt}
use eth_mon_svr.GasAnalyzer.Float.{Float}
use eth_mon_svr.GasAnalyzer.Targets.{WeightedTip}
use eth_mon_svr.Processor.Fetch.{
  latest_block_number_nil, block_receipt_fetch, block_receipts_empty, invalid_block_header,
  ProcessError, Outcome, returns, fails, Network, fetch_block_receipts, get_lastest_block_header,
}
use eth_mon_svr.Processor.Blocks.{Process}
use eth_mon_svr.Processor.Process.{
  Answer, apply_block, process_numbered, process_block, cleanup_receipts, cleanup_numbered,
  cleanup_failed_block, load_latest, with_latest, first_block, initialize, restart, resync,
}

module _ {F W : Type 0} where
  -- An answer that is an error leaves the process as it was.
  abbrev pub Keeps : (A : Type 0) → Process F → Answer F W A → Type 0
  Keeps A p answer =
      (p' : Process F) (w' : W) (e : ProcessError) → answer ≡ some (p', w', fails e) → p' ≡ p

  Keeps-fails :
      (A : Type 0) (p : Process F) (w : W) (e : ProcessError) → Keeps A p (some (p, w, fails e))
  Keeps-fails A p w e p' w' e' same = sym (ap (λ o. elim o [ none ↦ p | some x ↦ x.0 ]) same)

  -- A chain that ends in a result has no error.
  Keeps-returns :
      (A : Type 0) (p : Process F) (w : W) (a : A) (m : Option (Process F))
      → Keeps A p (m >>= λ q. some (q, w, returns a))
  Keeps-returns A p w a none p' w' e same = absurd (cc)
  Keeps-returns A p w a (some q) p' w' e same = absurd (ground arith)

module _ {F W : Type 0} (fl : Float F) (sort : List (WeightedTip F) → List (WeightedTip F))
    (net : Network W) (hex : ℕ → String) where
  -- The two answers of a block's operations once the receipts are fetched.
  after_receipts :
      (change : List (Option Receipt) → Option (Process F)) (p : Process F) (w : W)
      (receipts : Outcome (List (Option Receipt)))
      → Keeps (Unit {0}) p (elim receipts [
        | fails e ↦ some (p, w, fails e)
        | returns rs ↦ change rs >>= λ p'. some (p', w, returns tt)
      ])
  after_receipts change p w (fails e) = Keeps-fails Unit p w e
  after_receipts change p w (returns rs) = Keeps-returns Unit p w tt (change rs)

  process_block-Keeps :
      (header : Option Header) (p : Process F) (w : W)
      → Keeps (Unit {0}) p (process_block fl sort net hex header p w)
  unfolding process_block process_numbered
  process_block-Keeps none p w = Keeps-fails Unit p w _
  process_block-Keeps (some header) p w = by_number header.number
    where
      by_number :
          (number : Option ℕ)
          → Keeps (Unit {0}) p (elim number [
            | none ↦ some (p, w, fails latest_block_number_nil)
            | some n ↦ process_numbered fl sort net hex header n p w
          ])
      by_number none = Keeps-fails Unit p w _
      by_number (some n) =
          let (w', receipts) = fetch_block_receipts net header.hash w in
          after_receipts (λ rs. apply_block fl sort net hex header n rs p) p w' receipts

  -- `ProcessBlock` that returns an error, for a nil header or number or for receipts that it could not
  -- get, leaves the pool, the store, the analyzer and the client as they were.
  pub process_block-fails :
      (header : Option Header) (p : Process F) (w : W) {p' : Process F} {w' : W} {e : ProcessError}
      → process_block fl sort net hex header p w ≡ some (p', w', fails e)
      → p' ≡ p
  process_block-fails header p w {p'} {w'} {e} failed =
      process_block-Keeps header p w p' w' e failed

  cleanup_failed_block-Keeps :
      (header : Option Header) (p : Process F) (w : W)
      → Keeps (Unit {0}) p (cleanup_failed_block fl sort net hex header p w)
  unfolding cleanup_failed_block cleanup_numbered
  cleanup_failed_block-Keeps none p w = Keeps-fails Unit p w _
  cleanup_failed_block-Keeps (some header) p w = by_number header.number
    where
      by_number :
          (number : Option ℕ)
          → Keeps (Unit {0}) p (elim number [
            | none ↦ some (p, w, fails invalid_block_header)
            | some n ↦ cleanup_numbered fl sort net hex header p w
          ])
      by_number none = Keeps-fails Unit p w _
      by_number (some n) =
          let (w', receipts) = fetch_block_receipts net header.hash w in
          after_receipts (λ rs. cleanup_receipts fl sort net hex header rs p) p w' receipts

  -- What `Initialize` and `Resync` have in common.
  with_latest-Keeps :
      (change : Header → List (Option Receipt) → Process F → Option (Process F)) (p : Process F)
      (w : W)
      → Keeps Header p (with_latest fl sort net hex change p w)
  unfolding with_latest load_latest
  with_latest-Keeps change p w =
      let (w', latest) = get_lastest_block_header net w in by_latest w' latest
    where
      by_receipts :
          (header : Header) (w' : W) (receipts : Outcome (List (Option Receipt)))
          → Keeps Header p (elim receipts [
            | fails e ↦ some (p, w', fails block_receipt_fetch)
            | returns [] ↦ some (p, w', fails block_receipts_empty)
            | returns (receipt ∷ rest) ↦
                change header (receipt ∷ rest) p >>= λ p'. some (p', w', returns header)
          ])
      by_receipts header w' (fails e) = Keeps-fails Header p w' _
      by_receipts header w' (returns []) = Keeps-fails Header p w' _
      by_receipts header w' (returns (receipt ∷ rest)) =
          Keeps-returns Header p w' header (change header (receipt ∷ rest) p)

      by_latest :
          (w' : W) (latest : Outcome Header)
          → Keeps Header p (elim latest [
            | fails e ↦ some (p, w', fails e)
            | returns header ↦ load_latest fl sort net hex change header p w'
          ])
      by_latest w' (fails e) = Keeps-fails Header p w' e
      by_latest w' (returns header) =
          let (w'', receipts) = fetch_block_receipts net header.hash w' in
          by_receipts header w'' receipts

  -- `Resync` that returns an error leaves the pool, the store, the analyzer and the client as they were:
  -- nothing is cleared before the latest header and its receipts are there.
  pub resync-fails :
      (p : Process F) (w : W) {p' : Process F} {w' : W} {e : ProcessError}
      → resync fl sort net hex p w ≡ some (p', w', fails e)
      → p' ≡ p
  unfolding resync
  resync-fails p w {p'} {w'} {e} failed =
      with_latest-Keeps (restart fl sort net hex) p w p' w' e failed

  initialize-fails :
      (p : Process F) (w : W) {p' : Process F} {w' : W} {e : ProcessError}
      → initialize fl sort net hex p w ≡ some (p', w', fails e)
      → p' ≡ p
  unfolding initialize
  initialize-fails p w {p'} {w'} {e} failed =
      with_latest-Keeps (first_block fl sort net hex) p w p' w' e failed

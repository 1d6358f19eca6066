-- ===== src/Processor/Process/Restart.antt =====
-- What `Resync` of internal/processor/processor.go leaves where it returns no error.
use eth_mon_svr.Base.{
  ℕ, zero, suc, ◌<◌, ◌≡◌, refl, ap, sym, ◌∙◌, subst, List, [], ◌∷◌, take, take-nil, Option, none,
  some, String, ◌>>=◌, >>=-eq-some, some_inj, Option-cases, inl, inr, arith, ◌≢◌,
}
use eth_mon_svr.Ethereum.{Header, Receipt}
use eth_mon_svr.BlockStore
use eth_mon_svr.BlockStore.{BlockData, Store, add_block, get_block_data}
use eth_mon_svr.BlockStore.Laws.{add_block-take}
use eth_mon_svr.Mempool.Types
use eth_mon_svr.GasAnalyzer.Float.{Float}
use eth_mon_svr.GasAnalyzer.Targets.{WeightedTip}
use eth_mon_svr.GasAnalyzer.Analyzer
use eth_mon_svr.GasAnalyzer.Analyzer.{
  Analyzer, update_latest_block_data, set_block_data, update_block_result, set_ready, levels_from,
}
use eth_mon_svr.Processor.Fetch.{
  Outcome, returns, fails, Network, fetch_block_receipts, known_header, get_lastest_block_header,
  cost_of, get_block_receipt_cu, block_receipt_fetch, block_receipts_empty,
}
use eth_mon_svr.Processor.Blocks.{Process, calculate_block_tx_tip}
use eth_mon_svr.Processor.Process.{
  Answer, store_block, clear_pool, make_ready, load_block, load_latest, with_latest, forget,
  restart, resync,
}
use eth_mon_svr.Processor.Process.Analysis.{Analyzed, update-Analyzed}
use eth_mon_svr.Processor.Process.Applied.{update-others}

module _ {F : Type 0} (fl : Float F) (sort : List (WeightedTip F) → List (WeightedTip F)) where
  module _ {W : Type 0} (net : Network W) (hex : ℕ → String) where
    -- What a restart leaves: one block, that of the header; an empty pool; an analyzer that is ready, with
    -- the analysis of this block alone; and the client as it was.
    pub record Restarted (header : Header) (number : ℕ) (receipts : List (Option Receipt))
        (p p' : Process F) : Type 0 where
      pub block : BlockData F
      pub analyzer : Analyzer F
      pub calculated : calculate_block_tx_tip fl hex header receipts ≡ some block
      pub blocks : get_block_data p'.blockstore ≡ block ∷ []
      pub pool : p'.pending_pool ≡ Types.clear p.pending_pool
      pub client : p'.grpc_client ≡ p.grpc_client
      pub analyzed :
          Analyzed fl sort header number (block ∷ []) (Analyzer.reset p.gasanalyzer) analyzer
      pub ready : p'.gasanalyzer ≡ set_ready analyzer

    first-take : (max : ℕ) (block : BlockData F) → 0 < max → take max (block ∷ []) ≡ block ∷ []
    first-take zero block pos = absurd (omega arith)
    first-take (suc n) block pos = ap (λ rest. block ∷ rest) (take-nil n)

    restart-Restarted :
        (header : Header) (number : ℕ) (receipts : List (Option Receipt)) (p : Process F)
        {p' : Process F}
        → 0 < p.blockstore.max
        → header.number ≡ some number
        → restart fl sort net hex header receipts p ≡ some p'
        → Restarted header number receipts p p'
    unfolding restart load_block store_block forget make_ready clear_pool get_block_data
        BlockStore.clear
    restart-Restarted header number receipts p {p'} pos known e =
        let (q, loaded, e1) =
          >>=-eq-some (load_block fl sort net hex header receipts (forget fl sort net hex p)) _ e in
        let (block, calculated, e2) =
          >>=-eq-some (calculate_block_tx_tip fl hex header receipts) _ loaded in
        let stored = store_block fl sort net hex block (forget fl sort net hex p) in
        let (pool_kept, store_kept, client_kept) = update-others fl sort header stored e2 in
        let end = some_inj e1 in
        let one =
          add_block-take block (BlockStore.clear p.blockstore)
          ∙ first-take p.blockstore.max block pos in
        record {
          block = block;
          analyzer = q.gasanalyzer;
          calculated = calculated;
          blocks = ap (λ r. r.blockstore.blocks) (sym end) ∙ ap (λ s. s.blocks) store_kept ∙ one;
          pool = ap (λ r. r.pending_pool) (sym end) ∙ ap Types.clear pool_kept;
          client = ap (λ r. r.grpc_client) (sym end) ∙ client_kept;
          analyzed = update-Analyzed fl sort header number stored block [] known one e2;
          ready = ap (λ r. r.gasanalyzer) (sym end);
        }

    known_header-number :
        (reply : Option (Option Header)) (h : Header)
        → known_header net reply ≡ returns h
        → (number : ℕ) × (h.number ≡ some number)
    unfolding known_header
    known_header-number none h e = absurd (cc)
    known_header-number (some none) h e = absurd (cc)
    known_header-number (some (some header)) h e = elim (Option-cases header.number) [
      | inl missing ↦ absurd (ground arith)
      | inr (number, known) ↦
          let same : header ≡ h = ground (arith, known, e) in
          (number, subst (λ x. x.number ≡ some number) same known)
    ]

    latest_header-number :
        (w : W) (h : Header)
        → (get_lastest_block_header net w).1 ≡ returns h
        → (number : ℕ) × (h.number ≡ some number)
    unfolding get_lastest_block_header
    latest_header-number w h e =
        let (w', reply) = net.header_by_number (cost_of get_block_receipt_cu) none w in
        known_header-number reply h e

    abbrev answer_of :
        (Header → List (Option Receipt) → Process F → Option (Process F))
        → Header
        → Process F
        → W
        → Outcome (List (Option Receipt))
        → Answer F W Header
    answer_of change header p w receipts = elim receipts [
      | fails e ↦ some (p, w, fails block_receipt_fetch)
      | returns [] ↦ some (p, w, fails block_receipts_empty)
      | returns (receipt ∷ receipts) ↦ do
        p' ← change header (receipt ∷ receipts) p
        some (p', w, returns header)
    ]

    abbrev answer_by :
        (Header → List (Option Receipt) → Process F → Option (Process F))
        → Process F
        → W
        → Outcome Header
        → Answer F W Header
    answer_by change p w latest = elim latest [
      | fails e ↦ some (p, w, fails e)
      | returns header ↦ load_latest fl sort net hex change header p w
    ]

    -- What a `Resync` that returns the header has got, and what it leaves.
    abbrev pub Resynced : Process F → W → Process F → W → Header → Type 0
    Resynced p w p' w' header =
        (number : ℕ) × (receipts : List (Option Receipt)) × (w1 : W) × (get_lastest_block_header net
            w
          ≡ (w1, returns header))
        × (header.number ≡ some number)
        × (fetch_block_receipts net header.hash w1 ≡ (w', returns receipts))
        × (receipts ≢ [])
        × Restarted header number receipts p p'

    by_receipts :
        (p p' : Process F) (w w1 w' : W) (h header : Header) (number : ℕ)
        (reply : W × Outcome (List (Option Receipt)))
        → 0 < p.blockstore.max
        → get_lastest_block_header net w ≡ (w1, returns h)
        → h.number ≡ some number
        → fetch_block_receipts net h.hash w1 ≡ reply
        → answer_of (restart fl sort net hex) h p reply.0 reply.1 ≡ some (p', w', returns header)
        → Resynced p w p' w' header
    by_receipts p p' w w1 w' h header number (w2, fails e1) pos latest known got e =
        absurd (ground arith)
    by_receipts p p' w w1 w' h header number (w2, returns []) pos latest known got e =
        absurd (ground arith)
    by_receipts p p' w w1 w' h header number (w2, returns (receipt ∷ rest)) pos latest known got e =
        let (q, done, e1) = >>=-eq-some (restart fl sort net hex h (receipt ∷ rest) p) _ e in
        let pair = some_inj e1 in
        let same_q : q ≡ p' = ap (λ x. x.0) pair in
        let same_w : w2 ≡ w' = ap (λ x. x.1) pair in
        let same_h : h ≡ header = ap (λ x. elim x.2 [ returns y ↦ y | fails z ↦ h ]) pair in
        let restarted = restart-Restarted h number (receipt ∷ rest) p pos known done in
        subst (Resynced p w p' w') same_h (
          number,
          receipt ∷ rest,
          w1,
          latest,
          known,
          subst (λ x. fetch_block_receipts net h.hash w1 ≡ (x, returns (receipt ∷ rest))) same_w
              got,
          cc,
          subst (Restarted h number (receipt ∷ rest) p) same_q restarted,
        )

    by_latest :
        (p p' : Process F) (w w' : W) (header : Header) (reply : W × Outcome Header)
        → 0 < p.blockstore.max
        → get_lastest_block_header net w ≡ reply
        → answer_by (restart fl sort net hex) p reply.0 reply.1 ≡ some (p', w', returns header)
        → Resynced p w p' w' header
    unfolding load_latest
    by_latest p p' w w' header (w1, fails e1) pos latest e = absurd (ground arith)
    by_latest p p' w w' header (w1, returns h) pos latest e =
        let (number, known) = latest_header-number w h (ap (λ r. r.1) latest) in
        by_receipts p p' w w1 w' h header number (fetch_block_receipts net h.hash w1) pos latest
          known refl e

    -- `Resync` that returns a header, of a process whose store has room for a block: the header is the
    -- one that the node gave as its latest, the receipts are those that were then fetched for its hash, at
    -- least one, and the process has restarted: of the old blocks and analysis and of the pool nothing is
    -- left, the analysis is that of this block, and the analyzer is ready.
    pub resync-Restarted :
        (p : Process F) (w : W) {p' : Process F} {w' : W} {header : Header}
        → 0 < p.blockstore.max
        → resync fl sort net hex p w ≡ some (p', w', returns header)
        → Resynced p w p' w' header
    unfolding resync with_latest
    resync-Restarted p w {p'} {w'} {header} pos e =
        by_latest p p' w w' header (get_lastest_block_header net w) pos refl e

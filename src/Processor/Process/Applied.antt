-- ===== src/Processor/Process/Applied.antt =====
-- What `ProcessBlock` of internal/processor/processor.go does where it returns no error.
use eth_mon_svr.Base.{
  ℕ, ◌%◌, ◌≡◌, refl, ap, sym, ◌∙◌, subst, List, [], ◌∷◌, take, Option, none, some, String, ◌>>=◌,
  >>=-eq-some, some_inj, Option-cases, inl, inr, ◌⊎◌, arith, u64_mod,
}
use eth_mon_svr.Ethereum.{Header, Receipt}
use eth_mon_svr.BlockStore.{BlockData, FeeBucketStat, get_block_data}
use eth_mon_svr.BlockStore.Laws.{add_block-take}
use eth_mon_svr.Mempool.Types.{PendingMemPool}
use eth_mon_svr.Mempool.Remove.{remove_by_receipts}
use eth_mon_svr.Mempool.Expire
use eth_mon_svr.GasAnalyzer.Float.{Float}
use eth_mon_svr.GasAnalyzer.Targets.{WeightedTip}
use eth_mon_svr.GasAnalyzer.Fee.{calculate_next_base_fee}
use eth_mon_svr.Processor.Fetch.{
  latest_block_number_nil, Outcome, returns, fails, Network, fetch_block_receipts,
}
use eth_mon_svr.Processor.Blocks.{
  Process, analyze_blocks, analyze_header, update_block_info_for_analysis, send_fee_buckets_to_grpc,
  remove_expired, clear_mempool_to_receipts, calculate_block_tx_tip, fee_statistics,
}
use eth_mon_svr.Processor.Process.{
  Answer, store_block, apply_block, process_numbered, process_block,
}

module _ {F : Type 0} (fl : Float F) (sort : List (WeightedTip F) → List (WeightedTip F)) where
  -- The update of the analysis touches nothing but the analyzer.
  pub update-others :
      (header : Header) (p : Process F) {p' : Process F}
      → update_block_info_for_analysis fl sort header p ≡ some p'
      → (p'.pending_pool ≡ p.pending_pool)
        × (p'.blockstore ≡ p.blockstore)
        × (p'.grpc_client ≡ p.grpc_client)
  unfolding update_block_info_for_analysis analyze_header
  update-others header p {p'} e = by_number header.number e
    where
      others : Process F → Type 0
      others q =
          (q.pending_pool ≡ p.pending_pool)
          × (q.blockstore ≡ p.blockstore)
          × (q.grpc_client ≡ p.grpc_client)

      same : {q : Process F} → others q → some q ≡ some p' → others p'
      same {q} o e = subst others (some_inj e) o

      by_blocks :
          (n : ℕ) (blocks : List (BlockData F))
          → (elim blocks [
            | [] ↦ some p
            | b ∷ bs ↦ analyze_blocks fl sort header n (b ∷ bs) p.gasanalyzer >>= λ a.
                some (record p { gasanalyzer = a })
          ])
            ≡ some p'
          → others p'
      by_blocks n [] e = same (refl, refl, refl) e
      by_blocks n (b ∷ bs) e =
          let (a, _, e') =
            >>=-eq-some (analyze_blocks fl sort header n (b ∷ bs) p.gasanalyzer) _ e in
          same (refl, refl, refl) e'

      by_number :
          (number : Option ℕ)
          → (elim number [ none ↦ some p | some n ↦ analyze_header fl sort header p ]) ≡ some p'
          → others p'
      by_number none e = same (refl, refl, refl) e
      by_number (some n) e =
          let (fee, _, e') =
            >>=-eq-some (calculate_next_base_fee header.base_fee header.gas_used header.gas_limit) _
              e in
          by_blocks fee (get_block_data p.blockstore) e'

  -- `SendFeeBucketsToGrpc` touches nothing but the client.
  send-others :
      (p : Process F)
      → ((send_fee_buckets_to_grpc fl p).pending_pool ≡ p.pending_pool)
        × ((send_fee_buckets_to_grpc fl p).blockstore ≡ p.blockstore)
  unfolding send_fee_buckets_to_grpc
  send-others p = elim (Option-cases (fee_statistics fl (get_block_data p.blockstore))) [
    | inl nothing ↦ rw (nothing, send_fee_buckets_to_grpc) (refl, refl)
    | inr (req, sent) ↦ rw (sent, send_fee_buckets_to_grpc) (refl, refl)
  ]

  module _ {W : Type 0} (net : Network W) (hex : ℕ → String) where
    -- What a block with receipts leaves: the newest block of the store is its own, with the statistics of the
    -- transactions that waited for it, and the pool has lost its transactions and those that expired.
    pub record Applied (header : Header) (number : ℕ) (receipts : List (Option Receipt))
        (p p' : Process F) : Type 0 where
      pub block : BlockData F
      pub removed : PendingMemPool × List FeeBucketStat × ℕ
      pub calculated : calculate_block_tx_tip fl hex header receipts ≡ some block
      pub removal : remove_by_receipts header receipts p.pending_pool ≡ some removed
      pub blocks :
          get_block_data p'.blockstore
          ≡ take p.blockstore.max
              (record block { fee_buckets = removed.1 } ∷ get_block_data p.blockstore)
      pub pool : p'.pending_pool ≡ (Expire.remove_expired (number % u64_mod) removed.0).0

    clear-removed :
        (header : Header) (receipt : Option Receipt) (receipts : List (Option Receipt))
        (pool : PendingMemPool) {cleared : PendingMemPool × List FeeBucketStat}
        → clear_mempool_to_receipts fl header (receipt ∷ receipts) pool ≡ some cleared
        → (removed : PendingMemPool × List FeeBucketStat × ℕ) × (remove_by_receipts header
              (receipt ∷ receipts)
              pool
            ≡ some removed)
          × (removed.0 ≡ cleared.0)
          × (removed.1 ≡ cleared.1)
    unfolding clear_mempool_to_receipts
    clear-removed header receipt receipts pool {cleared} e =
        let (removed, e', same) =
          >>=-eq-some (remove_by_receipts header (receipt ∷ receipts) pool) _ e in
        let pair = some_inj same in (removed, e', ap (λ x. x.0) pair, ap (λ x. x.1) pair)

    apply_block-Applied :
        (header : Header) (number : ℕ) (receipt : Option Receipt) (receipts : List (Option Receipt))
        (p : Process F) {p' : Process F}
        → apply_block fl sort net hex header number (receipt ∷ receipts) p ≡ some p'
        → Applied header number (receipt ∷ receipts) p p'
    unfolding apply_block store_block remove_expired get_block_data
    apply_block-Applied header number receipt receipts p {p'} e =
        let (block, calculated, e1) =
          >>=-eq-some (calculate_block_tx_tip fl hex header (receipt ∷ receipts)) _ e in
        let (cleared, clearing, e2) =
          >>=-eq-some (clear_mempool_to_receipts fl header (receipt ∷ receipts) p.pending_pool) _
            e1 in
        let (removed, removal, same_pool, same_stats) =
          clear-removed header receipt receipts p.pending_pool clearing in
        let stored =
          store_block fl sort net hex (record block { fee_buckets = cleared.1 })
            (record p { pending_pool = cleared.0 }) in
        let swept = remove_expired (number % u64_mod) stored in
        let (q, updated, e3) =
          >>=-eq-some (update_block_info_for_analysis fl sort header swept) _ e2 in
        let end = some_inj e3 in
        let (pool_kept, store_kept, _) = update-others header swept updated in
        let (pool_sent, store_sent) = send-others q in
        record {
          block = block;
          removed = removed;
          calculated = calculated;
          removal = removal;
          blocks =
              ap (λ r. r.blockstore.blocks) (sym end)
              ∙ ap (λ s. s.blocks) (store_sent ∙ store_kept)
              ∙ add_block-take (record block { fee_buckets = cleared.1 }) p.blockstore
              ∙ ap
                  (λ stats.
                    take p.blockstore.max
                      (record block { fee_buckets = stats } ∷ p.blockstore.blocks))
                  (sym same_stats);
          pool =
              ap (λ r. r.pending_pool) (sym end)
              ∙ pool_sent
              ∙ pool_kept
              ∙ ap (λ q. (Expire.remove_expired (number % u64_mod) q).0) (sym same_pool);
        }

    -- What a block with no receipts leaves: the pool without what expired.
    pub record Passed (number : ℕ) (p p' : Process F) : Type 0 where
      pub same_blocks : p'.blockstore ≡ p.blockstore
      pub same_client : p'.grpc_client ≡ p.grpc_client
      pub pool : p'.pending_pool ≡ (Expire.remove_expired (number % u64_mod) p.pending_pool).0

    apply_block-Passed :
        (header : Header) (number : ℕ) (p : Process F) {p' : Process F}
        → apply_block fl sort net hex header number [] p ≡ some p'
        → Passed number p p'
    unfolding apply_block remove_expired
    apply_block-Passed header number p e =
        let (pool_kept, store_kept, client_kept) =
          update-others header (remove_expired (number % u64_mod) p) e in
        record { same_blocks = store_kept; same_client = client_kept; pool = pool_kept }

    -- The two ways in which a block can be taken in.
    abbrev pub TakenIn : Header → ℕ → List (Option Receipt) → Process F → Process F → Type 0
    TakenIn header number receipts p p' =
        ((receipts ≡ []) × Passed number p p') ⊎ Applied header number receipts p p'

    apply_block-TakenIn :
        (header : Header) (number : ℕ) (receipts : List (Option Receipt)) (p : Process F)
        {p' : Process F}
        → apply_block fl sort net hex header number receipts p ≡ some p'
        → TakenIn header number receipts p p'
    apply_block-TakenIn header number [] p e = inl (refl, apply_block-Passed header number p e)
    apply_block-TakenIn header number (receipt ∷ receipts) p e =
        inr (apply_block-Applied header number receipt receipts p e)

    -- The cases of `process_numbered` and of `process_block`.
    abbrev answer_of :
        Header → ℕ → Process F → W → Outcome (List (Option Receipt)) → Answer F W (Unit {0})
    answer_of header number p w receipts = elim receipts [
      | fails e ↦ some (p, w, fails e)
      | returns receipts ↦ do
        p' ← apply_block fl sort net hex header number receipts p
        some (p', w, returns tt)
    ]

    abbrev answer_by : Header → Process F → W → Option ℕ → Answer F W (Unit {0})
    answer_by header p w number = elim number [
      | none ↦ some (p, w, fails latest_block_number_nil)
      | some n ↦ process_numbered fl sort net hex header n p w
    ]

    -- `ProcessBlock` that returns no error has got the receipts of a block with a number, and it has taken
    -- the block in: where there are no receipts the store and the client are unchanged and the pool loses
    -- what expired, and else the block, with the statistics of the transactions that waited for it, is the
    -- newest of the store, and the pool has lost its transactions and what expired.
    pub process_block-TakenIn :
        (header : Header) (p : Process F) (w : W) {p' : Process F} {w' : W}
        → process_block fl sort net hex (some header) p w ≡ some (p', w', returns tt)
        → (number : ℕ) × (receipts : List (Option Receipt)) × (header.number ≡ some number)
          × (fetch_block_receipts net header.hash w ≡ (w', returns receipts))
          × TakenIn header number receipts p p'
    unfolding process_block process_numbered
    process_block-TakenIn header p w {p'} {w'} e = by_number header.number refl e
      where
        Answers : Type 0
        Answers =
            (number : ℕ) × (receipts : List (Option Receipt)) × (header.number ≡ some number)
            × (fetch_block_receipts net header.hash w ≡ (w', returns receipts))
            × TakenIn header number receipts p p'

        by_receipts :
            (number : ℕ) (reply : W × Outcome (List (Option Receipt)))
            → header.number ≡ some number
            → fetch_block_receipts net header.hash w ≡ reply
            → answer_of header number p reply.0 reply.1 ≡ some (p', w', returns tt)
            → Answers
        by_receipts number (w1, fails e1) known got e = absurd (ground arith)
        by_receipts number (w1, returns receipts) known got e =
            let (q, applied, e1) =
              >>=-eq-some (apply_block fl sort net hex header number receipts p) _ e in
            let same_q : q ≡ p' = ap (λ x. x.0) (some_inj e1) in
            let same_w : w1 ≡ w' = ap (λ x. x.1) (some_inj e1) in
            (
              number,
              receipts,
              known,
              subst (λ x. fetch_block_receipts net header.hash w ≡ (x, returns receipts)) same_w
                  got,
              subst (TakenIn header number receipts p) same_q
                  (apply_block-TakenIn header number receipts p applied),
            )

        by_number :
            (number : Option ℕ)
            → header.number ≡ number
            → answer_by header p w number ≡ some (p', w', returns tt)
            → Answers
        by_number none known e = absurd (ground arith)
        by_number (some n) known e =
            by_receipts n (fetch_block_receipts net header.hash w) known refl e

-- ===== src/Processor/Process/Analysis.antt =====
-- What `UpdateBlockInfoForAnalysis` of internal/processor/processor_block.go leaves of the analyzer.
use eth_mon_svr.Base.{
  ℕ, ◌%◌, ◌≡◌, refl, ap, sym, ◌∙◌, List, [], ◌∷◌, none, some, ◌>>=◌, >>=-eq-some, some_inj,
  Option-cases, inl, inr, arith, u64_mod,
}
use eth_mon_svr.Base.TextMap.{TextMap}
use eth_mon_svr.Ethereum.{Header}
use eth_mon_svr.BlockStore.{BlockData, get_block_data}
use eth_mon_svr.GasAnalyzer.Float.{Float}
use eth_mon_svr.GasAnalyzer.Targets.{WeightedTip}
use eth_mon_svr.GasAnalyzer.Fee.{calculate_next_base_fee}
use eth_mon_svr.GasAnalyzer.Pools.{block_percentiles}
use eth_mon_svr.GasAnalyzer.Analyzer.{
  Analyzer, update_latest_block_data, set_block_data, update_block_result,
}
use eth_mon_svr.Processor.Blocks.{
  Process, weigh_blocks, analyze_blocks, analyze_header, update_block_info_for_analysis,
}

module _ {F : Type 0} (fl : Float F) (sort : List (WeightedTip F) → List (WeightedTip F)) where
  -- What the analysis of a header leaves of the analyzer `a`.
  pub record Analyzed (header : Header) (number : ℕ) (blocks : List (BlockData F))
      (a a' : Analyzer F) : Type 0 where
    pub base_fee : ℕ
    pub next_base_fee : ℕ
    pub result : TextMap ℕ × ℕ
    pub has_base_fee : header.base_fee ≡ some base_fee
    pub computed :
        calculate_next_base_fee header.base_fee header.gas_used header.gas_limit
        ≡ some next_base_fee
    pub levels : block_percentiles fl sort (weigh_blocks fl a.decay_table blocks) ≡ some result
    pub analyzer :
        a'
        ≡ update_block_result result.0
            (set_block_data header number base_fee (next_base_fee % u64_mod) result.1 a)

  latest-number :
      (header : Header) (number next_base_fee cutoff : ℕ) (a : Analyzer F) {a' : Analyzer F}
      → header.number ≡ some number
      → update_latest_block_data header next_base_fee cutoff a ≡ some a'
      → (base_fee : ℕ) × (header.base_fee ≡ some base_fee)
        × (set_block_data header number base_fee next_base_fee cutoff a ≡ a')
  unfolding update_latest_block_data set_block_data
  latest-number header number next_base_fee cutoff a {a'} known e =
      elim (Option-cases header.base_fee) [
        | inl missing ↦ absurd (ground arith)
        | inr (base_fee, found) ↦
            (base_fee, found, some_inj (sym (rw (known, found, update_latest_block_data) refl) ∙ e))
      ]

  pub update-Analyzed :
      (header : Header) (number : ℕ) (p : Process F) (b : BlockData F) (bs : List (BlockData F))
      {p' : Process F}
      → header.number ≡ some number
      → get_block_data p.blockstore ≡ b ∷ bs
      → update_block_info_for_analysis fl sort header p ≡ some p'
      → Analyzed header number (b ∷ bs) p.gasanalyzer p'.gasanalyzer
  unfolding update_block_info_for_analysis analyze_header analyze_blocks
  update-Analyzed header number p b bs {p'} known blocks e =
      let e1 =
        sym (ap (λ o. elim o [ none ↦ some p | some n ↦ analyze_header fl sort header p ]) known)
        ∙ e in
      let (fee, computed, e2) =
        >>=-eq-some (calculate_next_base_fee header.base_fee header.gas_used header.gas_limit) _
          e1 in
      let (a, analyzed, e3) =
        >>=-eq-some (analyze_blocks fl sort header fee (b ∷ bs) p.gasanalyzer) _
          (sym (with_blocks fee) ∙ e2) in
      let (result, levels, e4) =
        >>=-eq-some (block_percentiles fl sort (weigh_blocks fl p.gasanalyzer.decay_table (b ∷ bs)))
          _ analyzed in
      let (a1, latest, e5) =
        >>=-eq-some (update_latest_block_data header (fee % u64_mod) result.1 p.gasanalyzer) _ e4 in
      let (base_fee, has, same) =
        latest-number header number (fee % u64_mod) result.1 p.gasanalyzer known latest in
      record {
        base_fee = base_fee;
        next_base_fee = fee;
        result = result;
        has_base_fee = has;
        computed = computed;
        levels = levels;
        analyzer =
            sym (ap (λ q. q.gasanalyzer) (some_inj e3))
            ∙ sym (some_inj e5)
            ∙ ap (update_block_result result.0) (sym same);
      }
    where
      with_blocks :
          (fee : ℕ)
          → (elim (get_block_data p.blockstore) [
            | [] ↦ some p
            | c ∷ cs ↦ do
              a ← analyze_blocks fl sort header fee (c ∷ cs) p.gasanalyzer
              some (record p { gasanalyzer = a })
          ])
            ≡ (do
              a ← analyze_blocks fl sort header fee (b ∷ bs) p.gasanalyzer
              some (record p { gasanalyzer = a }))
      with_blocks fee =
          ap
            (λ l. elim l [
              | [] ↦ some p
              | c ∷ cs ↦ do
                a ← analyze_blocks fl sort header fee (c ∷ cs) p.gasanalyzer
                some (record p { gasanalyzer = a })
            ])
            blocks

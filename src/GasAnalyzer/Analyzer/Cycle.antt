-- ===== src/GasAnalyzer/Analyzer/Cycle.antt =====
-- A round of the analysis of internal/gasanalyzer/analyzer.go: what is predicted.
use eth_mon_svr.Base.{
  ℕ, ◌≡◌, ◌⊎◌, inl, inr, refl, ap, ◌∙◌, true, false, List, [], none, some, String, add64, length,
  Bool-cases, if◌then◌else◌,
}
use eth_mon_svr.Base.TextMap.{TextMap}
use eth_mon_svr.Mempool.Types.{PendingTx}
use eth_mon_svr.GasAnalyzer.Float.{Float}
use eth_mon_svr.GasAnalyzer.Targets.{WeightedTip, gas_prediction_targets}
use eth_mon_svr.GasAnalyzer.Pools.{collect_pending_tx, pending_percentiles}
use eth_mon_svr.GasAnalyzer.Pools.Panics.{pending_percentiles-some}
use eth_mon_svr.GasAnalyzer.Analyzer.{
  GasPrediction, Analyzer, level_of, levels_from, update_pending_result, predict, update_result,
  finish_analysis, analyze_gas_price,
}
use eth_mon_svr.GasAnalyzer.Analyzer.Renewed.{renewed, predict-level_of}

module _ {F : Type 0} (fl : Float F) where
  module _ (sort : List (WeightedTip F) → List (WeightedTip F))
      (length-sort : (pool : List (WeightedTip F)) → length (sort pool) ≡ length pool) where
    -- The prediction that a round of the analysis sends.
    pub record Predicts (snapshot : List PendingTx) (a : Analyzer F) (p : GasPrediction)
        : Type 0 where
      pub block_number : p.next_block_number ≡ add64 a.latest_block_data.block_number 1
      pub base_fee : p.next_base_fee ≡ a.latest_block_data.next_base_fee
      pub block_levels : p.analyzer_block ≡ a.latest_result.analyzer_block
      pub pending_levels :
          (pending : TextMap ℕ) × (pending_percentiles fl sort (
              collect_pending_tx fl a.latest_block_data.next_base_fee a.latest_block_data.gas_limit
                snapshot)
            ≡ some pending)
          × (p.analyzer_pending ≡ some (levels_from a.latest_block_data.next_base_fee pending []))
      pub levels :
          (name : String)
          → level_of name p.predict_result
            ≡ renewed fl p
                (gas_prediction_targets fl)
                name
                (level_of name a.latest_result.predict_result)

    -- The prediction, from the pending levels.
    abbrev predicted : TextMap ℕ → Analyzer F → GasPrediction
    predicted pending a =
        predict fl (add64 a.latest_block_data.block_number 1) a.latest_block_data.next_base_fee
          (update_pending_result pending a).latest_result

    ready_round :
        (snapshot : List PendingTx) (a : Analyzer F) (pending : TextMap ℕ)
        → a.ready ≡ true
        → pending_percentiles fl sort (
            collect_pending_tx fl a.latest_block_data.next_base_fee a.latest_block_data.gas_limit
              snapshot)
          ≡ some pending
        → analyze_gas_price fl sort snapshot a
          ≡ some (record a { latest_result = predicted pending a }, some (predicted pending a))
    unfolding analyze_gas_price finish_analysis update_result update_pending_result predict
    ready_round snapshot a pending ready e =
        let pool =
          collect_pending_tx fl a.latest_block_data.next_base_fee a.latest_block_data.gas_limit
            snapshot in
        ap
          (λ r.
            if r
            then finish_analysis fl sort (pending_percentiles fl sort pool) a
            else some (a, none))
          ready
        ∙ ap (λ result. finish_analysis fl sort result a) e

    waiting_round :
        (snapshot : List PendingTx) (a : Analyzer F)
        → a.ready ≡ false
        → analyze_gas_price fl sort snapshot a ≡ some (a, none)
    unfolding analyze_gas_price
    waiting_round snapshot a waiting =
        let pool =
          collect_pending_tx fl a.latest_block_data.next_base_fee a.latest_block_data.gas_limit
            snapshot in
        ap
          (λ r.
            if r
            then finish_analysis fl sort (pending_percentiles fl sort pool) a
            else some (a, none))
          waiting

    predicted-Predicts :
        (snapshot : List PendingTx) (a : Analyzer F) (pending : TextMap ℕ)
        → pending_percentiles fl sort (
            collect_pending_tx fl a.latest_block_data.next_base_fee a.latest_block_data.gas_limit
              snapshot)
          ≡ some pending
        → Predicts snapshot a (predicted pending a)
    unfolding predict update_pending_result
    predicted-Predicts snapshot a pending e = record {
      block_number = refl;
      base_fee = refl;
      block_levels = refl;
      pending_levels = (pending, e, refl);
      levels = λ name. predict-level_of fl _ _ (update_pending_result pending a).latest_result name;
    }

    -- With a sort that keeps the length of a pool, a round of the analysis never panics. Before the
    -- analyzer is ready it changes and sends nothing; then it sends the prediction it stores: for the block
    -- after the latest, on the base fee computed for it, with the levels of the latest block, those of this
    -- round's pending transactions, and for each target that the block has a level for the blend of the two.
    pub analyze_gas_price-Predicts :
        (snapshot : List PendingTx) (a : Analyzer F)
        → ((a.ready ≡ false) × (analyze_gas_price fl sort snapshot a ≡ some (a, none)))
          ⊎ ((a.ready ≡ true)
              × ((p : GasPrediction) × (analyze_gas_price fl sort snapshot a
                    ≡ some (record a { latest_result = p }, some p))
                  × Predicts snapshot a p))
    analyze_gas_price-Predicts snapshot a = elim (Bool-cases a.ready) [
      | inr waiting ↦ inl (waiting, waiting_round snapshot a waiting)
      | inl ready ↦
          let pool =
            collect_pending_tx fl a.latest_block_data.next_base_fee a.latest_block_data.gas_limit
              snapshot in
          let (pending, e) = pending_percentiles-some fl sort length-sort pool in
          inr (
            ready,
            (
              predicted pending a,
              ready_round snapshot a pending ready e,
              predicted-Predicts snapshot a pending e,
            ),
          )
    ]

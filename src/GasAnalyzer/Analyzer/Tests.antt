-- ===== src/GasAnalyzer/Analyzer/Tests.antt =====
-- Runs of the analyzer of internal/gasanalyzer/analyzer.go in hundredths.
use eth_mon_svr.Base.{ℕ, ◌≡◌, ◌⊎◌, refl, true, false, [], ◌∷◌, none, some, add64, pos}
use eth_mon_svr.Base.TextMap
use eth_mon_svr.Base.TextMap.{TextMap}
use eth_mon_svr.Ethereum.{Header}
use eth_mon_svr.Mempool.Types.{PendingTx}
use eth_mon_svr.GasAnalyzer.Hundredths.{hundredths, sort_by_tip, length-sort_by_tip}
use eth_mon_svr.GasAnalyzer.Targets.{gas_prediction_targets}
use eth_mon_svr.GasAnalyzer.Percentiles.{default_value}
use eth_mon_svr.GasAnalyzer.Pools.{block_percentiles}
use eth_mon_svr.GasAnalyzer.Analyzer.{
  GasPrediction, Analyzer, level_of, gas_level, new_analyzer, set_ready, update_block_result,
  update_result, analyze_gas_price, levels_from, predict, predict_levels, entries_of, blend,
  priority_of, update_latest_block_data, set_block_data,
}
use eth_mon_svr.GasAnalyzer.Analyzer.Cycle.{Predicts, analyze_gas_price-Predicts}
use eth_mon_svr.GasAnalyzer.Analyzer.Renewed.{is_named}
use eth_mon_svr.GasAnalyzer.Analyzer.Priced.{
  Steps, start, then_step, readies, levels_block, predicts, sees_block, predict_result-IsPriced,
}

abbrev fresh : Analyzer ℕ
fresh = new_analyzer hundredths 0 10

abbrev header : Header
header = record {
  number = some 7;
  time = 84;
  base_fee = some 100;
  gas_used = 15;
  gas_limit = 30;
  hash = 1;
}

abbrev at_block : Analyzer ℕ
at_block = set_block_data header 7 100 120 0 fresh

-- A block with no transactions gives the default levels.
abbrev leveled : Analyzer ℕ
leveled = update_block_result default_value.0 at_block

abbrev predicted : Analyzer ℕ
predicted = update_result hundredths 8 120 (set_ready leveled)

market_level :
    level_of "market" predicted.latest_result.predict_result ≡ some (gas_level 120 150000000)
unfolding update_result predict predict_levels entries_of blend priority_of level_of
    update_block_result levels_from default_value TextMap.get TextMap.put set_ready set_block_data
    new_analyzer
market_level = refl

block_seen : update_latest_block_data header 120 0 fresh ≡ some at_block
unfolding update_latest_block_data
block_seen = refl

empty_block : block_percentiles hundredths sort_by_tip [] ≡ some (default_value.0, 1000000)
unfolding block_percentiles default_value
empty_block = refl

run : Steps hundredths sort_by_tip fresh predicted
run =
    then_step
      (then_step
        (then_step (then_step start (sees_block header 120 0 block_seen))
          (levels_block [] default_value.0 1000000 empty_block))
        readies)
      (predicts 8 120)

predict_result-IsPriced_example :
    (is_named "market" (gas_prediction_targets hundredths) ≡ true)
    × ((gas_level 120 150000000).max_fee ≡ add64 predicted.latest_result.next_base_fee 150000000)
predict_result-IsPriced_example =
    predict_result-IsPriced hundredths sort_by_tip 0 10 run "market" (gas_level 120 150000000)
      market_level

abbrev waiting_tx : PendingTx
waiting_tx = record {
  hash = 1;
  from = 2;
  nonce = 0;
  tip_cap = 30;
  fee_cap = 200;
  gas_limit = 30;
  seen_block = 6;
  seen_block_time = 70;
  expire_block = 26;
  expire_index = pos 0;
  nonce_gap = false;
}

analyze_gas_price-Predicts_example :
    let a = set_ready leveled in
    ((a.ready ≡ false)
      × (analyze_gas_price hundredths sort_by_tip (waiting_tx ∷ []) a ≡ some (a, none)))
    ⊎ ((a.ready ≡ true)
        × ((p : GasPrediction) × (analyze_gas_price hundredths sort_by_tip (waiting_tx ∷ []) a
              ≡ some (record a { latest_result = p }, some p))
            × Predicts hundredths sort_by_tip length-sort_by_tip (waiting_tx ∷ []) a p))
analyze_gas_price-Predicts_example =
    analyze_gas_price-Predicts hundredths sort_by_tip length-sort_by_tip (waiting_tx ∷ [])
      (set_ready leveled)

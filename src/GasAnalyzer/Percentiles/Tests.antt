-- ===== src/GasAnalyzer/Percentiles/Tests.antt =====
-- Runs of internal/gasanalyzer/util.go in hundredths.
use eth_mon_svr.Base.{ℕ, ◌≡◌, refl, false, List, [], ◌∷◌, some, length, arith}
use eth_mon_svr.GasAnalyzer.Hundredths.{hundredths, hundredths-IsMonotone}
use eth_mon_svr.GasAnalyzer.Targets.{WeightedTip, gas_analysis_targets, prediction_groups}
use eth_mon_svr.GasAnalyzer.Percentiles.{
  last_tip, sum_from, total_weight, reach, scan, calculate_weighted_percentiles, add_points,
  calculate_weighted_value, build_levels, build_prediction,
}
use eth_mon_svr.GasAnalyzer.Percentiles.Reference.{
  tips_at, AreAscending, calculate_weighted_percentiles-tips_at, gas_analysis_targets-AreAscending,
}
use eth_mon_svr.GasAnalyzer.Percentiles.Ascending.{
  IsSorted, Ascends, calculate_weighted_percentiles-Ascends,
}

abbrev weighted : ℕ → ℕ → WeightedTip ℕ
weighted tip weight = record { tip = tip; weight = weight }

-- Tips 10, 20 and 40 with the weights 1, 2 and 1.
abbrev pool : List (WeightedTip ℕ)
pool = weighted 10 100 ∷ weighted 20 200 ∷ weighted 40 100 ∷ []

abbrev percentiles : List ℕ
percentiles = 10 ∷ 20 ∷ 20 ∷ 20 ∷ 20 ∷ 20 ∷ 20 ∷ 20 ∷ 20 ∷ 40 ∷ 40 ∷ 40 ∷ 40 ∷ []

run_percentiles : calculate_weighted_percentiles hundredths pool ≡ some percentiles
unfolding calculate_weighted_percentiles total_weight sum_from scan reach last_tip
run_percentiles = refl

run_prediction :
    build_prediction hundredths percentiles ≡ ("market", 20) ∷ ("fast", 25) ∷ ("urgent", 40) ∷ []
unfolding build_prediction build_levels prediction_groups calculate_weighted_value add_points
run_prediction = refl

weighs : hundredths.is_zero (total_weight hundredths pool) ≡ false
unfolding total_weight sum_from
weighs = refl

ascending : AreAscending hundredths (total_weight hundredths pool) (gas_analysis_targets hundredths)
unfolding total_weight sum_from
ascending = gas_analysis_targets-AreAscending hundredths hundredths-IsMonotone 400 refl

at_end : last_tip pool ≡ some 40
unfolding last_tip
at_end = refl

calculate_weighted_percentiles-tips_at_example :
    calculate_weighted_percentiles hundredths pool
    ≡ some (
        tips_at hundredths
          (total_weight hundredths pool)
          40
          0
          pool
          (gas_analysis_targets hundredths))
calculate_weighted_percentiles-tips_at_example =
    calculate_weighted_percentiles-tips_at hundredths pool weighs ascending at_end

sorted : IsSorted pool
sorted = ((omega arith, (omega arith, tt)), ((omega arith, tt), (tt, tt)))

calculate_weighted_percentiles-Ascends_example :
    (results : List ℕ) × (calculate_weighted_percentiles hundredths pool ≡ some results)
    × Ascends results
    × (length results ≡ 13)
calculate_weighted_percentiles-Ascends_example =
    calculate_weighted_percentiles-Ascends hundredths pool weighs ascending sorted at_end

-- ===== src/GasAnalyzer/Pools/Tests.antt =====
-- Runs of the pools of tips of internal/gasanalyzer/analyzer.go in hundredths.
use eth_mon_svr.Base.{
  ℕ, ◌≡◌, ◌-◌, ◌*◌, ◌⊎◌, ◌↔◌, refl, true, false, List, [], ◌∷◌, none, some, map, arith, min,
  u64_mod, String,
}
use eth_mon_svr.GasAnalyzer.Hundredths.{hundredths, sort_by_tip, length-sort_by_tip}
use eth_mon_svr.GasAnalyzer.Targets.{WeightedTip}
use eth_mon_svr.GasAnalyzer.Percentiles.{
  sum_from, total_weight, find_p95, calculate_outer_bound, double_tip, outer_above, search_first,
  search_between, is_above,
}
use eth_mon_svr.GasAnalyzer.Pools.{set_tip, cap_outliers, pending_percentiles, block_percentiles}
use eth_mon_svr.GasAnalyzer.Pools.P95.{p95_of}
use eth_mon_svr.GasAnalyzer.Pools.Outliers.{is_unbounded, cap_at, cap_outliers-cap_at}
use eth_mon_svr.GasAnalyzer.Pools.Panics.{block_percentiles-panics, pending_percentiles-some}

abbrev weighted : ℕ → ℕ → WeightedTip ℕ
weighted tip weight = record { tip = tip; weight = weight }

-- The 95th percentile is 20, and 900 is above twice that.
abbrev pool : List (WeightedTip ℕ)
pool = weighted 10 1000 ∷ weighted 20 9000 ∷ weighted 30 100 ∷ weighted 900 100 ∷ []

run_cap :
    cap_outliers (calculate_outer_bound hundredths pool) pool
    ≡ weighted 10 1000 ∷ weighted 20 9000 ∷ weighted 30 100 ∷ weighted 40 100 ∷ []
unfolding cap_outliers calculate_outer_bound total_weight sum_from find_p95 double_tip outer_above
    search_first search_between is_above set_tip
run_cap = refl

cap_outliers-cap_at_example :
    let capped = cap_outliers (calculate_outer_bound hundredths pool) pool in
    ((is_unbounded hundredths pool ≡ true) × (capped ≡ pool))
    ⊎ ((is_unbounded hundredths pool ≡ false)
        × (capped ≡ map (cap_at (min (2 * p95_of hundredths pool) (u64_mod - 1))) pool))
cap_outliers-cap_at_example =
    cap_outliers-cap_at hundredths pool
      (
        (omega arith, (omega arith, (omega arith, tt))),
        ((omega arith, (omega arith, tt)), ((omega arith, tt), (tt, tt))),
      )
      (omega arith, (omega arith, (omega arith, (omega arith, tt))))

block_percentiles-panics_example :
    (block_percentiles hundredths sort_by_tip (weighted 20 0 ∷ weighted 10 0 ∷ []) ≡ none) ↔ (
      hundredths.is_zero
        (total_weight hundredths (sort_by_tip (weighted 20 0 ∷ weighted 10 0 ∷ [])))
      ≡ true)
block_percentiles-panics_example =
    block_percentiles-panics hundredths sort_by_tip length-sort_by_tip (weighted 20 0)
      (weighted 10 0 ∷ [])

weightless_levels :
    (levels : List (String × ℕ)) × (pending_percentiles hundredths sort_by_tip
        (weighted 20 0 ∷ weighted 10 0 ∷ [])
      ≡ some levels)
weightless_levels =
    pending_percentiles-some hundredths sort_by_tip length-sort_by_tip
      (weighted 20 0 ∷ weighted 10 0 ∷ [])

-- ===== src/GasAnalyzer/Pools/P95.antt =====
-- The 95th percentile of `calculateOuterBound` in internal/gasanalyzer/util.go, written without its loop.
use eth_mon_svr.Base.{ℕ, ◌≡◌, refl, List, [], ◌∷◌}
use eth_mon_svr.GasAnalyzer.Float.{Float}
use eth_mon_svr.GasAnalyzer.Targets.{WeightedTip}
use eth_mon_svr.GasAnalyzer.Percentiles.{find_p95, total_weight, sum_from}
use eth_mon_svr.GasAnalyzer.Percentiles.Reference.{tip_at}

module _ {F : Type 0} (fl : Float F) where
  find_p95-tip_at :
      (limit sum_weight : F) (pool : List (WeightedTip F))
      → find_p95 fl limit sum_weight pool ≡ tip_at fl 0 limit sum_weight pool
  unfolding find_p95 tip_at
  find_p95-tip_at limit sum_weight [] = refl
  find_p95-tip_at limit sum_weight (tx ∷ txs) =
      rw (find_p95-tip_at limit (fl.add sum_weight tx.weight) txs) refl

  -- The weights of a pool, added up in order from `start` on.
  unfoldable pub weights_from : F → List (WeightedTip F) → F
  weights_from start [] = start
  weights_from start (tx ∷ txs) = weights_from (fl.add start tx.weight) txs

  sum_from-weights_from :
      (start : F) (pool : List (WeightedTip F)) → sum_from fl start pool ≡ weights_from start pool
  unfolding sum_from weights_from
  sum_from-weights_from start [] = refl
  sum_from-weights_from start (tx ∷ txs) = sum_from-weights_from (fl.add start tx.weight) txs

  pub total_weight-weights_from :
      (pool : List (WeightedTip F)) → total_weight fl pool ≡ weights_from (fl.lit 0 1) pool
  unfolding total_weight
  total_weight-weights_from pool = sum_from-weights_from (fl.lit 0 1) pool

  -- The tip of the 95th percentile, written without the code: the first tip at which the weights, added
  -- up in order with its own, reach 95 % of their sum, or 0 where none does.
  abbrev pub p95_of : List (WeightedTip F) → ℕ
  p95_of pool =
      tip_at fl 0 (fl.mul (weights_from (fl.lit 0 1) pool) (fl.lit 95 100)) (fl.lit 0 1) pool

  pub find_p95-p95_of :
      (pool : List (WeightedTip F))
      → find_p95 fl (fl.mul (total_weight fl pool) (fl.lit 95 100)) (fl.lit 0 1) pool ≡ p95_of pool
  find_p95-p95_of pool =
      rw
        (
          find_p95-tip_at (fl.mul (total_weight fl pool) (fl.lit 95 100)) (fl.lit 0 1) pool,
          total_weight-weights_from pool,
        )
        refl

-- ===== src/GasAnalyzer/Pools.antt =====
-- internal/gasanalyzer/analyzer.go and the weights of fee.go: the pools of tips and their percentiles.
-- `sort` is what `slices.SortFunc` makes of a pool by `Tip`; how it orders equal tips is open, so it is
-- a parameter. `none` is a panic.
pub mod Outliers
pub mod P95
pub mod Panics
pub mod Tests
use eth_mon_svr.Base.{
  ℕ, zero, suc, ◌+◌, ◌-◌, ◌≡◌, Bool, true, false, List, [], ◌∷◌, ◌++◌, map, Option, none, some, ltb,
  ◌==◌, if◌then◌else◌, length, get_elem?, take, drop, String,
}
use eth_mon_svr.Mempool.Types.{PendingTx}
use eth_mon_svr.GasAnalyzer.Fee.{effective_tip}
use eth_mon_svr.GasAnalyzer.Float.{Float}
use eth_mon_svr.GasAnalyzer.Targets.{WeightedTip, OuterInfo}
use eth_mon_svr.GasAnalyzer.Percentiles.{
  calculate_weighted_percentiles, build_prediction, calculate_outer_bound, default_value,
}

-- `poolData[i].Tip = upper`
unfoldable pub set_tip : {F : Type 0} → ℕ → WeightedTip F → WeightedTip F
set_tip upper tx = record tx { tip = upper }

-- The last `count` tips become the upper bound.
unfoldable pub cap_outliers : {F : Type 0} → OuterInfo → List (WeightedTip F) → List (WeightedTip F)
cap_outliers outer pool =
    if ltb 0 outer.count
    then (let start = length pool - outer.count in
        take start pool ++ map (set_tip outer.upper_bound) (drop start pool))
    else pool

module _ {F : Type 0} (fl : Float F) where
  -- `CalculateWeightForGasUsed` of fee.go
  unfoldable pub calculate_weight_for_gas_used : ℕ → ℕ → F
  calculate_weight_for_gas_used gas_used gas_limit =
      if gas_limit == 0
      then fl.lit 0 1
      else fl.sqrt (fl.div (fl.of_u64 gas_used) (fl.of_u64 gas_limit))

  -- `math.Exp(-lamda * age)` for the ages from `age` on; `negated` is the constant `-lamda`.
  unfoldable pub decay_from : F → ℕ → ℕ → List F
  decay_from negated age zero = []
  decay_from negated age (suc more) =
      fl.exp (fl.mul negated (fl.of_u64 age)) ∷ decay_from negated (age + 1) more

  unfoldable pub pending_weight : PendingTx → ℕ → F
  pending_weight tx block_gas_limit =
      let weight = calculate_weight_for_gas_used tx.gas_limit block_gas_limit in
      if tx.nonce_gap then fl.mul weight (fl.lit 1 2) else weight

  -- The source does not read the arguments `baseFee` and `cutoff`.
  unfoldable pub collect_pending_tx : ℕ → ℕ → List PendingTx → List (WeightedTip F)
  collect_pending_tx next_base_fee block_gas_limit [] = []
  collect_pending_tx next_base_fee block_gas_limit (tx ∷ txs) =
      let rest = collect_pending_tx next_base_fee block_gas_limit txs in
      let (tip, ok) = effective_tip tx.fee_cap tx.tip_cap next_base_fee in
      if ltb tx.fee_cap next_base_fee
      then rest
      else (if ok
          then record { tip = tip; weight = pending_weight tx block_gas_limit } ∷ rest
          else rest)

  unfoldable pub sorted_percentiles : List (WeightedTip F) → Option (List (String × ℕ))
  sorted_percentiles pool =
      elim (calculate_weighted_percentiles fl (cap_outliers (calculate_outer_bound fl pool) pool)) [
        | none ↦ none
        | some percentiles ↦ some (build_prediction fl percentiles)
      ]

  -- `percentiles[P20]`, after the levels.
  unfoldable pub with_cutoff : List ℕ → Option (List (String × ℕ) × ℕ)
  with_cutoff percentiles = elim (get_elem? percentiles 0) [
    | none ↦ none
    | some cutoff ↦ some (build_prediction fl percentiles, cutoff)
  ]

  module _ (sort : List (WeightedTip F) → List (WeightedTip F)) where
    unfoldable pub pending_percentiles : List (WeightedTip F) → Option (List (String × ℕ))
    pending_percentiles [] = some default_value.0
    pending_percentiles (tx ∷ txs) = sorted_percentiles (sort (tx ∷ txs))

    unfoldable pub block_percentiles : List (WeightedTip F) → Option (List (String × ℕ) × ℕ)
    block_percentiles [] = some default_value
    block_percentiles (tx ∷ txs) = elim (calculate_weighted_percentiles fl (sort (tx ∷ txs))) [
      | none ↦ none
      | some percentiles ↦ with_cutoff percentiles
    ]

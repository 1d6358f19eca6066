-- ===== src/GasAnalyzer/Percentiles.antt =====
-- internal/gasanalyzer/util.go. An index that only moves forward through an array is the part that is
-- left. `none` is a panic.
pub mod Ascending
pub mod Reference
pub mod Search
pub mod Tests
use eth_mon_svr.Base.{
  ℕ, zero, suc, ◌+◌, ◌-◌, ◌*◌, ◌/◌, ◌%◌, Bool, true, false, ◌&&◌, List, [], ◌∷◌, ◌++◌, map, Option,
  none, some, ltb, leb, ◌==◌, if◌then◌else◌, length, get_elem?, mul64, u64_mod, String,
}
use eth_mon_svr.GasAnalyzer.Float.{Float}
use eth_mon_svr.GasAnalyzer.Targets.{
  WeightedTip, WeightPoint, OuterInfo, TargetPercentile, gas_prediction_targets,
  gas_analysis_targets, prediction_groups,
}

-- The tip of the last transaction; of an empty list it would panic.
unfoldable pub last_tip : {F : Type 0} → List (WeightedTip F) → Option ℕ
last_tip [] = none
last_tip (x ∷ []) = some x.tip
last_tip (x ∷ y ∷ rest) = last_tip (y ∷ rest)

module _ {F : Type 0} (fl : Float F) where
  unfoldable pub sum_from : F → List (WeightedTip F) → F
  sum_from total [] = total
  sum_from total (tx ∷ txs) = sum_from (fl.add total tx.weight) txs

  unfoldable pub total_weight : List (WeightedTip F) → F
  total_weight pool_data = sum_from (fl.lit 0 1) pool_data

  -- The inner loop of `calculateWeightedPercentiles` over the targets that are left: the results that
  -- it writes, and what is left after it.
  unfoldable pub reach : F → F → ℕ → List F → List ℕ × List F
  reach total cumulative tip [] = ([], [])
  reach total cumulative tip (t ∷ ts) =
      let (done, left) = reach total cumulative tip ts in
      if fl.ge cumulative (fl.mul t total) then (tip ∷ done, left) else ([], t ∷ ts)

  -- The outer loop, which ends early where no target is left.
  unfoldable pub scan : F → F → List (WeightedTip F) → List F → List ℕ × List F
  scan total cumulative [] targets = ([], targets)
  scan total cumulative (tx ∷ txs) targets =
      let (done, left) = reach total (fl.add cumulative tx.weight) tx.tip targets in
      let (more, left') = scan total (fl.add cumulative tx.weight) txs left in
      elim left [ [] ↦ (done, []) | t ∷ ts ↦ (done ++ more, left') ]

  -- `nil` is the empty list.
  unfoldable pub calculate_weighted_percentiles : List (WeightedTip F) → Option (List ℕ)
  calculate_weighted_percentiles pool_data =
      let total = total_weight pool_data in
      let (done, left) = scan total (fl.lit 0 1) pool_data (gas_analysis_targets fl) in
      if fl.is_zero total
      then some []
      else elim (last_tip pool_data) [ none ↦ none | some tip ↦ some (done ++ map (λ t. tip) left) ]

  -- The loop of `calculateWeightedValue`: the sum and the weight.
  unfoldable pub add_points : List ℕ → List (WeightPoint F) → F × F → F × F
  add_points values [] acc = acc
  add_points values (wp ∷ group) (sum, weight) = elim (get_elem? values wp.index) [
    | none ↦ add_points values group (sum, weight)
    | some value ↦
        add_points values group
          (fl.add sum (fl.mul (fl.of_u64 value) wp.weight), fl.add weight wp.weight)
  ]

  unfoldable pub calculate_weighted_value : List ℕ → List (WeightPoint F) → ℕ
  calculate_weighted_value values group =
      let (sum, weight) = add_points values group (fl.lit 0 1, fl.lit 0 1) in
      if fl.is_zero weight then 0 else fl.to_u64 (fl.div sum weight)

  -- The map, in the order in which its keys are written.
  unfoldable pub build_levels : List ℕ → List (TargetPercentile F) → List (String × ℕ)
  build_levels percentiles [] = []
  build_levels percentiles (target ∷ targets) =
      let rest = build_levels percentiles targets in
      elim (prediction_groups fl target.group_key) [
        | [] ↦ rest
        | wp ∷ group ↦
            (
              target.name,
              calculate_weighted_value percentiles (prediction_groups fl target.group_key),
            )
            ∷ rest
      ]

  unfoldable pub build_prediction : List ℕ → List (String × ℕ)
  build_prediction percentiles = build_levels percentiles (gas_prediction_targets fl)

  -- The loop for `p95`, from a sum on; 0 if none is reached.
  unfoldable pub find_p95 : F → F → List (WeightedTip F) → ℕ
  find_p95 limit sum_weight [] = 0
  find_p95 limit sum_weight (tx ∷ txs) =
      let sum' = fl.add sum_weight tx.weight in
      let later = find_p95 limit sum' txs in if fl.ge sum' limit then tx.tip else later

-- `p95 * 2` in uint64, or the largest value where that wraps.
unfoldable pub double_tip : ℕ → ℕ
double_tip p95 = let upper = mul64 p95 2 in if ltb upper p95 then u64_mod - 1 else upper

unfoldable pub is_above : {F : Type 0} → ℕ → List (WeightedTip F) → ℕ → Bool
is_above upper pool_data i = elim (get_elem? pool_data i) [
  | none ↦ false
  | some tx ↦ ltb upper tx.tip
]

-- `sort.Search`, between `i` and `j`, for so many rounds at most.
unfoldable pub search_between : ℕ → (ℕ → Bool) → ℕ → ℕ → ℕ
search_between zero f i j = i
search_between (suc fuel) f i j =
    let h = (i + j) / 2 in
    let low = search_between fuel f i h in
    let high = search_between fuel f (h + 1) j in if ltb i j then (if f h then low else high) else i

unfoldable pub search_first : ℕ → (ℕ → Bool) → ℕ
search_first n f = search_between (n + 1) f 0 n

unfoldable pub outer_above : {F : Type 0} → ℕ → List (WeightedTip F) → OuterInfo
outer_above upper pool_data = record {
  count = length pool_data - search_first (length pool_data) (is_above upper pool_data);
  upper_bound = upper;
}

module _ {F : Type 0} (fl : Float F) where
  unfoldable pub calculate_outer_bound : List (WeightedTip F) → OuterInfo
  calculate_outer_bound pool_data =
      let total_sum = total_weight fl pool_data in
      let p95 = find_p95 fl (fl.mul total_sum (fl.lit 95 100)) (fl.lit 0 1) pool_data in
      if length pool_data == 0
      then record { count = 0; upper_bound = 0 }
      else if fl.is_zero total_sum
      then record { count = 0; upper_bound = 0 }
      else if p95 == 0
      then record { count = 0; upper_bound = 0 }
      else outer_above (double_tip p95) pool_data

unfoldable pub default_value : List (String × ℕ) × ℕ
default_value = (
  ("low", 500000000) ∷ ("market", 750000000) ∷ ("fast", 1000000000) ∷ ("urgent", 1500000000) ∷ [],
  1000000,
)

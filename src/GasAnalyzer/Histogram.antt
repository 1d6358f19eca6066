-- ===== src/GasAnalyzer/Histogram.antt =====
-- internal/gasanalyzer/histogram.go: the gas of a block by ranges of tips.
pub mod Classified
pub mod Buckets
pub mod Prices
pub mod Tests
use eth_mon_svr.Base.{
  ℕ, zero, suc, ◌+◌, ◌-◌, Bool, true, false, ◌&&◌, ◌||◌, List, [], ◌∷◌, map, Option, none, some,
  ltb, leb, ◌==◌, if◌then◌else◌, length, get_elem?, set, String, same_text, add64,
}
use eth_mon_svr.Base.TextMap
use eth_mon_svr.Base.TextMap.{TextMap}
use eth_mon_svr.GasAnalyzer.Float.{Float}
use eth_mon_svr.GasAnalyzer.Targets.{GasTip, TargetPercentile}

pub record Bucket : Type 0 where
  pub min_tip : ℕ
  pub max_tip : ℕ
  pub count : ℕ
  pub gas_sum : ℕ

abbrev pub bucket_of : ℕ → ℕ → Bucket
bucket_of min_tip max_tip = record { min_tip = min_tip; max_tip = max_tip; count = 0; gas_sum = 0 }

-- `ranges` of `NewHistogram`
abbrev pub ranges : List ℕ
ranges =
    1000000 ∷ 2000000 ∷ 5000000 ∷ 10000000 ∷ 20000000 ∷ 50000000 ∷ 100000000 ∷ 200000000 ∷ 500000000
    ∷ 1000000000 ∷ 2000000000 ∷ 5000000000 ∷ 10000000000 ∷ 20000000000 ∷ []

unfoldable pub buckets_between : List ℕ → List Bucket
buckets_between [] = []
buckets_between (low ∷ []) = []
buckets_between (low ∷ high ∷ rest) = bucket_of low high ∷ buckets_between (high ∷ rest)

-- `NewHistogram`; a histogram is its buckets.
unfoldable pub new_histogram : List Bucket
new_histogram = buckets_between ranges

unfoldable pub is_in : ℕ → Bucket → Bool
is_in tip b = leb b.min_tip tip && ltb tip b.max_tip

-- The loop of `bucketIndex`, from the index `i` on; `fallback` is `len(h.Buckets) - 1`.
unfoldable pub index_from : ℕ → ℕ → ℕ → List Bucket → ℕ
index_from tip fallback i [] = fallback
index_from tip fallback i (b ∷ buckets) =
    let later = index_from tip fallback (i + 1) buckets in if is_in tip b then i else later

-- `bucketIndex` on buckets that are not empty, where `length - 1` does not stop at 0.
unfoldable pub bucket_index : ℕ → List Bucket → ℕ
bucket_index tip buckets = index_from tip (length buckets - 1) 0 buckets

-- `h.Buckets[i].count++` and `h.Buckets[i].gasSum += gas`
unfoldable pub count_gas : ℕ → Bucket → Bucket
count_gas gas b = record b { count = b.count + 1; gas_sum = add64 b.gas_sum gas }

-- One round of `Add`. Out of range (`none`) it would panic.
unfoldable pub add_tx : GasTip → List Bucket → Option (List Bucket)
add_tx tx buckets =
    let i = bucket_index tx.tip buckets in
    elim (get_elem? buckets i) [ none ↦ none | some b ↦ some (set buckets i (count_gas tx.gas b)) ]

unfoldable pub add : List GasTip → List Bucket → Option (List Bucket)
add [] buckets = some buckets
add (tx ∷ txs) buckets = elim (add_tx tx buckets) [ none ↦ none | some buckets' ↦ add txs buckets' ]

unfoldable pub reset : List Bucket → List Bucket
reset [] = []
reset (b ∷ buckets) = record b { count = 0; gas_sum = 0 } ∷ reset buckets

-- The errors of `PercentileGas`, all by `errors.New`.
pub data HistogramError : Type 0 where
  no_targets : HistogramError
  no_buckets : HistogramError
  no_data : HistogramError

pub data Result : Type 0 where
  failed : HistogramError → Result
  prices : TextMap ℕ → Result

-- `buckets[len(buckets)-1].maxTip`; it is not read where there is no bucket.
unfoldable pub last_max : List Bucket → ℕ
last_max [] = 0
last_max (b ∷ []) = b.max_tip
last_max (b ∷ c ∷ rest) = last_max (c ∷ rest)

module _ {F : Type 0} (fl : Float F) where
  unfoldable pub sum_gas : F → List Bucket → F
  sum_gas total [] = total
  sum_gas total (b ∷ buckets) = sum_gas (fl.add total (fl.of_u64 b.gas_sum)) buckets

  -- `ratio`, between 0 and 1; `a < b` is `gt b a`.
  unfoldable pub clamp : F → F
  clamp ratio =
      let low = if fl.gt (fl.lit 0 1) ratio then fl.lit 0 1 else ratio in
      if fl.gt low (fl.lit 1 1) then fl.lit 1 1 else low

  -- The price within the bucket at which the target is reached.
  unfoldable pub price_in : F → F → Bucket → ℕ
  price_in target_value cur_gas_sum b =
      let ratio = clamp (fl.div (fl.sub target_value cur_gas_sum) (fl.of_u64 b.gas_sum)) in
      let tip =
        add64 b.min_tip (fl.to_u64 (fl.round (fl.mul (fl.of_u64 (b.max_tip - b.min_tip)) ratio))) in
      if (b.gas_sum == 0) || leb b.max_tip b.min_tip
      then b.min_tip
      else (if ltb b.max_tip tip then b.max_tip else tip)

  -- The inner loop over the buckets that are left; `top` is the price where none reaches the target.
  unfoldable pub price_from : ℕ → F → F → List Bucket → ℕ
  price_from top target_value cur_gas_sum [] = top
  price_from top target_value cur_gas_sum (b ∷ buckets) =
      let sum' = fl.add cur_gas_sum (fl.of_u64 b.gas_sum) in
      let later = price_from top target_value sum' buckets in
      if fl.ge sum' target_value then price_in target_value cur_gas_sum b else later

  unfoldable pub price_at : List Bucket → F → F → ℕ
  price_at buckets total_gas percentile =
      price_from (last_max buckets) (fl.mul total_gas percentile) (fl.lit 0 1) buckets

  unfoldable pub prices_at : List Bucket → F → List (TargetPercentile F) → TextMap ℕ → TextMap ℕ
  prices_at buckets total_gas [] result = result
  prices_at buckets total_gas (target ∷ targets) result =
      prices_at buckets total_gas targets
        (TextMap.put target.name (price_at buckets total_gas target.percentile) result)

  unfoldable pub percentile_gas : List (TargetPercentile F) → List Bucket → Result
  percentile_gas targets buckets =
      let total_gas = sum_gas (fl.lit 0 1) buckets in
      if length targets == 0
      then failed no_targets
      else if length buckets == 0
      then failed no_buckets
      else if fl.is_zero total_gas
      then failed no_data
      else prices (prices_at buckets total_gas targets [])

-- ===== src/GasAnalyzer/Histogram/Tests.antt =====
-- Runs of internal/gasanalyzer/histogram.go in hundredths.
use eth_mon_svr.Base.{
  ℕ, zero, suc, ◌≡◌, ◌≤◌, ◌<◌, ◌⊎◌, refl, List, [], ◌∷◌, some, arith, get_elem?, All, u64_mod,
}
use eth_mon_svr.Base.TextMap
use eth_mon_svr.Base.TextMap.{TextMap}
use eth_mon_svr.GasAnalyzer.Hundredths.{hundredths}
use eth_mon_svr.GasAnalyzer.Targets.{GasTip, gas_prediction_targets}
use eth_mon_svr.GasAnalyzer.Histogram.{
  Bucket, bucket_of, new_histogram, bucket_index, add, prices, percentile_gas, is_in, index_from,
  add_tx, count_gas, sum_gas, prices_at, price_at, price_from, price_in, clamp, last_max, reset,
}
use eth_mon_svr.GasAnalyzer.Histogram.Classified.{Classifies, bucket_index-Classifies}
use eth_mon_svr.GasAnalyzer.Histogram.Buckets.{add-grown, tally, gas_in, grown}
use eth_mon_svr.GasAnalyzer.Histogram.Prices.{
  IsUpTo, percentile_gas-IsUpTo, bucket_index-new_histogram,
}

abbrev two_buckets : List Bucket
two_buckets = bucket_of 10 20 ∷ bucket_of 20 40 ∷ []

abbrev txs : List GasTip
txs = record { tip = 15; gas = 3 } ∷ record { tip = 30; gas = 1 } ∷ record { tip = 5; gas = 4 } ∷ []

-- A tip below every range is counted in the last bucket.
run_add :
    add txs two_buckets
    ≡ some (
        record (bucket_of 10 20) { count = 1; gas_sum = 3 }
        ∷ record (bucket_of 20 40) { count = 2; gas_sum = 5 }
        ∷ [])
unfolding add add_tx bucket_index index_from is_in count_gas
run_add = refl

abbrev filled : List Bucket
filled =
    record (bucket_of 10 20) { count = 1; gas_sum = 3 }
    ∷ record (bucket_of 20 40) { count = 2; gas_sum = 5 }
    ∷ []

abbrev answer : TextMap ℕ
answer = ("market", 24) ∷ ("fast", 32) ∷ ("urgent", 37) ∷ []

run_prices : percentile_gas hundredths (gas_prediction_targets hundredths) filled ≡ prices answer
unfolding percentile_gas sum_gas prices_at price_at price_from price_in clamp last_max TextMap.put
run_prices = refl

run_reset : reset filled ≡ two_buckets
unfolding reset
run_reset = refl

classified : Classifies 30 two_buckets (bucket_index 30 two_buckets)
classified = bucket_index-Classifies 30 two_buckets (omega arith)

add-grown_example :
    (buckets : List Bucket) × (add txs two_buckets ≡ some buckets)
    × ((i : ℕ) (b : Bucket)
        → get_elem? two_buckets i ≡ some b
        → get_elem? buckets i ≡ some (grown (tally two_buckets i txs) (gas_in two_buckets i txs) b))
add-grown_example = add-grown txs two_buckets (omega arith) words
  where
    words : (i : ℕ) (b : Bucket) → get_elem? two_buckets i ≡ some b → b.gas_sum < u64_mod
    words zero b e = ground arith
    words (suc zero) b e = ground arith
    words (suc (suc i)) b e = absurd (cc)

answer-IsUpTo : All (IsUpTo 40) answer
answer-IsUpTo =
    percentile_gas-IsUpTo hundredths 40 (gas_prediction_targets hundredths) filled answer
      ((omega arith, omega arith), ((omega arith, omega arith), tt)) run_prices

bucket_index-new_histogram_example :
    ((1000000 ≤ 7)
      × (7 < 20000000000)
      × ((b : Bucket) × (get_elem? new_histogram (bucket_index 7 new_histogram) ≡ some b)
          × (b.min_tip ≤ 7)
          × (7 < b.max_tip)))
    ⊎ (((7 < 1000000) ⊎ (20000000000 ≤ 7)) × (bucket_index 7 new_histogram ≡ 12))
bucket_index-new_histogram_example = bucket_index-new_histogram 7

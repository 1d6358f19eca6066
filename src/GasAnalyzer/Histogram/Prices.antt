-- ===== src/GasAnalyzer/Histogram/Prices.antt =====
-- `bucketIndex` on the ranges of `NewHistogram`, and `PercentileGas` of
-- internal/gasanalyzer/histogram.go.
use eth_mon_svr.Base.{
  ℕ, ◌≤◌, ◌<◌, ◌≡◌, ◌⊎◌, inl, inr, refl, subst, false, List, [], ◌∷◌, some, length, String,
  same_text, get_elem?, All-get_elem?, arith, Bool-cases, All, ◌==◌,
}
use eth_mon_svr.Base.TextMap
use eth_mon_svr.Base.TextMap.{TextMap}
use eth_mon_svr.GasAnalyzer.Float.{Float}
use eth_mon_svr.GasAnalyzer.Targets.{TargetPercentile}
use eth_mon_svr.GasAnalyzer.Histogram.Classified.{bucket_index-Classifies}
use eth_mon_svr.GasAnalyzer.Histogram.{
  Bucket, buckets_between, new_histogram, is_in, bucket_index, prices, last_max, sum_gas, price_in,
  price_from, price_at, prices_at, percentile_gas,
}

-- On a new histogram a tip from 1,000,000 up to 20,000,000,000 (not included) gets a bucket whose range
-- holds it, and every other tip, those below 1,000,000 too, gets the last and highest bucket.
pub bucket_index-new_histogram :
    (tip : ℕ)
    → let i = bucket_index tip new_histogram in
      ((1000000 ≤ tip)
        × (tip < 20000000000)
        × ((b : Bucket) × (get_elem? new_histogram i ≡ some b)
            × (b.min_tip ≤ tip)
            × (tip < b.max_tip)))
      ⊎ (((tip < 1000000) ⊎ (20000000000 ≤ tip)) × (i ≡ 12))
unfolding new_histogram buckets_between is_in
bucket_index-new_histogram tip =
    let found = bucket_index-Classifies tip new_histogram (omega arith) in
    elim found.held [
      | inl (b, at, held) ↦
          let limits =
            All-get_elem? (λ b. (1000000 ≤ b.min_tip) × (b.max_tip ≤ 20000000000)) new_histogram
              (bucket_index tip new_histogram) b in_ranges at in
          inl (
            ground (arith, held, limits),
            ground (arith, held, limits),
            (b, at, ground (arith, held), ground (arith, held)),
          )
      | inr (last, missed) ↦ inr (outside missed, omega (arith, last))
    ]
  where
    in_ranges : All (λ b. (1000000 ≤ b.min_tip) × (b.max_tip ≤ 20000000000)) new_histogram
    in_ranges = ground arith

    outside :
        ((j : ℕ) (b : Bucket) → get_elem? new_histogram j ≡ some b → is_in tip b ≡ false)
        → (tip < 1000000) ⊎ (20000000000 ≤ tip)
    outside missed = ground (
      arith,
      missed 0 _ refl,
      missed 1 _ refl,
      missed 2 _ refl,
      missed 3 _ refl,
      missed 4 _ refl,
      missed 5 _ refl,
      missed 6 _ refl,
      missed 7 _ refl,
      missed 8 _ refl,
      missed 9 _ refl,
      missed 10 _ refl,
      missed 11 _ refl,
      missed 12 _ refl,
    )

-- A price up to `bound`.
abbrev pub IsUpTo : ℕ → String × ℕ → Type 0
IsUpTo bound entry = entry.1 ≤ bound

-- The ranges end at most at `bound`.
abbrev pub AreUpTo : ℕ → List Bucket → Type 0
AreUpTo bound = All (λ b. (b.min_tip ≤ bound) × (b.max_tip ≤ bound))

put-IsUpTo :
    (bound : ℕ) (name : String) (v : ℕ) (result : TextMap ℕ)
    → v ≤ bound
    → All (IsUpTo bound) result
    → All (IsUpTo bound) (TextMap.put name v result)
unfolding TextMap.put
put-IsUpTo bound name v [] le all = (le, tt)
put-IsUpTo bound name v ((other, w) ∷ rest) le all = elim (Bool-cases (same_text other name)) [
  | inl same ↦ rw same (le, all.1)
  | inr differs ↦ rw differs (all.0, put-IsUpTo bound name v rest le all.1)
]

last_max-le :
    (bound : ℕ) (b : Bucket) (buckets : List Bucket)
    → AreUpTo bound (b ∷ buckets)
    → last_max (b ∷ buckets) ≤ bound
unfolding last_max
last_max-le bound b [] all = all.0.1
last_max-le bound b (c ∷ rest) all = last_max-le bound c rest all.1

module _ {F : Type 0} (fl : Float F) where
  price_in-le :
      (bound : ℕ) (target_value cur_gas_sum : F) (b : Bucket)
      → (b.min_tip ≤ bound) × (b.max_tip ≤ bound)
      → price_in fl target_value cur_gas_sum b ≤ bound
  unfolding price_in
  price_in-le bound target_value cur_gas_sum b (low, high) = ground arith

  price_from-le :
      (bound top : ℕ) (target_value cur_gas_sum : F) (buckets : List Bucket)
      → top ≤ bound
      → AreUpTo bound buckets
      → price_from fl top target_value cur_gas_sum buckets ≤ bound
  unfolding price_from
  price_from-le bound top target_value cur_gas_sum [] le all = le
  price_from-le bound top target_value cur_gas_sum (b ∷ buckets) le all =
      let sum' = fl.add cur_gas_sum (fl.of_u64 b.gas_sum) in
      elim (Bool-cases (fl.ge sum' target_value)) [
        | inl reached ↦ rw reached (price_in-le bound target_value cur_gas_sum b all.0)
        | inr before ↦ rw before (price_from-le bound top target_value sum' buckets le all.1)
      ]

  prices_at-IsUpTo :
      (bound : ℕ) (b : Bucket) (buckets : List Bucket) (total_gas : F)
      (targets : List (TargetPercentile F)) (result : TextMap ℕ)
      → AreUpTo bound (b ∷ buckets)
      → All (IsUpTo bound) result
      → All (IsUpTo bound) (prices_at fl (b ∷ buckets) total_gas targets result)
  unfolding prices_at price_at
  prices_at-IsUpTo bound b buckets total_gas [] result all written = written
  prices_at-IsUpTo bound b buckets total_gas (target ∷ targets) result all written =
      prices_at-IsUpTo bound b buckets total_gas targets
        (TextMap.put target.name (price_at fl (b ∷ buckets) total_gas target.percentile) result) all
        (put-IsUpTo bound target.name (price_at fl (b ∷ buckets) total_gas target.percentile) result
          (price_from-le bound (last_max (b ∷ buckets)) (fl.mul total_gas target.percentile)
            (fl.lit 0 1) (b ∷ buckets) (last_max-le bound b buckets all) all)
          written)

  -- Whatever the floating-point arithmetic gives, no price that `PercentileGas` returns is above a bound
  -- on the ranges of the buckets.
  pub percentile_gas-IsUpTo :
      (bound : ℕ) (targets : List (TargetPercentile F)) (buckets : List Bucket) (result : TextMap ℕ)
      → AreUpTo bound buckets
      → percentile_gas fl targets buckets ≡ prices result
      → All (IsUpTo bound) result
  unfolding percentile_gas
  percentile_gas-IsUpTo bound targets [] result all e = absurd (ground arith)
  percentile_gas-IsUpTo bound targets (b ∷ buckets) result all e =
      let total_gas = sum_gas fl (fl.lit 0 1) (b ∷ buckets) in
      elim (Bool-cases (length targets == 0)) [
        | inl bare ↦ absurd (ground arith)
        | inr given ↦ elim (Bool-cases (fl.is_zero total_gas)) [
          | inl nothing ↦ absurd (ground arith)
          | inr burnt ↦
              let same : prices_at fl (b ∷ buckets) total_gas targets [] ≡ result = ground arith in
              subst (All (IsUpTo bound)) same
                (prices_at-IsUpTo bound b buckets total_gas targets [] all tt)
        ]
      ]

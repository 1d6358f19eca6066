-- ===== src/GasAnalyzer/Histogram/Buckets.antt =====
-- `Add` of internal/gasanalyzer/histogram.go.
use eth_mon_svr.Base.{
  ℕ, zero, suc, ◌+◌, ◌-◌, ◌%◌, ◌<◌, ◌≡◌, refl, ap, sym, ◌∙◌, Bool, true, false, List, [], ◌∷◌, some,
  length, get_elem?, get_elem?-of_lt, set, arith, if◌then◌else◌, u64_mod, ◌==◌, length-set,
  get_elem?-lt,
}
use eth_mon_svr.GasAnalyzer.Targets.{GasTip}
use eth_mon_svr.GasAnalyzer.Histogram.{
  Bucket, is_in, index_from, bucket_index, count_gas, add_tx, add,
}
use eth_mon_svr.GasAnalyzer.Histogram.Classified.{bucket_index-Classifies}

count_gas-is_in : (tip gas : ℕ) (b : Bucket) → is_in tip (count_gas gas b) ≡ is_in tip b
unfolding is_in count_gas
count_gas-is_in tip gas b = refl

-- Counting changes no index.
index_from-set :
    (tip fallback i k gas : ℕ) (buckets : List Bucket) (b : Bucket)
    → get_elem? buckets k ≡ some b
    → index_from tip fallback i (set buckets k (count_gas gas b))
      ≡ index_from tip fallback i buckets
unfolding index_from
index_from-set tip fallback i k gas [] b e = absurd (cc)
index_from-set tip fallback i zero gas (c ∷ buckets) b e =
    let same : c ≡ b = cc in ground (arith, same, count_gas-is_in tip gas b)
index_from-set tip fallback i (suc k) gas (c ∷ buckets) b e =
    ground (arith, index_from-set tip fallback (i + 1) k gas buckets b e)

bucket_index-set :
    (tip k gas : ℕ) (buckets : List Bucket) (b : Bucket)
    → get_elem? buckets k ≡ some b
    → bucket_index tip (set buckets k (count_gas gas b)) ≡ bucket_index tip buckets
unfolding bucket_index
bucket_index-set tip k gas buckets b e =
    ap (λ n. index_from tip (n - 1) 0 (set buckets k (count_gas gas b)))
      (length-set buckets k (count_gas gas b))
    ∙ index_from-set tip (length buckets - 1) 0 k gas buckets b e

-- How many of the transactions get the index `i`, and their gas.
unfoldable pub tally : List Bucket → ℕ → List GasTip → ℕ
tally buckets i [] = 0
tally buckets i (tx ∷ txs) =
    let rest = tally buckets i txs in if bucket_index tx.tip buckets == i then 1 + rest else rest

unfoldable pub gas_in : List Bucket → ℕ → List GasTip → ℕ
gas_in buckets i [] = 0
gas_in buckets i (tx ∷ txs) =
    let rest = gas_in buckets i txs in
    if bucket_index tx.tip buckets == i then tx.gas + rest else rest

-- The bucket after so many more transactions with so much more gas.
abbrev pub grown : ℕ → ℕ → Bucket → Bucket
grown more gas b = record b { count = b.count + more; gas_sum = (b.gas_sum + gas) % u64_mod }

tally-set :
    (i k gas : ℕ) (buckets : List Bucket) (b : Bucket) (txs : List GasTip)
    → get_elem? buckets k ≡ some b
    → tally (set buckets k (count_gas gas b)) i txs ≡ tally buckets i txs
unfolding tally
tally-set i k gas buckets b [] e = refl
tally-set i k gas buckets b (tx ∷ txs) e =
    ground (arith, tally-set i k gas buckets b txs e, bucket_index-set tx.tip k gas buckets b e)

gas_in-set :
    (i k gas : ℕ) (buckets : List Bucket) (b : Bucket) (txs : List GasTip)
    → get_elem? buckets k ≡ some b
    → gas_in (set buckets k (count_gas gas b)) i txs ≡ gas_in buckets i txs
unfolding gas_in
gas_in-set i k gas buckets b [] e = refl
gas_in-set i k gas buckets b (tx ∷ txs) e =
    ground (arith, gas_in-set i k gas buckets b txs e, bucket_index-set tx.tip k gas buckets b e)

-- The sums are uint64.
abbrev pub AreWords : List Bucket → Type 0
AreWords buckets = (i : ℕ) (b : Bucket) → get_elem? buckets i ≡ some b → b.gas_sum < u64_mod

count_gas-at :
    (buckets : List Bucket) (k i gas : ℕ) (b c : Bucket)
    → get_elem? buckets k ≡ some b
    → get_elem? buckets i ≡ some c
    → get_elem? (set buckets k (count_gas gas b)) i ≡ some (if k == i then count_gas gas c else c)
count_gas-at [] k i gas b c e e' = absurd (cc)
count_gas-at (x ∷ rest) zero zero gas b c e e' =
    let same : b ≡ c = cc in ap (λ d. some (count_gas gas d)) same
count_gas-at (x ∷ rest) zero (suc i) gas b c e e' = ground arith
count_gas-at (x ∷ rest) (suc k) zero gas b c e e' = ground arith
count_gas-at (x ∷ rest) (suc k) (suc i) gas b c e e' =
    ground (arith, count_gas-at rest k i gas b c e e')

same_bucket :
    (b : Bucket) {n m g h : ℕ}
    → n ≡ m
    → g ≡ h
    → record b { count = n; gas_sum = g } ≡ record b { count = m; gas_sum = h }
same_bucket b {n} {m} {g} {h} e e' =
    ap (λ x. record b { count = x; gas_sum = g }) e
    ∙ ap (λ x. record b { count = m; gas_sum = x }) e'

grown-count_gas :
    (more gas gas' : ℕ) (b : Bucket)
    → grown more gas' (count_gas gas b) ≡ grown (1 + more) (gas + gas') b
unfolding count_gas
grown-count_gas more gas gas' b =
    let counts : b.count + 1 + more ≡ b.count + (1 + more) = omega arith in
    let sums : ((b.gas_sum + gas) % u64_mod + gas') % u64_mod
        ≡ (b.gas_sum + (gas + gas')) % u64_mod =
      omega arith in
    same_bucket b counts sums

add_tx-some :
    (tx : GasTip) (buckets : List Bucket) (b : Bucket)
    → get_elem? buckets (bucket_index tx.tip buckets) ≡ some b
    → add_tx tx buckets ≡ some (set buckets (bucket_index tx.tip buckets) (count_gas tx.gas b))
unfolding add_tx
add_tx-some tx buckets b e = rw (e, add_tx) refl

grown-zero : (b : Bucket) → b.gas_sum < u64_mod → grown 0 0 b ≡ b
grown-zero b lt =
    let counts : b.count + 0 ≡ b.count = omega arith in
    let sums : (b.gas_sum + 0) % u64_mod ≡ b.gas_sum = omega arith in same_bucket b counts sums

AreWords-set :
    (buckets : List Bucket) (k gas : ℕ) (b : Bucket)
    → AreWords buckets
    → get_elem? buckets k ≡ some b
    → AreWords (set buckets k (count_gas gas b))
unfolding count_gas
AreWords-set buckets k gas b words e i c at =
    let left = length-set buckets k (count_gas gas b) in
    let lt = get_elem?-lt (set buckets k (count_gas gas b)) i c at in
    let (d, at') = get_elem?-of_lt buckets i (omega (arith, left, lt)) in
    ground (arith, count_gas-at buckets k i gas b d e at', at, words i d at')

grown-step :
    (same : Bool) (more gas gas' : ℕ) (c : Bucket)
    → grown more gas' (if same then count_gas gas c else c)
      ≡ grown (if same then 1 + more else more) (if same then gas + gas' else gas') c
grown-step true more gas gas' c = grown-count_gas more gas gas' c
grown-step false more gas gas' c = refl

grown_tallies :
    (tx : GasTip) (txs : List GasTip) (buckets : List Bucket) (i : ℕ) (b c : Bucket)
    → let k = bucket_index tx.tip buckets in
      let mid = set buckets k (count_gas tx.gas b) in
      get_elem? buckets k ≡ some b
      → grown (tally mid i txs) (gas_in mid i txs) (if k == i then count_gas tx.gas c else c)
        ≡ grown (tally buckets i (tx ∷ txs)) (gas_in buckets i (tx ∷ txs)) c
unfolding tally gas_in
grown_tallies tx txs buckets i b c at =
    let k = bucket_index tx.tip buckets in
    let here = if k == i then count_gas tx.gas c else c in
    same_bucket here (ap (λ n. here.count + n) (tally-set i k tx.gas buckets b txs at))
      (ap (λ g. (here.gas_sum + g) % u64_mod) (gas_in-set i k tx.gas buckets b txs at))
    ∙ grown-step (k == i) (tally buckets i txs) tx.gas (gas_in buckets i txs) c

add-cons :
    (tx : GasTip) (txs : List GasTip) (buckets mid : List Bucket)
    → add_tx tx buckets ≡ some mid
    → add (tx ∷ txs) buckets ≡ add txs mid
unfolding add
add-cons tx txs buckets mid e = rw (e, add) refl

-- `Add` on buckets that are not empty, with sums that are uint64: it does not panic, and it adds to each
-- bucket the number of the transactions that `bucketIndex` gives its index, and their gas modulo 2^64.
pub add-grown :
    (txs : List GasTip) (buckets : List Bucket)
    → 0 < length buckets
    → AreWords buckets
    → (buckets' : List Bucket) × (add txs buckets ≡ some buckets')
      × ((i : ℕ) (b : Bucket)
          → get_elem? buckets i ≡ some b
          → get_elem? buckets' i ≡ some (grown (tally buckets i txs) (gas_in buckets i txs) b))
unfolding add tally gas_in
add-grown [] buckets pos words =
    (buckets, refl, λ i b e. e ∙ ap some (sym (grown-zero b (words i b e))))
add-grown (tx ∷ txs) buckets pos words =
    let k = bucket_index tx.tip buckets in
    let (b, at) = get_elem?-of_lt buckets k (bucket_index-Classifies tx.tip buckets pos).in_range in
    let mid = set buckets k (count_gas tx.gas b) in
    let (after, run, each) =
      add-grown txs mid (omega (arith, length-set buckets k (count_gas tx.gas b)))
        (AreWords-set buckets k tx.gas b words at) in
    (
      after,
      add-cons tx txs buckets mid (add_tx-some tx buckets b at) ∙ run,
      λ i c e.
          each i (if k == i then count_gas tx.gas c else c)
            (count_gas-at buckets k i tx.gas b c at e)
          ∙ ap some (grown_tallies tx txs buckets i b c at),
    )

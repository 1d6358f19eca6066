-- ===== src/GasAnalyzer/Histogram/Classified.antt =====
-- `bucketIndex` of internal/gasanalyzer/histogram.go.
use eth_mon_svr.Base.{
  ℕ, zero, suc, ◌+◌, ◌-◌, ◌<◌, ◌≡◌, ◌⊎◌, inl, inr, refl, sym, true, false, List, [], ◌∷◌, some,
  length, get_elem?, arith, Bool-cases, get_elem?-lt, subst,
}
use eth_mon_svr.GasAnalyzer.Histogram.{Bucket, is_in, index_from, bucket_index}

-- The index that a tip gets: that of the first bucket whose range holds it, or the last one where none
-- does.
pub record Classifies (tip : ℕ) (buckets : List Bucket) (i : ℕ) : Type 0 where
  pub in_range : i < length buckets
  pub none_below : (j : ℕ) (b : Bucket) → j < i → get_elem? buckets j ≡ some b → is_in tip b ≡ false
  pub held :
      ((b : Bucket) × (get_elem? buckets i ≡ some b) × (is_in tip b ≡ true))
      ⊎ ((suc i ≡ length buckets)
          × ((j : ℕ) (b : Bucket) → get_elem? buckets j ≡ some b → is_in tip b ≡ false))

-- What `index_from` finds from the index `i` on.
abbrev Finds : ℕ → ℕ → ℕ → List Bucket → ℕ → Type 0
Finds tip fallback i buckets k =
    ((j : ℕ) × (b : Bucket) × (k ≡ i + j)
      × (get_elem? buckets j ≡ some b)
      × (is_in tip b ≡ true)
      × ((l : ℕ) (c : Bucket) → l < j → get_elem? buckets l ≡ some c → is_in tip c ≡ false))
    ⊎ ((k ≡ fallback) × ((l : ℕ) (c : Bucket) → get_elem? buckets l ≡ some c → is_in tip c ≡ false))

index_from-Finds :
    (tip fallback i : ℕ) (buckets : List Bucket)
    → Finds tip fallback i buckets (index_from tip fallback i buckets)
unfolding index_from
index_from-Finds tip fallback i [] = inr (refl, λ l c e. absurd (cc))
index_from-Finds tip fallback i (b ∷ buckets) = elim (Bool-cases (is_in tip b)) [
  | inl held ↦ inl (0, b, ground arith, refl, held, λ l c lt. absurd (omega arith))
  | inr missed ↦ elim (index_from-Finds tip fallback (i + 1) buckets) [
    | inl (j, c, at, found, held, below) ↦
        inl (suc j, c, ground arith, found, held, first j missed below)
    | inr (at, all) ↦ inr (ground arith, every missed all)
  ]
]
  where
    first :
        (j : ℕ)
        → is_in tip b ≡ false
        → ((l : ℕ) (c : Bucket) → l < j → get_elem? buckets l ≡ some c → is_in tip c ≡ false)
        → (l : ℕ) (c : Bucket) → l < suc j
        → get_elem? (b ∷ buckets) l ≡ some c
        → is_in tip c ≡ false
    first j missed below zero c lt e = let same : b ≡ c = cc in cc
    first j missed below (suc l) c lt e = below l c (omega arith) e

    every :
        is_in tip b ≡ false
        → ((l : ℕ) (c : Bucket) → get_elem? buckets l ≡ some c → is_in tip c ≡ false)
        → (l : ℕ) (c : Bucket) → get_elem? (b ∷ buckets) l ≡ some c
        → is_in tip c ≡ false
    every missed all zero c e = let same : b ≡ c = cc in cc
    every missed all (suc l) c e = all l c e

-- On buckets that are not empty, `bucketIndex` is an index of the buckets: that of the first whose
-- range holds the tip, or the last where no range does.
pub bucket_index-Classifies :
    (tip : ℕ) (buckets : List Bucket)
    → 0 < length buckets
    → Classifies tip buckets (bucket_index tip buckets)
unfolding bucket_index
bucket_index-Classifies tip buckets some_buckets =
    elim (index_from-Finds tip (length buckets - 1) 0 buckets) [
      | inl (j, b, at, found, held, below) ↦
          let same : bucket_index tip buckets ≡ j = omega (arith, at) in
          subst (λ i. Classifies tip buckets i) (sym same)
            record {
              in_range = get_elem?-lt buckets j b found;
              none_below = λ l c lt e. below l c lt e;
              held = inl (b, found, held);
            }
      | inr (at, all) ↦
          subst (λ i. Classifies tip buckets i) (sym at)
            record {
              in_range = omega arith;
              none_below = λ l c lt e. all l c e;
              held = inr (omega arith, all);
            }
    ]

-- ===== src/GasAnalyzer/Pools/Outliers.antt =====
-- The upper bound on outliers that `PendingPercentiles` of internal/gasanalyzer/analyzer.go sets.
use eth_mon_svr.Base.{
  ℕ, zero, suc, subst, ◌-◌, ◌≤◌, ◌<◌, ◌≡◌, refl, ap, ◌∙◌, sym, Bool, true, false, List, [], ◌∷◌,
  ◌++◌, map, some, min, ltb, ◌==◌, ◌*◌, ◌||◌, ◌⊎◌, length, get_elem?, take, drop, All, arith,
  Bool-cases, inl, inr, get_elem?-of_lt, u64_mod,
}
use eth_mon_svr.GasAnalyzer.Float.{Float}
use eth_mon_svr.GasAnalyzer.Targets.{WeightedTip}
use eth_mon_svr.GasAnalyzer.Percentiles.{
  is_above, search_first, outer_above, calculate_outer_bound, double_tip, find_p95, total_weight,
}
use eth_mon_svr.GasAnalyzer.Percentiles.Ascending.{IsSorted}
use eth_mon_svr.GasAnalyzer.Percentiles.Search.{search_first-IsSplit}
use eth_mon_svr.GasAnalyzer.Pools.P95.{
  weights_from, p95_of, find_p95-p95_of, total_weight-weights_from,
}
use eth_mon_svr.GasAnalyzer.Pools.{set_tip, cap_outliers}

-- A tip above the bound becomes the bound.
abbrev pub cap_at : {F : Type 0} → ℕ → WeightedTip F → WeightedTip F
cap_at upper tx = set_tip (min upper tx.tip) tx

module _ {F : Type 0} where
  sorted-le :
      (pool : List (WeightedTip F)) (k l : ℕ) (x y : WeightedTip F)
      → IsSorted pool
      → k ≤ l
      → get_elem? pool k ≡ some x
      → get_elem? pool l ≡ some y
      → x.tip ≤ y.tip
  sorted-le [] k l x y s le at at' = absurd (cc)
  sorted-le (z ∷ rest) zero zero x y s le at at' = ground arith
  sorted-le (z ∷ rest) (suc k) zero x y s le at at' = absurd (omega arith)
  sorted-le (z ∷ rest) (suc k) (suc l) x y s le at at' =
      sorted-le rest k l x y s.1 (omega arith) at at'
  sorted-le (z ∷ rest) zero (suc l) x y s le at at' =
      let same : z ≡ x = cc in ground (arith, same, All-at rest l y s.0 at')
    where
      All-at :
          (ys : List (WeightedTip F)) (l : ℕ) (y : WeightedTip F)
          → All (λ w. z.tip ≤ w.tip) ys
          → get_elem? ys l ≡ some y
          → z.tip ≤ y.tip
      All-at [] l y all e = absurd (cc)
      All-at (w ∷ ws) zero y all e = ground (arith, all.0)
      All-at (w ∷ ws) (suc l) y all e = All-at ws l y all.1 e

  above_mono :
      (upper : ℕ) (pool : List (WeightedTip F))
      → IsSorted pool
      → (k l : ℕ) → k ≤ l
      → l < length pool
      → is_above upper pool k ≡ true
      → is_above upper pool l ≡ true
  unfolding is_above
  above_mono upper pool s k l le lt above =
      let (x, at) = get_elem?-of_lt pool k (omega arith) in
      let (y, at') = get_elem?-of_lt pool l lt in
      ground (arith, sorted-le pool k l x y s le at at', at, at')

  kept : (upper : ℕ) (x : WeightedTip F) → ltb upper x.tip ≡ false → cap_at upper x ≡ x
  unfolding set_tip
  kept upper x below =
      let same : min upper x.tip ≡ x.tip = ground arith in ap (λ t. set_tip t x) same

  capped :
      (upper : ℕ) (x : WeightedTip F) → ltb upper x.tip ≡ true → cap_at upper x ≡ set_tip upper x
  capped upper x above =
      let same : min upper x.tip ≡ upper = ground arith in ap (λ t. set_tip t x) same

  -- The tips up to `i` are kept, and those from `i` on become the bound.
  split-cap :
      (upper i : ℕ) (pool : List (WeightedTip F))
      → i ≤ length pool
      → ((k : ℕ) → k < i → is_above upper pool k ≡ false)
      → ((k : ℕ) → i ≤ k → k < length pool → is_above upper pool k ≡ true)
      → take i pool ++ map (set_tip upper) (drop i pool) ≡ map (cap_at upper) pool
  unfolding is_above
  split-cap upper zero [] len below from = refl
  split-cap upper (suc i) [] len below from = absurd (omega arith)
  split-cap upper zero (x ∷ rest) len below from =
      ap (λ y. y ∷ map (set_tip upper) rest)
        (sym (capped upper x (from 0 (omega arith) (omega arith))))
      ∙ ap (λ ys. cap_at upper x ∷ ys)
          (split-cap upper zero rest (omega arith) (λ k lt. absurd (omega arith))
            (λ k ge lt. from (suc k) (omega arith) (omega arith)))
  split-cap upper (suc i) (x ∷ rest) len below from =
      ap (λ y. y ∷ (take i rest ++ map (set_tip upper) (drop i rest)))
        (sym (kept upper x (below 0 (omega arith))))
      ∙ ap (λ ys. cap_at upper x ∷ ys)
          (split-cap upper i rest (omega arith) (λ k lt. below (suc k) (omega arith))
            (λ k ge lt. from (suc k) (omega arith) (omega arith)))

  take-all :
      (pool : List (WeightedTip F)) (upper : ℕ)
      → take (length pool) pool ++ map (set_tip upper) (drop (length pool) pool) ≡ pool
  take-all [] upper = refl
  take-all (x ∷ rest) upper = ap (λ ys. x ∷ ys) (take-all rest upper)

  cap_outliers-above :
      (upper : ℕ) (pool : List (WeightedTip F))
      → IsSorted pool
      → cap_outliers (outer_above upper pool) pool ≡ map (cap_at upper) pool
  unfolding cap_outliers outer_above
  cap_outliers-above upper pool s =
      let n = length pool in
      let i = search_first n (is_above upper pool) in
      let v = search_first-IsSplit (is_above upper pool) n (above_mono upper pool s) in
      let split = split-cap upper i pool v.in_range v.fails_below v.holds_from in
      elim (Bool-cases (ltb 0 (n - i))) [
        | inl some_above ↦
            let start : n - (n - i) ≡ i = ground (arith, v.in_range) in rw (some_above, start) split
        | inr none_above ↦
            let at_end : n ≡ i = ground (arith, v.in_range) in
            rw none_above (
              sym (take-all pool upper)
              ∙ ap (λ j. take j pool ++ map (set_tip upper) (drop j pool)) at_end
              ∙ split)
      ]

module _ {F : Type 0} (fl : Float F) where
  find_p95-lt :
      (bound : ℕ) (limit sum_weight : F) (pool : List (WeightedTip F))
      → 0 < bound
      → All (λ tx. tx.tip < bound) pool
      → find_p95 fl limit sum_weight pool < bound
  unfolding find_p95
  find_p95-lt bound limit sum_weight [] pos fits = pos
  find_p95-lt bound limit sum_weight (tx ∷ txs) pos (fit, fits) =
      ground (arith, find_p95-lt bound limit (fl.add sum_weight tx.weight) txs pos fits)

  double_tip-min : (p95 : ℕ) → p95 < u64_mod → double_tip p95 ≡ min (2 * p95) (u64_mod - 1)
  unfolding double_tip
  double_tip-min p95 lt = ground arith

  -- Whether there is no bound.
  abbrev pub is_unbounded : List (WeightedTip F) → Bool
  is_unbounded pool =
      (length pool == 0) || fl.is_zero (weights_from fl (fl.lit 0 1) pool) || (p95_of fl pool == 0)

  no_bound :
      (pool : List (WeightedTip F))
      → is_unbounded pool ≡ true
      → cap_outliers (calculate_outer_bound fl pool) pool ≡ pool
  unfolding calculate_outer_bound cap_outliers
  no_bound pool h = ground (arith, find_p95-p95_of fl pool, total_weight-weights_from fl pool)

  bound-outer_above :
      (pool : List (WeightedTip F))
      → is_unbounded pool ≡ false
      → calculate_outer_bound fl pool ≡ outer_above (double_tip (p95_of fl pool)) pool
  unfolding calculate_outer_bound
  bound-outer_above pool h =
      ground (arith, find_p95-p95_of fl pool, total_weight-weights_from fl pool)

  -- On a pool of uint64 tips that is sorted: either the pool is empty, its total weight is zero or its
  -- 95th percentile is 0, and nothing is changed; or every tip above twice the 95th percentile (above
  -- the largest uint64, where that is less) becomes that bound, and the others are kept. The 95th
  -- percentile is the first tip at which the weights, added up in order with its own, reach 95 % of
  -- their sum, or 0 where none does.
  pub cap_outliers-cap_at :
      (pool : List (WeightedTip F))
      → IsSorted pool
      → All (λ tx. tx.tip < u64_mod) pool
      → let capped = cap_outliers (calculate_outer_bound fl pool) pool in
        ((is_unbounded pool ≡ true) × (capped ≡ pool))
        ⊎ ((is_unbounded pool ≡ false)
            × (capped ≡ map (cap_at (min (2 * p95_of fl pool) (u64_mod - 1))) pool))
  cap_outliers-cap_at pool s fits = elim (Bool-cases (is_unbounded pool)) [
    | inl free ↦ inl (free, no_bound pool free)
    | inr bound ↦
        let fit =
          find_p95-lt u64_mod (fl.mul (total_weight fl pool) (fl.lit 95 100)) (fl.lit 0 1) pool
            (omega arith) fits in
        let fit = subst (λ t. t < u64_mod) (find_p95-p95_of fl pool) fit in
        inr (
          bound,
          ap (λ o. cap_outliers o pool) (bound-outer_above pool bound)
              ∙ cap_outliers-above (double_tip (p95_of fl pool)) pool s
              ∙ ap (λ u. map (cap_at u) pool) (double_tip-min (p95_of fl pool) fit),
        )
  ]

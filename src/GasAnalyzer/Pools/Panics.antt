-- ===== src/GasAnalyzer/Pools/Panics.antt =====
-- `PendingPercentiles` and `BlockPercentiles` of internal/gasanalyzer/analyzer.go: where they panic.
use eth_mon_svr.Base.{
  ℕ, zero, suc, ◌+◌, ◌-◌, ◌≡◌, ◌↔◌, refl, ap, ◌∙◌, true, false, List, [], ◌∷◌, ◌++◌, map, none,
  some, subst, length, length-append, get_elem?, get_elem?-of_lt, take, drop, arith, Bool-cases,
  List-cases, inl, inr, ltb, String,
}
use eth_mon_svr.GasAnalyzer.Float.{Float}
use eth_mon_svr.GasAnalyzer.Targets.{WeightedTip, OuterInfo, gas_analysis_targets}
use eth_mon_svr.GasAnalyzer.Percentiles.{
  last_tip, total_weight, reach, scan, calculate_weighted_percentiles, calculate_outer_bound,
  build_prediction,
}
use eth_mon_svr.GasAnalyzer.Pools.{
  set_tip, cap_outliers, sorted_percentiles, with_cutoff, pending_percentiles, block_percentiles,
}

length-map : {A B : Type 0} (f : A → B) (xs : List A) → length (map f xs) ≡ length xs
length-map f [] = refl
length-map f (x ∷ xs) = ap suc (length-map f xs)

module _ {F : Type 0} (fl : Float F) where
  last_tip-some :
      (x : WeightedTip F) (rest : List (WeightedTip F))
      → (last : ℕ) × (last_tip (x ∷ rest) ≡ some last)
  unfolding last_tip
  last_tip-some x [] = (x.tip, refl)
  last_tip-some x (y ∷ rest) = last_tip-some y rest

  reach-length :
      (total cumulative : F) (tip : ℕ) (ts : List F)
      → let (done, left) = reach fl total cumulative tip ts in length done + length left ≡ length ts
  unfolding reach
  reach-length total cumulative tip [] = omega arith
  reach-length total cumulative tip (t ∷ ts) = ground (arith, reach-length total cumulative tip ts)

  scan-length :
      (total cumulative : F) (txs : List (WeightedTip F)) (ts : List F)
      → let (done, left) = scan fl total cumulative txs ts in length done + length left ≡ length ts
  unfolding scan
  scan-length total cumulative [] ts = omega arith
  scan-length total cumulative (tx ∷ txs) ts =
      let (done, left) = reach fl total (fl.add cumulative tx.weight) tx.tip ts in
      let (more, left') = scan fl total (fl.add cumulative tx.weight) txs left in
      ground (
        arith,
        reach-length total (fl.add cumulative tx.weight) tx.tip ts,
        scan-length total (fl.add cumulative tx.weight) txs left,
        length-append done more,
      )

  percentiles-some :
      (x : WeightedTip F) (rest : List (WeightedTip F))
      → fl.is_zero (total_weight fl (x ∷ rest)) ≡ false
      → (results : List ℕ) × (calculate_weighted_percentiles fl (x ∷ rest) ≡ some results)
        × (length results ≡ length (gas_analysis_targets fl))
  unfolding calculate_weighted_percentiles
  percentiles-some x rest some_weight =
      let pool = x ∷ rest in
      let (last, end) = last_tip-some x rest in
      let (done, left) =
        scan fl (total_weight fl pool) (fl.lit 0 1) pool (gas_analysis_targets fl) in
      (
        done ++ map (λ t. last) left,
        rw (some_weight, end) refl,
        omega (
          arith,
          length-append done (map (λ t. last) left),
          length-map (λ t. last) left,
          scan-length (total_weight fl pool) (fl.lit 0 1) pool (gas_analysis_targets fl),
        ),
      )

  capped-some :
      (outer : OuterInfo) (x : WeightedTip F) (rest : List (WeightedTip F))
      → (y : WeightedTip F) × (ys : List (WeightedTip F)) × (cap_outliers outer (x ∷ rest) ≡ y ∷ ys)
  unfolding cap_outliers
  capped-some outer x rest = elim (Bool-cases (ltb 0 outer.count)) [
    | inr none_above ↦ (x, rest, rw none_above refl)
    | inl above ↦
        let (y, ys, e) = rejoined (suc (length rest) - outer.count) outer.upper_bound x rest in
        (y, ys, rw above e)
  ]
    where
      rejoined :
          (n upper : ℕ) (x : WeightedTip F) (rest : List (WeightedTip F))
          → (y : WeightedTip F) × (ys : List (WeightedTip F)) × (take n (x ∷ rest)
                ++ map (set_tip upper) (drop n (x ∷ rest))
              ≡ y ∷ ys)
      rejoined zero upper x rest = (_, _, refl)
      rejoined (suc n) upper x rest = (_, _, refl)

  weightless_percentiles :
      (pool : List (WeightedTip F))
      → fl.is_zero (total_weight fl pool) ≡ true
      → calculate_weighted_percentiles fl pool ≡ some []
  unfolding calculate_weighted_percentiles
  weightless_percentiles pool weightless = rw weightless refl

  with_cutoff-some :
      (results : List ℕ) (cutoff : ℕ)
      → get_elem? results 0 ≡ some cutoff
      → with_cutoff fl results ≡ some (build_prediction fl results, cutoff)
  unfolding with_cutoff
  with_cutoff-some results cutoff at = ground arith

  with_cutoff-nil : with_cutoff fl [] ≡ none
  unfolding with_cutoff
  with_cutoff-nil = refl

  total_percentiles :
      (x : WeightedTip F) (rest : List (WeightedTip F))
      → (results : List ℕ) × (calculate_weighted_percentiles fl (x ∷ rest) ≡ some results)
  unfolding calculate_weighted_percentiles
  total_percentiles x rest = elim (Bool-cases (fl.is_zero (total_weight fl (x ∷ rest)))) [
    | inl weightless ↦ ([], rw weightless refl)
    | inr weighs ↦ let (results, e, _) = percentiles-some x rest weighs in (results, e)
  ]

  from_capped :
      (pool : List (WeightedTip F)) {results : List ℕ}
      → calculate_weighted_percentiles fl (cap_outliers (calculate_outer_bound fl pool) pool)
        ≡ some results
      → sorted_percentiles fl pool ≡ some (build_prediction fl results)
  unfolding sorted_percentiles
  from_capped pool e = rw (e, sorted_percentiles) refl

  sorted_percentiles-some :
      (y : WeightedTip F) (ys : List (WeightedTip F))
      → (levels : List (String × ℕ)) × (sorted_percentiles fl (y ∷ ys) ≡ some levels)
  sorted_percentiles-some y ys =
      let (z, zs, e) = capped-some (calculate_outer_bound fl (y ∷ ys)) y ys in
      let (results, e') = total_percentiles z zs in
      (_, from_capped (y ∷ ys) (ap (calculate_weighted_percentiles fl) e ∙ e'))

  module _ (sort : List (WeightedTip F) → List (WeightedTip F))
      (length-sort : (pool : List (WeightedTip F)) → length (sort pool) ≡ length pool) where
    sorted-cons :
        (x : WeightedTip F) (rest : List (WeightedTip F))
        → (y : WeightedTip F) × (ys : List (WeightedTip F)) × (sort (x ∷ rest) ≡ y ∷ ys)
    sorted-cons x rest = elim (List-cases (sort (x ∷ rest))) [
      | inl empty ↦ absurd (omega (arith, length-sort (x ∷ rest), ap length empty))
      | inr (y, ys, e) ↦ (y, ys, e)
    ]

    -- With such a sort, `PendingPercentiles` never panics.
    pub pending_percentiles-some :
        (pool : List (WeightedTip F))
        → (levels : List (String × ℕ)) × (pending_percentiles fl sort pool ≡ some levels)
    unfolding pending_percentiles
    pending_percentiles-some [] = (_, refl)
    pending_percentiles-some (x ∷ rest) =
        let (y, ys, e) = sorted-cons x rest in
        let (levels, e') = sorted_percentiles-some y ys in
        (levels, ap (sorted_percentiles fl) e ∙ e')

    from_percentiles :
        (x : WeightedTip F) (rest : List (WeightedTip F)) {results : List ℕ}
        → calculate_weighted_percentiles fl (sort (x ∷ rest)) ≡ some results
        → block_percentiles fl sort (x ∷ rest) ≡ with_cutoff fl results
    unfolding block_percentiles
    from_percentiles x rest e = rw (e, block_percentiles) refl

    -- On a pool that is not empty, with a sort that keeps the length, `BlockPercentiles` panics (it reads the
    -- first of no percentiles) exactly where the weights of the sorted pool add up to zero.
    pub block_percentiles-panics :
        (x : WeightedTip F) (rest : List (WeightedTip F))
        → (block_percentiles fl sort (x ∷ rest) ≡ none)
          ↔ (fl.is_zero (total_weight fl (sort (x ∷ rest))) ≡ true)
    block_percentiles-panics x rest =
        elim (Bool-cases (fl.is_zero (total_weight fl (sort (x ∷ rest))))) [
          | inl weightless ↦ (
            λ h. weightless,
            λ h.
                from_percentiles x rest (weightless_percentiles (sort (x ∷ rest)) weightless)
                ∙ with_cutoff-nil,
          )
          | inr weighs ↦
              let (y, ys, e) = sorted-cons x rest in
              let (results, e', len) =
                percentiles-some y ys
                  (subst (λ p. fl.is_zero (total_weight fl p) ≡ false) e weighs) in
              let (cutoff, at) = get_elem?-of_lt results 0 (omega (arith, len)) in
              let answer =
                from_percentiles x rest (ap (calculate_weighted_percentiles fl) e ∙ e') in
              let given = with_cutoff-some results cutoff at in (λ h. absurd (cc), λ h. absurd (cc))
        ]

-- ===== src/GasAnalyzer/Analyzer/Complete.antt =====
-- The levels that `BlockPercentiles` of internal/gasanalyzer/analyzer.go gives for a block.
use eth_mon_svr.Base.{
  ℕ, ◌≡◌, inl, inr, refl, ap, sym, ◌∙◌, subst, true, List, [], ◌∷◌, get_elem?, none, some, String,
  same_text, same_text_iff, Bool-cases, Option-cases, arith,
}
use eth_mon_svr.Base.TextMap
use eth_mon_svr.Base.TextMap.{TextMap}
use eth_mon_svr.GasAnalyzer.Float.{Float}
use eth_mon_svr.GasAnalyzer.Targets.{
  WeightedTip, GasLevel, gas_prediction_targets, prediction_groups,
}
use eth_mon_svr.GasAnalyzer.Percentiles.{
  build_prediction, build_levels, calculate_weighted_percentiles, default_value,
}
use eth_mon_svr.GasAnalyzer.Pools.{with_cutoff, block_percentiles}
use eth_mon_svr.GasAnalyzer.Analyzer.{levels_from}
use eth_mon_svr.GasAnalyzer.Analyzer.Renewed.{is_named}

-- A level of a target, for each.
abbrev pub IsComplete : TextMap GasLevel → Type 0
IsComplete levels =
    ((level : GasLevel) × (TextMap.get "market" levels ≡ some level))
    × ((level : GasLevel) × (TextMap.get "fast" levels ≡ some level))
    × ((level : GasLevel) × (TextMap.get "urgent" levels ≡ some level))

first_of : {r r' : TextMap ℕ × ℕ} → some r ≡ some r' → r.0 ≡ r'.0
first_of {r} {r'} e = ap (λ o. elim o [ none ↦ r.0 | some x ↦ x.0 ]) e

module _ {F : Type 0} (fl : Float F) (sort : List (WeightedTip F) → List (WeightedTip F)) where
  build_prediction-IsComplete :
      (base_fee : ℕ) (percentiles : List ℕ)
      → IsComplete (levels_from base_fee (build_prediction fl percentiles) [])
  unfolding levels_from build_prediction build_levels prediction_groups TextMap.put TextMap.get
  build_prediction-IsComplete base_fee percentiles = ((_, refl), (_, refl), (_, refl))

  default_value-IsComplete : (base_fee : ℕ) → IsComplete (levels_from base_fee default_value.0 [])
  unfolding levels_from default_value TextMap.put TextMap.get
  default_value-IsComplete base_fee = ((_, refl), (_, refl), (_, refl))

  with_cutoff-IsComplete :
      (base_fee : ℕ) (percentiles : List ℕ) (result : TextMap ℕ) (cutoff : ℕ)
      → with_cutoff fl percentiles ≡ some (result, cutoff)
      → IsComplete (levels_from base_fee result [])
  unfolding with_cutoff
  with_cutoff-IsComplete base_fee percentiles result cutoff e =
      elim (Option-cases (get_elem? percentiles 0)) [
        | inl panic ↦ absurd (ground arith)
        | inr (first, found) ↦
            let same : some (build_prediction fl percentiles, first) ≡ some (result, cutoff) =
              sym (rw (found, with_cutoff) refl) ∙ e in
            subst (λ r. IsComplete (levels_from base_fee r [])) (first_of same)
              (build_prediction-IsComplete base_fee percentiles)
      ]

  -- The levels of a block that `BlockPercentiles` gives are complete.
  pub block_percentiles-IsComplete :
      (base_fee : ℕ) (pool : List (WeightedTip F)) (result : TextMap ℕ) (cutoff : ℕ)
      → block_percentiles fl sort pool ≡ some (result, cutoff)
      → IsComplete (levels_from base_fee result [])
  unfolding block_percentiles
  block_percentiles-IsComplete base_fee [] result cutoff e =
      subst (λ r. IsComplete (levels_from base_fee r [])) (first_of e)
        (default_value-IsComplete base_fee)
  block_percentiles-IsComplete base_fee (x ∷ rest) result cutoff e =
      elim (Option-cases (calculate_weighted_percentiles fl (sort (x ∷ rest)))) [
        | inl panic ↦ absurd (ground arith)
        | inr (percentiles, found) ↦
            with_cutoff-IsComplete base_fee percentiles result cutoff (ground arith)
      ]

  pub complete-level :
      (levels : TextMap GasLevel) (name : String)
      → IsComplete levels
      → is_named name (gas_prediction_targets fl) ≡ true
      → (level : GasLevel) × (TextMap.get name levels ≡ some level)
  complete-level levels name (market, fast, urgent) named =
      elim (Bool-cases (same_text "market" name)) [
        | inl same ↦ at "market" same market
        | inr m ↦ elim (Bool-cases (same_text "fast" name)) [
          | inl same ↦ at "fast" same fast
          | inr f ↦ elim (Bool-cases (same_text "urgent" name)) [
            | inl same ↦ at "urgent" same urgent
            | inr u ↦ absurd (ground arith)
          ]
        ]
      ]
    where
      at :
          (key : String)
          → same_text key name ≡ true
          → (level : GasLevel) × (TextMap.get key levels ≡ some level)
          → (level : GasLevel) × (TextMap.get name levels ≡ some level)
      at key same (level, e) =
          let e' : key ≡ name = (same_text_iff key name).0 same in
          (level, subst (λ k. TextMap.get k levels ≡ some level) e' e)

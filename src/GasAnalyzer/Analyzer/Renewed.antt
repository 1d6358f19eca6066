-- ===== src/GasAnalyzer/Analyzer/Renewed.antt =====
-- `UpdateResult` of internal/gasanalyzer/analyzer.go: which levels its loop replaces.
use eth_mon_svr.Base.{
  ℕ, ◌≡◌, inl, inr, refl, ap, sym, ◌∙◌, subst, Bool, true, false, ◌||◌, List, [], ◌∷◌, Option, none,
  some, String, same_text, same_text_iff, Bool-cases, Option-cases, if◌then◌else◌,
}
use eth_mon_svr.Base.TextMap
use eth_mon_svr.Base.TextMap.{TextMap}
use eth_mon_svr.GasAnalyzer.Float.{Float}
use eth_mon_svr.GasAnalyzer.Targets.{GasLevel, TargetPercentile, gas_prediction_targets}
use eth_mon_svr.GasAnalyzer.Analyzer.{
  GasPrediction, level_of, priority_of, gas_level, entries_of, blend, predict_levels, predict,
}

-- Whether one of the targets has the name.
abbrev pub is_named : {F : Type 0} → String → List (TargetPercentile F) → Bool
is_named name [] = false
is_named name (t ∷ targets) = same_text t.name name || is_named name targets

entries_of-level_of :
    (name : String) (levels : Option (TextMap GasLevel))
    → TextMap.get name (entries_of levels) ≡ level_of name levels
unfolding entries_of level_of TextMap.get
entries_of-level_of name none = refl
entries_of-level_of name (some levels) = refl

module _ {F : Type 0} (fl : Float F) where
  -- The level of a target: the blend of the block's and of the pending transactions', on the base fee.
  abbrev pub blended : GasPrediction → String → GasLevel → GasLevel
  blended p name block =
      gas_level p.next_base_fee (blend fl block.priority_fee (priority_of name p.analyzer_pending))

  -- The level that replaces the level `old`.
  abbrev pub replaced : GasPrediction → String → Option GasLevel → Option GasLevel
  replaced p name old = elim (level_of name p.analyzer_block) [
    | none ↦ old
    | some block ↦ some (blended p name block)
  ]

  replaced-none :
      (p : GasPrediction) (name : String) (old : Option GasLevel)
      → level_of name p.analyzer_block ≡ none
      → replaced p name old ≡ old
  replaced-none p name old missing = rw (missing, replaced) refl

  pub replaced-some :
      (p : GasPrediction) (name : String) (old : Option GasLevel) {block : GasLevel}
      → level_of name p.analyzer_block ≡ some block
      → replaced p name old ≡ some (blended p name block)
  replaced-some p name old there = rw (there, replaced) refl

  predict_levels-none :
      (p : GasPrediction) (t : TargetPercentile F) (targets : List (TargetPercentile F))
      (levels : TextMap GasLevel)
      → level_of t.name p.analyzer_block ≡ none
      → predict_levels fl p (t ∷ targets) levels ≡ predict_levels fl p targets levels
  unfolding predict_levels
  predict_levels-none p t targets levels missing = rw (missing, predict_levels) refl

  predict_levels-some :
      (p : GasPrediction) (t : TargetPercentile F) (targets : List (TargetPercentile F))
      (levels : TextMap GasLevel) {block : GasLevel}
      → level_of t.name p.analyzer_block ≡ some block
      → predict_levels fl p (t ∷ targets) levels
        ≡ predict_levels fl p targets (TextMap.put t.name (blended p t.name block) levels)
  unfolding predict_levels
  predict_levels-some p t targets levels there = rw (there, predict_levels) refl

  -- What the loop makes of the level under a name.
  abbrev pub renewed :
      GasPrediction → List (TargetPercentile F) → String → Option GasLevel → Option GasLevel
  renewed p targets name old = if is_named name targets then replaced p name old else old

  pub renewed-none :
      (p : GasPrediction) (targets : List (TargetPercentile F)) (name : String)
      (old : Option GasLevel)
      → level_of name p.analyzer_block ≡ none
      → renewed p targets name old ≡ old
  renewed-none p targets name old missing = elim (Bool-cases (is_named name targets)) [
    | inl named ↦ rw named (replaced-none p name old missing)
    | inr unnamed ↦ rw unnamed refl
  ]

  renewed-some :
      (p : GasPrediction) (targets : List (TargetPercentile F)) (name : String) {block : GasLevel}
      → level_of name p.analyzer_block ≡ some block
      → renewed p targets name (some (blended p name block)) ≡ some (blended p name block)
  renewed-some p targets name {block} there = elim (Bool-cases (is_named name targets)) [
    | inl named ↦ rw named (replaced-some p name (some (blended p name block)) there)
    | inr unnamed ↦ rw unnamed refl
  ]

  renewed-cons :
      (p : GasPrediction) (t : TargetPercentile F) (targets : List (TargetPercentile F))
      (name : String) (old : Option GasLevel)
      → same_text t.name name ≡ false
      → renewed p (t ∷ targets) name old ≡ renewed p targets name old
  renewed-cons p t targets name old other = rw other refl

  renewed-head :
      (p : GasPrediction) (t : TargetPercentile F) (targets : List (TargetPercentile F))
      (name : String) (old : Option GasLevel)
      → same_text t.name name ≡ true
      → renewed p (t ∷ targets) name old ≡ replaced p name old
  renewed-head p t targets name old same = rw same refl

  -- The loop of `UpdateResult` replaces the levels of the targets that the block has a level for.
  pub predict_levels-renewed :
      (p : GasPrediction) (targets : List (TargetPercentile F)) (levels : TextMap GasLevel)
      (name : String)
      → TextMap.get name (predict_levels fl p targets levels)
        ≡ renewed p targets name (TextMap.get name levels)
  unfolding predict_levels
  predict_levels-renewed p [] levels name = refl
  predict_levels-renewed p (t ∷ targets) levels name =
      elim (Option-cases (level_of t.name p.analyzer_block)) [
        | inl missing ↦
            let old = TextMap.get name levels in
            let step =
              ap (TextMap.get name) (predict_levels-none p t targets levels missing)
              ∙ predict_levels-renewed p targets levels name in
            elim (Bool-cases (same_text t.name name)) [
              | inr other ↦ step ∙ sym (renewed-cons p t targets name old other)
              | inl same ↦
                  let e : t.name ≡ name = (same_text_iff t.name name).0 same in
                  let absent = subst (λ s. level_of s p.analyzer_block ≡ none) e missing in
                  step
                  ∙ renewed-none p targets name old absent
                  ∙ sym (renewed-none p (t ∷ targets) name old absent)
            ]
        | inr (block, there) ↦
            let old = TextMap.get name levels in
            let level = blended p t.name block in
            let step =
              ap (TextMap.get name) (predict_levels-some p t targets levels there)
              ∙ predict_levels-renewed p targets (TextMap.put t.name level levels) name in
            let read = TextMap.get-put t.name name level levels in
            elim (Bool-cases (same_text t.name name)) [
              | inr other ↦
                  step
                  ∙ ap (renewed p targets name) (read ∙ rw other refl)
                  ∙ sym (renewed-cons p t targets name old other)
              | inl same ↦
                  let e : t.name ≡ name = (same_text_iff t.name name).0 same in
                  let there' = subst (λ s. level_of s p.analyzer_block ≡ some block) e there in
                  let level' : level ≡ blended p name block = ap (λ s. blended p s block) e in
                  step
                  ∙ ap (renewed p targets name) (read ∙ rw same (ap some level'))
                  ∙ renewed-some p targets name there'
                  ∙ sym (renewed-head p t targets name old same ∙ replaced-some p name old there')
            ]
      ]

  pub predict-level_of :
      (next_block_num next_base_fee : ℕ) (p : GasPrediction) (name : String)
      → let p' = record p { next_block_number = next_block_num; next_base_fee = next_base_fee } in
        level_of name (predict fl next_block_num next_base_fee p).predict_result
        ≡ renewed p' (gas_prediction_targets fl) name (level_of name p.predict_result)
  unfolding predict level_of
  predict-level_of next_block_num next_base_fee p name =
      let p' = record p { next_block_number = next_block_num; next_base_fee = next_base_fee } in
      predict_levels-renewed p' (gas_prediction_targets fl) (entries_of p.predict_result) name
      ∙ ap (renewed p' (gas_prediction_targets fl) name) (entries_of-level_of name p.predict_result)

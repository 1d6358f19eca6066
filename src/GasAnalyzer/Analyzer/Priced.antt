-- ===== src/GasAnalyzer/Analyzer/Priced.antt =====
-- The levels of `PredictResult` of internal/gasanalyzer/analyzer.go, over every order of the methods.
use eth_mon_svr.Base.{
  ℕ, ◌≡◌, inl, inr, refl, ap, sym, ◌∙◌, subst, true, List, [], Option, none, some, String, add64,
  Bool-cases, Option-cases, arith,
}
use eth_mon_svr.Base.TextMap.{TextMap}
use eth_mon_svr.Ethereum.{Header}
use eth_mon_svr.GasAnalyzer.Float.{Float}
use eth_mon_svr.GasAnalyzer.Targets.{WeightedTip, GasLevel, gas_prediction_targets}
use eth_mon_svr.GasAnalyzer.Pools.{block_percentiles}
use eth_mon_svr.GasAnalyzer.Analyzer.{
  GasPrediction, Analyzer, no_prediction, level_of, levels_from, new_analyzer, reset, set_ready,
  update_latest_block_data, set_block_data, update_block_result, update_pending_result,
  update_result, predict,
}
use eth_mon_svr.GasAnalyzer.Analyzer.Renewed.{
  is_named, renewed, blended, predict-level_of, renewed-none, replaced-some,
}
use eth_mon_svr.GasAnalyzer.Analyzer.Complete.{
  IsComplete, block_percentiles-IsComplete, complete-level,
}

level_of-nil :
    (name : String) {levels : Option (TextMap GasLevel)}
    → levels ≡ none
    → level_of name levels ≡ none
unfolding level_of
level_of-nil name e = ap (level_of name) e

module _ {F : Type 0} (fl : Float F) (sort : List (WeightedTip F) → List (WeightedTip F)) where
  -- A method that changes the analyzer; the two parts of a new block, and those of a round of the
  -- analysis, are steps of their own.
  pub data Step : Analyzer F → Analyzer F → Type 0 where
    resets : {a : Analyzer F} → Step a (reset a)
    readies : {a : Analyzer F} → Step a (set_ready a)
    sees_block :
        {a a' : Analyzer F} (header : Header) (next_base_fee cutoff : ℕ)
        → update_latest_block_data header next_base_fee cutoff a ≡ some a'
        → Step a a'
    levels_block :
        {a : Analyzer F} (pool : List (WeightedTip F)) (result : TextMap ℕ) (cutoff : ℕ)
        → block_percentiles fl sort pool ≡ some (result, cutoff)
        → Step a (update_block_result result a)
    levels_pending : {a : Analyzer F} (result : TextMap ℕ) → Step a (update_pending_result result a)
    predicts :
        {a : Analyzer F} (next_block_num next_base_fee : ℕ)
        → Step a (update_result fl next_block_num next_base_fee a)

  pub data Steps : Analyzer F → Analyzer F → Type 0 where
    start : {a : Analyzer F} → Steps a a
    then_step : {a b c : Analyzer F} → Steps a b → Step b c → Steps a c

  -- Every level predicted is of a target, and its highest fee is its tip on the base fee predicted; the
  -- levels of a block are complete, and before there are any nothing is predicted.
  pub record IsPriced (p : GasPrediction) : Type 0 where
    pub targets_only :
        (name : String) (level : GasLevel)
        → level_of name p.predict_result ≡ some level
        → is_named name (gas_prediction_targets fl) ≡ true
    pub max_fees :
        (name : String) (level : GasLevel)
        → level_of name p.predict_result ≡ some level
        → level.max_fee ≡ add64 p.next_base_fee level.priority_fee
    pub complete : (levels : TextMap GasLevel) → p.analyzer_block ≡ some levels → IsComplete levels
    pub unpredicted :
        p.analyzer_block ≡ none → (name : String) → level_of name p.predict_result ≡ none

  no_prediction-IsPriced : IsPriced no_prediction
  unfolding level_of
  no_prediction-IsPriced = record {
    targets_only = λ name level at. absurd (cc);
    max_fees = λ name level at. absurd (cc);
    complete = λ levels e. absurd (cc);
    unpredicted = λ e name. refl;
  }

  -- The level that a prediction replaces by a round, from one that is priced.
  predicted-level :
      (next_block_num next_base_fee : ℕ) (p : GasPrediction) (name : String) (level : GasLevel)
      → IsPriced p
      → level_of name (predict fl next_block_num next_base_fee p).predict_result ≡ some level
      → (is_named name (gas_prediction_targets fl) ≡ true)
        × (level.max_fee ≡ add64 next_base_fee level.priority_fee)
  unfolding level_of
  predicted-level next_block_num next_base_fee p name level v at =
      let p' = record p { next_block_number = next_block_num; next_base_fee = next_base_fee } in
      let old = level_of name p.predict_result in
      let new = sym (predict-level_of fl next_block_num next_base_fee p name) ∙ at in
      elim (Bool-cases (is_named name (gas_prediction_targets fl))) [
        | inr unnamed ↦
            let kept : renewed fl p' (gas_prediction_targets fl) name old ≡ old = rw unnamed refl in
            let named = v.targets_only name level (sym kept ∙ new) in absurd (cc)
        | inl named ↦ (
          named,
          elim (Option-cases p.analyzer_block) [
            | inl missing ↦
                let gone = level_of-nil name missing in
                let kept = renewed-none fl p' (gas_prediction_targets fl) name old gone in
                let nothing = v.unpredicted missing name in absurd (cc)
            | inr (levels, found) ↦
                let (block, e) =
                  complete-level fl sort levels name (v.complete levels found) named in
                let there : level_of name p.analyzer_block ≡ some block =
                  ap (level_of name) found ∙ e in
                let given : renewed fl p' (gas_prediction_targets fl) name old
                    ≡ some (blended fl p' name block) =
                  rw named (replaced-some fl p' name old there) in
                let same : blended fl p' name block ≡ level = cc in
                subst (λ l. l.max_fee ≡ add64 next_base_fee l.priority_fee) same refl
          ],
        )
      ]

  update_result-IsPriced :
      (next_block_num next_base_fee : ℕ) (a : Analyzer F)
      → IsPriced a.latest_result
      → IsPriced (update_result fl next_block_num next_base_fee a).latest_result
  unfolding update_result predict
  update_result-IsPriced next_block_num next_base_fee a v = record {
    targets_only = λ name level at.
        (predicted-level next_block_num next_base_fee a.latest_result name level v at).0;
    max_fees = λ name level at.
        (predicted-level next_block_num next_base_fee a.latest_result name level v at).1;
    complete = λ levels e. v.complete levels e;
    unpredicted = λ e name.
        predict-level_of fl next_block_num next_base_fee a.latest_result name
        ∙ renewed-none fl
            (record (a.latest_result) {
              next_block_number = next_block_num;
              next_base_fee = next_base_fee;
            })
            (gas_prediction_targets fl) name (level_of name a.latest_result.predict_result)
            (level_of-nil name e)
        ∙ v.unpredicted e name;
  }

  latest_result-update :
      (a : Analyzer F) {a' : Analyzer F} (header : Header) (next_base_fee cutoff : ℕ)
      → update_latest_block_data header next_base_fee cutoff a ≡ some a'
      → a'.latest_result ≡ a.latest_result
  unfolding update_latest_block_data set_block_data
  latest_result-update a header next_base_fee cutoff e = elim (Option-cases header.number) [
    | inl missing ↦ absurd (ground arith)
    | inr (number, known) ↦ elim (Option-cases header.base_fee) [
      | inl missing ↦ absurd (ground arith)
      | inr (base_fee, priced) ↦ ground (arith, known, priced, e)
    ]
  ]

  Step-IsPriced :
      {a a' : Analyzer F} → Step a a' → IsPriced a.latest_result → IsPriced a'.latest_result
  unfolding reset set_ready update_block_result update_pending_result level_of
  Step-IsPriced resets v = no_prediction-IsPriced
  Step-IsPriced readies v = v
  Step-IsPriced {a} (sees_block header next_base_fee cutoff e) v =
      subst IsPriced (sym (latest_result-update a header next_base_fee cutoff e)) v
  Step-IsPriced {a} (levels_block pool result cutoff e) v = record {
    targets_only = v.targets_only;
    max_fees = v.max_fees;
    complete = λ levels same.
        let same' : levels_from a.latest_block_data.next_base_fee result [] ≡ levels = cc in
        subst IsComplete same' (
          block_percentiles-IsComplete fl sort a.latest_block_data.next_base_fee pool result cutoff
            e);
    unpredicted = λ missing. absurd (cc);
  }
  Step-IsPriced (levels_pending result) v = record {
    targets_only = v.targets_only;
    max_fees = v.max_fees;
    complete = v.complete;
    unpredicted = v.unpredicted;
  }
  Step-IsPriced {a} (predicts next_block_num next_base_fee) v =
      update_result-IsPriced next_block_num next_base_fee a v

  Steps-IsPriced :
      {a a' : Analyzer F} → Steps a a' → IsPriced a.latest_result → IsPriced a'.latest_result
  Steps-IsPriced start v = v
  Steps-IsPriced (then_step before step) v = Step-IsPriced step (Steps-IsPriced before v)

  -- In every state that the methods reach from a new analyzer, in any order and with the two parts of a
  -- block's and of a round's update apart, a level that is predicted is one of the targets', and its
  -- highest fee is the predicted base fee plus its tip (modulo 2^64).
  pub predict_result-IsPriced :
      (negated : F) (max_block_count : ℕ) {a : Analyzer F}
      → Steps (new_analyzer fl negated max_block_count) a
      → (name : String) (level : GasLevel)
      → level_of name a.latest_result.predict_result ≡ some level
      → (is_named name (gas_prediction_targets fl) ≡ true)
        × (level.max_fee ≡ add64 a.latest_result.next_base_fee level.priority_fee)
  unfolding new_analyzer level_of
  predict_result-IsPriced negated max_block_count steps name level at =
      let v = Steps-IsPriced steps no_prediction-IsPriced in
      (v.targets_only name level at, v.max_fees name level at)

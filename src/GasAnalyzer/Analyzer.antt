-- ===== src/GasAnalyzer/Analyzer.antt =====
-- The state of internal/gasanalyzer/analyzer.go and the methods on it. Each method that takes the lock
-- is one atomic step. `UpdatedAt` is the clock, and it is left out with the logging and with `TipPool`,
-- which nothing sets. A map is a value here: that the result which is sent, and what `GetPrediction`
-- returns, share the map `PredictResult` with the analyzer is left out. `none` is a panic.
pub mod Renewed
pub mod Complete
pub mod Priced
pub mod Cycle
pub mod Tests
use eth_mon_svr.Base.{
  ℕ, Bool, true, false, List, [], ◌∷◌, Option, none, some, String, add64, u64_mod, ◌%◌,
  if◌then◌else◌,
}
use eth_mon_svr.Base.TextMap
use eth_mon_svr.Base.TextMap.{TextMap}
use eth_mon_svr.Ethereum.{Header}
use eth_mon_svr.Mempool.Types.{PendingTx}
use eth_mon_svr.GasAnalyzer.Float.{Float}
use eth_mon_svr.GasAnalyzer.Targets.{
  WeightedTip, GasLevel, TargetPercentile, gas_prediction_targets,
}
use eth_mon_svr.GasAnalyzer.Pools.{decay_from, collect_pending_tx, pending_percentiles}

-- A map that is `none` is nil.
pub record GasPrediction : Type 0 where
  pub next_block_number : ℕ
  pub next_base_fee : ℕ
  pub predict_result : Option (TextMap GasLevel)
  pub analyzer_block : Option (TextMap GasLevel)
  pub analyzer_pending : Option (TextMap GasLevel)

pub record BlockAnalysisData : Type 0 where
  pub block_number : ℕ
  pub block_time : ℕ
  pub base_fee : ℕ
  pub next_base_fee : ℕ
  pub gas_used : ℕ
  pub gas_limit : ℕ
  pub cutoff : ℕ

pub record Analyzer (F : Type 0) : Type 0 where
  pub decay_table : List F
  pub latest_result : GasPrediction
  pub latest_block_data : BlockAnalysisData
  pub ready : Bool

-- `GasPrediction{}` and `BlockAnalysisData{}`
abbrev pub no_prediction : GasPrediction
no_prediction = record {
  next_block_number = 0;
  next_base_fee = 0;
  predict_result = none;
  analyzer_block = none;
  analyzer_pending = none;
}

abbrev pub no_block_data : BlockAnalysisData
no_block_data = record {
  block_number = 0;
  block_time = 0;
  base_fee = 0;
  next_base_fee = 0;
  gas_used = 0;
  gas_limit = 0;
  cutoff = 0;
}

-- `m[name]` and `m[name].PriorityFee`: nil reads as empty, and a missing level as 0.
unfoldable pub level_of : String → Option (TextMap GasLevel) → Option GasLevel
level_of name none = none
level_of name (some levels) = TextMap.get name levels

unfoldable pub priority_of : String → Option (TextMap GasLevel) → ℕ
priority_of name levels = elim (level_of name levels) [ none ↦ 0 | some level ↦ level.priority_fee ]

abbrev pub gas_level : ℕ → ℕ → GasLevel
gas_level base_fee fee = record { priority_fee = fee; max_fee = add64 base_fee fee }

-- The loop of the two updates, into a new map.
unfoldable pub levels_from : ℕ → TextMap ℕ → TextMap GasLevel → TextMap GasLevel
levels_from base_fee [] levels = levels
levels_from base_fee ((level, fee) ∷ result) levels =
    levels_from base_fee result (TextMap.put level (gas_level base_fee fee) levels)

module _ {F : Type 0} where
  unfoldable pub reset : Analyzer F → Analyzer F
  reset a = record a {
    ready = false;
    latest_result = no_prediction;
    latest_block_data = no_block_data;
  }

  unfoldable pub set_ready : Analyzer F → Analyzer F
  set_ready a = record a { ready = true }

  unfoldable pub get_prediction : Analyzer F → GasPrediction
  get_prediction a = a.latest_result

  unfoldable pub get_current_block_num_and_time : Analyzer F → ℕ × ℕ
  get_current_block_num_and_time a =
      (a.latest_block_data.block_number, a.latest_block_data.block_time)

  -- `UpdateLatestBlockData` on a header with the number and base fee given; `Uint64` keeps 64 bits.
  unfoldable pub set_block_data : Header → ℕ → ℕ → ℕ → ℕ → Analyzer F → Analyzer F
  set_block_data header number base_fee next_base_fee cutoff a = record a {
    latest_block_data = record {
      block_number = number % u64_mod;
      block_time = header.time;
      base_fee = base_fee % u64_mod;
      next_base_fee = next_base_fee;
      gas_used = header.gas_used;
      gas_limit = header.gas_limit;
      cutoff = cutoff;
    };
  }

  -- `UpdateLatestBlockData`: a nil number or base fee is dereferenced.
  unfoldable pub update_latest_block_data : Header → ℕ → ℕ → Analyzer F → Option (Analyzer F)
  update_latest_block_data header next_base_fee cutoff a = elim header.number [
    | none ↦ none
    | some number ↦ elim header.base_fee [
      | none ↦ none
      | some base_fee ↦ some (set_block_data header number base_fee next_base_fee cutoff a)
    ]
  ]

  -- `UpdateAnalBlockTxPredictionGasResult`
  unfoldable pub update_block_result : TextMap ℕ → Analyzer F → Analyzer F
  update_block_result result a = record a {
    latest_result = record (a.latest_result) {
      analyzer_block = some (levels_from a.latest_block_data.next_base_fee result []);
    };
  }

  -- `UpdateAnalPendingTxPredictionGasResult`
  unfoldable pub update_pending_result : TextMap ℕ → Analyzer F → Analyzer F
  update_pending_result result a = record a {
    latest_result = record (a.latest_result) {
      analyzer_pending = some (levels_from a.latest_block_data.next_base_fee result []);
    };
  }

-- The entries of `PredictResult`, nil if it is not yet made.
unfoldable pub entries_of : Option (TextMap GasLevel) → TextMap GasLevel
entries_of none = []
entries_of (some levels) = levels

module _ {F : Type 0} (fl : Float F) where
  -- `negated` is the constant `-lamda`.
  unfoldable pub new_analyzer : F → ℕ → Analyzer F
  new_analyzer negated max_block_count = record {
    decay_table = decay_from fl negated 0 max_block_count;
    latest_result = no_prediction;
    latest_block_data = no_block_data;
    ready = false;
  }

  -- `uint64((float64(anaBlock)*0.2 + float64(anaPending)*0.8) * multiplier)`
  unfoldable pub blend : ℕ → ℕ → ℕ
  blend ana_block ana_pending = fl.to_u64 (
      fl.mul
        (fl.add (fl.mul (fl.of_u64 ana_block) (fl.lit 2 10))
          (fl.mul (fl.of_u64 ana_pending) (fl.lit 8 10)))
        (fl.lit 1 1))

  -- The loop of `UpdateResult`: a target that the block has no level for keeps what it has.
  unfoldable pub predict_levels :
      GasPrediction → List (TargetPercentile F) → TextMap GasLevel → TextMap GasLevel
  predict_levels p [] levels = levels
  predict_levels p (t ∷ targets) levels = elim (level_of t.name p.analyzer_block) [
    | none ↦ predict_levels p targets levels
    | some block ↦ predict_levels p targets (
        TextMap.put t.name
          (gas_level p.next_base_fee
            (blend block.priority_fee (priority_of t.name p.analyzer_pending)))
          levels)
  ]

  unfoldable pub predict : ℕ → ℕ → GasPrediction → GasPrediction
  predict next_block_num next_base_fee p =
      let p' = record p { next_block_number = next_block_num; next_base_fee = next_base_fee } in
      record p' {
        predict_result =
            some (predict_levels p' (gas_prediction_targets fl) (entries_of p.predict_result));
      }

  -- `UpdateResult`, which does not read its argument `currentBaseFee`; the result that it returns is a
  -- copy of `latestResult`.
  unfoldable pub update_result : ℕ → ℕ → Analyzer F → Analyzer F
  update_result next_block_num next_base_fee a = record a {
    latest_result = predict next_block_num next_base_fee a.latest_result;
  }

  module _ (sort : List (WeightedTip F) → List (WeightedTip F)) where
    -- What follows once the pending levels are there.
    unfoldable pub finish_analysis :
        Option (TextMap ℕ) → Analyzer F → Option (Analyzer F × Option GasPrediction)
    finish_analysis none a = none
    finish_analysis (some pending_result) a =
        let next_block_num = add64 a.latest_block_data.block_number 1 in
        let a' =
          update_result next_block_num a.latest_block_data.next_base_fee
            (update_pending_result pending_result a) in
        some (a', some a'.latest_result)

    -- `AnalyzeGasPrice` on a snapshot of the pending pool, where no other method runs in between: the
    -- analyzer and the prediction that is sent.
    unfoldable pub analyze_gas_price :
        List PendingTx → Analyzer F → Option (Analyzer F × Option GasPrediction)
    analyze_gas_price snapshot a =
        let data_ = a.latest_block_data in
        let pool = collect_pending_tx fl data_.next_base_fee data_.gas_limit snapshot in
        if a.ready then finish_analysis (pending_percentiles fl sort pool) a else some (a, none)

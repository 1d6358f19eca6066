-- ===== src/GasAnalyzer/Targets.antt =====
-- internal/gasanalyzer/type.go: the data types and the tables.
use eth_mon_svr.Base.{ℕ, List, [], ◌∷◌, String, same_text, if◌then◌else◌}
use eth_mon_svr.GasAnalyzer.Float.{Float}

pub record WeightedTip (F : Type 0) : Type 0 where
  pub tip : ℕ
  pub weight : F

pub record GasTip : Type 0 where
  pub tip : ℕ
  pub gas : ℕ

pub record GasLevel : Type 0 where
  pub priority_fee : ℕ
  pub max_fee : ℕ

pub record OuterInfo : Type 0 where
  pub count : ℕ
  pub upper_bound : ℕ

pub record WeightPoint (F : Type 0) : Type 0 where
  pub index : ℕ
  pub weight : F

pub record TargetPercentile (F : Type 0) : Type 0 where
  pub name : String
  pub percentile : F
  pub index : ℕ
  pub group_key : String

module _ {F : Type 0} (fl : Float F) where
  abbrev pub gas_prediction_targets : List (TargetPercentile F)
  gas_prediction_targets =
      record { name = "market"; percentile = fl.lit 50 100; index = 3; group_key = "p50" }
      ∷ record { name = "fast"; percentile = fl.lit 75 100; index = 8; group_key = "p75" }
      ∷ record { name = "urgent"; percentile = fl.lit 90 100; index = 11; group_key = "p90" }
      ∷ []

  -- P20 to P95 are the places 0 to 12.
  abbrev pub gas_analysis_targets : List F
  gas_analysis_targets =
      fl.lit 20 100
      ∷ fl.lit 40 100
      ∷ fl.lit 45 100
      ∷ fl.lit 50 100
      ∷ fl.lit 55 100
      ∷ fl.lit 60 100
      ∷ fl.lit 65 100
      ∷ fl.lit 70 100
      ∷ fl.lit 75 100
      ∷ fl.lit 80 100
      ∷ fl.lit 85 100
      ∷ fl.lit 90 100
      ∷ fl.lit 95 100
      ∷ []

  abbrev pub point : ℕ → ℕ → WeightPoint F
  point index weight = record { index = index; weight = fl.lit weight 1 }

  -- `PredictionGroups[key]`: a missing key reads as the nil slice.
  unfoldable pub prediction_groups : String → List (WeightPoint F)
  prediction_groups key =
      if same_text key "p50"
      then point 1 1 ∷ point 2 1 ∷ point 3 4 ∷ point 4 1 ∷ point 5 1 ∷ []
      else (if same_text key "p75"
          then point 6 1 ∷ point 7 5 ∷ point 8 10 ∷ point 9 5 ∷ point 10 1 ∷ []
          else (if same_text key "p90" then point 10 1 ∷ point 11 3 ∷ point 12 1 ∷ [] else []))

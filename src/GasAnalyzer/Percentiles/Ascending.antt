-- ===== src/GasAnalyzer/Percentiles/Ascending.antt =====
-- `calculateWeightedPercentiles` of internal/gasanalyzer/util.go on a pool that is sorted by tip.
use eth_mon_svr.Base.{
  ℕ, ◌≤◌, ◌≡◌, refl, false, List, [], ◌∷◌, some, length, All, Bool-cases, inl, inr, arith,
}
use eth_mon_svr.GasAnalyzer.Float.{Float}
use eth_mon_svr.GasAnalyzer.Targets.{WeightedTip, gas_analysis_targets}
use eth_mon_svr.GasAnalyzer.Percentiles.{last_tip, total_weight, calculate_weighted_percentiles}
use eth_mon_svr.GasAnalyzer.Percentiles.Reference.{
  tip_at, tips_at, IsBelow, AreAscending, calculate_weighted_percentiles-tips_at,
}

-- The tips do not fall.
abbrev pub IsSorted : {F : Type 0} → List (WeightedTip F) → Type 0
IsSorted [] = Unit
IsSorted (x ∷ rest) = All (λ y. x.tip ≤ y.tip) rest × IsSorted rest

abbrev pub Ascends : List ℕ → Type 0
Ascends [] = Unit
Ascends (x ∷ []) = Unit
Ascends (x ∷ y ∷ rest) = (x ≤ y) × Ascends (y ∷ rest)

module _ {F : Type 0} (fl : Float F) where
  tip_at-le :
      (low last : ℕ) (limit cumulative : F) (txs : List (WeightedTip F))
      → low ≤ last
      → All (λ y. low ≤ y.tip) txs
      → low ≤ tip_at fl last limit cumulative txs
  unfolding tip_at
  tip_at-le low last limit cumulative [] le all = le
  tip_at-le low last limit cumulative (tx ∷ txs) le (first, rest) =
      ground (arith, tip_at-le low last limit (fl.add cumulative tx.weight) txs le rest)

  tip_at_mono :
      (total a b : F) (last : ℕ) (cumulative : F) (txs : List (WeightedTip F))
      → IsBelow fl total a b
      → All (λ y. y.tip ≤ last) txs
      → IsSorted txs
      → tip_at fl last (fl.mul a total) cumulative txs
        ≤ tip_at fl last (fl.mul b total) cumulative txs
  unfolding tip_at IsBelow
  tip_at_mono total a b last cumulative [] below le sorted = omega arith
  tip_at_mono total a b last cumulative (tx ∷ txs) below (le, les) (low, sorted) =
      let c = fl.add cumulative tx.weight in
      elim (Bool-cases (fl.ge c (fl.mul a total))) [
        | inl reached ↦ elim (Bool-cases (fl.ge c (fl.mul b total))) [
          | inl both ↦ rw (reached, both) (omega arith)
          | inr later ↦ rw (reached, later) (tip_at-le tx.tip last (fl.mul b total) c txs le low)
        ]
        | inr before ↦ elim (Bool-cases (fl.ge c (fl.mul b total))) [
          | inl early ↦ absurd (cc (below c early))
          | inr later ↦ rw (before, later) (tip_at_mono total a b last c txs below les sorted)
        ]
      ]

  tips_at-Ascends :
      (total : F) (last : ℕ) (cumulative : F) (txs : List (WeightedTip F)) (ts : List F)
      → AreAscending fl total ts
      → All (λ y. y.tip ≤ last) txs
      → IsSorted txs
      → Ascends (tips_at fl total last cumulative txs ts)
  unfolding tips_at AreAscending
  tips_at-Ascends total last cumulative txs [] asc les sorted = tt
  tips_at-Ascends total last cumulative txs (t ∷ []) asc les sorted = tt
  tips_at-Ascends total last cumulative txs (t ∷ u ∷ us) (below, asc) les sorted = (
    tip_at_mono total t u last cumulative txs below les sorted,
    tips_at-Ascends total last cumulative txs (u ∷ us) asc les sorted,
  )

  last_tip-le :
      (txs : List (WeightedTip F)) {last : ℕ}
      → last_tip txs ≡ some last
      → IsSorted txs
      → All (λ y. y.tip ≤ last) txs
  unfolding last_tip
  last_tip-le [] e sorted = tt
  last_tip-le (x ∷ []) e sorted = (ground arith, tt)
  last_tip-le (x ∷ y ∷ rest) e (low, sorted) =
      let later = last_tip-le (y ∷ rest) e sorted in (omega (arith, low.0, later.0), later)

  -- On a pool that is sorted by tip, not empty and of a total weight that is not zero, where the parts that
  -- the targets stand for ascend, there are 13 percentiles, and they do not fall.
  pub calculate_weighted_percentiles-Ascends :
      (pool : List (WeightedTip F))
      → fl.is_zero (total_weight fl pool) ≡ false
      → AreAscending fl (total_weight fl pool) (gas_analysis_targets fl)
      → IsSorted pool
      → {last : ℕ} → last_tip pool ≡ some last
      → (results : List ℕ) × (calculate_weighted_percentiles fl pool ≡ some results)
        × Ascends results
        × (length results ≡ 13)
  unfolding tips_at
  calculate_weighted_percentiles-Ascends pool some_weight asc sorted {last} end = (
    tips_at fl (total_weight fl pool) last (fl.lit 0 1) pool (gas_analysis_targets fl),
    calculate_weighted_percentiles-tips_at fl pool some_weight asc end,
    tips_at-Ascends (total_weight fl pool) last (fl.lit 0 1) pool (gas_analysis_targets fl) asc
        (last_tip-le pool end sorted) sorted,
    refl,
  )

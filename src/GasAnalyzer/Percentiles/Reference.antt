-- ===== src/GasAnalyzer/Percentiles/Reference.antt =====
-- `calculateWeightedPercentiles` of internal/gasanalyzer/util.go: each percentile on its own.
use eth_mon_svr.Base.{
  ℕ, ◌≤◌, ◌≡◌, refl, ap, ◌∙◌, sym, true, false, List, [], ◌∷◌, ◌++◌, map, some, if◌then◌else◌,
  Bool-cases, List-cases, inl, inr, arith,
}
use mathlib.Core.List.{append_assoc}
use eth_mon_svr.GasAnalyzer.Float.{Float, IsMonotone}
use eth_mon_svr.GasAnalyzer.Targets.{WeightedTip, gas_analysis_targets}
use eth_mon_svr.GasAnalyzer.Percentiles.{
  last_tip, total_weight, reach, scan, calculate_weighted_percentiles,
}

module _ {F : Type 0} (fl : Float F) where
  -- The tip at which the weights, added up from `cumulative` on, first reach the limit; `last` if they
  -- never do.
  unfoldable pub tip_at : ℕ → F → F → List (WeightedTip F) → ℕ
  tip_at last limit cumulative [] = last
  tip_at last limit cumulative (tx ∷ txs) =
      let later = tip_at last limit (fl.add cumulative tx.weight) txs in
      if fl.ge (fl.add cumulative tx.weight) limit then tx.tip else later

  -- A sum that reaches the part `b` of the total reaches the part `a` too.
  unfoldable pub IsBelow : F → F → F → Type 0
  IsBelow total a b = (c : F) → fl.ge c (fl.mul b total) ≡ true → fl.ge c (fl.mul a total) ≡ true

  -- Each target is below the next one.
  unfoldable pub AreAscending : F → List F → Type 0
  AreAscending total [] = Unit
  AreAscending total (a ∷ []) = Unit
  AreAscending total (a ∷ b ∷ ts) = IsBelow total a b × AreAscending total (b ∷ ts)

  -- A part of the total by itself.
  unfoldable pub tips_at : F → ℕ → F → List (WeightedTip F) → List F → List ℕ
  tips_at total last cumulative txs [] = []
  tips_at total last cumulative txs (t ∷ ts) =
      tip_at last (fl.mul t total) cumulative txs ∷ tips_at total last cumulative txs ts

  module _ (total : F) (last : ℕ) where
    none_reached :
        (cumulative : F) (tx : WeightedTip F) (txs : List (WeightedTip F)) (t : F) (ts : List F)
        → AreAscending total (t ∷ ts)
        → fl.ge (fl.add cumulative tx.weight) (fl.mul t total) ≡ false
        → tips_at total last cumulative (tx ∷ txs) (t ∷ ts)
          ≡ tips_at total last (fl.add cumulative tx.weight) txs (t ∷ ts)
    unfolding tips_at tip_at AreAscending IsBelow
    none_reached cumulative tx txs t [] asc below = rw below refl
    none_reached cumulative tx txs t (u ∷ us) (next, asc) below =
        elim (Bool-cases (fl.ge (fl.add cumulative tx.weight) (fl.mul u total))) [
          | inl above ↦ absurd (cc (next _ above))
          | inr too ↦ rw below (
              ap (λ l. tip_at last (fl.mul t total) (fl.add cumulative tx.weight) txs ∷ l)
                (none_reached cumulative tx txs u us asc too))
        ]

    tail-AreAscending : (t : F) (ts : List F) → AreAscending total (t ∷ ts) → AreAscending total ts
    unfolding AreAscending
    tail-AreAscending t [] asc = tt
    tail-AreAscending t (u ∷ us) (next, asc) = asc

    reach-below :
        (cumulative : F) (tip : ℕ) (t : F) (ts : List F)
        → fl.ge cumulative (fl.mul t total) ≡ false
        → reach fl total cumulative tip (t ∷ ts) ≡ ([], t ∷ ts)
    unfolding reach
    reach-below cumulative tip t ts below = rw below refl

    below_tips :
        (cumulative : F) (tx : WeightedTip F) (txs : List (WeightedTip F)) (t : F) (ts : List F)
        → AreAscending total (t ∷ ts)
        → fl.ge (fl.add cumulative tx.weight) (fl.mul t total) ≡ false
        → let (done, left) = reach fl total (fl.add cumulative tx.weight) tx.tip (t ∷ ts) in
          (tips_at total last cumulative (tx ∷ txs) (t ∷ ts)
            ≡ done ++ tips_at total last (fl.add cumulative tx.weight) txs left)
          × AreAscending total left
    below_tips cumulative tx txs t ts asc below =
        rw (reach-below (fl.add cumulative tx.weight) tx.tip t ts below)
          (none_reached cumulative tx txs t ts asc below, asc)

    -- One round of the outer loop.
    reach-tips_at :
        (cumulative : F) (tx : WeightedTip F) (txs : List (WeightedTip F)) (ts : List F)
        → AreAscending total ts
        → let (done, left) = reach fl total (fl.add cumulative tx.weight) tx.tip ts in
          (tips_at total last cumulative (tx ∷ txs) ts
            ≡ done ++ tips_at total last (fl.add cumulative tx.weight) txs left)
          × AreAscending total left
    unfolding reach tips_at tip_at
    reach-tips_at cumulative tx txs [] asc = (refl, asc)
    reach-tips_at cumulative tx txs (t ∷ ts) asc =
        elim (Bool-cases (fl.ge (fl.add cumulative tx.weight) (fl.mul t total))) [
          | inl reached ↦
              let (same, asc') = reach-tips_at cumulative tx txs ts (tail-AreAscending t ts asc) in
              rw reached (ap (λ l. tx.tip ∷ l) same, asc')
          | inr below ↦ below_tips cumulative tx txs t ts asc below
        ]

    scan-none :
        (cumulative : F) (tx : WeightedTip F) (txs : List (WeightedTip F)) (ts : List F)
        → let (done, left) = reach fl total (fl.add cumulative tx.weight) tx.tip ts in
          left ≡ [] → scan fl total cumulative (tx ∷ txs) ts ≡ (done, [])
    unfolding scan
    scan-none cumulative tx txs ts e = rw (e, scan) refl

    scan-some :
        (cumulative : F) (tx : WeightedTip F) (txs : List (WeightedTip F)) (ts : List F) (u : F)
        (us : List F)
        → let (done, left) = reach fl total (fl.add cumulative tx.weight) tx.tip ts in
          let (more, left') = scan fl total (fl.add cumulative tx.weight) txs left in
          left ≡ u ∷ us → scan fl total cumulative (tx ∷ txs) ts ≡ (done ++ more, left')
    unfolding scan
    scan-some cumulative tx txs ts u us e = ground arith

    scan-end :
        (cumulative : F) (ts : List F) → map (λ t. last) ts ≡ tips_at total last cumulative [] ts
    unfolding tips_at tip_at
    scan-end cumulative [] = refl
    scan-end cumulative (t ∷ ts) = ap (λ l. last ∷ l) (scan-end cumulative ts)

    scan-tips_at :
        (cumulative : F) (txs : List (WeightedTip F)) (ts : List F)
        → AreAscending total ts
        → let (done, left) = scan fl total cumulative txs ts in
          done ++ map (λ t. last) left ≡ tips_at total last cumulative txs ts
    unfolding scan tips_at
    scan-tips_at cumulative [] ts asc = scan-end cumulative ts
    scan-tips_at cumulative (tx ∷ txs) ts asc =
        let (done, left) = reach fl total (fl.add cumulative tx.weight) tx.tip ts in
        let (same, asc') = reach-tips_at cumulative tx txs ts asc in
        let (more, left') = scan fl total (fl.add cumulative tx.weight) txs left in
        let later = scan-tips_at (fl.add cumulative tx.weight) txs left asc' in
        elim (List-cases left) [
          | inl over ↦
              let stop = scan-none cumulative tx txs ts over in
              ap (λ r. r.0 ++ map (λ t. last) r.1) stop
              ∙ ap (λ l. done ++ tips_at total last (fl.add cumulative tx.weight) txs l) (sym over)
              ∙ sym same
          | inr (u, us, e) ↦
              let step = scan-some cumulative tx txs ts u us e in
              ap (λ r. r.0 ++ map (λ t. last) r.1) step
              ∙ append_assoc done more (map (λ t. last) left')
              ∙ ap (λ l. done ++ l) later
              ∙ sym same
        ]

  -- On a pool that is not empty, where the parts that the targets stand for ascend and the total weight is
  -- not zero, each percentile is the tip at which the weights, added up in order, first reach its part of
  -- the total, or the last tip where they never do; there is no panic.
  pub calculate_weighted_percentiles-tips_at :
      (pool : List (WeightedTip F))
      → fl.is_zero (total_weight fl pool) ≡ false
      → AreAscending (total_weight fl pool) (gas_analysis_targets fl)
      → {last : ℕ} → last_tip pool ≡ some last
      → calculate_weighted_percentiles fl pool
        ≡ some (tips_at (total_weight fl pool) last (fl.lit 0 1) pool (gas_analysis_targets fl))
  unfolding calculate_weighted_percentiles
  calculate_weighted_percentiles-tips_at pool some_weight asc {last} end =
      rw (some_weight, end)
        (ap some (
          scan-tips_at (total_weight fl pool) last (fl.lit 0 1) pool (gas_analysis_targets fl) asc))

  lit-IsBelow :
      IsMonotone fl
      → (total : F) (n m : ℕ) → n ≤ m
      → fl.ge total (fl.lit 0 1) ≡ true
      → IsBelow total (fl.lit n 100) (fl.lit m 100)
  unfolding IsBelow
  lit-IsBelow mono total n m le pos c =
      mono.mul_mono (fl.lit n 100) (fl.lit m 100) total c (mono.lit_mono n m le) pos

  -- The targets of the program ascend for any total that is not negative.
  pub gas_analysis_targets-AreAscending :
      IsMonotone fl
      → (total : F) → fl.ge total (fl.lit 0 1) ≡ true
      → AreAscending total (gas_analysis_targets fl)
  unfolding AreAscending
  gas_analysis_targets-AreAscending m total pos =
      let below = λ (a b : ℕ) (le : a ≤ b). lit-IsBelow m total a b le pos in
      (
        below 20 40 (omega arith),
        (
          below 40 45 (omega arith),
          (
            below 45 50 (omega arith),
            (
              below 50 55 (omega arith),
              (
                below 55 60 (omega arith),
                (
                  below 60 65 (omega arith),
                  (
                    below 65 70 (omega arith),
                    (
                      below 70 75 (omega arith),
                      (
                        below 75 80 (omega arith),
                        (
                          below 80 85 (omega arith),
                          (below 85 90 (omega arith), (below 90 95 (omega arith), tt)),
                        ),
                      ),
                    ),
                  ),
                ),
              ),
            ),
          ),
        ),
      )

-- ===== src/GasAnalyzer/Fee/NextBaseFee.antt =====
-- `CalculateNextBaseFee` of internal/gasanalyzer/fee.go.
use eth_mon_svr.Base.{
  ℕ, ◌+◌, ◌-◌, ◌*◌, ◌/◌, ◌≤◌, ◌<◌, ◌≡◌, ◌↔◌, none, some, arith, max, Option-cases, inl, inr,
}
use eth_mon_svr.GasAnalyzer.Fee.{calculate_next_base_fee}

-- With a base fee, the computation panics (division by zero) exactly where the gas limit is below 2
-- and gas was used.
pub calculate_next_base_fee-panics :
    (base gas_used gas_limit : ℕ)
    → (calculate_next_base_fee (some base) gas_used gas_limit ≡ none)
      ↔ ((gas_limit < 2) × (0 < gas_used))
unfolding calculate_next_base_fee
calculate_next_base_fee-panics b u l = (λ h. ground arith, λ h. ground arith)

-- The change before it is divided by 8 is at most the base fee, and grows with the gap.
scaled-le : (base gap target : ℕ) → gap ≤ target → base * gap / target ≤ base
scaled-le b g t h = grind arith

scaled_mono : (base g h target : ℕ) → g ≤ h → base * g / target ≤ base * h / target
scaled_mono b g h t le = grind arith

next_bounds :
    (base gas_used gas_limit : ℕ) {next : ℕ}
    → 2 ≤ gas_limit
    → gas_used ≤ 2 * (gas_limit / 2)
    → calculate_next_base_fee (some base) gas_used gas_limit ≡ some next
    → (next ≤ base + max 1 (base / 8))
      × (base ≤ next + base / 8)
      × ((base < next) ↔ (gas_limit / 2 < gas_used))
unfolding calculate_next_base_fee
next_bounds b u l h k e =
    let up = scaled-le b (u - l / 2) (l / 2) in
    let down = scaled-le b (l / 2 - u) (l / 2) in
    (
      ground (arith, up, down),
      ground (arith, up, down),
      (λ r. ground (arith, down), λ r. ground arith),
    )

-- With a gas limit of 2 or more and no more gas used than twice the target, there is a next base
-- fee; it rises by at most an eighth of the base fee (or by 1 where that is more) and falls by at
-- most an eighth. It is above the base fee exactly where more gas than the target was used.
pub calculate_next_base_fee-bounds :
    (base gas_used gas_limit : ℕ)
    → 2 ≤ gas_limit
    → gas_used ≤ 2 * (gas_limit / 2)
    → (next : ℕ) × (calculate_next_base_fee (some base) gas_used gas_limit ≡ some next)
      × (next ≤ base + max 1 (base / 8))
      × (base ≤ next + base / 8)
      × ((base < next) ↔ (gas_limit / 2 < gas_used))
calculate_next_base_fee-bounds b u l h k =
    elim (Option-cases (calculate_next_base_fee (some b) u l)) [
      | inl e ↦ absurd (omega (arith, (calculate_next_base_fee-panics b u l).0 e))
      | inr (next, e) ↦ let (up, down, side) = next_bounds b u l h k e in (next, e, up, down, side)
    ]

-- The next base fee does not fall when more gas is used.
pub calculate_next_base_fee_mono :
    (base gas_used more_used gas_limit : ℕ) {next next' : ℕ}
    → gas_used ≤ more_used
    → calculate_next_base_fee (some base) gas_used gas_limit ≡ some next
    → calculate_next_base_fee (some base) more_used gas_limit ≡ some next'
    → next ≤ next'
unfolding calculate_next_base_fee
calculate_next_base_fee_mono b u m l h e e' = ground (
  arith,
  scaled_mono b (u - l / 2) (m - l / 2) (l / 2),
  scaled_mono b (l / 2 - m) (l / 2 - u) (l / 2),
)

-- ===== src/GasAnalyzer/Fee.antt =====
-- internal/gasanalyzer/fee.go. A `*big.Int` is an `Option` of a natural number (`none` for nil): the
-- base fees and gas prices of a header or receipt are not negative. The first result of an outer
-- `Option` that is `none` is a panic.
pub mod Tips
pub mod NextBaseFee
pub mod Tests
use eth_mon_svr.Base.{
  ℕ, ◌+◌, ◌-◌, ◌*◌, ◌/◌, Bool, true, false, Option, none, some, ltb, leb, ◌==◌, u64_mod,
  if◌then◌else◌,
}

-- `EffectiveTip`: the tip, and whether there is one. `-` does not wrap behind the guard.
unfoldable pub effective_tip : ℕ → ℕ → ℕ → ℕ × Bool
effective_tip fee_cap tip_cap base_fee =
    if leb fee_cap base_fee
    then (0, false)
    else (let diff = fee_cap - base_fee in
        if ltb tip_cap diff then (tip_cap, true) else (diff, true))

-- `EffectiveTipFromReceipt`: a difference that is not positive, or is no uint64, is no tip.
unfoldable pub effective_tip_from_receipt : Option ℕ → Option ℕ → ℕ × Bool
effective_tip_from_receipt none base_fee = (0, false)
effective_tip_from_receipt (some price) none = (0, false)
effective_tip_from_receipt (some price) (some base) =
    if leb price base
    then (0, false)
    else (if leb u64_mod (price - base) then (0, false) else (price - base, true))

-- `new(big.Int).Div(x, y)` panics where y is 0.
unfoldable pub big_div : ℕ → ℕ → Option ℕ
big_div x y = if y == 0 then none else some (x / y)

-- The branch `gasUsed > targetGas` of `CalculateNextBaseFee`.
unfoldable pub raise_base_fee : ℕ → ℕ → ℕ → Option ℕ
unfolding big_div
raise_base_fee base gas_used target = elim (big_div (base * (gas_used - target)) target) [
  | none ↦ none
  | some q ↦ let diff = q / 8 in some (base + (if diff == 0 then 1 else diff))
]

-- The branch `gasUsed < targetGas`: a negative result is set to 0.
unfoldable pub lower_base_fee : ℕ → ℕ → ℕ → Option ℕ
unfolding big_div
lower_base_fee base gas_used target = elim (big_div (base * (target - gas_used)) target) [
  | none ↦ none
  | some q ↦ let diff = q / 8 in some (if ltb base diff then 0 else base - diff)
]

-- `CalculateNextBaseFee`
unfoldable pub calculate_next_base_fee : Option ℕ → ℕ → ℕ → Option ℕ
unfolding raise_base_fee lower_base_fee
calculate_next_base_fee none gas_used gas_limit = some 1000000000
calculate_next_base_fee (some base) gas_used gas_limit =
    let target = gas_limit / 2 in
    if gas_used == target
    then some base
    else (if ltb target gas_used
        then raise_base_fee base gas_used target
        else lower_base_fee base gas_used target)

-- ===== src/GasAnalyzer/Fee/Tests.antt =====
-- The fee computations on the numbers of a block.
use eth_mon_svr.Base.{min, ℕ, ◌+◌, ◌/◌, ◌≤◌, ◌<◌, ◌≡◌, ◌⊎◌, ◌↔◌, refl, true, none, some, arith, max}
use eth_mon_svr.GasAnalyzer.Fee.{effective_tip, effective_tip_from_receipt, calculate_next_base_fee}
use eth_mon_svr.GasAnalyzer.Fee.Tips.{
  effective_tip-greatest, effective_tip_from_receipt-effective_tip,
}
use eth_mon_svr.GasAnalyzer.Fee.NextBaseFee.{
  calculate_next_base_fee-panics, calculate_next_base_fee-bounds, calculate_next_base_fee_mono,
}

capped_tip : effective_tip 100 50 80 ≡ (20, true)
unfolding effective_tip
capped_tip = refl

receipt_tip : effective_tip_from_receipt (some 100) (some 80) ≡ (20, true)
unfolding effective_tip_from_receipt
receipt_tip = refl

raised : calculate_next_base_fee (some 1000) 30 30 ≡ some 1125
unfolding calculate_next_base_fee
raised = refl

lowered : calculate_next_base_fee (some 1000) 0 30 ≡ some 875
unfolding calculate_next_base_fee
lowered = refl

effective_tip-greatest_example :
    (tip : ℕ) × (effective_tip 100 50 80 ≡ (tip, true))
    × (tip ≤ 50)
    × (80 + tip ≤ 100)
    × ((tip ≡ 50) ⊎ (80 + tip ≡ 100))
effective_tip-greatest_example = effective_tip-greatest 100 50 80 (omega arith)

effective_tip_from_receipt-effective_tip_example :
    effective_tip_from_receipt (some (min 100 (80 + 50))) (some 80) ≡ effective_tip 100 50 80
effective_tip_from_receipt-effective_tip_example =
    effective_tip_from_receipt-effective_tip 100 50 80 (omega arith) (omega arith) (omega arith)

calculate_next_base_fee-panics_example :
    (calculate_next_base_fee (some 1000) 1 1 ≡ none) ↔ ((1 < 2) × (0 < 1))
calculate_next_base_fee-panics_example = calculate_next_base_fee-panics 1000 1 1

calculate_next_base_fee-bounds_example :
    (next : ℕ) × (calculate_next_base_fee (some 1000) 20 30 ≡ some next)
    × (next ≤ 1000 + max 1 (1000 / 8))
    × (1000 ≤ next + 1000 / 8)
    × ((1000 < next) ↔ (30 / 2 < 20))
calculate_next_base_fee-bounds_example =
    calculate_next_base_fee-bounds 1000 20 30 (omega arith) (omega arith)

calculate_next_base_fee_mono_example : 875 ≤ 1125
unfolding calculate_next_base_fee
calculate_next_base_fee_mono_example =
    calculate_next_base_fee_mono 1000 0 30 30 (omega arith) refl refl

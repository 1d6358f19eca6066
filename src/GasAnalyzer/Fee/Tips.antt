-- ===== src/GasAnalyzer/Fee/Tips.antt =====
-- The two tip computations of internal/gasanalyzer/fee.go.
use eth_mon_svr.Base.{ℕ, ◌+◌, ◌≤◌, ◌<◌, ◌≡◌, ◌⊎◌, true, some, min, arith, u64_mod}
use eth_mon_svr.GasAnalyzer.Fee.{effective_tip, effective_tip_from_receipt}

-- Where the fee cap is above the base fee, `EffectiveTip` returns a tip that is at most the tip cap,
-- and that with the base fee is at most the fee cap; and it is the greatest such: it meets one of
-- the two bounds exactly.
pub effective_tip-greatest :
    (fee_cap tip_cap base_fee : ℕ)
    → base_fee < fee_cap
    → (tip : ℕ) × (effective_tip fee_cap tip_cap base_fee ≡ (tip, true))
      × (tip ≤ tip_cap)
      × (base_fee + tip ≤ fee_cap)
      × ((tip ≡ tip_cap) ⊎ (base_fee + tip ≡ fee_cap))
unfolding effective_tip
effective_tip-greatest f t b h =
    ((effective_tip f t b).0, ground arith, ground arith, ground arith, ground arith)

-- A uint64 fee cap above the base fee and a positive tip cap: from the receipt of the transaction,
-- whose effective gas price is, by EIP-1559, the smaller of the fee cap and of the base fee with the
-- tip cap, `EffectiveTipFromReceipt` recovers what `EffectiveTip` had predicted.
pub effective_tip_from_receipt-effective_tip :
    (fee_cap tip_cap base_fee : ℕ)
    → base_fee < fee_cap
    → fee_cap < u64_mod
    → 0 < tip_cap
    → effective_tip_from_receipt (some (min fee_cap (base_fee + tip_cap))) (some base_fee)
      ≡ effective_tip fee_cap tip_cap base_fee
unfolding effective_tip_from_receipt effective_tip
effective_tip_from_receipt-effective_tip f t b h k p = ground arith

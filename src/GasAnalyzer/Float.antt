-- ===== src/GasAnalyzer/Float.antt =====
-- The float64 operations that internal/gasanalyzer uses, as a record: the arithmetic of IEEE 754 is not
-- part of the model, and what a theorem needs of it is a named law.
use eth_mon_svr.Base.{ℕ, ◌≤◌, ◌≡◌, Bool, true}

-- `lit n d` is the constant n / d, `of_u64` the conversion `float64(n)` and `to_u64` is `uint64(x)`;
-- `ge a b` is `a >= b`, and `is_zero a` is `a == 0`.
pub record Float (F : Type 0) : Type 0 where
  pub lit : ℕ → ℕ → F
  pub of_u64 : ℕ → F
  pub to_u64 : F → ℕ
  pub add : F → F → F
  pub sub : F → F → F
  pub mul : F → F → F
  pub div : F → F → F
  pub sqrt : F → F
  pub exp : F → F
  pub round : F → F
  pub ge : F → F → Bool
  pub gt : F → F → Bool
  pub is_zero : F → Bool

-- Hundredths are ordered as their numerators, and a product with a weight that is not negative is
-- monotone.
pub record IsMonotone {F : Type 0} (fl : Float F) : Type 0 where
  pub lit_mono : (n m : ℕ) → n ≤ m → fl.ge (fl.lit m 100) (fl.lit n 100) ≡ true
  pub mul_mono :
      (a b w c : F)
      → fl.ge b a ≡ true
      → fl.ge w (fl.lit 0 1) ≡ true
      → fl.ge c (fl.mul b w) ≡ true
      → fl.ge c (fl.mul a w) ≡ true

-- ===== src/Base/Circles.antt =====
-- Places in a circle: indices modulo a length.
use Prim.Native.Nat.{ℕ, ◌+◌, ◌-◌, ◌%◌, ◌≤◌, ◌<◌}
use mathlib.Core.Path.{◌≡◌, ap, ◌∙◌}
use mathlib.Core.Logic.{◌≢◌, inl, inr}
use native.Mathlib.Omega.{arith}
use eth_mon_svr.Base.Tests.{ltb, Bool-cases}

pub mod_lt : (a n : ℕ) → 0 < n → a % n < n
mod_lt a n h = grind arith

pub mod_small : (k len : ℕ) → k < len → k % len ≡ k
mod_small k len lt = grind arith

pub mod_wrapped : (k len : ℕ) → k < len → (k + len) % len ≡ k
mod_wrapped k len lt = grind arith

-- Counting up from `idx` in a circle of `len` meets every other place.
pub circle :
    (len idx k : ℕ)
    → idx < len
    → k < len
    → idx ≢ k
    → (j : ℕ) × (1 ≤ j) × (j < len) × ((idx + j) % len ≡ k)
circle len idx k lt lt' ne = elim (Bool-cases (ltb idx k)) [
  | inl below ↦
      (k - idx, ground arith, ground arith, ap (λ m. m % len) (ground arith) ∙ mod_small k len lt')
  | inr above ↦ (
    k + len - idx,
    ground arith,
    ground arith,
    ap (λ m. m % len) (ground arith) ∙ mod_wrapped k len lt',
  )
]

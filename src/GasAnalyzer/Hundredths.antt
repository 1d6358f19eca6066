-- ===== src/GasAnalyzer/Hundredths.antt =====
-- Hundredths in place of float64, for the runs: `n` stands for n / 100. Square roots and exponentials
-- are left out (they are the identity), since no run takes one.
use eth_mon_svr.Base.{
  ℕ, ◌+◌, ◌-◌, ◌*◌, ◌/◌, ◌≤◌, ◌≡◌, true, ltb, leb, ◌==◌, List, [], ◌∷◌, if◌then◌else◌, arith,
  length, ap, refl, suc, ◌∙◌,
}
use native.Mathlib.Nat.{mul-le-mul_right}
use eth_mon_svr.GasAnalyzer.Float.{Float, IsMonotone}
use eth_mon_svr.GasAnalyzer.Targets.{WeightedTip}

abbrev pub hundredths : Float ℕ
hundredths = record {
  lit = λ n d. n * 100 / d;
  of_u64 = λ n. n * 100;
  to_u64 = λ a. a / 100;
  add = λ a b. a + b;
  sub = λ a b. a - b;
  mul = λ a b. a * b / 100;
  div = λ a b. a * 100 / b;
  sqrt = λ a. a;
  exp = λ a. a;
  round = λ a. (a + 50) / 100 * 100;
  ge = λ a b. leb b a;
  gt = λ a b. ltb b a;
  is_zero = λ a. a == 0;
}

hundredths-mul :
    (a b w c : ℕ) → leb a b ≡ true → leb (b * w / 100) c ≡ true → leb (a * w / 100) c ≡ true
hundredths-mul a b w c le reached =
    let smaller : a ≤ b = ground arith in
    let product : a * w ≤ b * w = mul-le-mul_right w smaller in ground (arith, product)

pub hundredths-IsMonotone : IsMonotone hundredths
hundredths-IsMonotone = record {
  lit_mono = λ n m le. ground (arith, le);
  mul_mono = λ a b w c le pos reached. hundredths-mul a b w c le reached;
}

-- A pool in the order of its tips, by insertion.
abbrev pub insert_by_tip : WeightedTip ℕ → List (WeightedTip ℕ) → List (WeightedTip ℕ)
insert_by_tip x [] = x ∷ []
insert_by_tip x (y ∷ rest) =
    let more = insert_by_tip x rest in if leb x.tip y.tip then x ∷ y ∷ rest else y ∷ more

abbrev pub sort_by_tip : List (WeightedTip ℕ) → List (WeightedTip ℕ)
sort_by_tip [] = []
sort_by_tip (x ∷ rest) = insert_by_tip x (sort_by_tip rest)

length-insert_by_tip :
    (x : WeightedTip ℕ) (pool : List (WeightedTip ℕ))
    → length (insert_by_tip x pool) ≡ suc (length pool)
length-insert_by_tip x [] = refl
length-insert_by_tip x (y ∷ rest) = ground (arith, length-insert_by_tip x rest)

pub length-sort_by_tip : (pool : List (WeightedTip ℕ)) → length (sort_by_tip pool) ≡ length pool
length-sort_by_tip [] = refl
length-sort_by_tip (x ∷ rest) =
    length-insert_by_tip x (sort_by_tip rest) ∙ ap suc (length-sort_by_tip rest)

-- ===== src/GasAnalyzer/Percentiles/Search.antt =====
-- `sort.Search`, which `calculateOuterBound` of internal/gasanalyzer/util.go calls.
use eth_mon_svr.Base.{
  ℕ, zero, suc, ◌+◌, ◌-◌, ◌/◌, ◌≤◌, ◌<◌, ◌≡◌, Bool, true, false, arith, ltb, Bool-cases, inl, inr,
}
use eth_mon_svr.GasAnalyzer.Percentiles.{search_between, search_first}

-- The first index up to `n` from which on the test holds.
pub record IsSplit (f : ℕ → Bool) (n i : ℕ) : Type 0 where
  pub in_range : i ≤ n
  pub fails_below : (k : ℕ) → k < i → f k ≡ false
  pub holds_from : (k : ℕ) → i ≤ k → k < n → f k ≡ true

module _ (f : ℕ → Bool) (n : ℕ) (mono : (k l : ℕ) → k ≤ l → l < n → f k ≡ true → f l ≡ true) where
  search_between-IsSplit :
      (fuel i j : ℕ)
      → j - i < fuel
      → i ≤ j
      → j ≤ n
      → ((k : ℕ) → k < i → f k ≡ false)
      → ((k : ℕ) → j ≤ k → k < n → f k ≡ true)
      → IsSplit f n (search_between fuel f i j)
  unfolding search_between
  search_between-IsSplit zero i j enough le len below from = absurd (omega arith)
  search_between-IsSplit (suc fuel) i j enough le len below from =
      let h = (i + j) / 2 in
      elim (Bool-cases (ltb i j)) [
        | inr over ↦
            let same : i ≡ j = ground arith in
            rw over (record {
              in_range = omega arith;
              fails_below = below;
              holds_from = λ k ge lt. from k (omega arith) lt;
            })
        | inl open_range ↦ elim (Bool-cases (f h)) [
          | inl holds ↦
              rw (open_range, holds)
                (search_between-IsSplit fuel i h (ground arith) (ground arith) (ground arith) below
                  (λ k ge lt. mono h k ge lt holds))
          | inr fails ↦
              rw (open_range, fails)
                (search_between-IsSplit fuel (h + 1) j (ground arith) (ground arith) len
                  (λ k lt. elim (Bool-cases (f k)) [
                    | inr no_k ↦ no_k
                    | inl yes_k ↦ absurd (cc (mono k h (ground arith) (ground arith) yes_k))
                  ])
                  from)
        ]
      ]

  pub search_first-IsSplit : IsSplit f n (search_first n f)
  unfolding search_first
  search_first-IsSplit =
      search_between-IsSplit (n + 1) 0 n (omega arith) (omega arith) (omega arith)
        (λ k lt. absurd (omega arith)) (λ k ge lt. absurd (omega arith))

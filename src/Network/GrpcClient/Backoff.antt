-- ===== src/Network/GrpcClient/Backoff.antt =====
-- The delays of `startStreamWorker` of internal/network/grpcClient/client.go.
use eth_mon_svr.Base.{
  ℕ, zero, suc, ◌-◌, ◌*◌, ◌^◌, ◌≡◌, refl, min, arith, ltb, ap, Bool-cases, inl, inr,
}
use eth_mon_svr.Network.GrpcClient.{
  Retry, retry, double_delay, connected, stream_fast_retry_delay, stream_max_retry_delay,
  stream_fast_retry_count,
}

-- The variables after so many rounds without a connection.
unfoldable pub after : ℕ → Retry
after zero = connected
after (suc n) = (retry (after n)).1

pow_suc : (m : ℕ) → 2 ^ suc m ≡ 2 * 2 ^ m
pow_suc m = grind arith

-- The delay of the round after `n` others, in closed form.
abbrev pub delay_after : ℕ → ℕ
delay_after n =
    min stream_max_retry_delay (stream_fast_retry_delay * 2 ^ (n - stream_fast_retry_count))

after-fields :
    (n : ℕ)
    → ((after n).retry_count ≡ min stream_fast_retry_count n)
      × ((after n).retry_delay ≡ delay_after n)
unfolding after retry double_delay
after-fields zero = (refl, refl)
after-fields (suc n) = elim (Bool-cases (ltb n stream_fast_retry_count)) [
  | inl fast ↦
      let same : suc n - stream_fast_retry_count ≡ n - stream_fast_retry_count = ground arith in
      ground (arith, after-fields n, same)
  | inr slow ↦
      let step : suc n - stream_fast_retry_count ≡ suc (n - stream_fast_retry_count) =
        ground arith in
      ground (arith, after-fields n, ap (λ m. 2 ^ m) step, pow_suc (n - stream_fast_retry_count))
]

-- Without a connection the stream worker waits 2 s three times and once more, and then twice as long
-- each time, but at most 30 s: the round after `n` others waits 2 s times 2 to the power `n - 3`, or
-- 30 s where that is less.
pub retry-after : (n : ℕ) → (retry (after n)).0 ≡ delay_after n
unfolding retry
retry-after n = elim (Bool-cases (ltb n stream_fast_retry_count)) [
  | inl fast ↦
      let same : n - stream_fast_retry_count ≡ 0 = ground arith in
      ground (arith, after-fields n, ap (λ m. 2 ^ m) same)
  | inr slow ↦ ground (arith, after-fields n)
]

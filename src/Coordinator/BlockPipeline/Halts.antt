-- ===== src/Coordinator/BlockPipeline/Halts.antt =====
-- `procAvailable` and `handleHeader` of internal/coordinator/blockPipeline.go.
use eth_mon_svr.Base.{
  ℕ, zero, suc, ◌%◌, u64_mod, ◌+◌, ◌-◌, ◌*◌, ◌≤◌, ◌<◌, ◌≡◌, refl, Bool, true, false, Option, some,
  none, arith, Option-cases, Bool-cases, inl, inr, length, ltb, subst,
}
use eth_mon_svr.Base.Map
use eth_mon_svr.Ethereum.{Header}
use eth_mon_svr.Coordinator.BlockPipeline.{
  BlockProcessor, BlockPipeline, done, store_header, proc_with_retry, check_block_gap, settle,
  proc_available, handle_number, handle_header, retry_count,
}
use eth_mon_svr.Coordinator.BlockPipeline.Ahead.{
  last_num, IsAhead, store_header-IsAhead, check_block_gap-IsAhead,
}
use eth_mon_svr.Coordinator.BlockPipeline.Progress.{
  IsSettling, IsRound, attempt-changes, settle-true, settle-false,
}

rounds_step : (m n b : ℕ) → m < n → m * (b + 1) + (b + 1) ≤ n * (b + 1)
rounds_step m n b h = grind arith

rounds_mono : (m n b : ℕ) → m ≤ n → m * (b + 1) ≤ n * (b + 1)
rounds_mono m n b h = grind arith

module _ {W : Type 0} (proc : BlockProcessor W) (changes : Header → W → ℕ) (bound : ℕ) where
  -- One round on the next block.
  round :
      IsSettling proc changes bound
      → (h : Header) (b : BlockPipeline) (w : W) → Map.get b.next_block_num b.pending_block ≡ some h
      → IsAhead b
      → let (w₁, ok) = proc_with_retry proc h w in
        (b' : BlockPipeline) × (w' : W) × (settle proc b.next_block_num h ok b w₁ ≡ done (b', w'))
        × IsRound proc changes bound h w₁ b b' w'
  round s h b w there v = let (w₁, ok) = proc_with_retry proc h w in by_result ok
    where
      by_result :
          (ok : Bool)
          → (b' : BlockPipeline) × (w' : W) × (settle proc b.next_block_num h ok b
                (proc_with_retry proc h w).0
              ≡ done (b', w'))
            × IsRound proc changes bound h (proc_with_retry proc h w).0 b b' w'
      by_result true = settle-true proc changes bound h b (proc_with_retry proc h w).0 there v
      by_result false = settle-false proc changes bound s h b (proc_with_retry proc h w).0 there v

  available :
      IsSettling proc changes bound
      → (fuel left : ℕ) (b : BlockPipeline) (w : W) → left ≤ bound
      → ((h : Header) → Map.get b.next_block_num b.pending_block ≡ some h → changes h w ≤ left)
      → length b.pending_block * (bound + 1) ≤ fuel + (bound - left)
      → IsAhead b
      → (b' : BlockPipeline) × (w' : W) × (proc_available proc (suc fuel) b w ≡ done (b', w'))
        × IsAhead b'
  unfolding proc_available proc_with_retry
  available s zero left b w le few enough v =
      elim (Option-cases (Map.get b.next_block_num b.pending_block)) [
        | inl missing ↦
            let (b', w') = check_block_gap proc b w in
            (b', w', ground arith, check_block_gap-IsAhead proc b w v)
        | inr (h, there) ↦
            let waits = Map.length-delete_lt b.next_block_num h b.pending_block there in
            absurd (omega (arith, rounds_step 0 (length b.pending_block) bound (omega arith)))
      ]
  available s (suc fuel) left b w le few enough v =
      elim (Option-cases (Map.get b.next_block_num b.pending_block)) [
        | inl missing ↦
            let (b', w') = check_block_gap proc b w in
            (b', w', ground arith, check_block_gap-IsAhead proc b w v)
        | inr (h, there) ↦
            let (b', w', e, next) = round s h b w there v in
            let fewer = attempt-changes proc changes bound s (retry_count - 1) h w in
            elim next.shorter [
              | inl shorter ↦
                  let (b'', w'', run, v'') =
                    available s fuel bound b' w' (omega arith) (λ k _. s.limit k w')
                      (omega (
                        arith,
                        rounds_step (length b'.pending_block) (length b.pending_block) bound
                            shorter,
                      ))
                      next.is_ahead in
                  (b'', w'', ground arith, v'')
              | inr (shorter, same, latest, now, less) ↦
                  let few' = few h there in
                  let (b'', w'', run, v'') =
                    available s fuel (left - 1) b' w' (omega arith)
                      (λ k at.
                        let is_latest : latest ≡ k = cc in
                        subst (λ g. changes g w' ≤ left - 1) is_latest (omega arith))
                      (omega (
                        arith,
                        rounds_mono (length b'.pending_block) (length b.pending_block) bound
                            shorter,
                      ))
                      next.is_ahead in
                  (b'', w'', ground arith, v'')
            ]
      ]

  -- `procAvailable` returns, and leaves no waiting block behind the next one, where the node replaces
  -- a header at most `bound` times in a row: `bound + 1` rounds for each waiting block, and one, are
  -- enough.
  pub proc_available-halts :
      IsSettling proc changes bound
      → (fuel : ℕ) (b : BlockPipeline) (w : W) → length b.pending_block * (bound + 1) < fuel
      → IsAhead b
      → (b' : BlockPipeline) × (w' : W) × (proc_available proc fuel b w ≡ done (b', w'))
        × IsAhead b'
  proc_available-halts s zero b w enough v = absurd (omega arith)
  proc_available-halts s (suc fuel) b w enough v =
      available s fuel bound b w (omega arith) (λ h _. s.limit h w) (omega arith) v

  handle_number-halts :
      IsSettling proc changes bound
      → (fuel num : ℕ) (h : Header) (b : BlockPipeline) (w : W) → num < last_num
      → (k : ℕ) × (h.number ≡ some k)
      → suc (length b.pending_block) * (bound + 1) < fuel
      → IsAhead b
      → (b' : BlockPipeline) × (w' : W) × (handle_number proc fuel num h b w ≡ done (b', w'))
        × IsAhead b'
  unfolding handle_number store_header
  handle_number-halts s fuel num h b w in_range numbered enough v =
      elim (Bool-cases (ltb num b.next_block_num)) [
        | inl old ↦ (b, w, ground arith, v)
        | inr new ↦ elim (Option-cases (Map.get num b.pending_block)) [
          | inr (twin, there) ↦ (b, w, ground arith, v)
          | inl missing ↦
              let b₁ = store_header num h b in
              let v₁ = store_header-IsAhead num h b (ground arith) in_range numbered v in
              let one_more = Map.length-put_le num h b.pending_block in
              let few =
                rounds_mono (length b₁.pending_block) (suc (length b.pending_block)) bound
                  one_more in
              let (b', w', run, v') = proc_available-halts s fuel b₁ w (omega arith) v₁ in
              (b', w', ground arith, v')
        ]
      ]

  -- `handleHeader` returns, without a panic, for any header whose number, if it has one, is as a uint64
  -- below the last one. The node answers a request for a header with an error or a header that has a number, never
  -- with nil, and replaces a header at most `bound` times in a row; and on entry the next block number
  -- is a uint64 and each waiting block has a number and stands at or after the next block and below the
  -- last uint64. The waiting blocks do so again afterwards. More rounds than `bound + 1` for each
  -- waiting block and for the new one are enough.
  pub handle_header-halts :
      IsSettling proc changes bound
      → (fuel : ℕ) (header : Option Header) (b : BlockPipeline) (w : W)
      → ((h : Header) (num : ℕ) → header ≡ some h → h.number ≡ some num → num % u64_mod < last_num)
      → suc (length b.pending_block) * (bound + 1) < fuel
      → IsAhead b
      → (b' : BlockPipeline) × (w' : W) × (handle_header proc fuel header b w ≡ done (b', w'))
        × IsAhead b'
  unfolding handle_header
  handle_header-halts s fuel none b w in_range enough v = (b, w, refl, v)
  handle_header-halts s fuel (some h) b w in_range enough v = elim (Option-cases h.number) [
    | inl absent ↦ (b, w, ground arith, v)
    | inr (num, at) ↦
        let (b', w', run, v') =
          handle_number-halts s fuel (num % u64_mod) h b w (in_range h num refl at) (num, at) enough
            v in
        (b', w', ground (arith, at, run), v')
  ]

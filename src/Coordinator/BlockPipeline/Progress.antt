-- ===== src/Coordinator/BlockPipeline/Progress.antt =====
-- internal/coordinator/blockPipeline.go: `procAvailable` ends, where the node settles on a block.
use eth_mon_svr.Base.{
  ℕ, zero, suc, ◌%◌, u64_mod, ◌≤◌, ◌<◌, ◌≡◌, ◌≢◌, refl, true, false, Option, some, none, ◌==◌,
  arith, Bool-cases, inl, inr, length, ◌⊎◌, ap, subst,
}
use eth_mon_svr.Base.Map
use eth_mon_svr.Ethereum.{Header}
use eth_mon_svr.Coordinator.BlockPipeline.{
  BlockProcessor, BlockPipeline, done, failed_block, store_header, advance, attempt, check_stale,
  compare_latest, give_up, settle,
}
use eth_mon_svr.Coordinator.BlockPipeline.Ahead.{
  IsAhead, store_header-IsAhead, advance-IsAhead, give_up-IsAhead, failed_block-fields,
}

-- A node that answers a request for a header with an error or a header that has a number, never with
-- nil, and that replaces a header it has given by another one at most `bound` times in a row:
-- `changes h w` says how often the one at the number of `h` can still differ from the one before.
pub record IsSettling {W : Type 0} (proc : BlockProcessor W) (changes : Header → W → ℕ) (bound : ℕ)
    : Type 0 where
  pub limit : (h : Header) (w : W) → changes h w ≤ bound
  pub process : (h : Header) (w : W) → changes h (proc.process_block h w).0 ≤ changes h w
  pub wait : (h : Header) (w : W) → changes h (proc.wait_retry w).0 ≤ changes h w
  pub not_nil : (num : ℕ) (w : W) → (proc.header_by_number num w).1 ≢ some none
  pub numbered :
      (num : ℕ) (w : W) (h : Header)
      → (proc.header_by_number num w).1 ≡ some (some h)
      → (k : ℕ) × (h.number ≡ some k)
  pub reorg :
      (h latest : Header) (num : ℕ) (w : W)
      → h.number ≡ some num
      → (proc.header_by_number (num % u64_mod) w).1 ≡ some (some latest)
      → (latest.hash == h.hash) ≡ false
      → changes latest (proc.header_by_number (num % u64_mod) w).0 < changes h w

module _ {W : Type 0} (proc : BlockProcessor W) (changes : Header → W → ℕ) (bound : ℕ) where
  pub attempt-changes :
      IsSettling proc changes bound
      → (more : ℕ) (h : Header) (w : W) → changes h (attempt proc more h w).0 ≤ changes h w
  unfolding attempt
  attempt-changes s zero h w = s.process h w
  attempt-changes s (suc more) h w =
      let (w', ok) = proc.process_block h w in
      let (w'', cancelled) = proc.wait_retry w' in
      ground (arith, s.process h w, s.wait h w', attempt-changes s more h w'')

  -- What a settled round leaves: one block less, or a header that the node changes less often.
  pub record IsRound (h : Header) (w : W) (b b' : BlockPipeline) (w' : W) : Type 0 where
    pub is_ahead : IsAhead b'
    pub shorter :
        (length b'.pending_block < length b.pending_block)
        ⊎ ((length b'.pending_block ≤ length b.pending_block)
            × (b'.next_block_num ≡ b.next_block_num)
            × (latest : Header) × (Map.get b.next_block_num b'.pending_block ≡ some latest)
            × (changes latest w' < changes h w))

  advance-shorter :
      (h header : Header) (b : BlockPipeline)
      → Map.get b.next_block_num b.pending_block ≡ some h
      → length (advance b.next_block_num (failed_block header b)).pending_block
        < length b.pending_block
  unfolding advance
  advance-shorter h header b there =
      rw (failed_block-fields header b).1
        (Map.length-delete_lt b.next_block_num h b.pending_block there)

  pub settle-true :
      (h : Header) (b : BlockPipeline) (w : W) {w₀ : W}
      → Map.get b.next_block_num b.pending_block ≡ some h
      → IsAhead b
      → (b' : BlockPipeline) × (w' : W) × (settle proc b.next_block_num h true b w ≡ done (b', w'))
        × IsRound h w₀ b b' w'
  unfolding settle advance
  settle-true h b w there v = (
    advance b.next_block_num b,
    w,
    refl,
    record {
      is_ahead = advance-IsAhead h b there v;
      shorter = inl (Map.length-delete_lt b.next_block_num h b.pending_block there);
    },
  )

  give_up-IsRound :
      (h : Header) (b : BlockPipeline) (w : W) {w₀ : W}
      → Map.get b.next_block_num b.pending_block ≡ some h
      → IsAhead b
      → (b' : BlockPipeline) × (w' : W) × (give_up proc b.next_block_num h b w ≡ done (b', w'))
        × IsRound h w₀ b b' w'
  give_up-IsRound h b w there v =
      let (b', e, at, v') = give_up-IsAhead proc h b w there v in
      (b', w, e, record { is_ahead = v'; shorter = inl (rw at (advance-shorter h h b there)) })

  replaced :
      IsSettling proc changes bound
      → (h latest : Header) (num : ℕ) (b : BlockPipeline) (w : W) {w' : W}
      → proc.header_by_number (num % u64_mod) w ≡ (w', some (some latest))
      → h.number ≡ some num
      → Map.get b.next_block_num b.pending_block ≡ some h
      → (latest.hash == h.hash) ≡ false
      → IsAhead b
      → IsRound h w b (store_header b.next_block_num latest b) w'
  unfolding store_header
  replaced s h latest num b w e at there changed v =
      let lt = v.bounded b.next_block_num h there in
      record {
        is_ahead =
            store_header-IsAhead b.next_block_num latest b (omega arith) lt
              (s.numbered (num % u64_mod) w latest (ap (λ r. r.1) e)) v;
        shorter = inr (
          omega (arith, Map.length-put_old b.next_block_num h latest b.pending_block there),
          refl,
          latest,
          ground (arith, Map.get-put b.next_block_num b.next_block_num latest b.pending_block),
          subst (λ r. changes latest r.0 < changes h w) e
              (s.reorg h latest num w at (ap (λ r. r.1) e) changed),
        );
      }

  pub settle-false :
      IsSettling proc changes bound
      → (h : Header) (b : BlockPipeline) (w : W) → Map.get b.next_block_num b.pending_block ≡ some h
      → IsAhead b
      → (b' : BlockPipeline) × (w' : W) × (settle proc b.next_block_num h false b w ≡ done (b', w'))
        × IsRound h w b b' w'
  unfolding settle check_stale compare_latest
  settle-false s h b w there v =
      let (num, at) = v.numbered b.next_block_num h there in
      let (w', answer) = proc.header_by_number (num % u64_mod) w in decide num w' answer at refl
    where
      decide :
          (num : ℕ) (w' : W) (answer : Option (Option Header))
          → h.number ≡ some num
          → proc.header_by_number (num % u64_mod) w ≡ (w', answer)
          → (b' : BlockPipeline) × (w' : W) × (settle proc b.next_block_num h false b w
              ≡ done (b', w'))
            × IsRound h w b b' w'
      decide num w' none at e =
          let (b', w'', gone, round) = give_up-IsRound h b w' there v in
          (b', w'', ground arith, round)
      decide num w' (some none) at e = absurd (s.not_nil (num % u64_mod) w (ap (λ r. r.1) e))
      decide num w' (some (some latest)) at e = elim (Bool-cases (latest.hash == h.hash)) [
        | inl unchanged ↦
            let (b', w'', gone, round) = give_up-IsRound h b w' there v in
            (b', w'', ground arith, round)
        | inr changed ↦
            let b' = store_header b.next_block_num latest b in
            (b', w', ground arith, replaced s h latest num b w e at there changed v)
      ]

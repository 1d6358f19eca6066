-- ===== src/Coordinator/BlockPipeline/Ahead.antt =====
-- internal/coordinator/blockPipeline.go: nothing that waits is behind the next block.
use eth_mon_svr.Base.{
  ℕ, zero, suc, ◌+◌, ◌-◌, ◌≤◌, ◌<◌, ◌≡◌, refl, true, [], ◌∷◌, Option, some, none, ◌==◌, leb, arith,
  Option-cases, Bool-cases, inl, inr, ◌⊎◌, u64_mod, add64, elem, subst,
}
use eth_mon_svr.Base.Map
use eth_mon_svr.Base.Map.{Map}
use eth_mon_svr.Ethereum.{Header}
use eth_mon_svr.Coordinator.BlockPipeline.{
  BlockProcessor, BlockPipeline, done, wakeup, failed_block, highest_pending, store_header, advance,
  restart_after, resync, fetched, fill_one, fill, backfill, check_block_gap, give_up,
}

-- The last uint64, which no block number reaches.
abbrev pub last_num : ℕ
last_num = u64_mod - 1

-- Every waiting block is at or after the next one, and has a number.
pub record IsAhead (b : BlockPipeline) : Type 0 where
  pub next_bounded : b.next_block_num ≤ last_num
  pub ahead : (num : ℕ) (h : Header) → Map.get num b.pending_block ≡ some h → b.next_block_num ≤ num
  pub bounded : (num : ℕ) (h : Header) → Map.get num b.pending_block ≡ some h → num < last_num
  pub numbered :
      (num : ℕ) (h : Header) → Map.get num b.pending_block ≡ some h → (k : ℕ) × (h.number ≡ some k)

pub store_header-IsAhead :
    (num : ℕ) (h : Header) (b : BlockPipeline)
    → b.next_block_num ≤ num
    → num < last_num
    → (k : ℕ) × (h.number ≡ some k)
    → IsAhead b
    → IsAhead (store_header num h b)
unfolding store_header
store_header-IsAhead num h b le lt has v = record {
  next_bounded = v.next_bounded;
  ahead = λ k g e. ground (arith, Map.get-put num k h b.pending_block, v.ahead k g);
  bounded = λ k g e. ground (arith, Map.get-put num k h b.pending_block, v.bounded k g);
  numbered = λ k g e. elim (Bool-cases (num == k)) [
    | inl new ↦ (has.0, ground (arith, has.1, Map.get-put num k h b.pending_block))
    | inr old ↦ v.numbered k g (ground (arith, Map.get-put num k h b.pending_block))
  ];
}

pub advance-IsAhead :
    (h : Header) (b : BlockPipeline)
    → Map.get b.next_block_num b.pending_block ≡ some h
    → IsAhead b
    → IsAhead (advance b.next_block_num b)
unfolding advance
advance-IsAhead h b here v =
    let lt = v.bounded b.next_block_num h here in
    record {
      next_bounded = omega arith;
      ahead =
          λ k g e. ground (arith, Map.get-delete b.next_block_num k b.pending_block, v.ahead k g);
      bounded =
          λ k g e. ground (arith, Map.get-delete b.next_block_num k b.pending_block, v.bounded k g);
      numbered = λ k g e.
          v.numbered k g (ground (arith, Map.get-delete b.next_block_num k b.pending_block));
    }

-- The two fields decide.
same-IsAhead :
    (b b' : BlockPipeline)
    → b'.next_block_num ≡ b.next_block_num
    → b'.pending_block ≡ b.pending_block
    → IsAhead b
    → IsAhead b'
same-IsAhead b b' next pending v = record {
  next_bounded = rw next v.next_bounded;
  ahead = λ k h e. rw next (v.ahead k h (rw pending at e));
  bounded = λ k h e. v.bounded k h (rw pending at e);
  numbered = λ k h e. v.numbered k h (rw pending at e);
}

pub failed_block-fields :
    (h : Header) (b : BlockPipeline)
    → ((failed_block h b).next_block_num ≡ b.next_block_num)
      × ((failed_block h b).pending_block ≡ b.pending_block)
unfolding failed_block
failed_block-fields h b = ground arith

highest_pending-elem :
    (m : Map Header) → (highest_pending m ≡ 0) ⊎ (elem (highest_pending m) (Map.keys m) ≡ true)
unfolding highest_pending Map.keys
highest_pending-elem [] = inl refl
highest_pending-elem ((k, h) ∷ m) = ground (arith, highest_pending-elem m)

highest_pending-le : (b : BlockPipeline) → IsAhead b → highest_pending b.pending_block ≤ last_num
highest_pending-le b v = elim (highest_pending-elem b.pending_block) [
  | inl none_waits ↦ omega arith
  | inr waits ↦
      let (h, there) = Map.get-keys b.pending_block _ waits in omega (arith, v.bounded _ h there)
]

restart_after-IsAhead :
    (latest : Option (Option Header)) (b : BlockPipeline)
    → IsAhead b
    → IsAhead (restart_after latest b)
unfolding restart_after
restart_after-IsAhead none b v = v
restart_after-IsAhead (some none) b v = v
restart_after-IsAhead (some (some latest)) b v = elim (Option-cases latest.number) [
  | inl absent ↦ rw (absent, restart_after) v
  | inr (num, at) ↦ rw (at, restart_after) (restarted num)
]
  where
    restarted : (num : ℕ) → IsAhead (record b { pending_block = []; next_block_num = add64 num 1 })
    restarted num = record {
      next_bounded = omega arith;
      ahead = λ k h e. absurd (unfold Map.get in cc);
      bounded = λ k h e. absurd (unfold Map.get in cc);
      numbered = λ k h e. absurd (unfold Map.get in cc);
    }

fetched-IsAhead :
    (num : ℕ) (header : Option (Option Header)) (b : BlockPipeline)
    → b.next_block_num ≤ num
    → num < last_num
    → IsAhead b
    → IsAhead (fetched num header b).0
      × ((fetched num header b).0.next_block_num ≡ b.next_block_num)
unfolding fetched store_header
fetched-IsAhead num none b le lt v = (v, refl)
fetched-IsAhead num (some none) b le lt v = (v, refl)
fetched-IsAhead num (some (some h)) b le lt v = elim (Option-cases h.number) [
  | inl absent ↦ rw (absent, fetched) (v, refl)
  | inr (k, at) ↦ rw (at, fetched) (store_header-IsAhead num h b le lt (k, at) v, refl)
]

module _ {W : Type 0} (proc : BlockProcessor W) where
  fill_one-IsAhead :
      (num : ℕ) (b : BlockPipeline) (w : W)
      → b.next_block_num ≤ num
      → num < last_num
      → IsAhead b
      → IsAhead (fill_one proc num b w).0
        × ((fill_one proc num b w).0.next_block_num ≡ b.next_block_num)
  unfolding fill_one
  fill_one-IsAhead num b w le lt v = elim (Option-cases (Map.get num b.pending_block)) [
    | inl missing ↦
        rw (missing, fill_one) (fetched-IsAhead num (proc.header_by_number num w).1 b le lt v)
    | inr (h, there) ↦ rw (there, fill_one) (v, refl)
  ]

  fill-IsAhead :
      (rounds num : ℕ) (b : BlockPipeline) (w : W)
      → b.next_block_num ≤ num
      → num + rounds ≤ last_num
      → IsAhead b
      → IsAhead (fill proc rounds num b w).0
  unfolding fill
  fill-IsAhead zero num b w le lt v = v
  fill-IsAhead (suc rounds) num b w le lt v =
      let (b', w', ok) = fill_one proc num b w in
      let (v', next) = fill_one-IsAhead num b w le (omega arith) v in
      elim (Bool-cases ok) [
        | inl more ↦
            rw (more, fill) (fill-IsAhead rounds (num + 1) b' w' (omega arith) (omega arith) v')
        | inr stop ↦ rw (stop, fill) v'
      ]

  pub check_block_gap-IsAhead :
      (b : BlockPipeline) (w : W) → IsAhead b → IsAhead (check_block_gap proc b w).0
  unfolding check_block_gap resync backfill wakeup
  check_block_gap-IsAhead b w v =
      let highest = highest_pending b.pending_block in
      elim (Bool-cases (leb highest b.next_block_num)) [
        | inl nothing ↦ rw (nothing, check_block_gap) v
        | inr gap ↦ elim (Bool-cases (leb b.max_block_lag (highest - b.next_block_num))) [
          | inl lag ↦
              rw (gap, check_block_gap, lag, resync) (restart_after-IsAhead (proc.resync w).1 b v)
          | inr near ↦
              let (b', w', complete) =
                fill proc (highest - b.next_block_num) b.next_block_num b w in
              let filled =
                fill-IsAhead (highest - b.next_block_num) b.next_block_num b w (omega arith)
                  (omega (arith, highest_pending-le b v, v.next_bounded)) v in
              rw (gap, check_block_gap, near, backfill)
                (elim (Bool-cases complete) [
                  | inl all ↦ rw all (same-IsAhead b' _ refl refl filled)
                  | inr part ↦ rw part filled
                ])
        ]
      ]

  settle_failed-IsAhead :
      (header : Header) (b : BlockPipeline)
      → Map.get b.next_block_num b.pending_block ≡ some header
      → IsAhead b
      → IsAhead (advance b.next_block_num (failed_block header b))
  settle_failed-IsAhead header b there v =
      let (next, pending) = failed_block-fields header b in
      let b' = failed_block header b in
      subst (λ k. IsAhead (advance k b')) next
        (advance-IsAhead header b' (rw (next, pending) there) (same-IsAhead b b' next pending v))

  pub give_up-IsAhead :
      (header : Header) (b : BlockPipeline) (w : W)
      → Map.get b.next_block_num b.pending_block ≡ some header
      → IsAhead b
      → (b' : BlockPipeline) × (give_up proc b.next_block_num header b w ≡ done (b', w))
        × (b' ≡ advance b.next_block_num (failed_block header b))
        × IsAhead b'
  unfolding give_up
  give_up-IsAhead header b w there v =
      let (k, at) = v.numbered b.next_block_num header there in
      (
        advance b.next_block_num (failed_block header b),
        rw at refl,
        refl,
        settle_failed-IsAhead header b there v,
      )

-- ===== src/Coordinator/BlockPipeline/Gap.antt =====
-- `checkBlockGap` of internal/coordinator/blockPipeline.go: the blocks that are fetched.
use eth_mon_svr.Base.{
  ℕ, zero, suc, ◌+◌, ◌-◌, ◌≤◌, ◌<◌, ◌≡◌, ◌≢◌, refl, true, false, some, none, arith, Option-cases,
  Bool-cases, inl, inr, leb, ◌∙◌,
}
use eth_mon_svr.Base.Map
use eth_mon_svr.Ethereum.{Header}
use eth_mon_svr.Coordinator.BlockPipeline.{
  BlockProcessor, BlockPipeline, highest_pending, store_header, fetched, fill_one, fill, wakeup,
  backfill, check_block_gap,
}

-- Every request for a header from `first` on, below `last`, is answered with a header that has a number.
pub record Answers {W : Type 0} (proc : BlockProcessor W) (first last : ℕ) : Type 0 where
  pub answer :
      (num : ℕ) (w : W)
      → first ≤ num
      → num < last
      → (h : Header) × (k : ℕ) × ((proc.header_by_number num w).1 ≡ some (some h))
        × (h.number ≡ some k)

-- What waits in `b` waits in `b'` too, and the next block is the same one.
record Keeps (b b' : BlockPipeline) : Type 0 where
  same_next : b'.next_block_num ≡ b.next_block_num
  waits : (k : ℕ) → Map.get k b.pending_block ≢ none → Map.get k b'.pending_block ≢ none

module _ {W : Type 0} (proc : BlockProcessor W) where
  fill_one-Keeps :
      (first last num : ℕ) (b : BlockPipeline) (w : W)
      → Answers proc first last
      → first ≤ num
      → num < last
      → let (b', w', ok) = fill_one proc num b w in
        (ok ≡ true) × (Map.get num b'.pending_block ≢ none) × Keeps b b'
  unfolding fill_one fetched store_header
  fill_one-Keeps first last num b w node le lt = elim (Option-cases (Map.get num b.pending_block)) [
    | inr (h, there) ↦ (
      ground arith,
      ground arith,
      record { same_next = ground arith; waits = λ k at. ground arith },
    )
    | inl missing ↦
        let (h, k, answered, at) = node.answer num w le lt in
        (
          ground arith,
          ground (arith, Map.get-put num num h b.pending_block),
          record {
            same_next = ground arith;
            waits = λ k at. ground (arith, Map.get-put num k h b.pending_block);
          },
        )
  ]

  fill-Keeps :
      (first last rounds num : ℕ) (b : BlockPipeline) (w : W)
      → Answers proc first last
      → first ≤ num
      → num + rounds ≤ last
      → let (b', w', ok) = fill proc rounds num b w in
        (ok ≡ true)
        × ((k : ℕ) → num ≤ k → k < num + rounds → Map.get k b'.pending_block ≢ none)
        × Keeps b b'
  unfolding fill
  fill-Keeps first last zero num b w node le lt =
      (refl, λ k from to. absurd (omega arith), record { same_next = refl; waits = λ k at. at })
  fill-Keeps first last (suc rounds) num b w node le lt =
      let (b', w', ok) = fill_one proc num b w in
      let (went, here, kept) = fill_one-Keeps first last num b w node le (omega arith) in
      let (all, range, keeps) =
        fill-Keeps first last rounds (num + 1) b' w' node (omega arith) (omega arith) in
      rw (went, fill)
        (
          all,
          λ k from to. elim (Bool-cases (leb k num)) [
            | inl low ↦ let same : num ≡ k = ground arith in keeps.waits k (rw⁻¹ same here)
            | inr high ↦ range k (ground arith) (ground arith)
          ],
          record {
            same_next = keeps.same_next ∙ kept.same_next;
            waits = λ k at. keeps.waits k (kept.waits k at);
          },
        )

  -- Where the waiting blocks are at most `max_block_lag - 1` ahead of the next one and the node answers
  -- each request below the highest of them, `checkBlockGap` leaves the next block number, has every
  -- block from the next one to the highest waiting, those that waited before included, and signals
  -- the loop to go on.
  pub check_block_gap-fills :
      (b : BlockPipeline) (w : W)
      → let highest = highest_pending b.pending_block in
        b.next_block_num < highest
        → highest - b.next_block_num < b.max_block_lag
        → Answers proc b.next_block_num highest
        → let b' = (check_block_gap proc b w).0 in
          (b'.wakeup_chan ≡ true)
          × (b'.next_block_num ≡ b.next_block_num)
          × ((k : ℕ) → b.next_block_num ≤ k → k < highest → Map.get k b'.pending_block ≢ none)
          × ((k : ℕ) → Map.get k b.pending_block ≢ none → Map.get k b'.pending_block ≢ none)
  unfolding check_block_gap backfill wakeup
  check_block_gap-fills b w gap near node =
      let highest = highest_pending b.pending_block in
      let (all, range, keeps) =
        fill-Keeps b.next_block_num highest (highest - b.next_block_num) b.next_block_num b w node
          (omega arith) (omega arith) in
      let ahead : leb highest b.next_block_num ≡ false = ground arith in
      let close : leb b.max_block_lag (highest - b.next_block_num) ≡ false = ground arith in
      rw (ahead, close, all)
        (refl, keeps.same_next, λ k from to. range k from (omega arith), keeps.waits)

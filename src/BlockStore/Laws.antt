-- ===== src/BlockStore/Laws.antt =====
-- What internal/blockstore/store.go keeps of the blocks that it was given.
use eth_mon_svr.Base.{
  ℕ, zero, suc, ◌≡◌, refl, List, [], ◌∷◌, ltb, length, take, take-length_le, take-nil, ap, sym, ◌∙◌,
  arith, Bool-cases, inl, inr,
}
use eth_mon_svr.BlockStore.{Store, BlockData, new_block_store, clear, add_block, get_block_data}

pub data Call (F : Type 0) : Type 0 where
  adds : BlockData F → Call F
  clears : Call F

module _ {F : Type 0} where
  -- The methods that change a store, one after another.
  unfoldable pub run : List (Call F) → Store F → Store F
  run [] s = s
  run (adds b ∷ calls) s = run calls (add_block b s)
  run (clears ∷ calls) s = run calls (clear s)

  -- Every block added since the last `clear`, newest first: a store with no bound.
  unfoldable pub history : List (Call F) → List (BlockData F) → List (BlockData F)
  history [] h = h
  history (adds b ∷ calls) h = history calls (b ∷ h)
  history (clears ∷ calls) h = history calls []

  take-take : (n : ℕ) (h : List (BlockData F)) → take n (take (suc n) h) ≡ take n h
  take-take zero h = refl
  take-take (suc n) [] = refl
  take-take (suc n) (b ∷ h) = ap (◌∷◌ b) (take-take n h)

  take-cons-take :
      (n : ℕ) (b : BlockData F) (h : List (BlockData F)) → take n (b ∷ take n h) ≡ take n (b ∷ h)
  take-cons-take zero b h = refl
  take-cons-take (suc n) b h = ap (◌∷◌ b) (take-take n h)

  pub add_block-take :
      (b : BlockData F) (s : Store F) → (add_block b s).blocks ≡ take s.max (b ∷ s.blocks)
  unfolding add_block
  add_block-take b s = elim (Bool-cases (ltb s.max (length (b ∷ s.blocks)))) [
    | inl over ↦ rw over
    | inr fits ↦ ground (arith, take-length_le (b ∷ s.blocks) s.max)
  ]

  run-take :
      (calls : List (Call F)) (s : Store F) (n : ℕ) (h : List (BlockData F))
      → s.max ≡ n
      → s.blocks ≡ take n h
      → get_block_data (run calls s) ≡ take n (history calls h)
  unfolding run history get_block_data
  run-take [] s n h bound window = window
  run-take (adds b ∷ calls) s n h bound window =
      run-take calls (add_block b s) n (b ∷ h) (unfold add_block in bound)
        (add_block-take b s ∙ rw (bound, window) (take-cons-take n b h))
  run-take (clears ∷ calls) s n h bound window =
      run-take calls (clear s) n [] (unfold clear in bound) (unfold clear in sym (take-nil n))

  -- After any sequence of `AddBlock` and `Clear` calls on a store made by `NewBlockStore(n)`,
  -- `GetBlockData` returns the `n` newest of the blocks added since the last `Clear`, newest first
  -- (all of them, where there are fewer).
  pub get_block_data-run :
      (n : ℕ) (calls : List (Call F))
      → get_block_data (run calls (new_block_store n)) ≡ take n (history calls [])
  unfolding new_block_store
  get_block_data-run n calls = run-take calls _ n [] refl (sym (take-nil n))

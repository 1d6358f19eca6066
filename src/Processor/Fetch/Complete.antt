-- ===== src/Processor/Fetch/Complete.antt =====
-- What `fetchBlockReceipts` and `fetchReceiptsBatch` of internal/processor/processor_block.go return.
use eth_mon_svr.Base.{
  ℕ, ◌<◌, ◌≡◌, ◌⊎◌, inl, inr, refl, ap, sym, subst, List, [], ◌∷◌, ◌++◌, map, Option, none, some,
  String, length, arith,
}
use eth_mon_svr.Ethereum.{Receipt}
use eth_mon_svr.Network.RpcManager.{RpcCost}
use eth_mon_svr.Processor.Fetch.{
  Outcome, returns, fails, receipts_fetch, tx_count_fetch, Network, cost_of, get_block_receipt_cu,
  get_block_tx_count_cu, empty_if, check_tx_count, valid_receipts, fetch_block_receipts,
  fetch_chunks,
}

module _ {W : Type 0} (net : Network W) where
  empty_if-returns :
      (count : Option ℕ) (receipts : List (Option Receipt))
      → empty_if count ≡ returns receipts
      → (count ≡ some 0) × (receipts ≡ [])
  unfolding empty_if
  empty_if-returns none receipts e = absurd (cc)
  empty_if-returns (some count) receipts e = ground arith

  -- The cases of `check_tx_count` and `fetch_block_receipts`.
  abbrev answer_count : W → Option String → W × Outcome (List (Option Receipt))
  answer_count w reply = elim reply [
    | none ↦ (w, fails tx_count_fetch)
    | some tx_count_hex ↦ (w, empty_if (net.decode_uint64 tx_count_hex))
  ]

  abbrev answer_block : ℕ → W → Option (List (Option Receipt)) → W × Outcome (List (Option Receipt))
  answer_block hash w reply = elim reply [
    | none ↦ (w, fails receipts_fetch)
    | some [] ↦ check_tx_count net hash w
    | some (receipt ∷ receipts) ↦ (w, returns (receipt ∷ receipts))
  ]

  -- `fetchBlockReceipts` that returns receipts returns what the node answered, and this is not empty; it
  -- returns none only where the node then answered a count of transactions that decodes to 0.
  pub fetch_block_receipts-returns :
      (hash : ℕ) (w : W) {w' : W} {receipts : List (Option Receipt)}
      → fetch_block_receipts net hash w ≡ (w', returns receipts)
      → let (w1, reply) = net.get_block_receipts (cost_of get_block_receipt_cu) hash w in
        (reply ≡ some receipts)
        × ((0 < length receipts)
            ⊎ ((receipts ≡ [])
                × ((tx_count_hex : String) × ((net.get_block_tx_count
                        (cost_of get_block_tx_count_cu)
                        hash
                        w1).1
                      ≡ some tx_count_hex)
                    × (net.decode_uint64 tx_count_hex ≡ some 0))))
  unfolding fetch_block_receipts check_tx_count
  fetch_block_receipts-returns hash w {w'} {receipts} e =
      let (w1, reply) = net.get_block_receipts (cost_of get_block_receipt_cu) hash w in
      by_reply w1 reply e
    where
      Empty : W → Type 0
      Empty w1 =
          (receipts ≡ [])
          × ((tx_count_hex : String) × ((net.get_block_tx_count (cost_of get_block_tx_count_cu) hash
                  w1).1
                ≡ some tx_count_hex)
              × (net.decode_uint64 tx_count_hex ≡ some 0))

      by_count :
          (w2 : W) (count : Option String)
          → answer_count w2 count ≡ (w', returns receipts)
          → (receipts ≡ [])
            × ((tx_count_hex : String) × (count ≡ some tx_count_hex)
                × (net.decode_uint64 tx_count_hex ≡ some 0))
      by_count w2 none e = absurd (cc (ap (λ x. x.1) e))
      by_count w2 (some tx_count_hex) e =
          let (zero_count, bare) =
            empty_if-returns (net.decode_uint64 tx_count_hex) receipts (ap (λ x. x.1) e) in
          (bare, (tx_count_hex, refl, zero_count))

      by_reply :
          (w1 : W) (reply : Option (List (Option Receipt)))
          → answer_block hash w1 reply ≡ (w', returns receipts)
          → (reply ≡ some receipts) × ((0 < length receipts) ⊎ Empty w1)
      by_reply w1 none e = absurd (cc (ap (λ x. x.1) e))
      by_reply w1 (some []) e =
          let (w2, count) = net.get_block_tx_count (cost_of get_block_tx_count_cu) hash w1 in
          let (bare, proof) = by_count w2 count e in (ap some (sym bare), inr (bare, proof))
      by_reply w1 (some (receipt ∷ rest)) e =
          let same : receipt ∷ rest ≡ receipts =
            ap (λ x. elim x.1 [ returns y ↦ y | fails z ↦ receipt ∷ rest ]) e in
          (ap some same, inl (subst (λ rs. 0 < length rs) same (omega arith)))

  -- What a batch answers for each hash, whatever the world is.
  abbrev pub Finds : (ℕ → Option (Option Receipt)) → Type 0
  Finds find =
      (cost : RpcCost) (hashes : List ℕ) (w : W)
      → (net.fetch_batch cost hashes w).1 ≡ some (map find hashes)

  -- The cases of `fetch_chunks`.
  abbrev answer_chunk :
      List (List ℕ)
      → List (Option Receipt)
      → W
      → Option (List (Option (Option Receipt)))
      → W × Option (List (Option Receipt))
  answer_chunk rest receipts w reply = elim reply [
    | none ↦ (w, none)
    | some elems ↦ fetch_chunks net rest (receipts ++ valid_receipts elems) w
  ]

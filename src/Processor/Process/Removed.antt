-- ===== src/Processor/Process/Removed.antt =====
-- What `ProcessBlock` of internal/processor/processor.go removes from the pending pool.
use eth_mon_svr.Base.{
  ℕ, ◌%◌, ◌≡◌, sym, subst, Bool-cases, leb, if◌then◌else◌, List, [], Option, some, none, String,
  Option-cases, inl, inr, arith, u64_mod,
}
use eth_mon_svr.Base.Map
use eth_mon_svr.Ethereum.{Header, Receipt}
use eth_mon_svr.Mempool.Types.{Ref, PendingMemPool}
use eth_mon_svr.Mempool.Remove.{remove_by_receipts}
use eth_mon_svr.BlockStore.{FeeBucketStat}
use eth_mon_svr.Mempool.Expire.{remove_expired}
use eth_mon_svr.Mempool.Receipts.{
  mentions, remove_by_receipts-hash_index, remove_by_receipts-expire_block,
}
use eth_mon_svr.Mempool.Index.{IsIndexed}
use eth_mon_svr.Mempool.Index.Removal.{remove_by_receipts-IsIndexed}
use eth_mon_svr.Mempool.Index.Expiry.{remove_expired-IsIndexed, remove_expired-hash_index}
use eth_mon_svr.GasAnalyzer.Float.{Float}
use eth_mon_svr.GasAnalyzer.Targets.{WeightedTip}
use eth_mon_svr.Processor.Fetch.{returns, Network, fetch_block_receipts}
use eth_mon_svr.Processor.Blocks.{Process}
use eth_mon_svr.Processor.Process.{process_block}
use eth_mon_svr.Processor.Process.Applied.{Applied, Passed, TakenIn, process_block-TakenIn}

-- What the pool answers for a hash after a block: nothing where a receipt names it or its expiry block
-- has been reached, and else what it answered before.
abbrev pub left_of : ℕ → List (Option Receipt) → PendingMemPool → ℕ → Option Ref
left_of cur receipts pool h =
    if mentions h receipts then none else elim (Map.get h pool.hash_index) [
      | none ↦ none
      | some r ↦ if leb (pool.heap r).expire_block cur then none else some r
    ]

swept_after :
    {identity : ℕ → ℕ × ℕ} (cur : ℕ) (header : Header) (receipts : List (Option Receipt))
    (pool : PendingMemPool) {pool' : PendingMemPool} {stats : List FeeBucketStat} {cnt : ℕ} (h : ℕ)
    → IsIndexed identity pool
    → remove_by_receipts header receipts pool ≡ some (pool', stats, cnt)
    → Map.get h (remove_expired cur pool').0.hash_index ≡ left_of cur receipts pool h
swept_after cur header receipts pool {pool'} {stats} {cnt} h v e =
    let v' = remove_by_receipts-IsIndexed header receipts pool v e in
    let named =
      remove_by_receipts-hash_index header receipts pool {pool' = pool'} {stats = stats} {cnt = cnt}
        h v e in
    let swept = remove_expired-hash_index cur pool' h v' in
    elim (Bool-cases (mentions h receipts)) [
      | inl mined ↦ ground (arith, swept, named)
      | inr other ↦ elim (Option-cases (Map.get h pool.hash_index)) [
        | inl gone ↦ ground (arith, swept, named)
        | inr (r, live) ↦
            let same =
              remove_by_receipts-expire_block header receipts pool {pool' = pool'} {stats = stats}
                {cnt = cnt} r e in
            ground (arith, swept, named, same)
      ]
    ]

module _ {F W : Type 0} (fl : Float F) (sort : List (WeightedTip F) → List (WeightedTip F))
    (net : Network W) (hex : ℕ → String) where
  -- What is left of a pool.
  abbrev Left : (ℕ → ℕ × ℕ) → ℕ → List (Option Receipt) → PendingMemPool → PendingMemPool → Type 0
  Left identity cur receipts pool pool' =
      IsIndexed identity pool'
      × ((h : ℕ) → Map.get h pool'.hash_index ≡ left_of cur receipts pool h)

  Passed-Left :
      {identity : ℕ → ℕ × ℕ} (number : ℕ) (p p' : Process F)
      → IsIndexed identity p.pending_pool
      → Passed fl sort net hex number p p'
      → Left identity (number % u64_mod) [] p.pending_pool p'.pending_pool
  Passed-Left {identity} number p p' v passed =
      let cur = number % u64_mod in
      subst (Left identity cur [] p.pending_pool) (sym passed.pool) (
        remove_expired-IsIndexed cur p.pending_pool v,
        λ h. remove_expired-hash_index cur p.pending_pool h v,
      )

  Applied-Left :
      {identity : ℕ → ℕ × ℕ} (header : Header) (number : ℕ) (receipts : List (Option Receipt))
      (p p' : Process F)
      → IsIndexed identity p.pending_pool
      → Applied fl sort net hex header number receipts p p'
      → Left identity (number % u64_mod) receipts p.pending_pool p'.pending_pool
  Applied-Left {identity} header number receipts p p' v applied =
      let cur = number % u64_mod in
      let pool = p.pending_pool in
      let (after, stats, cnt) = applied.removed in
      let v' = remove_by_receipts-IsIndexed header receipts pool v applied.removal in
      subst (Left identity cur receipts pool) (sym applied.pool) (
        remove_expired-IsIndexed cur after v',
        λ h. swept_after cur header receipts pool h v applied.removal,
      )

  -- `ProcessBlock` that returns no error, of a process whose pool has indexes that agree, has got the
  -- receipts of the block, and of the pool, whose indexes still agree, it has removed exactly the
  -- transactions that a receipt names and those whose expiry block the block's number has reached: each
  -- other hash is found just where it was found before.
  pub process_block-hash_index :
      {identity : ℕ → ℕ × ℕ} (header : Header) (p : Process F) (w : W) {p' : Process F} {w' : W}
      → IsIndexed identity p.pending_pool
      → process_block fl sort net hex (some header) p w ≡ some (p', w', returns tt)
      → IsIndexed identity p'.pending_pool
        × ((number : ℕ) × (receipts : List (Option Receipt)) × (header.number ≡ some number)
            × (fetch_block_receipts net header.hash w ≡ (w', returns receipts))
            × ((h : ℕ)
                → Map.get h p'.pending_pool.hash_index
                  ≡ left_of (number % u64_mod) receipts p.pending_pool h))
  process_block-hash_index {identity} header p w {p'} v e =
      let (number, receipts, known, got, taken) =
        process_block-TakenIn fl sort net hex header p w e in
      let (v', left) = taken_in number receipts taken in (v', (number, receipts, known, got, left))
    where
      taken_in :
          (number : ℕ) (receipts : List (Option Receipt))
          → TakenIn fl sort net hex header number receipts p p'
          → Left identity (number % u64_mod) receipts p.pending_pool p'.pending_pool
      taken_in number receipts (inr applied) = Applied-Left header number receipts p p' v applied
      taken_in number receipts (inl (bare, passed)) =
          subst (λ rs. Left identity (number % u64_mod) rs p.pending_pool p'.pending_pool)
            (sym bare) (Passed-Left number p p' v passed)

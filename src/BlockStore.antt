-- ===== src/BlockStore.antt =====
-- internal/blockstore/types.go and store.go: the bounded list of processed blocks, newest first.
-- The lock is not modelled: each method is one atomic step. `F` is the type of float64 values.
pub mod Laws
pub mod Tests
use eth_mon_svr.Base.{ℕ, List, [], ◌∷◌, Option, String, ltb, length, take, if◌then◌else◌}

abbrev pub fee_bucket_size : ℕ
fee_bucket_size = 500000000

abbrev pub tx_store_block_ttl : ℕ
tx_store_block_ttl = 20

abbrev pub max_block_count : ℕ
max_block_count = 10

-- `wait_block_count` is an array of 16 counters.
pub record FeeBucketStat : Type 0 where
  pub bucket : ℕ
  pub tx_count : ℕ
  pub total_wait_blocks : ℕ
  pub total_wait_seconds : ℕ
  pub wait_block_count : List ℕ

pub record TxInfo (F : Type 0) : Type 0 where
  pub hash : String
  pub tip : ℕ
  pub gas_used : ℕ
  pub gas_weight : F

-- `base_fee` is a `*big.Int`, which may be nil.
pub record BlockData (F : Type 0) : Type 0 where
  pub number : ℕ
  pub base_fee : Option ℕ
  pub gas_limit : ℕ
  pub txs : List (TxInfo F)
  pub fee_buckets : List FeeBucketStat

pub record Store (F : Type 0) : Type 0 where
  pub blocks : List (BlockData F)
  pub max : ℕ

module _ {F : Type 0} where
  unfoldable pub new_block_store : ℕ → Store F
  new_block_store max_size = record { blocks = []; max = max_size }

  unfoldable pub clear : Store F → Store F
  clear s = record s { blocks = [] }

  unfoldable pub add_block : BlockData F → Store F → Store F
  add_block block_data s =
      let blocks = block_data ∷ s.blocks in
      record s { blocks = if ltb s.max (length blocks) then take s.max blocks else blocks }

  unfoldable pub get_block_data : Store F → List (BlockData F)
  get_block_data s = s.blocks

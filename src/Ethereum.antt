-- ===== src/Ethereum.antt =====
-- What the code reads of go-ethereum's `types.Header`, `types.Receipt` and `types.Transaction`. Each
-- field holds what the field or method of that name returns, so a value stands for any such object;
-- nothing is assumed of how they are computed. A `*big.Int` is an `Option` (`none` for nil), an
-- address or a hash the number of its bytes.
use eth_mon_svr.Base.{ℕ, Option}

-- `hash` is `header.Hash()`.
pub record Header : Type 0 where
  pub number : Option ℕ
  pub time : ℕ
  pub base_fee : Option ℕ
  pub gas_used : ℕ
  pub gas_limit : ℕ
  pub hash : ℕ

pub record Receipt : Type 0 where
  pub tx_hash : ℕ
  pub effective_gas_price : Option ℕ
  pub gas_used : ℕ

-- `sender` is what `types.Sender(signer, tx)` returns with the signer of the pool, `none` for an error.
pub record Transaction : Type 0 where
  pub hash : ℕ
  pub nonce : ℕ
  pub gas_tip_cap : Option ℕ
  pub gas_fee_cap : Option ℕ
  pub gas_price : Option ℕ
  pub gas : ℕ
  pub sender : Option ℕ

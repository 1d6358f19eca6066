-- ===== src/Processor/Fetch/Tests.antt =====
-- A small network, and the requests on it.
use eth_mon_svr.Base.{
  ℕ, zero, suc, ◌≡◌, ◌<◌, ◌⊎◌, refl, List, [], ◌∷◌, map, Option, none, some, String, length,
}
use eth_mon_svr.Ethereum.{Header, Receipt}
use eth_mon_svr.Processor.Chunks.{chunks}
use eth_mon_svr.Processor.Fetch.{
  Network, returns, fails, receipt_mismatch, cost_of, get_block_tx_count_cu, fetch_block_receipts,
  check_tx_count, empty_if, valid_receipts, fetch_chunks, fetch_receipts_batch,
}
use eth_mon_svr.Processor.Fetch.Complete.{fetch_block_receipts-returns}

abbrev pub header : Header
header = record {
  number = some 8;
  time = 96;
  base_fee = some 100;
  gas_used = 15;
  gas_limit = 30;
  hash = 1;
}

abbrev pub receipt : Receipt
receipt = record { tx_hash = 5; effective_gas_price = some 130; gas_used = 15 }

abbrev pub no_receipts : List (Option Receipt)
no_receipts = []

-- Every hash but 0 has a receipt.
abbrev find : ℕ → Option (Option Receipt)
find zero = none
find (suc n) = some (some receipt)

-- Every block has these receipts, and these are so many; the world counts the requests.
abbrev pub net_of : List (Option Receipt) → ℕ → Network ℕ
net_of receipts tx_count = record {
  header_by_number = λ cost number w. (suc w, some (some header));
  get_block_receipts = λ cost hash w. (suc w, some receipts);
  get_block_tx_count = λ cost hash w. (suc w, some "count");
  fetch_batch = λ cost hashes w. (suc w, some (map find hashes));
  decode_uint64 = λ s. some tx_count;
}

mismatch : fetch_block_receipts (net_of no_receipts 3) 1 0 ≡ (2, fails receipt_mismatch)
unfolding fetch_block_receipts check_tx_count empty_if
mismatch = refl

empty_block : fetch_block_receipts (net_of no_receipts 0) 1 0 ≡ (2, returns no_receipts)
unfolding fetch_block_receipts check_tx_count empty_if
empty_block = refl

run_batch :
    fetch_receipts_batch (net_of no_receipts 0) (5 ∷ 0 ∷ 6 ∷ []) 0
    ≡ (1, some (some receipt ∷ some receipt ∷ []))
unfolding fetch_receipts_batch fetch_chunks chunks valid_receipts
run_batch = refl

fetch_block_receipts-returns_example :
    (some no_receipts ≡ some no_receipts)
    × ((0 < length no_receipts)
        ⊎ ((no_receipts ≡ [])
            × ((tx_count_hex : String) × (((net_of no_receipts 0).get_block_tx_count
                    (cost_of get_block_tx_count_cu)
                    1
                    1).1
                  ≡ some tx_count_hex)
                × ((net_of no_receipts 0).decode_uint64 tx_count_hex ≡ some 0))))
fetch_block_receipts-returns_example =
    fetch_block_receipts-returns (net_of no_receipts 0) 1 0 empty_block

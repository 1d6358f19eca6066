-- ===== src/BlockStore/Tests.antt =====
-- Runs of the block store on concrete blocks.
use eth_mon_svr.Base.{ℕ, List, [], ◌∷◌, ◌≡◌, refl, none, take, map}
use eth_mon_svr.BlockStore.{BlockData, new_block_store, clear, add_block, get_block_data}
use eth_mon_svr.BlockStore.Laws.{Call, adds, clears, run, history, get_block_data-run}

abbrev block : ℕ → BlockData ℕ
block n = record { number = n; base_fee = none; gas_limit = 30; txs = []; fee_buckets = [] }

abbrev calls : List (Call ℕ)
calls = adds (block 7) ∷ clears ∷ adds (block 8) ∷ adds (block 9) ∷ adds (block 10) ∷ []

run_numbers : map (λ b. b.number) (get_block_data (run calls (new_block_store 2))) ≡ 10 ∷ 9 ∷ []
unfolding run new_block_store clear add_block get_block_data
run_numbers = refl

get_block_data-run_example :
    get_block_data (run calls (new_block_store 2)) ≡ take 2 (history calls [])
get_block_data-run_example = get_block_data-run 2 calls

-- ===== src/Network/Ingestion/Tests.antt =====
-- Runs of the providers of the subscriber.
use eth_mon_svr.Base.{ℕ, ◌≡◌, refl, List, [], ◌∷◌, none, some, String}
use eth_mon_svr.Network.Ingestion.{
  Provider, provider, index_of, cur_idx, is_passed_over, scan, alternate_provider,
}
use eth_mon_svr.Ethereum.{Header}
use eth_mon_svr.Network.Ingestion.Header.{Event, arrived, tick, header_timed_out, consume}
use eth_mon_svr.Network.Ingestion.Watchdog.{Consumed, consume-Consumed}

abbrev entry : String → String → Provider
entry name url = record { name = name; url = url }

abbrev providers : List Provider
providers = entry "alchemy" "ws1" ∷ entry "chainstack" "" ∷ entry "infura" "ws3" ∷ []

run_alternate : alternate_provider "alchemy" providers ≡ some (some (entry "infura" "ws3"))
unfolding alternate_provider scan cur_idx index_of is_passed_over
run_alternate = refl

run_back : alternate_provider "infura" providers ≡ some (some (entry "alchemy" "ws1"))
unfolding alternate_provider scan cur_idx index_of is_passed_over
run_back = refl

run_provider : provider "chainstack" providers ≡ none
unfolding provider
run_provider = refl

abbrev header : ℕ → Header
header num = record {
  number = some num;
  time = 0;
  base_fee = none;
  gas_used = 0;
  gas_limit = 0;
  hash = num;
}

abbrev events : List (ℕ × Event ℕ)
events =
    (1000000000, arrived (some (header 7)))
    ∷ (10000000000, tick)
    ∷ (12000000000, arrived none)
    ∷ (31000000000, tick)
    ∷ (40000000000, arrived (some (header 8)))
    ∷ []

abbrev push : Header → List ℕ → List ℕ
push h w = h.hash ∷ w

run_consume : consume push events 0 [] ≡ (7 ∷ [], some (header_timed_out 1000000000))
unfolding consume
run_consume = refl

consume-Consumed_example : Consumed push events 0 [] (consume push events 0 [])
consume-Consumed_example = consume-Consumed push events 0 []

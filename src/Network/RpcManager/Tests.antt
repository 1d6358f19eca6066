-- ===== src/Network/RpcManager/Tests.antt =====
-- Runs of the manager in a world that is the time: a call takes one tick, and the clients of the
-- provider "alchemy" refuse.
use eth_mon_svr.Base.{
  ℕ, ◌+◌, ◌≡◌, ◌≢◌, refl, true, List, [], ◌∷◌, Option, none, some, get_elem?, if◌then◌else◌,
  same_text, String, zero, suc, arith, subst, sym,
}
use eth_mon_svr.Network.RpcManager.{
  Client, RpcCost, RpcManager, Net, Failure, fine, all_failed, answered, rotate, turn, wait,
  wait_turn, call_turn, limited, eth_client_func, serve, failover, get_provider, new_rpc_manager,
  connect, new_eth_client, rpc_policies,
}
use eth_mon_svr.Network.RpcManager.Failover.{IsUp}
use eth_mon_svr.Network.RpcManager.Calls.{
  IsDown, eth_client_func-IsUp, eth_client_func-IsDown, run, run-new_rpc_manager,
}

abbrev net : Net ℕ ℕ
net = record {
  now = λ w. w;
  dial = λ url. true;
  wait_n = λ c n w. (w + 1, none);
  call = λ c w. (w + 1, if same_text c.provider "alchemy" then some 7 else none);
}

abbrev cost : RpcCost
cost = record { cu = 20; rpc = 1 }

abbrev client : String → Client
client provider = record {
  eth_client = true;
  url = "ws";
  provider = provider;
  limit_type = 0;
  limit = 450;
  burst = 400;
}

abbrev manager : List Client → RpcManager
manager clients = record { clients = clients; active = 0; rotate_interval = 30; last_rotate_at = 0 }

abbrev two : RpcManager
two = manager (client "alchemy" ∷ client "chainstack" ∷ [])

abbrev one : RpcManager
one = manager (client "alchemy" ∷ [])

run_failover :
    eth_client_func net cost two 0 ≡ some (record two { active = 1; last_rotate_at = 4 }, 4, fine)
unfolding eth_client_func serve failover rotate turn wait wait_turn call_turn limited
run_failover = refl

second-IsUp : IsUp net cost (client "chainstack")
unfolding IsUp turn wait wait_turn call_turn limited
second-IsUp w = refl

eth_client_func-IsUp_example :
    (r' : RpcManager) × (w' : ℕ) × (eth_client_func net cost two 0 ≡ some (r', w', fine))
eth_client_func-IsUp_example =
    eth_client_func-IsUp net cost two 0 1 (client "chainstack") (record { in_range = omega arith })
      refl second-IsUp

alchemy_refuses : (w : ℕ) → (turn net (client "alchemy") cost w).1 ≢ answered
unfolding turn wait wait_turn call_turn limited
alchemy_refuses w went = absurd (ground arith)

only-IsDown : (k : ℕ) (c : Client) → get_elem? one.clients k ≡ some c → IsDown net cost c
unfolding IsDown
only-IsDown zero c at w went =
    let same : client "alchemy" ≡ c = ground arith in
    alchemy_refuses w (subst (λ d. (turn net d cost w).1 ≡ answered) (sym same) went)
only-IsDown (suc k) c at w went = absurd (cc)

eth_client_func-IsDown_example :
    (w' : ℕ) × (last : Option (Failure ℕ)) × (eth_client_func net cost one 40
      ≡ some (rotate 40 one, w', all_failed last))
eth_client_func-IsDown_example =
    eth_client_func-IsDown net cost one 40 (record { in_range = omega arith }) only-IsDown

abbrev rpcs : List (String × String)
rpcs = ("alchemy", "ws1") ∷ ("chainstack", "ws2") ∷ []

abbrev made : RpcManager
made = record {
  clients =
      record {
        eth_client = true;
        url = "ws1";
        provider = "alchemy";
        limit_type = 0;
        limit = 450;
        burst = 400;
      }
      ∷ record {
        eth_client = true;
        url = "ws2";
        provider = "chainstack";
        limit_type = 1;
        limit = 22;
        burst = 20;
      }
      ∷ [];
  active = 0;
  rotate_interval = 30000000000;
  last_rotate_at = 5;
}

run_new : new_rpc_manager net rpcs 5 ≡ some made
unfolding new_rpc_manager connect new_eth_client rpc_policies
run_new = refl

run-new_rpc_manager_example :
    (r' : RpcManager) × (w' : ℕ) × (c : Client) × (run net (cost ∷ cost ∷ []) made 6
      ≡ some (r', w'))
    × (r'.clients ≡ made.clients)
    × (get_elem? made.clients r'.active ≡ some c)
    × (get_provider r' ≡ some c.provider)
run-new_rpc_manager_example = run-new_rpc_manager net rpcs (cost ∷ cost ∷ []) 6 5 run_new

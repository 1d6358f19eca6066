-- ===== src/Network/RpcManager.antt =====
-- internal/network/rpcManager. The clock, the dialing, the rate limiter and the call that `fn` makes on
-- a client are parameters that change the world `W`; an error is a value of `E`. `EthClientFunc` reads
-- and writes the manager under its lock; a call is one step here.
pub mod Failover
pub mod Calls
pub mod Tests
use eth_mon_svr.Base.{
  ℕ, zero, suc, ◌+◌, ◌-◌, ◌%◌, ◌≡◌, Bool, true, false, List, [], ◌∷◌, Option, none, some, ◌==◌, leb,
  if◌then◌else◌, length, get_elem?, String, same_text,
}

abbrev pub provider_alchemy : String
provider_alchemy = "alchemy"

abbrev pub provider_chainstack : String
provider_chainstack = "chainstack"

-- 30 s in nanoseconds.
abbrev pub rotate_interval_default : ℕ
rotate_interval_default = 30000000000

-- `LimitType` is an int, so other numbers than the two constants are values of it.
abbrev pub limit_cu : ℕ
limit_cu = 0

abbrev pub limit_rps : ℕ
limit_rps = 1

pub record RpcPolicy : Type 0 where
  pub limit_type : ℕ
  pub limit : ℕ
  pub burst : ℕ

-- `rpcPolicies[provider]`
unfoldable pub rpc_policies : String → Option RpcPolicy
rpc_policies provider =
    if same_text provider provider_alchemy
    then some (record { limit_type = limit_cu; limit = 450; burst = 400 })
    else (if same_text provider provider_chainstack
        then some (record { limit_type = limit_rps; limit = 22; burst = 20 })
        else none)

pub record RpcCost : Type 0 where
  pub cu : ℕ
  pub rpc : ℕ

-- `eth_client` is whether the pointer is not nil; the limiter is the one of `burst` and `limit`.
pub record Client : Type 0 where
  pub eth_client : Bool
  pub url : String
  pub provider : String
  pub limit_type : ℕ
  pub limit : ℕ
  pub burst : ℕ

pub record RpcManager : Type 0 where
  pub clients : List Client
  pub active : ℕ
  pub rotate_interval : ℕ
  pub last_rotate_at : ℕ

-- `now` is `time.Now()`, `dial` whether `ethclient.Dial` succeeds, `wait_n` the client's
-- `limiter.WaitN`, and `call` is `fn(client.EthClient)`; `none` stands for no error.
pub record Net (W E : Type 0) : Type 0 where
  pub now : W → ℕ
  pub dial : String → Bool
  pub wait_n : Client → ℕ → W → W × Option E
  pub call : Client → W → W × Option E

pub data Failure (E : Type 0) : Type 0 where
  unsupported_limit : ℕ → Failure E
  failed : E → Failure E

-- What `EthClientFunc` returns: nil, or one of its two errors, the second around `lastErr`.
pub data Answer (E : Type 0) : Type 0 where
  fine no_client : Answer E
  all_failed : Option (Failure E) → Answer E

-- One client's turn: it is nil, or the call went through, or `lastErr` gets an error.
pub data Turn (E : Type 0) : Type 0 where
  skipped answered : Turn E
  refused : Failure E → Turn E

-- `GetProvider`: `none` is an index out of range, which panics.
unfoldable pub get_provider : RpcManager → Option String
get_provider r = elim r.clients [
  | [] ↦ some ""
  | c ∷ rest ↦ elim (get_elem? r.clients r.active) [
    | none ↦ none
    | some client ↦ some client.provider
  ]
]

-- The `rotate check`: `now.Sub(r.lastRotateAt) >= r.rotateInterval`, with no subtraction.
unfoldable pub rotate : ℕ → RpcManager → RpcManager
rotate now r =
    if leb (r.last_rotate_at + r.rotate_interval) now
    then record r { active = (r.active + 1) % length r.clients; last_rotate_at = now }
    else r

module _ {W E : Type 0} (net : Net W E) where
  unfoldable pub new_eth_client : String → String → RpcPolicy → Option Client
  new_eth_client provider url policy =
      if net.dial url
      then some (record {
        eth_client = true;
        url = url;
        provider = provider;
        limit_type = policy.limit_type;
        limit = policy.limit;
        burst = policy.burst;
      })
      else none

  -- The loop of `NewRpcManager` over the map of URLs, in the order in which `range` visits it: `none`
  -- is the error for a provider without a policy.
  unfoldable pub connect : List (String × String) → Option (List Client)
  connect [] = some []
  connect ((provider, url) ∷ rest) =
      let later = connect rest in
      elim (rpc_policies provider) [
        | none ↦ none
        | some policy ↦ elim later [
          | none ↦ none
          | some clients ↦ elim (new_eth_client provider url policy) [
            | none ↦ some clients
            | some client ↦ some (client ∷ clients)
          ]
        ]
      ]

  unfoldable pub new_rpc_manager : List (String × String) → W → Option RpcManager
  new_rpc_manager rpcs w = elim (connect rpcs) [
    | none ↦ none
    | some [] ↦ none
    | some (c ∷ rest) ↦ some (record {
      clients = c ∷ rest;
      active = 0;
      rotate_interval = rotate_interval_default;
      last_rotate_at = net.now w;
    })
  ]

  unfoldable pub limited : Option E → Option (Failure E)
  limited none = none
  limited (some e) = some (failed e)

  -- `Client.Wait`
  unfoldable pub wait : Client → RpcCost → W → W × Option (Failure E)
  wait c cost w =
      if c.limit_type == limit_cu
      then (let (w', e) = net.wait_n c cost.cu w in (w', limited e))
      else (if c.limit_type == limit_rps
          then (let (w', e) = net.wait_n c cost.rpc w in (w', limited e))
          else (w, some (unsupported_limit c.limit_type)))

  unfoldable pub call_turn : W × Option E → W × Turn E
  call_turn (w, none) = (w, answered)
  call_turn (w, some e) = (w, refused (failed e))

  unfoldable pub wait_turn : Client → W × Option (Failure E) → W × Turn E
  wait_turn c (w, none) = call_turn (net.call c w)
  wait_turn c (w, some e) = (w, refused e)

  -- What the code does with a client, the active one or another.
  unfoldable pub turn : Client → RpcCost → W → W × Turn E
  turn c cost w = if c.eth_client then wait_turn c (wait c cost w) else (w, skipped)

  -- The loop over the other clients, from offset `i` on, for so many clients. `none` is a panic; else
  -- the manager and the world, with the answer.
  unfoldable pub failover :
      ℕ → ℕ → ℕ → RpcCost → RpcManager → Option (Failure E) → W → Option (RpcManager × W × Answer E)
  failover zero i idx cost r last w = some (r, w, all_failed last)
  failover (suc more) i idx cost r last w =
      let next = (idx + i) % length r.clients in
      elim (get_elem? r.clients next) [
        | none ↦ none
        | some client ↦
            let (w', t) = turn client cost w in
            elim t [
              | skipped ↦ failover more (i + 1) idx cost r last w'
              | refused e ↦ failover more (i + 1) idx cost r (some e) w'
              | answered ↦ some (record r { active = next; last_rotate_at = net.now w' }, w', fine)
            ]
      ]

  -- `EthClientFunc` after the rotation, on the active client first.
  unfoldable pub serve : RpcCost → RpcManager → W → Option (RpcManager × W × Answer E)
  serve cost r w = elim (get_elem? r.clients r.active) [
    | none ↦ none
    | some client ↦
        let (w', t) = turn client cost w in
        let others = length r.clients - 1 in
        elim t [
          | skipped ↦ failover others 1 r.active cost r none w'
          | refused e ↦ failover others 1 r.active cost r (some e) w'
          | answered ↦ some (r, w', fine)
        ]
  ]

  unfoldable pub eth_client_func : RpcCost → RpcManager → W → Option (RpcManager × W × Answer E)
  eth_client_func cost r w = elim r.clients [
    | [] ↦ some (r, w, no_client)
    | c ∷ rest ↦ serve cost (rotate (net.now w) r) w
  ]

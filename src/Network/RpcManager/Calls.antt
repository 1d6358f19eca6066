-- ===== src/Network/RpcManager/Calls.antt =====
-- Calls of `EthClientFunc` of internal/network/rpcManager/manager.go.
use eth_mon_svr.Base.{
  List-cases, mod_lt, ℕ, zero, suc, ◌+◌, ◌-◌, ◌%◌, ◌≡◌, ◌≢◌, refl, ap, ◌∙◌, sym, List, [], ◌∷◌,
  Option, none, some, get_elem?, length, arith, get_elem?-of_lt, inl, inr, String,
}
use eth_mon_svr.Network.RpcManager.{
  Client, RpcCost, RpcManager, Net, Failure, fine, all_failed, answered, rotate, turn, failover,
  serve, eth_client_func, get_provider, new_rpc_manager,
}
use eth_mon_svr.Network.RpcManager.Failover.{
  IsManager, rotate-IsManager, IsUp, serve-Ends, serve-IsUp, serve-step, failover-step,
}

get_provider-at :
    (r : RpcManager) (c : Client)
    → get_elem? r.clients r.active ≡ some c
    → get_provider r ≡ some c.provider
unfolding get_provider
get_provider-at r c at = elim (List-cases r.clients) [
  | inl empty ↦ absurd (ground arith)
  | inr (d, rest, e) ↦ ground arith
]

module _ {W E : Type 0} (net : Net W E) where
  eth_client_func-serve :
      (cost : RpcCost) (r : RpcManager) (w : W)
      → IsManager r
      → eth_client_func net cost r w ≡ serve net cost (rotate (net.now w) r) w
  unfolding eth_client_func
  eth_client_func-serve cost r w v = elim (List-cases r.clients) [
    | inl empty ↦ absurd (omega (arith, v.in_range, ap length empty))
    | inr (c, rest, e) ↦ ground arith
  ]

  -- Whichever client is active and however the others fail: where one of the clients is up,
  -- `EthClientFunc` returns without an error.
  pub eth_client_func-IsUp :
      (cost : RpcCost) (r : RpcManager) (w : W) (k : ℕ) (c : Client)
      → IsManager r
      → get_elem? r.clients k ≡ some c
      → IsUp net cost c
      → (r' : RpcManager) × (w' : W) × (eth_client_func net cost r w ≡ some (r', w', fine))
  eth_client_func-IsUp cost r w k c v at up =
      let (v', same) = rotate-IsManager (net.now w) r v in
      let (r', w', e) =
        serve-IsUp net cost (rotate (net.now w) r) w k c v' (ap (λ cs. get_elem? cs k) same ∙ at)
          up in
      (r', w', eth_client_func-serve cost r w v ∙ e)

  -- The client answers in no world.
  unfoldable pub IsDown : RpcCost → Client → Type 0
  IsDown cost c = (w : W) → (turn net c cost w).1 ≢ answered

  failover-IsDown :
      (cost : RpcCost) (more i idx : ℕ) (r : RpcManager) (last : Option (Failure E)) (w : W)
      → IsManager r
      → ((k : ℕ) (c : Client) → get_elem? r.clients k ≡ some c → IsDown cost c)
      → (w' : W) × (last' : Option (Failure E)) × (failover net more i idx cost r last w
          ≡ some (r, w', all_failed last'))
  unfolding failover IsDown
  failover-IsDown cost zero i idx r last w v down = (w, last, refl)
  failover-IsDown cost (suc more) i idx r last w v down =
      let (c, at) =
        get_elem?-of_lt r.clients ((idx + i) % length r.clients)
          (mod_lt (idx + i) (length r.clients) (omega (arith, v.in_range))) in
      elim (failover-step net cost more i idx r last w c at) [
        | inr (went, e) ↦ absurd (down _ c at w went)
        | inl (goes_on, last', e) ↦
            let (w', last'', e') =
              failover-IsDown cost more (i + 1) idx r last' (turn net c cost w).0 v down in
            (w', last'', e ∙ e')
      ]

  -- Where every client is down, `EthClientFunc` returns the error that all failed, and but for the
  -- rotation that was due the manager is as it was.
  pub eth_client_func-IsDown :
      (cost : RpcCost) (r : RpcManager) (w : W)
      → IsManager r
      → ((k : ℕ) (c : Client) → get_elem? r.clients k ≡ some c → IsDown cost c)
      → (w' : W) × (last : Option (Failure E)) × (eth_client_func net cost r w
          ≡ some (rotate (net.now w) r, w', all_failed last))
  unfolding IsDown
  eth_client_func-IsDown cost r w v down =
      let (v', same) = rotate-IsManager (net.now w) r v in
      let r' = rotate (net.now w) r in
      let down' : (k : ℕ) (c : Client) → get_elem? r'.clients k ≡ some c → IsDown cost c =
        λ k c at. down k c (ap (λ cs. get_elem? cs k) (sym same) ∙ at) in
      let (c, at) = get_elem?-of_lt r'.clients r'.active v'.in_range in
      elim (serve-step net cost r' w c at) [
        | inr (went, e) ↦ absurd (down' _ c at w went)
        | inl (goes_on, last, e) ↦
            let (w', last', e') =
              failover-IsDown cost (length r'.clients - 1) 1 r'.active r' last (turn net c cost w).0
                v' down' in
            (w', last', eth_client_func-serve cost r w v ∙ e ∙ e')
      ]

  -- Calls one after the other, each in the world the one before left: `none` is a panic.
  unfoldable pub run : List RpcCost → RpcManager → W → Option (RpcManager × W)
  run [] r w = some (r, w)
  run (cost ∷ rest) r w = elim (eth_client_func net cost r w) [
    | none ↦ none
    | some (r', w', answer) ↦ run rest r' w'
  ]

  new_rpc_manager-IsManager :
      (rpcs : List (String × String)) (w : W) {r : RpcManager}
      → new_rpc_manager net rpcs w ≡ some r
      → IsManager r
  unfolding new_rpc_manager
  new_rpc_manager-IsManager rpcs w e = record { in_range = ground arith }

  run-IsManager :
      (costs : List RpcCost) (r : RpcManager) (w : W)
      → IsManager r
      → (r' : RpcManager) × (w' : W) × (run costs r w ≡ some (r', w'))
        × IsManager r'
        × (r'.clients ≡ r.clients)
  unfolding run
  run-IsManager [] r w v = (r, w, refl, v, refl)
  run-IsManager (cost ∷ rest) r w v =
      let (v', same) = rotate-IsManager (net.now w) r v in
      let ends = serve-Ends net cost (rotate (net.now w) r) w v' in
      let (r', w', e, v'', same') = run-IsManager rest ends.after ends.world ends.is_manager in
      let called = eth_client_func-serve cost r w v ∙ ends.returns in
      (r', w', rw (called, run) e, v'', same' ∙ ends.same_clients ∙ same)

  -- From a manager that `NewRpcManager` made, no sequence of `EthClientFunc` calls panics, the clients
  -- stay the same, and `GetProvider` then names the provider of one of them.
  pub run-new_rpc_manager :
      (rpcs : List (String × String)) (costs : List RpcCost) (w w₀ : W) {r : RpcManager}
      → new_rpc_manager net rpcs w₀ ≡ some r
      → (r' : RpcManager) × (w' : W) × (c : Client) × (run costs r w ≡ some (r', w'))
        × (r'.clients ≡ r.clients)
        × (get_elem? r.clients r'.active ≡ some c)
        × (get_provider r' ≡ some c.provider)
  run-new_rpc_manager rpcs costs w w₀ {r} made =
      let v = new_rpc_manager-IsManager rpcs w₀ made in
      let (r', w', e, v', same) = run-IsManager costs r w v in
      let (c, at) = get_elem?-of_lt r'.clients r'.active v'.in_range in
      (
        r',
        w',
        c,
        e,
        same,
        ap (λ cs. get_elem? cs r'.active) (sym same) ∙ at,
        get_provider-at r' c at,
      )

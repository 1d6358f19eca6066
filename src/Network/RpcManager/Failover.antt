-- ===== src/Network/RpcManager/Failover.antt =====
-- `EthClientFunc` of internal/network/rpcManager/manager.go: the clients it tries.
use eth_mon_svr.Base.{
  mod_lt, circle, ℕ, zero, suc, ◌+◌, ◌-◌, ◌%◌, ◌≤◌, ◌<◌, ◌≡◌, ◌≢◌, refl, ◌∙◌, Option, none, some,
  get_elem?, length, arith, get_elem?-of_lt, get_elem?-lt, Bool-cases, inl, inr, leb, subst, ◌⊎◌,
  ◌==◌,
}
use eth_mon_svr.Network.RpcManager.{
  Client, RpcCost, RpcManager, Net, Failure, Answer, fine, all_failed, Turn, skipped, answered,
  refused, rotate, turn, failover, serve,
}

-- The active client is one of the clients.
pub record IsManager (r : RpcManager) : Type 0 where
  pub in_range : r.active < length r.clients

pub rotate-IsManager :
    (now : ℕ) (r : RpcManager)
    → IsManager r
    → IsManager (rotate now r) × ((rotate now r).clients ≡ r.clients)
unfolding rotate
rotate-IsManager now r v = elim (Bool-cases (leb (r.last_rotate_at + r.rotate_interval) now)) [
  | inl due ↦ rw due (record { in_range = mod_lt _ _ (omega (arith, v.in_range)) }, refl)
  | inr not_due ↦ rw not_due (v, refl)
]

Turn-cases :
    {E : Type 0} (t : Turn E)
    → (t ≡ answered) ⊎ ((t ≡ skipped) ⊎ ((x : Failure E) × (t ≡ refused x)))
Turn-cases answered = inl refl
Turn-cases skipped = inr (inl refl)
Turn-cases (refused x) = inr (inr (x, refl))

module _ {W E : Type 0} (net : Net W E) (cost : RpcCost) where
  -- The client answers in any world.
  unfoldable pub IsUp : Client → Type 0
  IsUp c = (w : W) → (turn net c cost w).1 ≡ answered

  -- A call that ends, with the clients it had.
  pub record Ends (r : RpcManager) (o : Option (RpcManager × W × Answer E)) : Type 0 where
    pub after : RpcManager
    pub world : W
    pub answer : Answer E
    pub returns : o ≡ some (after, world, answer)
    pub same_clients : after.clients ≡ r.clients
    pub is_manager : IsManager after

  -- One round of the loop: it goes on with some error, or the client answered.
  pub failover-step :
      (more i idx : ℕ) (r : RpcManager) (last : Option (Failure E)) (w : W) (c : Client)
      → let next = (idx + i) % length r.clients in
        get_elem? r.clients next ≡ some c
        → let (w', t) = turn net c cost w in
          ((t ≢ answered)
            × (last' : Option (Failure E)) × (failover net (suc more) i idx cost r last w
                ≡ failover net more (i + 1) idx cost r last' w'))
          ⊎ ((t ≡ answered)
              × (failover net (suc more) i idx cost r last w
                  ≡ some (record r { active = next; last_rotate_at = net.now w' }, w', fine)))
  unfolding failover
  failover-step more i idx r last w c at = elim (Turn-cases (turn net c cost w).1) [
    | inl went ↦ inr (went, ground arith)
    | inr (inl skip) ↦ inl (ground arith, last, ground arith)
    | inr (inr (x, failure)) ↦ inl (ground arith, some x, ground arith)
  ]

  pub serve-step :
      (r : RpcManager) (w : W) (c : Client)
      → get_elem? r.clients r.active ≡ some c
      → let (w', t) = turn net c cost w in
        ((t ≢ answered)
          × (last : Option (Failure E)) × (serve net cost r w
              ≡ failover net (length r.clients - 1) 1 r.active cost r last w'))
        ⊎ ((t ≡ answered) × (serve net cost r w ≡ some (r, w', fine)))
  unfolding serve
  serve-step r w c at = elim (Turn-cases (turn net c cost w).1) [
    | inl went ↦ inr (went, ground arith)
    | inr (inl skip) ↦ inl (ground arith, none, ground arith)
    | inr (inr (x, failure)) ↦ inl (ground arith, some x, ground arith)
  ]

  failover-Ends :
      (more i idx : ℕ) (r : RpcManager) (last : Option (Failure E)) (w : W)
      → IsManager r
      → Ends r (failover net more i idx cost r last w)
  unfolding failover
  failover-Ends zero i idx r last w v = record {
    after = r;
    world = w;
    answer = all_failed last;
    returns = refl;
    same_clients = refl;
    is_manager = v;
  }
  failover-Ends (suc more) i idx r last w v =
      let lt = mod_lt (idx + i) (length r.clients) (omega (arith, v.in_range)) in
      let (c, at) = get_elem?-of_lt r.clients ((idx + i) % length r.clients) lt in
      elim (failover-step more i idx r last w c at) [
        | inl (goes_on, last', e) ↦
            let rest = failover-Ends more (i + 1) idx r last' (turn net c cost w).0 v in
            record {
              after = rest.after;
              world = rest.world;
              answer = rest.answer;
              returns = e ∙ rest.returns;
              same_clients = rest.same_clients;
              is_manager = rest.is_manager;
            }
        | inr (went, e) ↦ record {
          after = record r {
            active = (idx + i) % length r.clients;
            last_rotate_at = net.now (turn net c cost w).0;
          };
          world = (turn net c cost w).0;
          answer = fine;
          returns = e;
          same_clients = refl;
          is_manager = record { in_range = lt };
        }
      ]

  -- The client at `k` is up, and the rounds that are left reach it.
  failover-IsUp :
      (more i idx k : ℕ) (r : RpcManager) (last : Option (Failure E)) (w : W) (c : Client)
      → IsManager r
      → get_elem? r.clients k ≡ some c
      → IsUp c
      → (j : ℕ) → i ≤ j
      → j < i + more
      → (idx + j) % length r.clients ≡ k
      → (r' : RpcManager) × (w' : W) × (failover net more i idx cost r last w ≡ some (r', w', fine))
  unfolding IsUp
  failover-IsUp zero i idx k r last w c v at up j le lt here = absurd (omega arith)
  failover-IsUp (suc more) i idx k r last w c v at up j le lt here =
      let in_range = mod_lt (idx + i) (length r.clients) (omega (arith, v.in_range)) in
      let (d, at') = get_elem?-of_lt r.clients ((idx + i) % length r.clients) in_range in
      elim (failover-step more i idx r last w d at') [
        | inr (went, e) ↦ (_, _, e)
        | inl (goes_on, last', e) ↦ elim (Bool-cases (i == j)) [
          | inl now ↦
              let same_place : i ≡ j = ground arith in
              let same_client : c ≡ d = ground (arith, at, at', here) in
              absurd (goes_on (subst (λ x. (turn net x cost w).1 ≡ answered) same_client (up w)))
          | inr later ↦
              let (r', w', e') =
                failover-IsUp more (i + 1) idx k r last' (turn net d cost w).0 c v at up j
                  (ground arith) (omega arith) here in
              (r', w', e ∙ e')
        ]
      ]

  pub serve-IsUp :
      (r : RpcManager) (w : W) (k : ℕ) (c : Client)
      → IsManager r
      → get_elem? r.clients k ≡ some c
      → IsUp c
      → (r' : RpcManager) × (w' : W) × (serve net cost r w ≡ some (r', w', fine))
  unfolding IsUp
  serve-IsUp r w k c v at up =
      let (d, at') = get_elem?-of_lt r.clients r.active v.in_range in
      elim (serve-step r w d at') [
        | inr (went, e) ↦ (_, _, e)
        | inl (goes_on, last, e) ↦ elim (Bool-cases (r.active == k)) [
          | inl active ↦
              let same_place : r.active ≡ k = ground arith in
              let same_client : c ≡ d = ground (arith, at, at') in
              absurd (goes_on (subst (λ x. (turn net x cost w).1 ≡ answered) same_client (up w)))
          | inr other ↦
              let lt = get_elem?-lt r.clients k c at in
              let (j, from, to, here) =
                circle (length r.clients) r.active k v.in_range lt (ground arith) in
              let (r', w', e') =
                failover-IsUp (length r.clients - 1) 1 r.active k r last (turn net d cost w).0 c v
                  at up j from (omega arith) here in
              (r', w', e ∙ e')
        ]
      ]

  pub serve-Ends : (r : RpcManager) (w : W) → IsManager r → Ends r (serve net cost r w)
  serve-Ends r w v =
      let (c, at) = get_elem?-of_lt r.clients r.active v.in_range in
      elim (serve-step r w c at) [
        | inl (goes_on, last, e) ↦
            let rest =
              failover-Ends (length r.clients - 1) 1 r.active r last (turn net c cost w).0 v in
            record {
              after = rest.after;
              world = rest.world;
              answer = rest.answer;
              returns = e ∙ rest.returns;
              same_clients = rest.same_clients;
              is_manager = rest.is_manager;
            }
        | inr (went, e) ↦ record {
          after = r;
          world = (turn net c cost w).0;
          answer = fine;
          returns = e;
          same_clients = refl;
          is_manager = v;
        }
      ]

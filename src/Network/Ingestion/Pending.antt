-- ===== src/Network/Ingestion/Pending.antt =====
-- internal/network/ingestion/pending.go: the sessions and the stream of transaction hashes. Starting a
-- session and the cache of hashes seen are parameters that change the world `W`.
use eth_mon_svr.Base.{
  ℕ, zero, suc, ◌-◌, Bool, true, false, List, [], ◌∷◌, Option, none, some, ◌==◌, if◌then◌else◌,
  length,
}
use eth_mon_svr.Network.Ingestion.{Provider, alternate_provider, connect_retry_count}

-- `start_session` is `startPendingSession` (`none` where it succeeded), `is_cancelled` whether
-- `ctx.Err()` is not nil, `cancel` ends a session and waits for it, and `wait_retry` is the `select`
-- on the retry timer, which answers whether the context was cancelled first.
pub record Sessions (W E : Type 0) : Type 0 where
  pub start_session : Provider → W → W × Option E
  pub is_cancelled : W → W × Bool
  pub cancel : Provider → W → W
  pub wait_retry : W → W × Bool

-- How an attempt to connect ends: in a session with a provider, by the context, or with `lastErr`.
pub data Connected (E : Type 0) : Type 0 where
  session : Provider → Connected E
  context_done : Connected E
  last_err : Option E → Connected E

module _ {W E : Type 0} (net : Sessions W E) where
  -- The loop of `handoverPending`, for so many providers: the provider of the session that runs
  -- afterwards and whether it is a new one; the outer `none` is a panic.
  unfoldable pub handover :
      ℕ → List Provider → Provider → Provider → W → W × Option (Provider × Bool)
  handover zero providers old next w = (w, some (old, false))
  handover (suc more) providers old next w =
      let (w₁, done) = net.is_cancelled w in
      let (w₂, err) = net.start_session next w₁ in
      let (w₃, done') = net.is_cancelled w₂ in
      if done then (w₁, some (old, false)) else (elim err [
        | none ↦ (net.cancel old w₂, some (next, true))
        | some e ↦
            if done'
            then (w₃, some (old, false))
            else elim (alternate_provider next.name providers) [
              | none ↦ (w₃, none)
              | some none ↦ (w₃, some (old, false))
              | some (some other) ↦ handover more providers old other w₃
            ]
      ])

  unfoldable pub handover_pending :
      List Provider → Provider → Provider → W → W × Option (Provider × Bool)
  handover_pending providers old first w = handover (length providers) providers old first w

  -- The attempts on one provider: `i` is how many are left after this one.
  unfoldable pub attempt : ℕ → Provider → W → W × Connected E
  attempt zero p w =
      let (w₁, done) = net.is_cancelled w in
      let (w₂, err) = net.start_session p w₁ in
      if done
      then (w₁, context_done)
      else elim err [ none ↦ (w₂, session p) | some e ↦ (w₂, last_err (some e)) ]
  attempt (suc more) p w =
      let (w₁, done) = net.is_cancelled w in
      let (w₂, err) = net.start_session p w₁ in
      let (w₃, done') = net.wait_retry w₂ in
      let again = attempt more p w₃ in
      if done then (w₁, context_done) else elim err [
        | none ↦ (w₂, session p)
        | some e ↦ if done' then (w₃, context_done) else again
      ]

  -- `connectInitialPendingSession`
  unfoldable pub connect_initial : List Provider → Option E → W → W × Connected E
  connect_initial [] last w = (w, last_err last)
  connect_initial (p ∷ rest) last w =
      let (w', r) = attempt (connect_retry_count - 1) p w in
      elim r [
        | session q ↦ (w', session q)
        | context_done ↦ (w', context_done)
        | last_err e ↦ connect_initial rest e w'
      ]

-- `seen` is `Cache.Seen` and `push` is `PushTxHash`.
module _ {W : Type 0} (seen : ℕ → W → W × Bool) (push : ℕ → W → W) where
  -- What the loop of `connectPendingAndStream` does with a hash; the hash of all zeros is no hash. The
  -- counter of the report is left out.
  unfoldable pub take_hash : ℕ → W → W
  take_hash tx_hash w =
      let (w', old) = seen tx_hash w in
      if tx_hash == 0 then w else (if old then w' else push tx_hash w')

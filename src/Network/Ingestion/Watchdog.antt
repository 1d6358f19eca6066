-- ===== src/Network/Ingestion/Watchdog.antt =====
-- `consumeHeaderStream` of internal/network/ingestion/header.go: what it passes on, and its watchdog.
use eth_mon_svr.Base.{
  ℕ, ◌-◌, ◌≤◌, ◌≡◌, refl, ap, ◌∙◌, sym, subst, List, [], ◌∷◌, ◌++◌, Option, none, some, leb, arith,
  Bool-cases, inl, inr,
}
use eth_mon_svr.Ethereum.{Header}
use eth_mon_svr.Network.Ingestion.Header.{
  Event, cancelled, headers_closed, tick, errs, arrived, End, context_done, subscription_closed,
  header_channel_close, failed, header_timed_out, consume, header_timeout,
}

-- The headers among the events, and the time of the last of them, `last` if there is none.
unfoldable pub headers : {E : Type 0} → List (ℕ × Event E) → List Header
headers [] = []
headers ((now, cancelled) ∷ rest) = headers rest
headers ((now, headers_closed) ∷ rest) = headers rest
headers ((now, tick) ∷ rest) = headers rest
headers ((now, errs e) ∷ rest) = headers rest
headers ((now, arrived none) ∷ rest) = headers rest
headers ((now, arrived (some h)) ∷ rest) = h ∷ headers rest

unfoldable pub last_header_at : {E : Type 0} → ℕ → List (ℕ × Event E) → ℕ
last_header_at last [] = last
last_header_at last ((now, cancelled) ∷ rest) = last_header_at last rest
last_header_at last ((now, headers_closed) ∷ rest) = last_header_at last rest
last_header_at last ((now, tick) ∷ rest) = last_header_at last rest
last_header_at last ((now, errs e) ∷ rest) = last_header_at last rest
last_header_at last ((now, arrived none) ∷ rest) = last_header_at last rest
last_header_at last ((now, arrived (some h)) ∷ rest) = last_header_at now rest

unfoldable pub push_all : {W : Type 0} → (Header → W → W) → List Header → W → W
push_all push [] w = w
push_all push (h ∷ rest) w = push_all push rest (push h w)

-- Why the stream ends before `rest`, `silent_since` being the time of the last header before it.
unfoldable pub EndsBefore : {E : Type 0} → ℕ → List (ℕ × Event E) → Option (End E) → Type 0
EndsBefore silent_since rest none = rest ≡ []
EndsBefore {E} silent_since rest (some context_done) =
    (now : ℕ) × (more : List (ℕ × Event E)) × (rest ≡ (now, cancelled) ∷ more)
EndsBefore {E} silent_since rest (some subscription_closed) =
    (now : ℕ) × (more : List (ℕ × Event E)) × (rest ≡ (now, errs none) ∷ more)
EndsBefore {E} silent_since rest (some header_channel_close) =
    (now : ℕ) × (more : List (ℕ × Event E)) × (rest ≡ (now, headers_closed) ∷ more)
EndsBefore {E} silent_since rest (some (failed e)) =
    (now : ℕ) × (more : List (ℕ × Event E)) × (rest ≡ (now, errs (some e)) ∷ more)
EndsBefore {E} silent_since rest (some (header_timed_out last)) =
    (now : ℕ) × (more : List (ℕ × Event E)) × (rest ≡ (now, tick) ∷ more)
    × (last ≡ silent_since)
    × (header_timeout ≤ now - last)

module _ {E W : Type 0} (push : Header → W → W) where
  -- The stream took the events `read`, passed on their headers, and ended there.
  pub record Consumed (events : List (ℕ × Event E)) (last : ℕ) (w : W) (end : W × Option (End E))
      : Type 0 where
    pub read : List (ℕ × Event E)
    pub rest : List (ℕ × Event E)
    pub split : read ++ rest ≡ events
    pub passed_on : end.0 ≡ push_all push (headers read) w
    pub reason : EndsBefore (last_header_at last read) rest end.1

  skip :
      (e : ℕ × Event E) (events : List (ℕ × Event E)) (last last' : ℕ) (w w' : W)
      (end : W × Option (End E))
      → ((read : List (ℕ × Event E))
          → push_all push (headers (e ∷ read)) w ≡ push_all push (headers read) w')
      → ((read : List (ℕ × Event E)) → last_header_at last (e ∷ read) ≡ last_header_at last' read)
      → Consumed events last' w' end
      → Consumed (e ∷ events) last w end
  skip e events last last' w w' end same_headers same_last c = record {
    read = e ∷ c.read;
    rest = c.rest;
    split = ap (λ es. e ∷ es) c.split;
    passed_on = c.passed_on ∙ sym (same_headers c.read);
    reason = subst (λ t. EndsBefore t c.rest end.1) (sym (same_last c.read)) c.reason;
  }

  -- `consumeHeaderStream` passes on the headers that arrive before its end, each once and in order, and
  -- ends only at the event that its answer names: by the timeout only at a tick that comes 30 s or more
  -- after the last header, or after the start where there was none.
  pub consume-Consumed :
      (events : List (ℕ × Event E)) (last : ℕ) (w : W)
      → Consumed events last w (consume push events last w)
  unfolding consume headers last_header_at push_all EndsBefore
  consume-Consumed [] last w = record {
    read = [];
    rest = [];
    split = refl;
    passed_on = refl;
    reason = refl;
  }
  consume-Consumed ((now, cancelled) ∷ es) last w = record {
    read = [];
    rest = _;
    split = refl;
    passed_on = refl;
    reason = (now, es, refl);
  }
  consume-Consumed ((now, headers_closed) ∷ es) last w = record {
    read = [];
    rest = _;
    split = refl;
    passed_on = refl;
    reason = (now, es, refl);
  }
  consume-Consumed ((now, errs none) ∷ es) last w = record {
    read = [];
    rest = _;
    split = refl;
    passed_on = refl;
    reason = (now, es, refl);
  }
  consume-Consumed ((now, errs (some e)) ∷ es) last w = record {
    read = [];
    rest = _;
    split = refl;
    passed_on = refl;
    reason = (now, es, refl);
  }
  consume-Consumed ((now, arrived none) ∷ es) last w =
      skip (now, arrived none) es last last w w _ (λ r. refl) (λ r. refl)
        (consume-Consumed es last w)
  consume-Consumed ((now, arrived (some h)) ∷ es) last w =
      skip (now, arrived (some h)) es last now w (push h w) _ (λ r. refl) (λ r. refl)
        (consume-Consumed es now (push h w))
  consume-Consumed ((now, tick) ∷ es) last w = elim (Bool-cases (leb header_timeout (now - last))) [
    | inr in_time ↦
        rw in_time
          (skip (now, tick) es last last w w _ (λ r. refl) (λ r. refl) (consume-Consumed es last w))
    | inl late ↦ rw late (record {
      read = [];
      rest = (now, tick) ∷ es;
      split = refl;
      passed_on = refl;
      reason = (now, es, refl, refl, ground (arith, late));
    })
  ]

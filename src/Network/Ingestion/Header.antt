-- ===== src/Network/Ingestion/Header.antt =====
-- internal/network/ingestion/header.go: the stream of headers, as the events that the cases of its
-- `select` take, each with the time at which it is taken.
use eth_mon_svr.Base.{ℕ, ◌-◌, List, [], ◌∷◌, Option, none, some, leb, if◌then◌else◌}
use eth_mon_svr.Ethereum.{Header}

-- 30 s in nanoseconds.
abbrev pub header_timeout : ℕ
header_timeout = 30000000000

-- The context is done; an error arrives (`none` where the channel is closed or the error nil); the
-- header channel is closed; a header arrives; the watchdog ticks.
pub data Event (E : Type 0) : Type 0 where
  cancelled headers_closed tick : Event E
  errs : Option E → Event E
  arrived : Option Header → Event E

-- How the stream ends.
pub data End (E : Type 0) : Type 0 where
  context_done subscription_closed header_channel_close : End E
  failed : E → End E
  header_timed_out : ℕ → End E

module _ {E W : Type 0} (push : Header → W → W) where
  -- The loop of `consumeHeaderStream` from the time of the last header on; `none` is a stream that
  -- goes on after these events.
  unfoldable pub consume : List (ℕ × Event E) → ℕ → W → W × Option (End E)
  consume [] last w = (w, none)
  consume ((now, cancelled) ∷ rest) last w = (w, some context_done)
  consume ((now, headers_closed) ∷ rest) last w = (w, some header_channel_close)
  consume ((now, errs none) ∷ rest) last w = (w, some subscription_closed)
  consume ((now, errs (some e)) ∷ rest) last w = (w, some (failed e))
  consume ((now, arrived none) ∷ rest) last w = consume rest last w
  consume ((now, arrived (some h)) ∷ rest) last w = consume rest now (push h w)
  consume ((now, tick) ∷ rest) last w =
      let later = consume rest last w in
      if leb header_timeout (now - last) then (w, some (header_timed_out last)) else later

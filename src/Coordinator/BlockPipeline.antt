-- ===== src/Coordinator/BlockPipeline.antt =====
-- internal/coordinator/blockPipeline.go. The `BlockProcessor` that the pipeline calls is a parameter:
-- each call takes the state `W` of the world and returns the next one beside its result. `none` stands
-- for an error, and a header that is `none` for nil. A channel is the list of what it holds. The two
-- loops run between lock and unlock, or on fields that only they touch, so a handler is one step.
-- Logging is left out.
pub mod Ahead
pub mod Progress
pub mod Halts
pub mod Gap
pub mod Tests
use eth_mon_svr.Base.{
  ℕ, zero, suc, ◌+◌, ◌-◌, Bool, true, false, List, [], ◌∷◌, ◌++◌, Option, none, some, ◌==◌, ltb,
  leb, max, if◌then◌else◌, add64, length, ◌%◌, u64_mod,
}
use eth_mon_svr.Base.Map
use eth_mon_svr.Base.Map.{Map}
use eth_mon_svr.Ethereum.{Header}

abbrev pub head_buffer_size : ℕ
head_buffer_size = 100

abbrev pub failed_block_buffer_size : ℕ
failed_block_buffer_size = 10

abbrev pub retry_count : ℕ
retry_count = 3

-- `process_block` and `cleanup_failed_block` answer whether there was no error; `wait_retry` is the
-- `select` on the retry timer, and answers whether the context was cancelled first.
pub record BlockProcessor (W : Type 0) : Type 0 where
  pub process_block : Header → W → W × Bool
  pub wait_retry : W → W × Bool
  pub header_by_number : ℕ → W → W × Option (Option Header)
  pub cleanup_failed_block : Header → W → W × Bool
  pub resync : W → W × Option (Option Header)
  pub compare_fee_history : W → W

-- `wakeup_chan` holds at most one signal.
pub record BlockPipeline : Type 0 where
  pub header_chan : List (Option Header)
  pub failed_block_chan : List Header
  pub wakeup_chan : Bool
  pub max_block_lag : ℕ
  pub next_block_num : ℕ
  pub pending_block : Map Header

pub data Run {ℓ} (A : Type ℓ) : Type ℓ where
  done : A → Run A
  panic : Run A
  out_of_fuel : Run A

-- The three results of `checkStale`, and the nil dereference of `latest`.
pub data Stale : Type 0 where
  fails same nil_latest : Stale
  reorged : Header → Stale

-- `newBlockPipeline`
unfoldable pub new_block_pipeline : ℕ → BlockPipeline
new_block_pipeline max_block_count = record {
  header_chan = [];
  failed_block_chan = [];
  wakeup_chan = false;
  max_block_lag = max_block_count;
  next_block_num = 0;
  pending_block = [];
}

-- `push`: a header that finds the channel full is dropped.
unfoldable pub push : Option Header → BlockPipeline → BlockPipeline
push header b =
    if ltb (length b.header_chan) head_buffer_size
    then record b { header_chan = b.header_chan ++ header ∷ [] }
    else b

unfoldable pub wakeup : BlockPipeline → BlockPipeline
wakeup b = record b { wakeup_chan = true }

unfoldable pub failed_block : Header → BlockPipeline → BlockPipeline
failed_block header b =
    if ltb (length b.failed_block_chan) failed_block_buffer_size
    then record b { failed_block_chan = b.failed_block_chan ++ header ∷ [] }
    else b

-- The largest key of the pending blocks, 0 if there is none.
unfoldable pub highest_pending : Map Header → ℕ
highest_pending [] = 0
highest_pending ((num, header) ∷ rest) = max num (highest_pending rest)

unfoldable pub store_header : ℕ → Header → BlockPipeline → BlockPipeline
store_header num header b = record b { pending_block = Map.put num header b.pending_block }

-- `delete(b.pendingBlock, blockNum); b.nextBlockNum++`
unfoldable pub advance : ℕ → BlockPipeline → BlockPipeline
advance num b = record b {
  pending_block = Map.delete num b.pending_block;
  next_block_num = add64 b.next_block_num 1;
}

-- `latest.Hash()` is called on what `HeaderByNumber` returned, nil or not: the second test of
-- `header` for nil is one that cannot fail.
unfoldable pub compare_latest : Header → Option (Option Header) → Stale
compare_latest header none = fails
compare_latest header (some none) = nil_latest
compare_latest header (some (some latest)) =
    if latest.hash == header.hash then same else reorged latest

-- `resync`: on an error, or a nil header or number, nothing changes.
unfoldable pub restart_after : Option (Option Header) → BlockPipeline → BlockPipeline
restart_after none b = b
restart_after (some none) b = b
restart_after (some (some latest)) b = elim latest.number [
  | none ↦ b
  | some num ↦ record b { pending_block = []; next_block_num = add64 num 1 }
]

-- A header that was fetched to fill a gap: it is kept if it is there and has a number.
unfoldable pub fetched : ℕ → Option (Option Header) → BlockPipeline → BlockPipeline × Bool
fetched num none b = (b, false)
fetched num (some none) b = (b, false)
fetched num (some (some header)) b = elim header.number [
  | none ↦ (b, false)
  | some _ ↦ (store_header num header b, true)
]

module _ {W : Type 0} (proc : BlockProcessor W) where
  -- The attempts of `procWithRetry`, with so many more to come after this one.
  unfoldable pub attempt : ℕ → Header → W → W × Bool
  attempt zero header w = proc.process_block header w
  attempt (suc more) header w =
      let (w', ok) = proc.process_block header w in
      let (w'', cancelled) = proc.wait_retry w' in
      let again = attempt more header w'' in
      if ok then (w', true) else (if cancelled then (w'', false) else again)

  unfoldable pub proc_with_retry : Header → W → W × Bool
  proc_with_retry header w = attempt (retry_count - 1) header w

  unfoldable pub check_stale : Header → W → W × Stale
  check_stale header w = elim header.number [
    | none ↦ (w, fails)
    | some num ↦
        let (w', latest) = proc.header_by_number (num % u64_mod) w in
        (w', compare_latest header latest)
  ]

  unfoldable pub resync : BlockPipeline → W → BlockPipeline × W
  resync b w = let (w', latest) = proc.resync w in (restart_after latest b, w')

  -- One round of the loop of `checkBlockGap`, and whether the loop goes on.
  unfoldable pub fill_one : ℕ → BlockPipeline → W → BlockPipeline × W × Bool
  fill_one num b w = elim (Map.get num b.pending_block) [
    | some _ ↦ (b, w, true)
    | none ↦
        let (w', header) = proc.header_by_number num w in
        let (b', ok) = fetched num header b in (b', w', ok)
  ]

  -- The loop from block `num` on, for so many blocks; whether it ran to its end.
  unfoldable pub fill : ℕ → ℕ → BlockPipeline → W → BlockPipeline × W × Bool
  fill zero num b w = (b, w, true)
  fill (suc rounds) num b w =
      let (b', w', ok) = fill_one num b w in
      let rest = fill rounds (num + 1) b' w' in if ok then rest else (b', w', false)

  unfoldable pub backfill : ℕ → BlockPipeline → W → BlockPipeline × W
  backfill highest b w =
      let (b', w', complete) = fill (highest - b.next_block_num) b.next_block_num b w in
      ((if complete then wakeup b' else b'), w')

  unfoldable pub check_block_gap : BlockPipeline → W → BlockPipeline × W
  check_block_gap b w =
      let highest = highest_pending b.pending_block in
      if leb highest b.next_block_num
      then (b, w)
      else (if leb b.max_block_lag (highest - b.next_block_num)
          then resync b w
          else backfill highest b w)

  -- The block is skipped. The number of the header is read for the log.
  unfoldable pub give_up : ℕ → Header → BlockPipeline → W → Run (BlockPipeline × W)
  give_up num header b w = elim header.number [
    | none ↦ panic
    | some _ ↦ done (advance num (failed_block header b), w)
  ]

  -- What `procAvailable` does after the attempts on `header`, of block `num`: the pipeline and the
  -- world, or a panic.
  unfoldable pub settle : ℕ → Header → Bool → BlockPipeline → W → Run (BlockPipeline × W)
  settle num header true b w = done (advance num b, w)
  settle num header false b w =
      let (w', stale) = check_stale header w in
      elim stale [
        | reorged latest ↦ done (store_header num latest b, w')
        | nil_latest ↦ panic
        | fails ↦ give_up num header b w'
        | same ↦ give_up num header b w'
      ]

  -- `procAvailable`, for so many rounds at most.
  unfoldable pub proc_available : ℕ → BlockPipeline → W → Run (BlockPipeline × W)
  proc_available zero b w = out_of_fuel
  proc_available (suc fuel) b w = elim (Map.get b.next_block_num b.pending_block) [
    | none ↦ done (check_block_gap b w)
    | some header ↦
        let (w', ok) = proc_with_retry header w in
        elim (settle b.next_block_num header ok b w') [
          | done (b', w'') ↦ proc_available fuel b' w''
          | panic ↦ panic
          | out_of_fuel ↦ out_of_fuel
        ]
  ]

  -- `handleHeader` for a header with a number.
  unfoldable pub handle_number : ℕ → ℕ → Header → BlockPipeline → W → Run (BlockPipeline × W)
  handle_number fuel num header b w =
      if ltb num b.next_block_num then done (b, w) else (elim (Map.get num b.pending_block) [
        | some _ ↦ done (b, w)
        | none ↦ proc_available fuel (store_header num header b) w
      ])

  unfoldable pub handle_header : ℕ → Option Header → BlockPipeline → W → Run (BlockPipeline × W)
  handle_header fuel none b w = done (b, w)
  handle_header fuel (some header) b w = elim header.number [
    | none ↦ done (b, w)
    | some num ↦ handle_number fuel (num % u64_mod) header b w
  ]

  -- `handleFailedBlock`: `none` is a panic.
  unfoldable pub handle_failed_block : Option Header → W → Option W
  handle_failed_block none w = some w
  handle_failed_block (some header) w = elim header.number [
    | none ↦ some w
    | some _ ↦
        let (w', stale) = check_stale header w in
        elim stale [
          | fails ↦ some w'
          | nil_latest ↦ none
          | same ↦ some (proc.cleanup_failed_block header w').0
          | reorged latest ↦ elim latest.number [
            | none ↦ none
            | some _ ↦ some (proc.cleanup_failed_block latest w').0
          ]
        ]
  ]

  -- One round of `blockProcLoop`: the signal, or the oldest header, that its `select` takes. Where
  -- there is none the loop waits.
  unfoldable pub proc_wakeup : ℕ → BlockPipeline → W → Run (BlockPipeline × W)
  proc_wakeup fuel b w =
      if b.wakeup_chan
      then proc_available fuel (record b { wakeup_chan = false }) w
      else done (b, w)

  unfoldable pub proc_header : ℕ → BlockPipeline → W → Run (BlockPipeline × W)
  proc_header fuel b w = elim b.header_chan [
    | [] ↦ done (b, w)
    | header ∷ rest ↦
        handle_header fuel header (record b { header_chan = rest }) (proc.compare_fee_history w)
  ]

-- ===== src/Coordinator/BlockPipeline/Tests.antt =====
-- Runs of the block pipeline against a node whose block `n` has the hash 1000 + n, in a world that
-- counts the calls.
use eth_mon_svr.Base.{
  ℕ, ◌%◌, u64_mod, ◌+◌, ◌<◌, ◌≤◌, ◌≡◌, ◌≢◌, refl, Bool, true, false, [], ◌∷◌, some, none, ◌==◌,
  if◌then◌else◌, arith, subst, sym,
}
use eth_mon_svr.Base.Map
use eth_mon_svr.Ethereum.{Header}
use eth_mon_svr.Coordinator.BlockPipeline.{
  BlockProcessor, BlockPipeline, done, store_header, highest_pending, handle_header,
  check_block_gap, handle_number, proc_available, proc_with_retry, attempt, settle, check_stale,
  compare_latest, advance, backfill, fill, fill_one, fetched, wakeup,
}
use eth_mon_svr.Coordinator.BlockPipeline.Ahead.{IsAhead, store_header-IsAhead}
use eth_mon_svr.Coordinator.BlockPipeline.Progress.{IsSettling}
use eth_mon_svr.Coordinator.BlockPipeline.Halts.{handle_header-halts}
use eth_mon_svr.Coordinator.BlockPipeline.Gap.{Answers, check_block_gap-fills}

abbrev header_at : ℕ → ℕ → Header
header_at num hash = record {
  number = some num;
  time = 0;
  base_fee = none;
  gas_used = 0;
  gas_limit = 0;
  hash = hash;
}

abbrev is_current : Header → Bool
is_current h = elim h.number [ none ↦ false | some num ↦ h.hash == 1000 + num % u64_mod ]

abbrev node : BlockProcessor ℕ
node = record {
  process_block = λ h w. (w + 1, is_current h);
  wait_retry = λ w. (w, false);
  header_by_number = λ num w. (w + 1, some (some (header_at num (1000 + num))));
  cleanup_failed_block = λ h w. (w + 1, true);
  resync = λ w. (w + 1, some (some (header_at 50 1050)));
  compare_fee_history = λ w. w + 1;
}

abbrev changes : Header → ℕ → ℕ
changes h w = if is_current h then 0 else 1

reorged_once :
    (h : Header) (num : ℕ)
    → h.number ≡ some num
    → ((1000 + num % u64_mod) == h.hash) ≡ false
    → is_current h ≡ false
reorged_once h num at differs = rw at (ground arith)

node-IsSettling : IsSettling node changes 1
node-IsSettling = record {
  limit = λ h w. ground arith;
  process = λ h w. omega arith;
  wait = λ h w. omega arith;
  not_nil = λ num w e. absurd (cc);
  numbered = λ num w h e. (num, cc);
  reorg = λ h latest num w at e differs.
      let is_latest : header_at (num % u64_mod) (1000 + num % u64_mod) ≡ latest = cc in
      let once =
        reorged_once h num at (subst (λ l. (l.hash == h.hash) ≡ false) (sym is_latest) differs) in
      subst (λ l. changes l (w + 1) < changes h w) is_latest (rw once (ground arith));
}

-- Block 5 is next; a replaced block 5 and block 8 wait.
abbrev start : BlockPipeline
start = record {
  header_chan = [];
  failed_block_chan = [];
  wakeup_chan = false;
  max_block_lag = 10;
  next_block_num = 5;
  pending_block = (5, header_at 5 77) ∷ (8, header_at 8 1008) ∷ [];
}

abbrev empty_five : BlockPipeline
empty_five = record start { pending_block = [] }

empty-IsAhead : IsAhead empty_five
empty-IsAhead = record {
  next_bounded = omega arith;
  ahead = λ k h e. absurd (unfold Map.get in cc);
  bounded = λ k h e. absurd (unfold Map.get in cc);
  numbered = λ k h e. absurd (unfold Map.get in cc);
}

start-IsAhead : IsAhead start
unfolding store_header Map.put
start-IsAhead =
    store_header-IsAhead 8 (header_at 8 1008) (store_header 5 (header_at 5 77) empty_five)
      (omega arith) (omega arith) (8, refl)
      (store_header-IsAhead 5 (header_at 5 77) empty_five (omega arith) (omega arith) (5, refl)
        empty-IsAhead)

run_next :
    handle_header node 7 (some (header_at 6 1006)) start 0
    ≡ done (
      record start {
        next_block_num = 7;
        pending_block = (8, header_at 8 1008) ∷ (7, header_at 7 1007) ∷ [];
        wakeup_chan = true;
      },
      7,
    )
unfolding handle_header handle_number store_header proc_available proc_with_retry attempt settle
    check_stale compare_latest advance check_block_gap highest_pending backfill fill fill_one
    fetched wakeup Map.get Map.put Map.delete
run_next = refl

handle_header-halts_example :
    (b' : BlockPipeline) × (w' : ℕ) × (handle_header node 7 (some (header_at 6 1006)) start 0
      ≡ done (b', w'))
    × IsAhead b'
handle_header-halts_example =
    handle_header-halts node changes 1 node-IsSettling 7 (some (header_at 6 1006)) start 0
      (λ h num e at. ground arith) (omega arith) start-IsAhead

node-Answers : Answers node 5 8
node-Answers = record { answer = λ num w le lt. (header_at num (1000 + num), num, refl, refl) }

start-highest : highest_pending start.pending_block ≡ 8
unfolding highest_pending
start-highest = refl

check_block_gap-fills_example :
    let b' = (check_block_gap node start 0).0 in
    (b'.wakeup_chan ≡ true)
    × (b'.next_block_num ≡ 5)
    × ((k : ℕ)
        → 5 ≤ k
        → k < highest_pending start.pending_block
        → Map.get k b'.pending_block ≢ none)
    × ((k : ℕ) → Map.get k start.pending_block ≢ none → Map.get k b'.pending_block ≢ none)
check_block_gap-fills_example =
    check_block_gap-fills node start 0 (omega (arith, start-highest)) (omega (arith, start-highest))
      (rw start-highest node-Answers)

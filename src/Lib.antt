-- ===== src/Lib.antt =====
-- eth-mon-svr watches the pending transactions and the new blocks of an Ethereum chain and predicts gas
-- prices. Subscriptions (internal/network/ingestion) push block headers and transaction hashes to the
-- coordinator (internal/coordinator). Its pending pipeline collects hashes into batches, whose
-- transactions the processor (internal/processor) fetches through the RPC manager
-- (internal/network/rpcManager) and puts into the pending pool (internal/mempool). Its block pipeline
-- orders the headers and has the processor take the transactions of each block out of the pool and put
-- the block into the block store (internal/blockstore). The gas analyzer (internal/gasanalyzer) reads
-- both and sends its predictions over gRPC.
--
-- The files:
--   Base              the shared names: words with wrap-around, lists, maps, texts, Boolean tests
--   Ethereum          what the code reads of go-ethereum's headers, receipts and transactions
--   BlockStore        internal/blockstore: the store of processed blocks; Laws, Tests
--   Mempool           internal/mempool. Types is the state: accounts, hash index and expiry buckets hold
--                     references into a heap, since the code shares `*PendingTx` between them and writes
--                     `ExpireIndex` through any. Push is PushBatch, Remove RemoveByReceipts, Expire
--                     RemoveExpired, Snapshot Snapshot. Index has the agreement of the three indexes and
--                     how each operation keeps it, Stats and Totals the counts of RemoveByReceipts,
--                     Receipts what it removes, History runs of calls; Tests
--   GasAnalyzer       internal/gasanalyzer. Fee is fee.go: Tips, NextBaseFee, Tests. Float is the record of
--                     float64 operations that the rest is over, Targets type.go, Percentiles util.go:
--                     Reference, Ascending, Search, Tests. Pools is what analyzer.go makes of a pool of
--                     tips: P95 (the 95th percentile without its loop), Outliers, Panics, Tests. Analyzer is
--                     its state and methods: Renewed and Cycle a round of the analysis, Complete and Priced
--                     the invariant over all orders of the methods; Tests. Send is the round with its pool and client. Histogram is
--                     histogram.go: Classified, Buckets, Prices, Tests. Hundredths stands for float64 in
--                     the runs
--   Coordinator       internal/coordinator. BlockPipeline is blockPipeline.go: Ahead has its invariant,
--                     Progress and Halts the rounds of procAvailable, Gap the fetched blocks; Tests.
--                     PendingPipeline is pendingPipeline.go: Batches, Tests
--   Network           internal/network. RpcManager is rpcManager: Failover, Calls, Tests. Ingestion is
--                     Subscriber.go of ingestion, Header and Pending its header.go and pending.go:
--                     Alternate, Watchdog, Tests. GrpcClient is grpcClient: Queue, Upload, Backoff, Tests.
--                     Auth is auth: Expiration, Tokens, Tests
--   Processor         internal/processor. Fetch has the requests for headers and receipts: Complete, Tests.
--                     Blocks is processor_block.go on the state of a process, Process the operations of
--                     processor.go and processor_initialize.go: Unchanged has their errors, Applied and
--                     Removed ProcessBlock, Analysis and Restart Resync; Tests, PoolTests. Pipeline is the processor
--                     that the block pipeline calls: Once has its retries; Tests. FeeBuckets and Sums are
--                     aggregateFeeBucket, Chunks GetTxInfo; Tests
--
-- A Go function `fooBar` is `foo_bar` here. A method takes its receiver and returns the next one; a panic
-- is `none` or `panic`, as the file says. A map is an association list (Base/Map), a channel the list of
-- what it holds, a mutex makes its section one step, and a hash or an address is the number of its bytes.
-- Code that is not in the repository, the clock, and components reached through an interface are
-- parameters that change a world `W`.
--
-- Only `procAvailable` runs on fuel: it loops as long as the node keeps replacing a header, so the fuel
-- that is enough depends on how often the node does so in a row, which the theorem takes as `bound`. The
-- slices of `GetTxInfo` and `fetchReceiptsBatch` are taken in as many rounds as there are hashes, and the
-- binary search of calculateOuterBound in one round more than there are tips, which is enough. Other loops
-- are recursion on what they range over, or on the number of rounds that their own bound leaves.
--
-- The float64 arithmetic is a parameter: a record of operations with no laws, or, where the order of the
-- percentiles needs them, the two laws of Float.IsMonotone. The sort of a pool by tip is a parameter too,
-- since what it does with equal tips is open; where the theorems need it, it keeps the length.
--
-- Not modelled: logging and the report counters, goroutine start and stop, configuration, dialing and
-- TLS, the gas oracle, which the program does not use, CompareFeeHistory, which prints, the map that the
-- predictions returned by the analyzer share with it, and the interceptors.
pub mod Base
pub mod BlockStore
pub mod Coordinator
pub mod Ethereum
pub mod GasAnalyzer
pub mod Mempool
pub mod Network
pub mod Processor

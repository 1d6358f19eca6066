-- ===== src/Processor.antt =====
-- internal/processor: the blocks (processor.go, processor_block.go, processor_initialize.go), the
-- statistics of the fee buckets (processor_block.go) and the requests in chunks (processor.go).
pub mod Chunks
pub mod Blocks
pub mod Fetch
pub mod Process
pub mod Pipeline
pub mod FeeBuckets
pub mod Sums
pub mod Tests

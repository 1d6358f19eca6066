-- ===== src/Coordinator.antt =====
-- internal/coordinator: the pipeline of new blocks (blockPipeline.go) and the one of pending
-- transactions (pendingPipeline.go).
pub mod BlockPipeline
pub mod PendingPipeline

-- ===== src/Mempool.antt =====
-- internal/mempool: the pool of pending transactions and its three indexes.
pub mod Types
pub mod Push
pub mod Remove
pub mod Expire
pub mod Snapshot
pub mod Index
pub mod Stats
pub mod Totals
pub mod Receipts
pub mod History
mod Tests

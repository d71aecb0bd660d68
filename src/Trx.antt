-- ===== src/Trx.antt =====
-- src/observer/storage/trx: transactions over several versions of a row.
pub mod Heap
pub mod Log
pub mod Mvcc
pub mod Replay
mod Tests

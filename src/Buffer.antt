-- ===== src/Buffer.antt =====
-- src/observer/storage/buffer, and deps/common/lang/lru_cache.h: the buffer pool. `File` is the header page of a
-- file of pages with its log, `Lru` the cache of the frames in memory, `Frames` their manager.
pub mod File
pub mod Lru
pub mod Frames
mod Tests

-- ===== src/Clog.antt =====
-- src/observer/storage/clog: the commit log, from its entries to its files.
pub mod Entry
pub mod File
pub mod Buffer
pub mod Manager
pub mod Handler
pub mod Dispatch
mod Tests

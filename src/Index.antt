-- ===== src/Index.antt =====
-- src/observer/storage/index: the nodes of the B+ tree, and the search in them.
pub mod LowerBound
pub mod Node
pub mod Log
pub mod Redo
pub mod Logger
pub mod Children
pub mod Internal
pub mod Keys
mod Tests

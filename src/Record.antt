-- ===== src/Record.antt =====
-- src/observer/storage/record: the rows in the pages of a table, and their log.
mod Tests
pub mod Bitmap
pub mod Page
pub mod Log

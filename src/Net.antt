-- ===== src/Net.antt =====
-- src/observer/net: the buffer between the server and a client's connection, and its writer.
pub mod RingBuffer
pub mod BufferedWriter
mod Tests

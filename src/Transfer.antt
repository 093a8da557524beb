-- ===== src/Transfer.antt =====
-- rcopy.c and server.c together: a file sent by the one and received by the other.
pub mod Streams
pub mod Link
pub mod Copied
pub mod Arrives
pub mod Example
mod Tests
mod ArrivesTests

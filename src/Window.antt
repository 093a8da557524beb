-- ===== src/Window.antt =====
-- The sender's window (windowing.c): the static variables `lower` and `sequenceNum`, and the buffer of
-- the packets that may have to be sent again.
pub mod Defs
pub mod Modular
pub mod Holds
pub mod Marks
pub mod Acks
pub mod Example
mod Tests
